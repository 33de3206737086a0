-- ===== src/Memory/Ports.antt =====
-- The write handlers of libgbc/io_regs.cpp keep the machine's invariant.
use gamebro.Base.{◌≤◌, ℕ, ◌+◌, ◌*◌, ◌<◌, arith, bit_and, bit_or, Bool, true, false}
use gamebro.Base.{Outcome, ok, fault, Returns, and_mask, and-le, or-lt}
use gamebro.State.{Machine, reg, set_reg}
use gamebro.State.Monad.{M, Unit₀, ◌>>=◌, ◌>>◌}
use gamebro.State.Ports.{reg_stat, reg_ly}
use gamebro.Mbc.Invariant
use gamebro.Gpu.{set_mode, setpal, set_video_bank, lcd_power_changed}
use gamebro.Io.{reset_divider, start_dma}
use gamebro.Io.Write.{
  iowrite_joyp, iowrite_lcdc, iowrite_stat, iowrite_audio, iowrite_key1, iowrite_vbk, iowrite_boot,
  iowrite_svbk, set_wram_bank, iowrite_palette, auto_increment,
}
use gamebro.Memory.Invariant.{IsValid}

abbrev pub Keeps : Unit₀ × Machine → Type 0
Keeps out = IsValid out.1

-- A call that returns a value with `P` in a valid machine, and one that goes on from there.
pub Keeps-bind :
    {A B : Type 0} (P : A → Type 0) (Q : B × Machine → Type 0) (p : M A) (f : A → M B) (m : Machine)
    → Returns (λ out. P out.0 × IsValid out.1) (p m)
    → ((a : A) (m' : Machine) → P a → IsValid m' → Returns Q (f a m'))
    → Returns Q ((p >>= f) m)
Keeps-bind {A} P Q p f m h k = go (p m) h
  where
    go :
        (o : Outcome (A × Machine))
        → Returns (λ out. P out.0 × IsValid out.1) o
        → Returns Q (elim o [ ok (a, m') ↦ f a m' | fault e ↦ fault e ])
    go (ok (a, m')) h = k a m' h.0 h.1
    go (fault e) h = h

-- The same after a call that returns nothing.
pub Keeps-then :
    {B : Type 0} (Q : B × Machine → Type 0) (p : M Unit₀) (k : M B) (m : Machine)
    → Returns Keeps (p m)
    → ((m' : Machine) → IsValid m' → Returns Q (k m'))
    → Returns Q ((p >> k) m)
Keeps-then Q p k m h next = go (p m) h
  where
    go :
        (o : Outcome (Unit₀ × Machine))
        → Returns Keeps o
        → Returns Q (elim o [ ok (a, m') ↦ k m' | fault e ↦ fault e ])
    go (ok (a, m')) h = next m' h
    go (fault e) h = h

-- Writing a byte to a register.
pub set_reg-IsValid :
    (m : Machine)
    → IsValid m
    → (addr x : ℕ) → x < 256
    → IsValid (record m { io = set_reg addr x m.io })
unfolding set_reg
set_reg-IsValid m v addr x h = ground arith

pub set_mode-IsValid :
    (m : Machine) → IsValid m → (mode : ℕ) → IsValid (record m { io = set_mode mode m.io })
unfolding set_mode
set_mode-IsValid m v mode =
    let stat : ℕ = reg reg_stat m.io in
    set_reg-IsValid m v reg_stat (bit_or (bit_and stat 0xfc) (bit_and mode 3)) (
      or-lt 8 (bit_and stat 0xfc) (bit_and mode 3) (omega (arith, and-le stat 0xfc))
        (omega (arith, and-le mode 3)))

power-IsValid :
    (m : Machine)
    → IsValid m
    → (online : Bool) (speed : ℕ)
    → let (gpu, io) = lcd_power_changed online speed m.gpu m.io in
      IsValid (record m { gpu = gpu; io = io })
unfolding lcd_power_changed
power-IsValid m v true speed = ground (arith, set_reg-IsValid m v reg_ly 153)
power-IsValid m v false speed =
    let dark : Machine = record m { io = set_reg reg_ly 0 m.io } in
    let dark_valid : IsValid dark = set_reg-IsValid m v reg_ly 0 (omega arith) in
    ground (arith, set_mode-IsValid dark dark_valid 1)

module _ (m : Machine) (v : IsValid m) (x : ℕ) (hx : x < 256) where
  -- Two masked bytes make a byte.
  joined-lt : (a p q : ℕ) → p < 256 → q < 256 → bit_or (bit_and a p) (bit_and x q) < 256
  joined-lt a p q hp hq =
      or-lt 8 (bit_and a p) (bit_and x q) (omega (arith, and-le a p)) (omega (arith, and-le x q))

  pub iowrite_joyp-IsValid : IsValid (record m { io = iowrite_joyp x m.io })
  unfolding iowrite_joyp
  iowrite_joyp-IsValid = ground arith

  pub iowrite_stat-IsValid : (addr : ℕ) → IsValid (record m { io = iowrite_stat addr x m.io })
  unfolding iowrite_stat set_reg
  iowrite_stat-IsValid addr = ground (arith, joined-lt (reg addr m.io) 0x87 0x78)

  pub iowrite_audio-IsValid : (addr : ℕ) → IsValid (record m { io = iowrite_audio addr x m.io })
  unfolding iowrite_audio set_reg
  iowrite_audio-IsValid addr = ground (arith, joined-lt (reg addr m.io) 0xf 0x80)

  pub iowrite_key1-IsValid : (addr : ℕ) → IsValid (record m { io = iowrite_key1 addr x m.io })
  unfolding iowrite_key1 set_reg
  iowrite_key1-IsValid addr = ground (arith, joined-lt (reg addr m.io) 0x80 1)

  pub iowrite_lcdc-Keeps : (addr : ℕ) → Returns Keeps (iowrite_lcdc addr x m)
  unfolding iowrite_lcdc
  iowrite_lcdc-Keeps addr =
      let written : Machine = record m { io = set_reg addr x m.io } in
      let speed : ℕ = m.memory.speed_factor in
      ground (
        arith,
        set_reg-IsValid m v addr x hx,
        power-IsValid written (set_reg-IsValid m v addr x hx) true speed,
        power-IsValid written (set_reg-IsValid m v addr x hx) false speed,
      )

  pub iowrite_vbk-Keeps : (addr : ℕ) → Returns Keeps (iowrite_vbk addr x m)
  unfolding iowrite_vbk set_video_bank set_reg
  iowrite_vbk-Keeps addr = ground (arith, and_mask 1 x)

  pub iowrite_boot-Keeps : (addr : ℕ) → Returns Keeps (iowrite_boot addr x m)
  unfolding iowrite_boot set_reg reg
  iowrite_boot-Keeps addr =
      ground (arith, v.port_bytes (bit_and addr 0x7f), or-lt 8 (m.io.ioregs (bit_and addr 0x7f)) x)

  pub iowrite_svbk-Keeps : (addr : ℕ) → Returns Keeps (iowrite_svbk addr x m)
  unfolding iowrite_svbk set_wram_bank set_reg
  iowrite_svbk-Keeps addr = ground (
    arith,
    and-le x 7,
    Invariant.set_wrambank-IsValid m.rom_size m.memory.mbc v.mbc 1,
    Invariant.set_wrambank-IsValid m.rom_size m.memory.mbc v.mbc (bit_and x 7),
  )

  auto_increment-lt : (idx : ℕ) → auto_increment idx 63 < 256
  unfolding auto_increment
  auto_increment-lt idx =
      or-lt 8 (bit_and idx 192) (bit_and (bit_and idx 63 + 1) 63) (omega (arith, and-le idx 192))
        (omega (arith, and-le (bit_and idx 63 + 1) 63))

  pub iowrite_palette-Keeps :
      (base index : ℕ) → base ≤ 64 → Returns Keeps (iowrite_palette base index x m)
  unfolding iowrite_palette setpal set_reg reg
  iowrite_palette-Keeps base index h = ground (
    arith,
    and-le (m.io.ioregs (bit_and index 0x7f)) 63,
    v.port_bytes (bit_and index 0x7f),
    auto_increment-lt (m.io.ioregs (bit_and index 0x7f)),
  )

  pub dma-IsValid : IsValid (record m { io = start_dma (x * 256) m.io })
  unfolding start_dma
  dma-IsValid = ground arith

  pub divider-IsValid : IsValid (record m { io = reset_divider m.io })
  unfolding reset_divider set_reg
  divider-IsValid = ground arith
