-- ===== src/Memory/Kept.antt =====
-- `Memory::write8` keeps the control part of the machine, whatever it starts: the handlers of
-- libgbc/io_regs.cpp one by one.
use gamebro.Base.{
  ℕ, ◌+◌, ◌*◌, ◌/◌, ◌%◌, ◌<◌, ◌≤◌, ◌≡◌, ◌≢◌, inl, inr, refl, arith, bit_and, bit_or, Bool, true,
  false, if◌then◌else◌, and_mask,
}
use gamebro.Base.{and_split, or_split, and_zero, or_zero}
use gamebro.State.Monad.{when, modify_io}
use gamebro.Base.{Bool-cases, ◌∙◌, ◌!=◌, not, ◌&&◌}
use gamebro.Gpu.Schedule.{get_mode-set_mode}
use gamebro.State.{Machine, Io, reg, set_reg}
use gamebro.Gpu.{
  get_mode, set_mode, lcd_enabled, scanline_cycles, lcd_power_changed, set_video_bank, setpal,
  oam_cycles, vram_cycles, hblank_cycles,
}
use gamebro.Io.{start_dma, start_hdma, reset_divider}
use gamebro.Io.Write.{
  iowrite_joyp, iowrite_lcdc, iowrite_stat, iowrite_vbk, iowrite_boot, iowrite_svbk, set_wram_bank,
  auto_increment, iowrite_palette,
}
use gamebro.Memory.Control.{IsSpeed, AreTransfers, Control, Ends, Ends-then, Controls}

-- A write to a register other than STAT and LCDC leaves the mode and the power switch.
pub get_mode-set_reg :
    (addr x : ℕ) (io : Io) → addr % 128 ≢ 0x41 → get_mode (set_reg addr x io) ≡ get_mode io
unfolding get_mode set_reg reg
get_mode-set_reg addr x io h = ground (arith, and_mask 7 addr)

pub lcd_enabled-set_reg :
    (addr x : ℕ) (io : Io) → addr % 128 ≢ 0x40 → lcd_enabled (set_reg addr x io) ≡ lcd_enabled io
unfolding lcd_enabled set_reg reg
lcd_enabled-set_reg addr x io h = ground (arith, and_mask 7 addr)

-- A write to STAT keeps the two mode bits.
stat_bits : (a x : ℕ) → bit_and (bit_or (bit_and a 0x87) (bit_and x 0x78)) 3 ≡ bit_and a 3
stat_bits a x =
    let q : ℕ = a / 4 in
    let p : ℕ = x / 4 in
    ground (
      arith,
      and_split 2 q (a % 4) 0x21 3,
      and_split 2 p (x % 4) 0x1e 0,
      and_mask 2 (a % 4),
      and_zero (x % 4),
      or_split 2 (bit_and q 0x21) (a % 4) (bit_and p 0x1e) 0,
      or_zero (a % 4),
      and_mask 2 a,
      and_mask 2 (bit_or (bit_and a 0x87) (bit_and x 0x78)),
    )

get_mode-iowrite_stat : (x : ℕ) (io : Io) → get_mode (iowrite_stat 0xff41 x io) ≡ get_mode io
unfolding get_mode iowrite_stat set_reg reg
get_mode-iowrite_stat x io = stat_bits (io.ioregs 0x41) x

module _ (m : Machine) (c : Control m) where
  pub set_reg-Control :
      (addr x : ℕ)
      → addr % 128 ≢ 0x40
      → addr % 128 ≢ 0x41
      → Control (record m { io = set_reg addr x m.io })
  set_reg-Control addr x h k = record {
    registers = c.registers;
    speed = c.speed;
    period_small = c.period_small;
    screen =
        ground (arith, c.screen, get_mode-set_reg addr x m.io, lcd_enabled-set_reg addr x m.io);
    transfers = unfold set_reg in ground (arith, c.transfers);
  }

  pub stat-Control : (x : ℕ) → Control (record m { io = iowrite_stat 0xff41 x m.io })
  stat-Control x = record {
    registers = c.registers;
    speed = c.speed;
    period_small = c.period_small;
    screen =
        let e : lcd_enabled (iowrite_stat 0xff41 x m.io) ≡ lcd_enabled m.io =
          unfold iowrite_stat lcd_enabled set_reg reg in refl in
        ground (arith, c.screen, get_mode-iowrite_stat x m.io, e);
    transfers = unfold iowrite_stat set_reg in ground (arith, c.transfers);
  }

  pub dma-Control : (x : ℕ) → x < 256 → Control (record m { io = start_dma (x * 256) m.io })
  unfolding start_dma get_mode lcd_enabled reg
  dma-Control x h = ground arith

  pub joyp-Control : (x : ℕ) → Control (record m { io = iowrite_joyp x m.io })
  unfolding iowrite_joyp get_mode lcd_enabled reg
  joyp-Control x = ground arith

  -- Registers that are kept besides, in fields of their own.
  cleared-Control : Control (record m { io = record m.io { divider = 0 } })
  unfolding get_mode lcd_enabled reg
  cleared-Control = ground arith

  setpal-Controls : (i x : ℕ) → Ends Controls (setpal i x m)
  unfolding setpal
  setpal-Controls i x = ground (arith, c.screen)

  pub hdma-Control :
      (src dst bytes : ℕ)
      → src < 65536
      → dst < 0xa000
      → Control (record m { io = start_hdma src dst bytes m.io })
  unfolding start_hdma get_mode lcd_enabled reg
  hdma-Control src dst bytes hs hd = ground arith

pub cycles_small : (speed : ℕ) → IsSpeed speed → scanline_cycles speed ≤ 930
unfolding scanline_cycles oam_cycles vram_cycles hblank_cycles
cycles_small speed h = ground arith

lcd_enabled-set_lcdc : (x : ℕ) (io : Io) → lcd_enabled (set_reg 0xff40 x io) ≡ (bit_and x 0x80 != 0)
unfolding lcd_enabled set_reg reg
lcd_enabled-set_lcdc x io = refl

pub set_reg-AreTransfers :
    (addr x : ℕ) (io : Io) → AreTransfers io → AreTransfers (set_reg addr x io)
unfolding set_reg
set_reg-AreTransfers addr x io t = ground (arith, t)

module _ (m : Machine) (c : Control m) where
  -- The power switch: on leads to the state before line 0, off to V-blank.
  power-Control :
      (b : Bool) (io : Io)
      → AreTransfers io
      → lcd_enabled io ≡ b
      → let (gpu', io') = lcd_power_changed b m.memory.speed_factor m.gpu io in
        Control (record m { gpu = gpu'; io = io' })
  unfolding lcd_power_changed
  power-Control true io t e = record {
    registers = c.registers;
    speed = c.speed;
    period_small = cycles_small m.memory.speed_factor c.speed;
    screen = inr (refl, omega arith, lcd_enabled-set_reg 0xff44 153 io (omega arith) ∙ e);
    transfers = set_reg-AreTransfers 0xff44 153 io t;
  }
  power-Control false io t e = record {
    registers = c.registers;
    speed = c.speed;
    period_small = omega arith;
    screen = inl (inl (get_mode-set_mode 1 (set_reg 0xff44 0 io)));
    transfers =
        unfold set_mode in
        set_reg-AreTransfers _ _ (set_reg 0xff44 0 io) (set_reg-AreTransfers 0xff44 0 io t);
  }

  -- A write to LCDC, by what the power was and is.
  switched-Control :
      (was is : Bool) (io : Io)
      → AreTransfers io
      → get_mode io ≡ get_mode m.io
      → lcd_enabled m.io ≡ was
      → lcd_enabled io ≡ is
      → let speed = m.memory.speed_factor in
        let (gpu', io') =
          if not was && is
          then lcd_power_changed true speed m.gpu io
          else if was && not is
          then lcd_power_changed false speed m.gpu io
          else (m.gpu, io) in
        Control (record m { gpu = gpu'; io = io' })
  switched-Control false true io t k e f = power-Control true io t f
  switched-Control true false io t k e f = power-Control false io t f
  switched-Control true true io t k e f = record {
    registers = c.registers;
    speed = c.speed;
    period_small = c.period_small;
    screen = ground (arith, c.screen);
    transfers = t;
  }
  switched-Control false false io t k e f = record {
    registers = c.registers;
    speed = c.speed;
    period_small = c.period_small;
    screen = ground (arith, c.screen);
    transfers = t;
  }

  pub lcdc-Controls : (x : ℕ) → Ends Controls (iowrite_lcdc 0xff40 x m)
  unfolding iowrite_lcdc lcd_enabled
  lcdc-Controls x =
      let io : Io = set_reg 0xff40 x m.io in
      switched-Control (lcd_enabled m.io) (lcd_enabled io) io
        (set_reg-AreTransfers 0xff40 x m.io c.transfers)
        (get_mode-set_reg 0xff40 x m.io (omega arith)) refl refl

  pub divider-Control : Control (record m { io = reset_divider m.io })
  unfolding reset_divider
  divider-Control =
      set_reg-Control (record m { io = record m.io { divider = 0 } }) (cleared-Control m c) 0xff04 0
        (omega arith) (omega arith)

  pub vbk-Controls : (x : ℕ) → Ends Controls (iowrite_vbk 0xff4f x m)
  unfolding iowrite_vbk set_video_bank
  vbk-Controls x =
      let c' : _ = set_reg-Control m c 0xff4f (bit_and x 1) (omega arith) (omega arith) in
      ground (arith, c')

  pub boot-Controls : (x : ℕ) → Ends Controls (iowrite_boot 0xff50 x m)
  unfolding iowrite_boot
  boot-Controls x =
      let v : ℕ = bit_or (reg 0xff50 m.io) x in
      let c' : _ = set_reg-Control m c 0xff50 v (omega arith) (omega arith) in ground (arith, c')

  pub svbk-Controls : (x : ℕ) → Ends Controls (iowrite_svbk 0xff70 x m)
  unfolding iowrite_svbk set_wram_bank
  svbk-Controls x =
      let low : ℕ = bit_and x 7 in
      let c1 : _ = set_reg-Control m c 0xff70 low (omega arith) (omega arith) in
      let c2 : _ = set_reg-Control m c 0xff70 1 (omega arith) (omega arith) in
      ground (arith, c1, c2)

  pub palette-Controls :
      (base x : ℕ) (index : ℕ)
      → index % 128 ≢ 0x40
      → index % 128 ≢ 0x41
      → Ends Controls (iowrite_palette base index x m)
  unfolding iowrite_palette
  palette-Controls base x index h k =
      let v : ℕ = reg index m.io in
      let next : Io → Io = set_reg index (auto_increment v 63) in
      Ends-then Control Controls (setpal (base + bit_and v 63) x)
        (when (bit_and v 0x80 != 0) (modify_io next)) m
        (setpal-Controls m c (base + bit_and v 63) x)
        (λ m' c'. elim (Bool-cases (bit_and v 0x80 != 0)) [
          | inl e ↦ rw e (set_reg-Control m' c' index (auto_increment v 63) h k)
          | inr e ↦ rw e c'
        ])
