-- ===== src/Memory/Commands.antt =====
-- The control part of the machine through the tables of libgbc/io_regs.cpp, HDMA commands and all of
-- `Memory::write8`.
use gamebro.Base.{
  ℕ, zero, suc, ◌+◌, ◌-◌, ◌*◌, ◌%◌, ◌^◌, ◌<◌, ◌≤◌, ◌≢◌, inl, inr, refl, arith, bit_and, bit_or,
  true, false, ltb, ◌==◌, and-le, ◌∙◌,
}
use gamebro.State.{Machine, reg, set_reg}
use gamebro.State.Monad.{M, Unit₀, pure, ◌>>=◌, ◌>>◌, modify_io}
use gamebro.State.Ports.{reg_hdma1, reg_hdma2, reg_hdma3, reg_hdma4, reg_hdma5}
use gamebro.Base.{Bool-cases}
use gamebro.State.{update}
use gamebro.Gpu.{getpal, get_mode, lcd_enabled}
use gamebro.Io.Write.{
  iowrite_joyp, iowrite_lcdc, iowrite_stat, iowrite_vbk, iowrite_boot, iowrite_svbk,
  iowrite_palette,
}
use gamebro.Io.{
  read_io, read_handler, ioread_palette, ioread_joyp, start_dma, start_hdma, reset_divider,
  hdma_active,
}
use gamebro.Io.Write.{
  iowrite_audio, iowrite_key1, copy_block, start_transfer, iowrite_hdma, write_handler, write_io,
}
use gamebro.Base.{List, [], ◌∷◌, Bool, too_deep}
use gamebro.State.Monad.{when, break_now, stop_with}
use gamebro.Memory.{
  fetch8, store8, traps, read_traps, write_traps, read8, mbc_write, write_video, write_high,
  write8_with, inner_write8, write8, read_high, read_video, rom_at,
}
use gamebro.Memory.Invariant.{with_break}
use gamebro.Mbc.Invariant.{page_lem}
use gamebro.Memory.Control.{
  Control, Frame, Control-Frame, Ends, Ends-then, Controls, Ends-bind, Ends-imp,
}
use gamebro.Memory.Kept.{
  set_reg-Control, stat-Control, dma-Control, joyp-Control, hdma-Control, lcdc-Controls,
  vbk-Controls, boot-Controls, svbk-Controls, palette-Controls, divider-Control,
}
use gamebro.Memory.Writes.{hdma_target}

module _ (m : Machine) where
  mbc_write-Frame : (addr x : ℕ) → Ends (λ out. Frame m out.1) (mbc_write addr x m)
  unfolding mbc_write
  mbc_write-Frame addr x = ground arith

  write_video-Frame : (addr x : ℕ) → Ends (λ out. Frame m out.1) (write_video addr x m)
  unfolding write_video
  write_video-Frame addr x = ground arith

  read_io-Frame : (addr : ℕ) → Ends (λ out. Frame m out.1) (read_io addr m)
  unfolding read_io read_handler ioread_palette getpal ioread_joyp
  read_io-Frame addr = ground arith

  fetch8-Frame : (addr : ℕ) → Ends (λ out. Frame m out.1) (fetch8 addr m)
  unfolding fetch8 rom_at read_video read_high
  fetch8-Frame addr = ground (arith, read_io-Frame addr)

  -- A write elsewhere than to a port leaves the control part alone.
  store8-Frame :
      (port : ℕ → ℕ → M Unit₀) (addr x : ℕ)
      → addr < 0xff00
      → Ends (λ out. Frame m out.1) (store8 port addr x m)
  unfolding store8 write_high
  store8-Frame port addr x h =
      ground (arith, page_lem addr, mbc_write-Frame addr x, write_video-Frame addr x)

  inner_store8-Frame :
      (addr x : ℕ)
      → Ends (λ out. Frame m out.1) (store8 (λ address value. stop_with too_deep) addr x m)
  unfolding store8 write_high
  inner_store8-Frame addr x = ground (arith, mbc_write-Frame addr x, write_video-Frame addr x)

  break_now-Frame : Ends (λ out. Frame m out.1) (break_now m)
  break_now-Frame = (refl, refl, refl, refl)

pub Frame-trans : (a b c : Machine) → Frame a b → Frame b c → Frame a c
Frame-trans a b c f g = (g.0 ∙ f.0, g.1 ∙ f.1, g.2 ∙ f.2, g.3 ∙ f.3)

-- Two calls that both leave the control part alone.
Frame-bind :
    {A B : Type 0} (p : M A) (f : A → M B) (m : Machine)
    → Ends (λ out. Frame m out.1) (p m)
    → ((a : A) (m' : Machine) → Ends (λ out. Frame m' out.1) (f a m'))
    → Ends (λ out. Frame m out.1) ((p >>= f) m)
Frame-bind p f m h next =
    Ends-bind (Frame m) (λ out. Frame m out.1) p f m h
      (λ a m' g.
        Ends-imp (λ out. Frame m' out.1) (λ out. Frame m out.1) (f a m')
          (λ out k. Frame-trans m m' out.1 g k) (next a m'))

trap-Frame :
    (b : Bool) (addr : ℕ) (m : Machine)
    → Ends (λ out. Frame m out.1) (when b (fetch8 addr >> break_now) m)
trap-Frame false addr m = (refl, refl, refl, refl)
trap-Frame true addr m =
    Frame-bind (fetch8 addr) (λ x. break_now) m (fetch8-Frame m addr) (λ x m'. break_now-Frame m')

traps-Frame :
    (locs : List ℕ) (addr : ℕ) (m : Machine) → Ends (λ out. Frame m out.1) (traps locs addr m)
unfolding traps
traps-Frame [] addr m = (refl, refl, refl, refl)
traps-Frame (traploc ∷ locs) addr m =
    Frame-bind (when (addr == traploc) (fetch8 addr >> break_now)) (λ u. traps locs addr) m
      (trap-Frame (addr == traploc) addr m) (λ u m'. traps-Frame locs addr m')

pub read8-Frame : (m : Machine) (addr : ℕ) → Ends (λ out. Frame m out.1) (read8 addr m)
unfolding read8 read_traps
read8-Frame m addr =
    Frame-bind (traps m.memory.read_breakpoints addr) (λ u. fetch8 addr) m
      (traps-Frame m.memory.read_breakpoints addr m) (λ u m'. fetch8-Frame m' addr)

write_traps-Frame : (m : Machine) (addr : ℕ) → Ends (λ out. Frame m out.1) (write_traps addr m)
unfolding write_traps
write_traps-Frame m addr = traps-Frame m.memory.write_breakpoints addr m

pub write8_with-Frame :
    (m : Machine) (port : ℕ → ℕ → M Unit₀) (addr x : ℕ)
    → addr < 0xff00
    → Ends (λ out. Frame m out.1) (write8_with port addr x m)
unfolding write8_with
write8_with-Frame m port addr x h =
    Frame-bind (write_traps addr) (λ u. store8 port addr x) m (write_traps-Frame m addr)
      (λ u m'. store8-Frame m' port addr x h)

inner_write8-Frame :
    (m : Machine) (addr x : ℕ) → Ends (λ out. Frame m out.1) (inner_write8 addr x m)
unfolding inner_write8 write8_with
inner_write8-Frame m addr x =
    Frame-bind (write_traps addr) (λ u. store8 (λ address value. stop_with too_deep) addr x) m
      (write_traps-Frame m addr) (λ u m'. inner_store8-Frame m' addr x)

copy_block-Frame :
    (fuel src end dst : ℕ) (m : Machine)
    → Ends (λ out. Frame m out.1) (copy_block read8 inner_write8 fuel src end dst m)
unfolding copy_block
copy_block-Frame zero src end dst m = (refl, refl, refl, refl)
copy_block-Frame (suc fuel) src end dst m =
    let rest : M Unit₀ =
      copy_block read8 inner_write8 fuel ((src + 1) % 65536) end ((dst + 1) % 65536) in
    elim (ltb src end)
      as (λ b.
        Ends (λ out. Frame m out.1)
          (elim b [
            | true ↦ (read8 src >>= λ x. inner_write8 dst x >> rest) m
            | false ↦ pure tt m
          ])) [
            | false ↦ (refl, refl, refl, refl)
            | true ↦
                Ends-bind (Frame m) (λ out. Frame m out.1) (read8 src)
                  (λ x. inner_write8 dst x >> rest) m (read8-Frame m src)
                  (λ x m1 f.
                    Ends-then (Frame m) (λ out. Frame m out.1) (inner_write8 dst x) rest m1
                      (Ends-imp (λ out. Frame m1 out.1) (λ out. Frame m out.1)
                        (inner_write8 dst x m1) (λ out g. Frame-trans m m1 out.1 f g)
                        (inner_write8-Frame m1 dst x))
                      (λ m2 g.
                        Ends-imp (λ out. Frame m2 out.1) (λ out. Frame m out.1) (rest m2)
                          (λ out h. Frame-trans m m2 out.1 g h)
                          (copy_block-Frame fuel ((src + 1) % 65536) end ((dst + 1) % 65536) m2)))
          ]

module _ (m : Machine) (c : Control m) (x : ℕ) (hx : x < 256) where
  started-Control :
      (src dst bytes : ℕ)
      → src < 65536
      → dst < 0xa000
      → Control (record m { io = set_reg 0xff55 x (start_hdma src dst bytes m.io) })
  started-Control src dst bytes hs hd =
      set_reg-Control (record m { io = start_hdma src dst bytes m.io })
        (hdma-Control m c src dst bytes hs hd) 0xff55 x (omega arith) (omega arith)

  start_transfer-Controls : Ends Controls (start_transfer read8 inner_write8 x m)
  unfolding start_transfer
  start_transfer-Controls =
      let from : ℕ = bit_or (reg reg_hdma1 m.io * 2 ^ 8) (reg reg_hdma2 m.io) in
      let to : ℕ = bit_or (reg reg_hdma3 m.io * 2 ^ 8) (reg reg_hdma4 m.io) in
      let src : ℕ = bit_and from 0xfff0 in
      let dst : ℕ = bit_or (bit_and to 0x9ff0) 0x8000 in
      let bytes : ℕ = (1 + bit_and x 0x7f) * 16 in
      elim (Bool-cases (bit_and x 0x80 == 0)) [
        | inr e ↦ rw e (
            started-Control src dst bytes (omega (arith, and-le from 0xfff0))
              (omega (arith, hdma_target to)))
        | inl e ↦ rw e (elim (Bool-cases (hdma_active m.io)) [
          | inl f ↦ rw f (started-Control 0 0 0 (omega arith) (omega arith))
          | inr f ↦ rw f (
              Ends-then Control Controls
                (copy_block read8 inner_write8 2048 src ((src + bytes) % 65536) dst)
                (modify_io (set_reg reg_hdma5 0xff)) m
                (Ends-imp (λ out. Frame m out.1) Controls
                  (copy_block read8 inner_write8 2048 src ((src + bytes) % 65536) dst m)
                  (λ out g. Control-Frame m out.1 g c)
                  (copy_block-Frame 2048 src ((src + bytes) % 65536) dst m))
                (λ m' c'. set_reg-Control m' c' reg_hdma5 0xff (omega arith) (omega arith)))
        ])
      ]

  iowrite_hdma-Controls :
      (addr : ℕ)
      → 0xff51 ≤ addr
      → addr ≤ 0xff55
      → Ends Controls (iowrite_hdma read8 inner_write8 addr x m)
  unfolding iowrite_hdma
  iowrite_hdma-Controls addr lo hi = ground (
    arith,
    c,
    start_transfer-Controls,
    set_reg-Control m c addr x,
    set_reg-Control m c addr (bit_and x 0xf0),
  )

-- The table of handlers by cases: what holds after each of them holds after the one that is called.
write_handler-cases :
    (P : Unit₀ × Machine → Type 0) (addr x : ℕ) (m : Machine)
    → P (tt, record m { io = iowrite_joyp x m.io })
    → P (tt, record m { io = reset_divider m.io })
    → Ends P (iowrite_lcdc 0xff40 x m)
    → P (tt, record m { io = iowrite_stat 0xff41 x m.io })
    → P (tt, record m { io = start_dma (x * 2 ^ 8) m.io })
    → P (tt, record m { io = iowrite_audio 0xff26 x m.io })
    → P (tt, record m { io = iowrite_key1 0xff4d x m.io })
    → Ends P (iowrite_vbk 0xff4f x m)
    → Ends P (iowrite_svbk 0xff70 x m)
    → Ends P (iowrite_boot 0xff50 x m)
    → (0xff51 ≤ addr → addr ≤ 0xff55 → Ends P (iowrite_hdma read8 inner_write8 addr x m))
    → Ends P (iowrite_palette 0 0xff68 x m)
    → Ends P (iowrite_palette 64 0xff6a x m)
    → (addr ≢ 0xff40 → addr ≢ 0xff41 → P (tt, record m { io = set_reg addr x m.io }))
    → Ends P (write_handler read8 inner_write8 addr x m)
unfolding write_handler
write_handler-cases P addr x m p1 p2 p3 p4 p5 p6 p7 p8 p9 p10 p11 p12 p13 p14 = ground arith

-- `write_io` calls the handler, of the machine as it is or with the debugger called.
write_io-cases :
    (P : Unit₀ × Machine → Type 0) (addr x : ℕ) (m : Machine)
    → P (tt, m)
    → P (tt, record m { io = record m.io { reg_ie = x } })
    → P (tt, with_break true m)
    → (0xff00 ≤ addr → addr < 0xff80 → Ends P (write_handler read8 inner_write8 addr x m))
    → (0xff00 ≤ addr
        → addr < 0xff80
        → Ends P (write_handler read8 inner_write8 addr x (with_break true m)))
    → Ends P (write_io read8 inner_write8 addr x m)
unfolding write_io
write_io-cases P addr x m p1 p2 p3 p4 p5 = ground arith

store8-cases :
    (P : Unit₀ × Machine → Type 0) (addr x : ℕ) (m : Machine)
    → P (tt, m)
    → ((m' : Machine) → Frame m m' → P (tt, m'))
    → Ends P (write_io read8 inner_write8 addr x m)
    → Ends P (store8 (write_io read8 inner_write8) addr x m)
unfolding store8 write_high
store8-cases P addr x m p1 p2 p3 = ground (
  arith,
  Ends-imp (λ out. Frame m out.1) P (mbc_write addr x m) (λ out f. p2 out.1 f)
      (mbc_write-Frame m addr x),
  Ends-imp (λ out. Frame m out.1) P (write_video addr x m) (λ out f. p2 out.1 f)
      (write_video-Frame m addr x),
  p2
      (record m {
        memory =
            let mem = m.memory in record mem { oam_ram = update mem.oam_ram (addr - 0xfe00) x };
      })
      (refl, refl, refl, refl),
  p2
      (record m {
        memory = let mem = m.memory in record mem { zram = update mem.zram (addr - 0xff80) x };
      })
      (refl, refl, refl, refl),
)

module _ (m : Machine) (c : Control m) (x : ℕ) (hx : x < 256) where
  write_handler-Controls :
      (addr : ℕ)
      → 0xff00 ≤ addr
      → addr < 0xff80
      → Ends Controls (write_handler read8 inner_write8 addr x m)
  unfolding iowrite_audio iowrite_key1
  write_handler-Controls addr lo hi =
      write_handler-cases Controls addr x m (joyp-Control m c x) (divider-Control m c)
        (lcdc-Controls m c x) (stat-Control m c x) (dma-Control m c x hx)
        (set_reg-Control m c 0xff26 (bit_or (bit_and (reg 0xff26 m.io) 0xf) (bit_and x 0x80))
          (omega arith) (omega arith))
        (set_reg-Control m c 0xff4d (bit_or (bit_and (reg 0xff4d m.io) 0x80) (bit_and x 1))
          (omega arith) (omega arith))
        (vbk-Controls m c x) (svbk-Controls m c x) (boot-Controls m c x)
        (iowrite_hdma-Controls m c x hx addr)
        (palette-Controls m c 0 x 0xff68 (omega arith) (omega arith))
        (palette-Controls m c 64 x 0xff6a (omega arith) (omega arith))
        (λ h k. set_reg-Control m c addr x (omega arith) (omega arith))

module _ (m : Machine) (c : Control m) (x : ℕ) (hx : x < 256) where
  ie-Control : Control (record m { io = record m.io { reg_ie = x } })
  unfolding get_mode lcd_enabled reg
  ie-Control = ground arith

  write_io-Controls : (addr : ℕ) → Ends Controls (write_io read8 inner_write8 addr x m)
  write_io-Controls addr =
      let broken : Control (with_break true m) =
        Control-Frame m (with_break true m) (refl, refl, refl, refl) c in
      write_io-cases Controls addr x m c ie-Control broken (write_handler-Controls m c x hx addr)
        (write_handler-Controls (with_break true m) broken x hx addr)

  store8-Controls : (addr : ℕ) → Ends Controls (store8 (write_io read8 inner_write8) addr x m)
  store8-Controls addr =
      store8-cases Controls addr x m c (λ m' f. Control-Frame m m' f c) (write_io-Controls addr)

pub write8-Controls :
    (m : Machine) → Control m → (x : ℕ) → x < 256 → (addr : ℕ) → Ends Controls (write8 addr x m)
unfolding write8 write8_with
write8-Controls m c x hx addr =
    Ends-then (Frame m) Controls (write_traps addr) (store8 (write_io read8 inner_write8) addr x) m
      (write_traps-Frame m addr) (λ m' f. store8-Controls m' (Control-Frame m m' f c) x hx addr)
