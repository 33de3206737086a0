-- ===== src/Safety/Scanline.antt =====
-- The registers' part of `GPU::simulate` in libgbc/gpu.cpp keeps the machine valid, and outside
-- V-blank the line is one of the screen's.
use gamebro.Base.{ℕ, ◌+◌, ◌%◌, ◌<◌, arith, bit_and, bit_or, and-le, or-lt}
use gamebro.State.{Machine, Io, Gpu, reg, set_reg}
use gamebro.State.Ports.{Interrupt, trigger, lcd_stat, vblank, reg_stat, reg_ly, reg_if}
use gamebro.Gpu.{set_mode, do_ly_comparison, enter_vblank, restart_frame, advance_scanline}
use gamebro.Memory.Invariant.{IsValid}
use gamebro.Memory.Ports.{set_reg-IsValid, set_mode-IsValid}

-- A change of the I/O registers that keeps bytes bytes.
abbrev KeepsBytes : (Io → Io) → Type 0
KeepsBytes f = (m : Machine) → IsValid m → IsValid (record m { io = f m.io })

set_reg-KeepsBytes : (addr x : ℕ) → x < 256 → KeepsBytes (set_reg addr x)
set_reg-KeepsBytes addr x h m v = set_reg-IsValid m v addr x h

set_mode-KeepsBytes : (mode : ℕ) → KeepsBytes (set_mode mode)
set_mode-KeepsBytes mode m v = set_mode-IsValid m v mode

pub trigger-IsValid :
    (intr : Interrupt)
    → intr.mask < 256
    → (m : Machine) → IsValid m
    → IsValid (record m { io = trigger intr m.io })
unfolding trigger reg
trigger-IsValid intr h m v =
    set_reg-IsValid m v reg_if (bit_or (m.io.ioregs 15) intr.mask)
      (or-lt 8 (m.io.ioregs 15) intr.mask (v.port_bytes 15) h)

ly-KeepsBytes : KeepsBytes do_ly_comparison
unfolding do_ly_comparison
ly-KeepsBytes m v =
    let stat : ℕ = reg reg_stat m.io in
    let byte : stat < 256 = unfold reg in v.port_bytes 0x41 in
    let on : Machine = record m { io = set_reg reg_stat (bit_or stat 4) m.io } in
    let off : Machine = record m { io = set_reg reg_stat (bit_and stat 251) m.io } in
    let v1 : IsValid on =
      set_reg-IsValid m v reg_stat (bit_or stat 4) (or-lt 8 stat 4 byte (omega arith)) in
    let v2 : IsValid off =
      set_reg-IsValid m v reg_stat (bit_and stat 251) (omega (arith, and-le stat 251)) in
    let v3 : _ = trigger-IsValid lcd_stat (omega arith) on v1 in
    let v4 : _ = trigger-IsValid lcd_stat (omega arith) off v2 in ground (arith, v1, v2, v3, v4)

vblank-IsValid :
    (m : Machine)
    → IsValid m
    → let (gpu, io) = enter_vblank m.gpu m.io in IsValid (record m { gpu = gpu; io = io })
unfolding enter_vblank
vblank-IsValid m v =
    let m1 : Machine = record m { io = set_mode 1 m.io } in
    let m2 : Machine = record m { io = trigger vblank m1.io } in
    let m3 : Machine = record m { io = set_mode 1 m2.io } in
    let v1 : IsValid m1 = set_mode-IsValid m v 1 in
    let v2 : IsValid m2 = trigger-IsValid vblank (omega arith) m1 v1 in
    let v3 : IsValid m3 = set_mode-IsValid m2 v2 1 in
    let v4 : _ = trigger-IsValid lcd_stat (omega arith) m3 v3 in ground (arith, v3, v4)

restart-IsValid :
    (m : Machine)
    → IsValid m
    → let (gpu, io) = restart_frame m.gpu m.io in IsValid (record m { gpu = gpu; io = io })
unfolding restart_frame
restart-IsValid m v =
    let m1 : Machine = record m { io = set_reg reg_ly 0 m.io } in
    let v1 : IsValid m1 = set_reg-IsValid m v reg_ly 0 (omega arith) in
    let v2 : _ = set_mode-IsValid m1 v1 0 in ground (arith, v2)

pub advance-IsValid :
    (m : Machine)
    → IsValid m
    → let (gpu, io) = advance_scanline m.gpu m.io in IsValid (record m { gpu = gpu; io = io })
unfolding advance_scanline
advance-IsValid m v =
    let line : ℕ = (m.gpu.current_scanline + 1) % 154 in
    let gpu1 : Gpu = (let g = m.gpu in record g { period = 0; current_scanline = line }) in
    let m1 : Machine = record m { gpu = gpu1; io = set_reg reg_ly line m.io } in
    let v1 : IsValid m1 =
      (let w : _ = set_reg-IsValid m v reg_ly line (omega arith) in ground (arith, w)) in
    let a : Gpu × Io = enter_vblank m1.gpu m1.io in
    let b : Gpu × Io = restart_frame m1.gpu m1.io in
    let m2 : Machine = record m { gpu = a.0; io = a.1 } in
    let m3 : Machine = record m { gpu = b.0; io = b.1 } in
    let v2 : IsValid m2 = vblank-IsValid m1 v1 in
    let v3 : IsValid m3 = restart-IsValid m1 v1 in
    ground (arith, ly-KeepsBytes m1 v1, ly-KeepsBytes m2 v2, ly-KeepsBytes m3 v3)
