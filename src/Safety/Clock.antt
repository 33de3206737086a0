-- ===== src/Safety/Clock.antt =====
-- `GPU::simulate` of libgbc/gpu.cpp without the rendering: after it the line is on the screen or
-- the screen is in V-blank.
use gamebro.Base.{
  ℕ, ◌+◌, ◌%◌, ◌^◌, ◌<◌, ◌≤◌, ◌≡◌, inl, inr, arith, bit_or, Bool, true, false, leb, Bool-cases,
}
use gamebro.State.{Machine, Io, Gpu, reg, set_reg}
use gamebro.State.Ports.{Interrupt, trigger, lcd_stat, vblank, reg_ly, reg_if}
use gamebro.Gpu.{
  get_mode, set_mode, scanline_cycles, do_ly_comparison, enter_vblank, restart_frame,
  advance_scanline, count_period, next_mode,
}
use gamebro.Gpu.Schedule.{get_mode-set_mode}
use gamebro.Gpu.Lines.{get_mode-do_ly_comparison}
use gamebro.Memory.Invariant.{IsValid}
use gamebro.Memory.Ports.{set_mode-IsValid}
use gamebro.Memory.Kept.{get_mode-set_reg, set_reg-AreTransfers, cycles_small}
use gamebro.Memory.Control.{Control, IsSettled, IsReady, AreTransfers}
use gamebro.Safety.{IsSafe}
use gamebro.Safety.Scanline.{trigger-IsValid, advance-IsValid}

get_mode-trigger : (intr : Interrupt) (io : Io) → get_mode (trigger intr io) ≡ get_mode io
unfolding trigger
get_mode-trigger intr io =
    get_mode-set_reg reg_if (bit_or (reg reg_if io) intr.mask) io (omega arith)

transfers-trigger : (intr : Interrupt) (io : Io) → AreTransfers io → AreTransfers (trigger intr io)
unfolding trigger
transfers-trigger intr io t = set_reg-AreTransfers _ _ io t

transfers-set_mode : (mode : ℕ) (io : Io) → AreTransfers io → AreTransfers (set_mode mode io)
unfolding set_mode
transfers-set_mode mode io t = set_reg-AreTransfers _ _ io t

transfers-ly : (io : Io) → AreTransfers io → AreTransfers (do_ly_comparison io)
unfolding do_ly_comparison trigger set_reg
transfers-ly io t = ground (arith, t)

-- A period that is small, a line in order, and transfers in order.
abbrev pub IsClocked : Gpu × Io → Type 0
IsClocked (gpu, io) = (gpu.period ≤ 930) × IsSettled gpu io × AreTransfers io

vblank-IsClocked :
    (gpu : Gpu) (io : Io) → gpu.period ≤ 930 → AreTransfers io → IsClocked (enter_vblank gpu io)
unfolding enter_vblank
vblank-IsClocked gpu io p t =
    let io1 : Io = set_mode 1 (trigger vblank (set_mode 1 io)) in
    let t1 : AreTransfers io1 =
      transfers-set_mode 1 _ (transfers-trigger vblank _ (transfers-set_mode 1 io t)) in
    ground (
      arith,
      get_mode-set_mode 1 (trigger vblank (set_mode 1 io)),
      get_mode-trigger lcd_stat io1,
      t1,
      transfers-trigger lcd_stat io1 t1,
    )

restart-IsClocked :
    (gpu : Gpu) (io : Io) → gpu.period ≤ 930 → AreTransfers io → IsClocked (restart_frame gpu io)
unfolding restart_frame
restart-IsClocked gpu io p t =
    ground (arith, transfers-set_mode 0 (set_reg reg_ly 0 io) (set_reg-AreTransfers reg_ly 0 io t))

ly-IsClocked : (gpu : Gpu) (io : Io) → IsClocked (gpu, io) → IsClocked (gpu, do_ly_comparison io)
ly-IsClocked gpu io h = ground (arith, h, get_mode-do_ly_comparison io, transfers-ly io)

-- At the end of a line, whatever state the line is in.
advance-IsClocked :
    (speed : ℕ) (gpu : Gpu) (io : Io)
    → IsReady speed gpu io
    → AreTransfers io
    → IsClocked (advance_scanline gpu io)
unfolding advance_scanline
advance-IsClocked speed gpu io s t =
    let line : ℕ = (gpu.current_scanline + 1) % 154 in
    let gpu1 : Gpu = record gpu { period = 0; current_scanline = line } in
    let io1 : Io = set_reg reg_ly line io in
    let t1 : AreTransfers io1 = set_reg-AreTransfers reg_ly line io t in
    let a : Gpu × Io = enter_vblank gpu1 io1 in
    let b : Gpu × Io = restart_frame gpu1 io1 in
    let h1 : _ = ly-IsClocked a.0 a.1 (vblank-IsClocked gpu1 io1 (omega arith) t1) in
    let h2 : _ = ly-IsClocked b.0 b.1 (restart-IsClocked gpu1 io1 (omega arith) t1) in
    let h3 : _ = ly-IsClocked gpu1 io1 in
    ground (arith, s, get_mode-set_reg reg_ly line io, h1, h2, h3)

-- A machine whose screen part is in order is safe.
pub clocked-IsSafe :
    (m : Machine) (gpu : Gpu) (io : Io)
    → Control m
    → IsValid (record m { gpu = gpu; io = io })
    → IsClocked (gpu, io)
    → IsSafe (record m { gpu = gpu; io = io })
clocked-IsSafe m gpu io c v h = record {
  valid = v;
  control = record {
    registers = c.registers;
    speed = c.speed;
    period_small = h.0;
    screen = inl h.1;
    transfers = h.2;
  };
  settled = h.1;
}

-- Counting a tick leaves the machine safe, also where the LCD has just been switched on.
pub count_period-IsSafe :
    (m : Machine)
    → IsValid m
    → Control m
    → let (gpu, io, period, new) = count_period m.memory.speed_factor m.gpu m.io in
      IsSafe (record m { gpu = gpu; io = io })
unfolding count_period
count_period-IsSafe m v c =
    let speed : ℕ = m.memory.speed_factor in
    let period : ℕ = (m.gpu.period + 4) % 2 ^ 64 in
    let gpu1 : Gpu = record m.gpu { period = period } in
    let m1 : Machine = record m { gpu = gpu1 } in
    let v1 : IsValid m1 = ground (arith, v) in
    let next : Gpu × Io = advance_scanline gpu1 m.io in
    elim (Bool-cases (leb (scanline_cycles speed) period)) [
      | inl e ↦ rw e (
          clocked-IsSafe m next.0 next.1 c (advance-IsValid m1 v1) (
            advance-IsClocked speed gpu1 m.io (ground (arith, c.screen, c.period_small))
              c.transfers))
      | inr e ↦ rw e (
          clocked-IsSafe m gpu1 m.io c v1
            (ground (arith, c.screen, c.period_small, c.transfers, cycles_small speed c.speed)))
    ]

mode-IsSafe :
    (m : Machine)
    → IsSafe m
    → m.gpu.current_scanline < 144
    → (mode : ℕ) → IsSafe (record m { io = set_mode mode m.io })
mode-IsSafe m s line mode =
    clocked-IsSafe m m.gpu (set_mode mode m.io) s.control (set_mode-IsValid m s.valid mode)
      (s.control.period_small, inr line, transfers-set_mode mode m.io s.control.transfers)

stat-IsSafe : (m : Machine) → IsSafe m → IsSafe (record m { io = trigger lcd_stat m.io })
stat-IsSafe m s =
    clocked-IsSafe m m.gpu (trigger lcd_stat m.io) s.control
      (trigger-IsValid lcd_stat (omega arith) m s.valid)
      (
        s.control.period_small,
        ground (arith, s.settled, get_mode-trigger lcd_stat m.io),
        transfers-trigger lcd_stat m.io s.control.transfers,
      )

next_mode_still :
    (speed period : ℕ) (new : Bool) (io : Io)
    → get_mode io ≡ 1
    → next_mode speed period new io ≡ (io, false)
unfolding next_mode
next_mode_still speed period new io e = ground (arith, e)

next_mode-cases :
    (P : Io → Type 0) (speed period : ℕ) (new : Bool) (io : Io)
    → P io
    → P (set_mode 2 io)
    → P (trigger lcd_stat (set_mode 2 io))
    → P (set_mode 3 io)
    → P (set_mode 0 io)
    → P (set_mode 0 (trigger lcd_stat io))
    → P (next_mode speed period new io).0
unfolding next_mode
next_mode-cases P speed period new io p0 p1 p2 p3 p4 p5 = ground arith

-- The mode changes only outside V-blank, and a line is drawn only on the screen.
pub next_mode-IsSafe :
    (m : Machine)
    → IsSafe m
    → (period : ℕ) (new : Bool)
    → let (io, drawing) = next_mode m.memory.speed_factor period new m.io in
      IsSafe (record m { io = io }) × ((drawing ≡ true) → m.gpu.current_scanline < 144)
next_mode-IsSafe m s period new =
    let speed : ℕ = m.memory.speed_factor in
    elim s.settled [
      | inl e ↦ rw (next_mode_still speed period new m.io e) (s, λ b. absurd (ground (arith, b)))
      | inr line ↦
          let oam : IsSafe (record m { io = set_mode 2 m.io }) = mode-IsSafe m s line 2 in
          let stat : IsSafe (record m { io = trigger lcd_stat m.io }) = stat-IsSafe m s in
          (
            next_mode-cases (λ io. IsSafe (record m { io = io })) speed period new m.io s oam
                (stat-IsSafe (record m { io = set_mode 2 m.io }) oam) (mode-IsSafe m s line 3)
                (mode-IsSafe m s line 0)
                (mode-IsSafe (record m { io = trigger lcd_stat m.io }) stat line 0),
            λ b. line,
          )
    ]
