-- ===== src/Safety/Timers.antt =====
-- The divider and the timer of libgbc/io.cpp keep the machine safe.
use gamebro.Base.{ℕ, ◌+◌, ◌-◌, ◌/◌, ◌%◌, ◌^◌, ◌<◌, inl, inr, arith, bit_or, or-lt, ◌==◌, Bool-cases}
use gamebro.State.{Machine, reg, set_reg}
use gamebro.State.Ports.{Interrupt, trigger, timerint, reg_if, reg_div, reg_tima}
use gamebro.Io.Simulate.{count_divider, count_tima, reload_tima, run_tima}
use gamebro.Safety.{IsSafe}
use gamebro.Safety.Frames.{set_reg-IsSafe, counters-IsSafe}

pub trigger-IsSafe :
    (m : Machine)
    → IsSafe m
    → (intr : Interrupt) → intr.mask < 256
    → IsSafe (record m { io = trigger intr m.io })
unfolding trigger reg
trigger-IsSafe m s intr h =
    set_reg-IsSafe m s reg_if (bit_or (m.io.ioregs 15) intr.mask) (omega arith) (omega arith)
      (or-lt 8 (m.io.ioregs 15) intr.mask (s.valid.port_bytes 15) h)

module _ (m : Machine) (s : IsSafe m) where
  divider-IsSafe : IsSafe (record m { io = count_divider m.io })
  unfolding count_divider
  divider-IsSafe =
      let d : ℕ = (m.io.divider + 256 / 64) % 65536 in
      set_reg-IsSafe _ (counters-IsSafe m s d m.io.timabug) reg_div (d / 2 ^ 8) (omega arith)
        (omega arith) (omega arith)

  count_tima-IsSafe : IsSafe (record m { io = count_tima m.io })
  unfolding count_tima
  count_tima-IsSafe =
      let tima : ℕ = (reg reg_tima m.io + 1) % 256 in
      let m1 : Machine = record m { io = set_reg reg_tima tima m.io } in
      let s1 : IsSafe m1 =
        set_reg-IsSafe m s reg_tima tima (omega arith) (omega arith) (omega arith) in
      let s2 : IsSafe (record m { io = trigger timerint m1.io }) =
        trigger-IsSafe m1 s1 timerint (omega arith) in
      elim (Bool-cases (tima == 0)) [
        | inl e ↦ rw e (counters-IsSafe _ s2 (trigger timerint m1.io).divider 4)
        | inr e ↦ rw e s1
      ]

  reload_tima-IsSafe : IsSafe (record m { io = reload_tima m.io })
  unfolding reload_tima reg
  reload_tima-IsSafe =
      let left : ℕ = m.io.timabug - 1 in
      let s1 : _ = counters-IsSafe m s m.io.divider left in
      elim (Bool-cases (left == 0)) [
        | inl e ↦ rw e (
            set_reg-IsSafe _ s1 reg_tima (m.io.ioregs 6) (omega arith) (omega arith)
              (s.valid.port_bytes 6))
        | inr e ↦ rw e s1
      ]

  run_tima-IsSafe : IsSafe (record m { io = run_tima m.io })
  unfolding run_tima
  run_tima-IsSafe = ground (arith, s, count_tima-IsSafe, reload_tima-IsSafe)

pub timers-IsSafe :
    (m : Machine) → IsSafe m → IsSafe (record m { io = run_tima (count_divider m.io) })
timers-IsSafe m s = run_tima-IsSafe (record m { io = count_divider m.io }) (divider-IsSafe m s)
