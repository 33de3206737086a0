-- ===== src/Debug/Steps.antt =====
-- The step counter of libgbc/debug.cpp in the main loop of libgbc/cpu.cpp, which tests it twice.
use gamebro.Cpu.Execute.{Callbacks}
use gamebro.Base.{
  ℕ, ◌-◌, ◌<◌, ◌≤◌, ◌≡◌, arith, [], true, false, not, if◌then◌else◌, ◌==◌, refl, ap, sym, ◌∙◌, ok,
  Bool-cases, inl, inr,
}
use gamebro.State.{Machine}
use gamebro.State.Monad.{bind-ok, M, Unit₀, ◌>>=◌, ◌>>◌, when, gets}
use gamebro.Cpu.{peekop8}
use gamebro.Cpu.Execute.{
  is_breakpoint, is_empty, count_break, break_time, break_checks, run_step, simulate,
}

abbrev pub with_steps : ℕ → Machine → Machine
with_steps left m = record m { cpu = let c = m.cpu in record c { break_steps = left } }

-- The machine after `step n`: it counts steps, and nothing else stops it.
pub record IsStepping (n : ℕ) (m : Machine) : Type 0 where
  pub running : m.running ≡ true
  pub no_break : m.cpu.m_break ≡ false
  pub no_breakpoint : m.cpu.breakpoints ≡ []
  pub count : m.cpu.break_steps_cnt ≡ n
  pub some_left : 1 ≤ m.cpu.break_steps
  pub left_fits : m.cpu.break_steps ≤ n

-- The count that the next step leaves.
abbrev pub next_count : ℕ → ℕ → ℕ
next_count n left = if left == 1 then n - 1 else left - 1

module _ (n : ℕ) (m : Machine) (s : IsStepping n m) (h : 2 ≤ n) (h' : n < 0x8000) where
  count-left :
      1 < m.cpu.break_steps → break_time m ≡ ok (false, with_steps (m.cpu.break_steps - 1) m)
  unfolding break_time count_break
  count-left k = ground (arith, s)

  count-over : m.cpu.break_steps ≡ 1 → break_time m ≡ ok (true, with_steps n m)
  unfolding break_time count_break
  count-over k = ground (arith, s)

  with_steps-IsStepping : (left : ℕ) → 1 ≤ left → left ≤ n → IsStepping n (with_steps left m)
  with_steps-IsStepping left k k' = record {
    running = s.running;
    no_break = s.no_break;
    no_breakpoint = s.no_breakpoint;
    count = s.count;
    some_left = k;
    left_fits = k';
  }

module _ (print_and_pause : ℕ → M Unit₀) (n : ℕ) (m : Machine) (h : 2 ≤ n) (h' : n < 0x8000) where
  -- The second test takes one more off the count, which has just started again.
  break_checks-over :
      IsStepping n m
      → m.cpu.break_steps ≡ n
      → break_checks print_and_pause m ≡ ok (tt, with_steps (n - 1) m)
  unfolding break_checks
  break_checks-over s k =
      let m' : Machine = with_steps (n - 1) m in
      bind-ok break_time _ m m' false (rw (sym k) (count-left n m s h h' (omega arith)))
      ∙ ap (λ bs. when (is_breakpoint m.cpu.registers.pc bs) (peekop8 0 >>= print_and_pause) m')
          s.no_breakpoint

-- After `step n` with 2 ≤ n < 2 ^ 15, no breakpoint being set, the main loop never stops for the
-- debugger: a step runs as without it, on a machine that goes on counting. The test that ends the
-- count starts it again, and the second test finds it running.
pub simulate-IsStepping :
    (callbacks : Callbacks) (print_and_pause : ℕ → M Unit₀) (n : ℕ) (m : Machine)
    → 2 ≤ n
    → n < 0x8000
    → IsStepping n m
    → let m' = with_steps (next_count n m.cpu.break_steps) m in
      IsStepping n m'
      × (simulate callbacks print_and_pause m ≡ run_step callbacks print_and_pause m')
unfolding simulate
simulate-IsStepping callbacks print_and_pause n m h h' s =
    elim (Bool-cases (m.cpu.break_steps == 1)) [
      | inl e ↦
          let one : m.cpu.break_steps ≡ 1 = ground (arith, e) in
          let m1 : Machine = with_steps n m in
          let s1 : IsStepping n m1 =
            with_steps-IsStepping n m s h h' n (omega arith) (omega arith) in
          let m2 : Machine = with_steps (n - 1) m in
          let checked : break_checks print_and_pause m1 ≡ ok (tt, m2) =
            break_checks-over print_and_pause n m1 h h' s1 refl in
          rw e (
            with_steps-IsStepping n m s h h' (n - 1) (omega arith) (omega arith),
            bind-ok break_time _ m m1 true (count-over n m s h h' one)
                ∙ bind-ok (break_checks print_and_pause >> gets (λ m. m.running)) _ m1 m2 m.running
                    (bind-ok (break_checks print_and_pause) _ m1 m2 tt checked)
                ∙ ap (λ b. when b (run_step callbacks print_and_pause) m2) s.running,
          )
      | inr e ↦
          let many : 1 < m.cpu.break_steps = ground (arith, e, s.some_left) in
          let left : ℕ = m.cpu.break_steps - 1 in
          let m1 : Machine = with_steps left m in
          rw e (
            with_steps-IsStepping n m s h h' left (omega arith) (omega (arith, s.left_fits)),
            bind-ok break_time _ m m1 false (count-left n m s h h' many)
                ∙ ap
                    (λ bs.
                      (if not (is_empty bs)
                          then (break_checks print_and_pause >> gets (λ m. m.running) >>= λ running.
                              when running (run_step callbacks print_and_pause))
                          else run_step callbacks print_and_pause)
                        m1)
                    s.no_breakpoint,
          )
    ]
