-- ===== src/Debug/Breakpoints.antt =====
-- A breakpoint of libgbc/debug.cpp in the main loop of libgbc/cpu.cpp.
use gamebro.Cpu.Execute.{Callbacks}
use gamebro.Base.{
  ℕ, ◌≡◌, ◌∙◌, refl, ap, arith, List, [], ◌∷◌, true, false, not, ◌||◌, ◌==◌, Bool-cases, inl, inr,
  if◌then◌else◌, ok,
}
use gamebro.State.{Machine, Cpu}
use gamebro.State.Monad.{M, Unit₀, ◌>>=◌, ◌>>◌, when, gets, bind-ok, bind-same}
use gamebro.Cpu.{peekop8}
use gamebro.Cpu.Execute.{
  count_break, break_time, break_checks, is_breakpoint, is_empty, run_step, simulate,
}
use gamebro.Debug.Commands.{default_pausepoint}

is_breakpoint-same :
    (pc addr : ℕ) (bs : List ℕ)
    → is_breakpoint addr bs ≡ true
    → is_breakpoint pc bs ≡ (addr == pc || is_breakpoint pc bs)
is_breakpoint-same pc addr [] h = absurd (ground (arith, h))
is_breakpoint-same pc addr (b ∷ bs) h = ground (arith, h, is_breakpoint-same pc addr bs)

-- The address is added, also where it is there already.
is_breakpoint-default_pausepoint :
    (pc addr : ℕ) (c : Cpu)
    → is_breakpoint pc (default_pausepoint addr c).breakpoints
      ≡ (addr == pc || is_breakpoint pc c.breakpoints)
unfolding default_pausepoint
is_breakpoint-default_pausepoint pc addr c = elim (Bool-cases (is_breakpoint addr c.breakpoints)) [
  | inl e ↦ rw e (is_breakpoint-same pc addr c.breakpoints e)
  | inr e ↦ rw e refl
]

some_breakpoint : (addr : ℕ) (c : Cpu) → is_empty (default_pausepoint addr c).breakpoints ≡ false
unfolding default_pausepoint
some_breakpoint addr c = go c.breakpoints
  where
    go : (bs : List ℕ) → is_empty (if is_breakpoint addr bs then bs else addr ∷ bs) ≡ false
    go [] = refl
    go (b ∷ bs) = ground arith

abbrev with_breakpoint : ℕ → Machine → Machine
with_breakpoint addr m = record m { cpu = default_pausepoint addr m.cpu }

module _ (callbacks : Callbacks) (print_and_pause : ℕ → M Unit₀) (addr : ℕ) (m : Machine)
    (no_break : m.cpu.m_break ≡ false) (no_steps : m.cpu.break_steps_cnt ≡ 0) where
  break_time-quiet : break_time (with_breakpoint addr m) ≡ ok (false, with_breakpoint addr m)
  unfolding break_time count_break default_pausepoint
  break_time-quiet = ground (arith, no_break, no_steps)

  break_checks-breakpoint :
      break_checks print_and_pause (with_breakpoint addr m)
      ≡ when
          (addr == m.cpu.registers.pc || is_breakpoint m.cpu.registers.pc m.cpu.breakpoints)
          (peekop8 0 >>= print_and_pause)
          (with_breakpoint addr m)
  unfolding break_checks default_pausepoint
  break_checks-breakpoint =
      let m' : Machine = with_breakpoint addr m in
      bind-ok break_time _ m' m' false break_time-quiet
      ∙ ap (λ b. when b (peekop8 0 >>= print_and_pause) m')
          (is_breakpoint-default_pausepoint m.cpu.registers.pc addr m.cpu)

  -- After `break addr`, and when nothing else stops the emulator, the next step of the main loop
  -- enters the debugger once, before the instruction, if the program counter is at that address or
  -- at an older breakpoint, and otherwise not at all; then it runs as without breakpoints, unless
  -- the debugger has stopped the machine.
  pub simulate-default_pausepoint :
      let m' = with_breakpoint addr m in
      let pc = m.cpu.registers.pc in
      simulate callbacks print_and_pause m'
      ≡ (when (addr == pc || is_breakpoint pc m.cpu.breakpoints) (peekop8 0 >>= print_and_pause)
            >> gets (λ m. m.running)
            >>= λ running. when running (run_step callbacks print_and_pause))
          m'
  unfolding simulate
  simulate-default_pausepoint =
      let m' : Machine = with_breakpoint addr m in
      let rest : M Unit₀ = break_checks print_and_pause >> gets (λ m. m.running) >>= λ running.
      when running (run_step callbacks print_and_pause) in
      let pause : M Unit₀ =
        when (addr == m.cpu.registers.pc || is_breakpoint m.cpu.registers.pc m.cpu.breakpoints)
          (peekop8 0 >>= print_and_pause) in
      bind-ok break_time _ m' m' false break_time-quiet
      ∙ ap (λ b. (if not b then rest else run_step callbacks print_and_pause) m')
          (some_breakpoint addr m.cpu)
      ∙ bind-same (break_checks print_and_pause >> gets (λ m. m.running))
          (pause >> gets (λ m. m.running)) _ m'
          (bind-same (break_checks print_and_pause) pause _ m' break_checks-breakpoint)
