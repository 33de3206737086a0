-- ===== src/Debug/Emulator.antt =====
-- `CPU::simulate` of libgbc/cpu.cpp with the debugger of libgbc/debug.cpp in it.
use gamebro.Base.{
  ℕ, ◌+◌, ◌%◌, ◌<◌, ◌≡◌, refl, arith, true, false, not, ◌||◌, ◌&&◌, Outcome, ok, fault,
}
use gamebro.State.{Machine}
use gamebro.State.Monad.{M, Unit₀, ◌>>=◌}
use gamebro.Cpu.{peekop8}
use gamebro.Cpu.Decode.{Instruction, decode}
use gamebro.Cpu.Execute.{
  handler, outside_code, execute, is_breakpoint, is_empty, break_checks, run_step, simulate,
}
use gamebro.Safety.{IsSafe}
use gamebro.Base.{throws, assertion, out_of_bounds, too_deep, too_long}
use gamebro.Safety.Rules.{Any}
use gamebro.Safety.Peeks.{peekop8-Peeks}
use gamebro.Safety.Printers.{fits, decode-fits, printer-Peeks}
use gamebro.Safety.Access.{Sound}
use gamebro.Safety.Power.{handle_speed_switch-Safely}
use gamebro.Safety.Step.{handler-Safely, quiet, quiet-Safely}
use gamebro.Debug.{print_and_pause}
use gamebro.Cpu.Execute.{Callbacks, Sets}
use gamebro.Debug.Rules.{weaker-Soundly}
use gamebro.Debug.Rules.{
  Grade, Soundly, also, ending, Handles, Handles-bind, Soundly-bind, Soundly-pure, Soundly-if,
}
use gamebro.Debug.Answers.{AreSound}
use gamebro.Debug.Refusal.{refused}
use gamebro.Debug.Pause.{print_and_pause-Handles}
use gamebro.Debug.Steady.{
  Peeks-May, Safely-May, break_time-May, gets-May, handle_interrupts-May, registers-May, tick-then,
}

module _ (allowed : Grade) (callbacks : Callbacks) (sound : AreSound allowed callbacks) where
  pause-Handles :
      (opcode : ℕ) (m : Machine)
      → opcode < 256
      → Sound (tt, m)
      → Handles (ending allowed) Any (print_and_pause callbacks opcode m)
  pause-Handles opcode m h s =
      weaker-Handles (also (refused callbacks m) allowed) (print_and_pause callbacks opcode m)
        (λ k. k) (print_and_pause-Handles allowed callbacks sound opcode m h s.0 s.1)
    where
      weaker-Handles :
          (b : Grade) (o : Outcome (Unit₀ × Machine))
          → (b.endless ≡ true → allowed.endless ≡ true)
          → Handles b Any o
          → Handles (ending allowed) Any o
      weaker-Handles b (ok out) k r = r
      weaker-Handles b (fault throws) k r = refl
      weaker-Handles b (fault assertion) k r = refl
      weaker-Handles b (fault out_of_bounds) k r = absurd r
      weaker-Handles b (fault too_deep) k r = absurd r
      weaker-Handles b (fault too_long) k r = k r

  -- What a callback may do is more than it does.
  calling : (f : M Unit₀) → Sets callbacks f → Soundly (ending allowed) Any f
  calling f k = weaker-Soundly allowed (ending allowed) (λ e. refl) (λ e. e) (sound.each f k)

  handler-Handles :
      (i : Instruction) (opcode : ℕ)
      → opcode < 256
      → fits i opcode ≡ true
      → (m : Machine) → IsSafe m
      → Handles (ending allowed) Any (handler (print_and_pause callbacks) i opcode m)
  unfolding handler
  handler-Handles Instruction.nop opcode h f m s =
      Safely-May (ending allowed) (handler-Safely quiet quiet-Safely Instruction.nop opcode f) m s
  handler-Handles Instruction.ld_n_sp opcode h f m s =
      Safely-May (ending allowed) (handler-Safely quiet quiet-Safely Instruction.ld_n_sp opcode f) m
        s
  handler-Handles Instruction.ld_r_n opcode h f m s =
      Safely-May (ending allowed) (handler-Safely quiet quiet-Safely Instruction.ld_r_n opcode f) m
        s
  handler-Handles Instruction.add_hl_r opcode h f m s =
      Safely-May (ending allowed) (handler-Safely quiet quiet-Safely Instruction.add_hl_r opcode f)
        m s
  handler-Handles Instruction.ld_r_a_r opcode h f m s =
      Safely-May (ending allowed) (handler-Safely quiet quiet-Safely Instruction.ld_r_a_r opcode f)
        m s
  handler-Handles Instruction.inc_dec_r opcode h f m s =
      Safely-May (ending allowed) (handler-Safely quiet quiet-Safely Instruction.inc_dec_r opcode f)
        m s
  handler-Handles Instruction.inc_dec_d opcode h f m s =
      Safely-May (ending allowed) (handler-Safely quiet quiet-Safely Instruction.inc_dec_d opcode f)
        m s
  handler-Handles Instruction.ld_d_n opcode h f m s =
      Safely-May (ending allowed) (handler-Safely quiet quiet-Safely Instruction.ld_d_n opcode f) m
        s
  handler-Handles Instruction.ld_d_d opcode h f m s =
      Safely-May (ending allowed) (handler-Safely quiet quiet-Safely Instruction.ld_d_d opcode f) m
        s
  handler-Handles Instruction.ld_n_a_n opcode h f m s =
      Safely-May (ending allowed) (handler-Safely quiet quiet-Safely Instruction.ld_n_a_n opcode f)
        m s
  handler-Handles Instruction.jr_n opcode h f m s =
      Safely-May (ending allowed) (handler-Safely quiet quiet-Safely Instruction.jr_n opcode f) m s
  handler-Handles Instruction.rlc_rrc opcode h f m s =
      Safely-May (ending allowed) (handler-Safely quiet quiet-Safely Instruction.rlc_rrc opcode f) m
        s
  handler-Handles Instruction.ldid_hl_a opcode h f m s =
      Safely-May (ending allowed) (handler-Safely quiet quiet-Safely Instruction.ldid_hl_a opcode f)
        m s
  handler-Handles Instruction.daa opcode h f m s =
      Safely-May (ending allowed) (handler-Safely quiet quiet-Safely Instruction.daa opcode f) m s
  handler-Handles Instruction.cpl_a opcode h f m s =
      Safely-May (ending allowed) (handler-Safely quiet quiet-Safely Instruction.cpl_a opcode f) m s
  handler-Handles Instruction.scf_ccf opcode h f m s =
      Safely-May (ending allowed) (handler-Safely quiet quiet-Safely Instruction.scf_ccf opcode f) m
        s
  handler-Handles Instruction.halt opcode h f m s =
      Safely-May (ending allowed) (handler-Safely quiet quiet-Safely Instruction.halt opcode f) m s
  handler-Handles Instruction.alu_a_d opcode h f m s =
      Safely-May (ending allowed) (handler-Safely quiet quiet-Safely Instruction.alu_a_d opcode f) m
        s
  handler-Handles Instruction.alu_a_n opcode h f m s =
      Safely-May (ending allowed) (handler-Safely quiet quiet-Safely Instruction.alu_a_n opcode f) m
        s
  handler-Handles Instruction.push_pop opcode h f m s =
      Safely-May (ending allowed) (handler-Safely quiet quiet-Safely Instruction.push_pop opcode f)
        m s
  handler-Handles Instruction.rst opcode h f m s =
      Safely-May (ending allowed) (handler-Safely quiet quiet-Safely Instruction.rst opcode f) m s
  handler-Handles Instruction.ret opcode h f m s =
      Safely-May (ending allowed) (handler-Safely quiet quiet-Safely Instruction.ret opcode f) m s
  handler-Handles Instruction.reti opcode h f m s =
      Safely-May (ending allowed) (handler-Safely quiet quiet-Safely Instruction.reti opcode f) m s
  handler-Handles Instruction.stop opcode h f m s =
      Safely-May (ending allowed) (handler-Safely quiet quiet-Safely Instruction.stop opcode f) m s
  handler-Handles Instruction.jp opcode h f m s =
      Safely-May (ending allowed) (handler-Safely quiet quiet-Safely Instruction.jp opcode f) m s
  handler-Handles Instruction.call opcode h f m s =
      Safely-May (ending allowed) (handler-Safely quiet quiet-Safely Instruction.call opcode f) m s
  handler-Handles Instruction.add_sp_n opcode h f m s =
      Safely-May (ending allowed) (handler-Safely quiet quiet-Safely Instruction.add_sp_n opcode f)
        m s
  handler-Handles Instruction.ld_ff00_a opcode h f m s =
      Safely-May (ending allowed) (handler-Safely quiet quiet-Safely Instruction.ld_ff00_a opcode f)
        m s
  handler-Handles Instruction.ld_hl_sp opcode h f m s =
      Safely-May (ending allowed) (handler-Safely quiet quiet-Safely Instruction.ld_hl_sp opcode f)
        m s
  handler-Handles Instruction.jp_hl opcode h f m s =
      Safely-May (ending allowed) (handler-Safely quiet quiet-Safely Instruction.jp_hl opcode f) m s
  handler-Handles Instruction.di_ei opcode h f m s =
      Safely-May (ending allowed) (handler-Safely quiet quiet-Safely Instruction.di_ei opcode f) m s
  handler-Handles Instruction.cb_ext opcode h f m s =
      Safely-May (ending allowed) (handler-Safely quiet quiet-Safely Instruction.cb_ext opcode f) m
        s
  handler-Handles Instruction.missing opcode h f m s = pause-Handles opcode m h (s.valid, s.control)

  execute-May : Soundly (ending allowed) Any (execute (print_and_pause callbacks))
  unfolding execute
  execute-May = Soundly-bind (Peeks-May (peekop8-Peeks 0)) (λ opcode h.
      Soundly-bind {P = Any} (gets-May (λ m. m.verbose_instructions)) (λ verbose u.
        Soundly-bind {P = Any}
          (Soundly-if verbose
            (λ e. Peeks-May (printer-Peeks (decode opcode) opcode (decode-fits opcode h)))
            (λ e. Soundly-pure tt))
          (λ u v.
            Soundly-bind {P = Any}
              (registers-May
                (λ c. record c {
                  registers = let r = c.registers in record r { pc = (r.pc + 1) % 65536 };
                })
                (λ c r. ground (arith, r)))
              (λ u v. tick-then _ (λ m s.
                Handles-bind (ending allowed) Any Any
                  (handler (print_and_pause callbacks) (decode opcode) opcode) _ m
                  (handler-Handles (decode opcode) opcode h (decode-fits opcode h) m s)
                  (λ u m' p s'.
                    (Soundly-bind {P = Any} (gets-May (λ m. m.cpu.registers)) (λ r v.
                        Soundly-if (outside_code (print_and_pause callbacks) r.pc)
                          (λ e. registers-May (λ c. record c { m_break = true }) (λ c r. r))
                          (λ e. Soundly-pure tt))).run
                      m' s'))))))

  run_step-May : Soundly (ending allowed) Any (run_step callbacks (print_and_pause callbacks))
  unfolding run_step
  run_step-May = Soundly-bind {P = Any} (handle_interrupts-May callbacks calling) (λ u v.
      Soundly-bind {P = Any} (gets-May (λ m. m.cpu)) (λ c v.
        Soundly-if (not c.asleep && not c.stopped) (λ e. execute-May)
          (λ e. tick-then _ (λ m s. Safely-May (ending allowed) handle_speed_switch-Safely m s))))

  pause-May : Soundly (ending allowed) Any (peekop8 0 >>= print_and_pause callbacks)
  pause-May =
      Soundly-bind (Peeks-May (peekop8-Peeks 0))
        (λ opcode h. record { run = λ m s. pause-Handles opcode m h s })

  break_checks-May : Soundly (ending allowed) Any (break_checks (print_and_pause callbacks))
  unfolding break_checks
  break_checks-May = Soundly-bind {P = Any} break_time-May (λ due u.
      Soundly-bind {P = Any}
        (Soundly-if due
          (λ e.
            Soundly-bind
              (Soundly-bind {P = Any} (registers-May (λ c. record c { m_break = false }) (λ c r. r))
                (λ u v. Peeks-May (peekop8-Peeks 0)))
              (λ opcode h. record { run = λ m s. pause-Handles opcode m h s }))
          (λ e. Soundly-pure tt))
        (λ u v. Soundly-bind {P = Any} (gets-May (λ m. m.cpu)) (λ c v.
          Soundly-if (is_breakpoint c.registers.pc c.breakpoints) (λ e. pause-May)
            (λ e. Soundly-pure tt))))

  pub simulate-May : Soundly (ending allowed) Any (simulate callbacks (print_and_pause callbacks))
  unfolding simulate
  simulate-May = Soundly-bind {P = Any} break_time-May (λ due u.
      Soundly-bind {P = Any} (gets-May (λ m. m.cpu)) (λ c v.
        Soundly-if (due || not (is_empty c.breakpoints))
          (λ e.
            Soundly-bind {P = Any}
              (Soundly-bind {P = Any} break_checks-May (λ u v. gets-May (λ m. m.running)))
              (λ running v. Soundly-if running (λ e. run_step-May) (λ e. Soundly-pure tt)))
          (λ e. run_step-May)))
