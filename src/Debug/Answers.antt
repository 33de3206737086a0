-- ===== src/Debug/Answers.antt =====
-- The chain of commands of `execute_commands` in libgbc/debug.cpp, and the callbacks of a client.
use gamebro.Base.{◌≤◌, ◌≡◌, refl, arith, List, [], Bool, true, false, not, ◌||◌, if◌then◌else◌}
use gamebro.State.Monad.{Unit₀}
use gamebro.Safety.Rules.{Any}
use gamebro.Debug.Parse.{Text, codes, is}
use gamebro.Base.{Option, none, some}
use gamebro.Cpu.Execute.{Callbacks, Sets}
use gamebro.Base.{inl, inr}
use gamebro.Debug.Commands.{call, is_set, look_command, read_vram, show_frame, debug, run_command}
use gamebro.Debug.Refusal.{refuses}
use gamebro.Debug.Rules.{
  Grade, also, weaker-Soundly, Soundly, Soundly-then, Soundly-pure, Soundly-if,
}
use gamebro.State.Monad.{M}
use gamebro.Debug.Harmless.{
  resume-Soundly, step-Soundly, break_at-Soundly, clear-Soundly, trap-Soundly, verbose-Soundly,
  run-Soundly, quit-Soundly, restart-Soundly, read-Soundly, write-Soundly, read_vram-Soundly,
  render_frame-Soundly,
}

-- The callbacks keep the machine valid and in order, or end as their grade allows.
pub record AreSound (allowed : Grade) (callbacks : Callbacks) : Type 0 where
  pub each : (f : M Unit₀) → Sets callbacks f → Soundly allowed Any f

call-Soundly :
    {bad allowed : Grade} (callback : Option (M Unit₀))
    → ((f : M Unit₀) → callback ≡ some f → Soundly allowed Any f)
    → (allowed.ends ≡ true → bad.ends ≡ true)
    → (allowed.endless ≡ true → bad.endless ≡ true)
    → (not (is_set callback) ≡ true → bad.ends ≡ true)
    → Soundly bad Any (call callback)
call-Soundly none h k k' b = record { run = λ m s. b refl }
call-Soundly {bad} {allowed} (some f) h k k' b = weaker-Soundly allowed bad k k' (h f refl)

module _ (allowed : Grade) (callbacks : Callbacks) (sound : AreSound allowed callbacks) where
  show_frame-Soundly :
      {bad : Grade}
      → (allowed.ends ≡ true → bad.ends ≡ true)
      → (allowed.endless ≡ true → bad.endless ≡ true)
      → Soundly bad Any (show_frame callbacks)
  unfolding show_frame
  show_frame-Soundly {bad} k k' =
      Soundly-then
        (Soundly-then render_frame-Soundly (
          Soundly-if {P = Any} (is_set callbacks.vblank)
            (λ e.
              call-Soundly callbacks.vblank (λ f k. sound.each f (inl k)) k k'
                (λ b. absurd (ground (arith, e, b))))
            (λ e. Soundly-pure tt)))
        (Soundly-pure true)

  debug-Soundly :
      {bad : Grade}
      → (allowed.ends ≡ true → bad.ends ≡ true)
      → (allowed.endless ≡ true → bad.endless ≡ true)
      → (not (is_set callbacks.debugint) ≡ true → bad.ends ≡ true)
      → Soundly bad Any (debug callbacks)
  unfolding debug
  debug-Soundly k k' b =
      Soundly-then
        (call-Soundly callbacks.debugint (λ f k. sound.each f (inr (inr (inr k)))) k k' b)
        (Soundly-pure true)

  bank : (b : Bool) → (if b then 0 else 0x2000) ≤ 0x2000
  bank b = ground arith

  vram-Soundly :
      {bad : Grade} (b : Bool) (args : List Text)
      → Soundly bad Any (read_vram (if b then 0 else 0x2000) args)
  vram-Soundly b args = read_vram-Soundly (if b then 0 else 0x2000) args (bank b)

  look_command-Soundly :
      (cmd : Text) (args : List Text)
      → Soundly (also (refuses callbacks cmd args) allowed) Any (look_command callbacks cmd args)
  unfolding look_command refuses
  look_command-Soundly cmd args =
      Soundly-if (is cmd (codes "ld") || is cmd (codes "read"))
        (λ e. read-Soundly args (λ b. ground (arith, e, b)))
        (λ e.
          Soundly-if (is cmd (codes "write")) (λ e. write-Soundly args (λ b. ground (arith, e, b)))
            (λ e.
              Soundly-if (is cmd (codes "readv0") || is cmd (codes "readv1"))
                (λ e. vram-Soundly (is cmd (codes "readv0")) args)
                (λ e.
                  Soundly-if (is cmd (codes "vblank") || is cmd (codes "vbl"))
                    (λ e. show_frame-Soundly (λ a. ground (arith, a)) (λ a. a))
                    (λ e.
                      Soundly-if (is cmd (codes "frame") || is cmd (codes "fr"))
                        (λ e. Soundly-pure true)
                        (λ e.
                          Soundly-if (is cmd (codes "debug"))
                            (λ e.
                              debug-Soundly (λ a. ground (arith, a)) (λ a. a)
                                (λ b. ground (arith, e, b)))
                            (λ e. Soundly-pure true))))))

  -- Whatever the command and its parameters are, from a machine that is valid and in order a
  -- command of the debugger leads to such a machine: it leaves no array, and it throws or fails
  -- an assertion only where it is one that `refuses` describes or calls a callback that does.
  pub run_command-Soundly :
      (cmd : Text) (args : List Text)
      → Soundly (also (refuses callbacks cmd args) allowed) Any (run_command callbacks cmd args)
  unfolding run_command refuses
  run_command-Soundly cmd args =
      Soundly-if (is cmd (codes "c") || is cmd (codes "continue")) (λ e. resume-Soundly)
        (λ e.
          Soundly-if (is cmd []) (λ e. Soundly-pure false)
            (λ e.
              Soundly-if (is cmd (codes "s") || is cmd (codes "step"))
                (λ e. step-Soundly args (λ b. ground (arith, e, b)))
                (λ e.
                  Soundly-if (is cmd (codes "b") || is cmd (codes "break"))
                    (λ e. break_at-Soundly args)
                    (λ e.
                      Soundly-if (is cmd (codes "clear")) (λ e. clear-Soundly)
                        (λ e.
                          Soundly-if (is cmd (codes "rb") || is cmd (codes "wb"))
                            (λ e. trap-Soundly (is cmd (codes "rb")) args)
                            (λ e.
                              Soundly-if (is cmd (codes "v") || is cmd (codes "verbose"))
                                (λ e. verbose-Soundly)
                                (λ e.
                                  Soundly-if (is cmd (codes "r") || is cmd (codes "run"))
                                    (λ e. run-Soundly)
                                    (λ e.
                                      Soundly-if
                                        (is cmd (codes "q")
                                          || is cmd (codes "quit")
                                          || is cmd (codes "exit"))
                                        (λ e. quit-Soundly)
                                        (λ e.
                                          Soundly-if (is cmd (codes "reset")) (λ e. restart-Soundly)
                                            (λ e. look_command-Soundly cmd args))))))))))
