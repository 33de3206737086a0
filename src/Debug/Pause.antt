-- ===== src/Debug/Pause.antt =====
-- `CPU::print_and_pause` of libgbc/debug.cpp comes back, whatever is typed at the terminal.
use gamebro.Base.{
  ℕ, zero, suc, ◌<◌, ◌≤◌, ◌≡◌, refl, arith, List, [], ◌∷◌, Bool, false, if◌then◌else◌, ◌||◌,
  Outcome, ok, fault, Returns,
}
use gamebro.Registers.{hl}
use gamebro.State.{Machine}
use gamebro.State.Monad.{M, Unit₀, pure, ◌>>=◌, ◌>>◌, modify, stop_with}
use gamebro.State.Ports.{reg_if, reg_ie, reg_ly, reg_lcdc}
use gamebro.Io.{read_io}
use gamebro.Memory.{read16}
use gamebro.Memory.Invariant.{Looks, with_break}
use gamebro.Memory.Invariant.{IsValid}
use gamebro.Safety.Access.{Sound}
use gamebro.Memory.Control.{Control, Control-Frame}
use gamebro.Cpu.{regs}
use gamebro.Cpu.Decode.{decode}
use gamebro.Cpu.Printers.{printer}
use gamebro.Safety.Rules.{Any}
use gamebro.Safety.Peeks.{
  Peeks, Peeks-bind, Peeks-pure, with_break-Sound, regs-Peeks, read16-Peeks, read_io-Peeks,
}
use gamebro.Debug.Refusal.{refuses, refuses_line, some_refused, refused}
use gamebro.Safety.Printers.{decode-fits, printer-Peeks}
use gamebro.Debug.{read_line, execute_line, command_loop, is_thrown, attempt, print_and_pause}
use gamebro.Base.{length}
use gamebro.Debug.Parse.{Text, split}
use gamebro.Debug.Rules.{
  Grade, also, Handles, Soundly, Soundly-pure, Soundly-bind, Soundly-if, weaker-Soundly,
}
use gamebro.Cpu.Execute.{Callbacks}
use gamebro.Debug.Commands.{run_command}
use gamebro.Debug.Answers.{AreSound, run_command-Soundly}

-- Reading a line leaves no more than there was, and less where it has text in it.
read_line_le : (console : List ℕ) → length (read_line console).1 ≤ length console
unfolding read_line
read_line_le [] = omega arith
read_line_le (c ∷ cs) = ground (arith, read_line_le cs)

read_line_lt :
    (console : List ℕ) (c : ℕ) (cs : Text)
    → (read_line console).0 ≡ c ∷ cs
    → length (read_line console).1 < length console
unfolding read_line
read_line_lt [] c cs e = ground (arith, e)
read_line_lt (d ∷ ds) c cs e = ground (arith, e, read_line_le ds)

leave-Soundly :
    {bad : Grade} (rest : List ℕ) → Soundly bad Any (modify (λ m. record m { console = rest }))
leave-Soundly rest = record {
  run = λ m s. (
    tt,
    (
      ground (arith, s.0),
      Control-Frame m (record m { console = rest }) (refl, refl, refl, refl) s.1,
    ),
  );
}

attempt-Peeks : (p : M Unit₀) → Peeks Any p → Peeks Any (attempt p)
unfolding attempt
attempt-Peeks p s = record { run = λ m v. go m (p m) (s.run m v) }
  where
    go :
        (m : Machine) (o : Outcome (Unit₀ × Machine))
        → Returns (λ out. Any out.0 × Looks m out) o
        → Returns
            (λ out. Any out.0 × Looks m out)
            (elim o as (λ o. Outcome (Unit₀ × Machine)) [
              | ok out ↦ ok out
              | fault e ↦ if is_thrown e then pure tt m else stop_with e m
            ])
    go m (ok out) r = r
    go m (fault e) r = absurd r

words-Peeks : Peeks Any (regs >>= λ r. read16 (hl r) >> read16 r.sp >> pure tt)
words-Peeks = Peeks-bind regs-Peeks (λ r k.
    Peeks-bind
      (Peeks-bind (read16-Peeks (hl r) (ground (arith, k))) (λ x h. read16-Peeks r.sp k.sp_word))
      (λ x h. Peeks-pure tt tt))

-- What is read to be printed, and then the loop.
Peeks-Handles :
    {A B : Type 0} {P : A → Type 0} (bad : Grade) (p : M A) (f : A → M B) (m : Machine)
    → Peeks P p
    → Sound (tt, m)
    → ((a : A) (b : Bool) → Sound (tt, with_break b m) → Handles bad Any (f a (with_break b m)))
    → Handles bad Any ((p >>= f) m)
Peeks-Handles {A} {B} {P} bad p f m h s next = go (p m) (h.run m s)
  where
    go :
        (o : Outcome (A × Machine))
        → Returns (λ out. P out.0 × Looks m out) o
        → Handles bad Any (elim o [ ok (a, m') ↦ f a m' | fault e ↦ fault e ])
    go (ok (a, m')) r =
        let b : Bool = m'.cpu.m_break in rw (r.1) (next a b (with_break-Sound b m s))
    go (fault e) r = absurd r

module _ (allowed : Grade) (callbacks : Callbacks) (sound : AreSound allowed callbacks) where
  execute_line-Soundly :
      (text : Text)
      → Soundly (also (refuses_line callbacks text) allowed) Any (execute_line callbacks text)
  unfolding execute_line refuses_line
  execute_line-Soundly text = go (split text b' ')
    where
      go :
          (params : List Text)
          → Soundly
              (also
                (elim params as (λ p. Bool) [
                  | [] ↦ false
                  | cmd ∷ args ↦ refuses callbacks cmd args
                ])
                allowed)
              Any
              (elim params as (λ p. M Bool) [
                | [] ↦ pure false
                | cmd ∷ args ↦ run_command callbacks cmd args
              ])
      go [] = Soundly-pure false
      go (cmd ∷ args) = run_command-Soundly allowed callbacks sound cmd args

  command_loop-Soundly :
      (fuel : ℕ) (console : List ℕ)
      → length console < fuel
      → Soundly
          (also (some_refused callbacks fuel console) allowed)
          Any
          (command_loop callbacks fuel console)
  unfolding command_loop some_refused
  command_loop-Soundly zero console h = absurd (omega arith)
  command_loop-Soundly (suc fuel) console h =
      go (read_line console).0 refl
        (λ k. command_loop-Soundly fuel (read_line console).1 (omega (arith, h, k)))
    where
      more : Bool
      more = some_refused callbacks fuel (read_line console).1

      go :
          (text : Text)
          → (read_line console).0 ≡ text
          → (length (read_line console).1 < length console
              → Soundly (also more allowed) Any (command_loop callbacks fuel (read_line console).1))
          → Soundly
              (also
                (elim text as (λ t. Bool) [
                  | [] ↦ false
                  | c ∷ cs ↦ refuses_line callbacks (c ∷ cs) || more
                ])
                allowed)
              Any
              (elim text as (λ t. M Unit₀) [
                | [] ↦ modify (λ m. record m { console = (read_line console).1 })
                | c ∷ cs ↦ execute_line callbacks (c ∷ cs) >>= λ again.
                    if again
                    then command_loop callbacks fuel (read_line console).1
                    else modify (λ m. record m { console = (read_line console).1 })
              ])
      go [] e later = leave-Soundly (read_line console).1
      go (c ∷ cs) e later =
          let bad : Grade = also (refuses_line callbacks (c ∷ cs) || more) allowed in
          Soundly-bind {P = Any}
            (weaker-Soundly (also (refuses_line callbacks (c ∷ cs)) allowed) bad
              (λ b. ground (arith, b)) (λ b. b) (execute_line-Soundly (c ∷ cs)))
            (λ again u.
              Soundly-if again
                (λ b.
                  weaker-Soundly (also more allowed) bad (λ b. ground (arith, b)) (λ b. b)
                    (later (read_line_lt console c cs e)))
                (λ b. leave-Soundly (read_line console).1))

  pub print_and_pause-Handles :
      (opcode : ℕ) (m : Machine)
      → opcode < 256
      → IsValid m
      → Control m
      → Handles (also (refused callbacks m) allowed) Any (print_and_pause callbacks opcode m)
  unfolding print_and_pause
  print_and_pause-Handles opcode m h v c =
      let bad : Grade = also (refused callbacks m) allowed in
      Peeks-Handles bad (printer (decode opcode) opcode) _ m
        (printer-Peeks (decode opcode) opcode (decode-fits opcode h)) (v, c)
        (λ u b1 s1.
          Peeks-Handles bad (read_io reg_if) _ (with_break b1 m) (read_io-Peeks reg_if) s1
            (λ x b2 s2.
              Peeks-Handles bad (read_io reg_ie) _ (with_break b2 m) (read_io-Peeks reg_ie) s2
                (λ x b3 s3.
                  Peeks-Handles bad (read_io reg_ly) _ (with_break b3 m) (read_io-Peeks reg_ly) s3
                    (λ x b4 s4.
                      Peeks-Handles bad (read_io reg_lcdc) _ (with_break b4 m)
                        (read_io-Peeks reg_lcdc) s4
                        (λ x b5 s5.
                          Peeks-Handles bad
                            (attempt (regs >>= λ r. read16 (hl r) >> read16 r.sp >> pure tt)) _
                            (with_break b5 m) (attempt-Peeks _ words-Peeks) s5
                            (λ u b6 s6.
                              (command_loop-Soundly (suc (length m.console)) m.console
                                  (omega arith)).run
                                (with_break b6 m) s6))))))
