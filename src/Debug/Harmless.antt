-- ===== src/Debug/Harmless.antt =====
-- Every command of `execute_commands` in libgbc/debug.cpp on a machine that is valid and in order.
use gamebro.Base.{
  ℕ, zero, suc, ◌+◌, ◌%◌, ◌<◌, ◌≤◌, ◌≡◌, refl, arith, List, [], ◌∷◌, ◌++◌, Bool, true, false, not,
  ◌&&◌, ltb, if◌then◌else◌, bit_and, and-le, Outcome, ok, fault, throws, Fault, Returns, ℤ, pos,
  negsuc,
}
use gamebro.State.{Machine, Memory}
use gamebro.State.Monad.{Unit₀, modify, modify_gpu}
use gamebro.Gpu.{lcd_enabled}
use gamebro.Video.Render.{render_scanline}
use gamebro.Machine.{reset}
use gamebro.Safety.{IsSafe}
use gamebro.Safety.Rules.{Any}
use gamebro.Safety.Access.{Sound}
use gamebro.Safety.Screen.{with_pixels, drawn-IsValid, Draws, render_scanline-Draws}
use gamebro.Safety.Runs.{reset-IsSafe}
use gamebro.Debug.Parse.{Text, stoi, strtoul, low_byte}
use gamebro.Debug.Commands.{
  lift, rounds, break_on_steps, default_pausepoint, resume, step, break_at, clear, trap, verbose,
  run, quit, restart, dump, read, write, read_vram, render_lines, render_frame,
}
use gamebro.Debug.Refusal.{is_negative, no_number, no_count, later}
use gamebro.Debug.Rules.{
  Grade, Handles, Soundly, Soundly-bind, Soundly-then, Soundly-pure, Soundly-if, modify_cpu-Soundly,
  modify_flags-Soundly, with_traps-Sound, read8-Soundly, write8-Soundly,
}

abbrev OnlyThrows : {A : Type 0} → Outcome A → Type 0
OnlyThrows (ok a) = Unit
OnlyThrows (fault e) = e ≡ throws

stoi-OnlyThrows : (s : Text) → OnlyThrows (stoi s)
unfolding stoi
stoi-OnlyThrows s = ground arith

low_byte-lt : (v : ℤ) → low_byte v < 256
low_byte-lt (pos n) = omega arith
low_byte-lt (negsuc n) = omega arith

-- Drawing changes the pixels and the debugger's flag.
drawn-Sound :
    (m : Machine) (b : Bool) (pixels : ℕ → ℕ) → Sound (tt, m) → Sound (tt, with_pixels b pixels m)
drawn-Sound m b pixels s = (
  drawn-IsValid m b pixels s.0,
  record {
    registers = s.1.registers;
    speed = s.1.speed;
    period_small = s.1.period_small;
    screen = s.1.screen;
    transfers = s.1.transfers;
  },
)

module _ {bad : Grade} where
  lift-Soundly :
      {A : Type 0} (P : A → Type 0) (o : Outcome A)
      → OnlyThrows o
      → ((a : A) → o ≡ ok a → P a)
      → ((e : Fault) → o ≡ fault e → bad.ends ≡ true)
      → Soundly bad P (lift o)
  lift-Soundly P (ok a) t p b = record { run = λ m s. (p a refl, s) }
  lift-Soundly P (fault e) t p b = record { run = λ m s. rw t (b e refl) }

  count-Soundly :
      (args : List Text)
      → (no_count args ≡ true → bad.ends ≡ true)
      → Soundly bad
          (λ z. is_negative z ≡ true → bad.ends ≡ true)
          (lift (elim args as (λ a. Outcome ℤ) [ [] ↦ ok (pos 1) | arg ∷ _ ↦ stoi arg ]))
  count-Soundly [] h = record { run = λ m s. (λ e. absurd (ground (arith, e)), s) }
  count-Soundly (arg ∷ args) h =
      lift-Soundly (λ z. is_negative z ≡ true → bad.ends ≡ true) (stoi arg) (stoi-OnlyThrows arg)
        (λ z e n. h (rw (e, no_count) n)) (λ f e. h (rw (e, no_count) refl))

  number-Soundly :
      (arg : Text) (args : List Text)
      → (no_number (arg ∷ args) ≡ true → bad.ends ≡ true)
      → Soundly bad Any (lift (stoi arg))
  number-Soundly arg args h =
      lift-Soundly Any (stoi arg) (stoi-OnlyThrows arg) (λ z e. tt)
        (λ f e. h (rw (e, no_number) refl))

  size-Soundly :
      (args : List Text)
      → (no_number args ≡ true → bad.ends ≡ true)
      → Soundly bad Any
          (lift (elim args as (λ a. Outcome ℤ) [ [] ↦ ok (pos 1) | arg ∷ _ ↦ stoi arg ]))
  size-Soundly [] h = Soundly-pure (pos 1)
  size-Soundly (arg ∷ args) h = number-Soundly arg args h

  break_on_steps-Soundly :
      (steps : ℤ)
      → (is_negative steps ≡ true → bad.ends ≡ true)
      → Soundly bad Any (break_on_steps steps)
  unfolding break_on_steps
  break_on_steps-Soundly (pos n) h =
      modify_cpu-Soundly (λ c. record c { break_steps = n % 65536; break_steps_cnt = n % 65536 })
        (λ c. refl)
  break_on_steps-Soundly (negsuc n) h = record { run = λ m s. h refl }

  no_steps-Soundly : Soundly bad Any (break_on_steps (pos 0))
  no_steps-Soundly = break_on_steps-Soundly (pos 0) (λ e. absurd (ground (arith, e)))

  pub resume-Soundly : Soundly bad Any resume
  unfolding resume
  resume-Soundly = Soundly-then no_steps-Soundly (Soundly-pure false)

  pub step-Soundly :
      (args : List Text) → (no_count args ≡ true → bad.ends ≡ true) → Soundly bad Any (step args)
  unfolding step
  step-Soundly args h =
      Soundly-bind
        (Soundly-then (modify_flags-Soundly (λ m. true) (λ m. m.running)) (count-Soundly args h))
        (λ steps n. Soundly-then (break_on_steps-Soundly steps n) (Soundly-pure false))

  pub break_at-Soundly : (args : List Text) → Soundly bad Any (break_at args)
  unfolding break_at default_pausepoint
  break_at-Soundly [] = Soundly-pure true
  break_at-Soundly (addr ∷ args) =
      Soundly-then (modify_cpu-Soundly (default_pausepoint (strtoul addr % 65536)) (λ c. refl))
        (Soundly-pure true)

  pub clear-Soundly : Soundly bad Any clear
  unfolding clear
  clear-Soundly =
      Soundly-then (modify_cpu-Soundly (λ c. record c { breakpoints = [] }) (λ c. refl))
        (Soundly-pure true)

  pub trap-Soundly : (reading : Bool) (args : List Text) → Soundly bad Any (trap reading args)
  unfolding trap
  trap-Soundly reading [] = Soundly-pure true
  trap-Soundly true (addr ∷ args) = record {
    run = λ m s.
        let mem : Memory = m.memory in
        let locs : List ℕ = mem.read_breakpoints ++ strtoul addr % 65536 ∷ [] in
        (tt, with_traps-Sound m locs mem.write_breakpoints s);
  }
  trap-Soundly false (addr ∷ args) = record {
    run = λ m s.
        let mem : Memory = m.memory in
        let locs : List ℕ = mem.write_breakpoints ++ strtoul addr % 65536 ∷ [] in
        (tt, with_traps-Sound m mem.read_breakpoints locs s);
  }

  pub verbose-Soundly : Soundly bad Any verbose
  unfolding verbose
  verbose-Soundly =
      Soundly-then (modify_flags-Soundly (λ m. not m.verbose_instructions) (λ m. m.running))
        (Soundly-pure true)

  pub run-Soundly : Soundly bad Any run
  unfolding run
  run-Soundly =
      Soundly-then
        (Soundly-then (modify_flags-Soundly (λ m. false) (λ m. m.running)) no_steps-Soundly)
        (Soundly-pure false)

  pub quit-Soundly : Soundly bad Any quit
  unfolding quit
  quit-Soundly =
      Soundly-then (modify_flags-Soundly (λ m. m.verbose_instructions) (λ m. false))
        (Soundly-pure false)

  reset-Soundly : Soundly bad Any (modify reset)
  reset-Soundly = record {
    run = λ m s. let r : IsSafe (reset m) = reset-IsSafe m s.0 s.1 in (tt, (r.valid, r.control));
  }

  pub restart-Soundly : Soundly bad Any restart
  unfolding restart
  restart-Soundly =
      Soundly-then
        (Soundly-then reset-Soundly
          (modify_cpu-Soundly (λ c. record c { m_break = true }) (λ c. refl)))
        (Soundly-pure false)

  dump-Soundly : (left addr : ℕ) → Soundly bad Any (dump left addr)
  unfolding dump
  dump-Soundly zero addr = Soundly-pure tt
  dump-Soundly (suc left) addr =
      Soundly-bind {P = Any} (read8-Soundly (addr % 65536) (omega arith))
        (λ x u. dump-Soundly left (addr + 1))

  pub read-Soundly :
      (args : List Text)
      → (no_number (later args) ≡ true → bad.ends ≡ true)
      → Soundly bad Any (read args)
  unfolding read
  read-Soundly [] h = Soundly-pure true
  read-Soundly (addr ∷ args) h =
      Soundly-bind {P = Any} (size-Soundly args h)
        (λ bytes u. Soundly-then (dump-Soundly (rounds bytes) (strtoul addr)) (Soundly-pure true))

  pub write-Soundly :
      (args : List Text)
      → (no_number (later args) ≡ true → bad.ends ≡ true)
      → Soundly bad Any (write args)
  unfolding write
  write-Soundly [] h = Soundly-pure true
  write-Soundly (addr ∷ []) h = Soundly-pure true
  write-Soundly (addr ∷ value ∷ args) h =
      Soundly-bind {P = Any} (number-Soundly value args h) (λ v u.
        Soundly-then
          (write8-Soundly (strtoul addr % 65536) (low_byte v) (omega arith) (low_byte-lt v))
          (Soundly-pure true))

  pub read_vram-Soundly :
      (off : ℕ) (args : List Text) → off ≤ 0x2000 → Soundly bad Any (read_vram off args)
  unfolding read_vram
  read_vram-Soundly off [] h = Soundly-pure true
  read_vram-Soundly off (addr ∷ args) h =
      Soundly-if (ltb (off + bit_and (strtoul addr) 0x1fff) 16384) (λ e. Soundly-pure true)
        (λ e. absurd (ground (arith, e, h, and-le (strtoul addr) 0x1fff)))

  render_scanline-Soundly : (y : ℕ) → y < 144 → Soundly bad Any (render_scanline y)
  render_scanline-Soundly y h = record {
    run = λ m s. go m s (render_scanline y m) (render_scanline-Draws m y s.0 h);
  }
    where
      go :
          (m : Machine)
          → Sound (tt, m)
          → (o : Outcome (Unit₀ × Machine)) → Returns (Draws m) o
          → Handles bad Any o
      go m s (ok out) e = (tt, rw e (drawn-Sound m out.1.cpu.m_break out.1.gpu.pixels s))
      go m s (fault e) r = absurd r

  render_lines-Soundly : (left y : ℕ) → left + y ≤ 144 → Soundly bad Any (render_lines left y)
  unfolding render_lines
  render_lines-Soundly zero y h = Soundly-pure tt
  render_lines-Soundly (suc left) y h =
      Soundly-then (render_scanline-Soundly y (omega arith))
        (render_lines-Soundly left (y + 1) (omega arith))

  blank-Soundly : Soundly bad Any (modify_gpu (λ g. record g { pixels = λ i. 32 }))
  blank-Soundly = record { run = λ m s. (tt, drawn-Sound m m.cpu.m_break (λ i. 32) s) }

  pub render_frame-Soundly : Soundly bad Any render_frame
  unfolding render_frame
  render_frame-Soundly = record { run = λ m s. (choice m).run m s }
    where
      choice :
          (m : Machine)
          → Soundly bad Any (
              if not m.gpu.white_frame && lcd_enabled m.io
              then render_lines 144 0
              else modify_gpu (λ g. record g { pixels = λ i. 32 }))
      choice m =
          Soundly-if (not m.gpu.white_frame && lcd_enabled m.io)
            (λ e. render_lines-Soundly 144 0 (omega arith)) (λ e. blank-Soundly)
