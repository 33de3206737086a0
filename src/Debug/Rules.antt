-- ===== src/Debug/Rules.antt =====
-- How soundness passes through the commands of libgbc/debug.cpp, which may also throw or fail an
-- assertion.
use gamebro.Base.{
  ℕ, ◌<◌, ◌≡◌, refl, ◌||◌, Bool, true, false, if◌then◌else◌, Outcome, ok, fault, throws, assertion,
  out_of_bounds, too_deep, too_long, List, Returns, arith,
}
use gamebro.State.{Machine, Cpu}
use gamebro.State.Monad.{M, Unit₀, pure, ◌>>=◌, ◌>>◌, modify, modify_cpu}
use gamebro.Memory.{read8, write8}
use gamebro.Memory.Invariant.{with_break, with_break-IsValid, read8-Reads, Reads}
use gamebro.Memory.Control.{Control-Frame}
use gamebro.Safety.{IsSafe}
use gamebro.Safety.Rules.{Any}
use gamebro.Safety.Access.{Sound, write8-Sound}

-- How else than by returning a call may end: by an exception or a failed assertion, and by going on
-- for longer than the fuel it is given.
pub record Grade : Type 0 where
  pub ends : Bool
  pub endless : Bool

-- It ends the emulator where `b` holds, and besides as the other grade allows.
abbrev pub also : Bool → Grade → Grade
also b other = record { ends = b || other.ends; endless = other.endless }

-- The same, and it may end the emulator.
abbrev pub ending : Grade → Grade
ending other = record { ends = true; endless = other.endless }

-- The call returns a value with `P` and a machine that is valid and in order, or it ends as its grade
-- allows; it never reads or writes outside an array.
abbrev pub Handles : {A : Type 0} → Grade → (A → Type 0) → Outcome (A × Machine) → Type 0
Handles bad P (ok out) = P out.0 × Sound (tt, out.1)
Handles bad P (fault throws) = bad.ends ≡ true
Handles bad P (fault assertion) = bad.ends ≡ true
Handles bad P (fault too_long) = bad.endless ≡ true
Handles bad P (fault _) = ⊥

pub Handles-bind :
    {A B : Type 0} (bad : Grade) (P : A → Type 0) (Q : B → Type 0) (p : M A) (f : A → M B)
    (m : Machine)
    → Handles bad P (p m)
    → ((a : A) (m' : Machine) → P a → Sound (tt, m') → Handles bad Q (f a m'))
    → Handles bad Q ((p >>= f) m)
Handles-bind {A} bad P Q p f m h next = go (p m) h
  where
    go :
        (o : Outcome (A × Machine))
        → Handles bad P o
        → Handles bad Q (elim o [ ok (a, m') ↦ f a m' | fault e ↦ fault e ])
    go (ok (a, m')) h = next a m' h.0 h.1
    go (fault throws) h = h
    go (fault assertion) h = h
    go (fault out_of_bounds) h = absurd h
    go (fault too_deep) h = absurd h
    go (fault too_long) h = h

-- After a call that returns from a safe machine to a safe machine.
pub Handles-safely :
    {A B : Type 0} (bad : Grade) (P : A → Type 0) (Q : B → Type 0) (p : M A) (f : A → M B)
    (m : Machine)
    → Returns (λ out. P out.0 × IsSafe out.1) (p m)
    → ((a : A) (m' : Machine) → P a → IsSafe m' → Handles bad Q (f a m'))
    → Handles bad Q ((p >>= f) m)
Handles-safely {A} bad P Q p f m h next = go (p m) h
  where
    go :
        (o : Outcome (A × Machine))
        → Returns (λ out. P out.0 × IsSafe out.1) o
        → Handles bad Q (elim o [ ok (a, m') ↦ f a m' | fault e ↦ fault e ])
    go (ok (a, m')) h = next a m' h.0 h.1
    go (fault e) h = absurd h

pub record Soundly {A : Type 0} (bad : Grade) (P : A → Type 0) (p : M A) : Type 0 where
  pub run : (m : Machine) → Sound (tt, m) → Handles bad P (p m)

pub Soundly-bind :
    {bad : Grade} {A B : Type 0} {P : A → Type 0} {Q : B → Type 0} {p : M A} {f : A → M B}
    → Soundly bad P p
    → ((a : A) → P a → Soundly bad Q (f a))
    → Soundly bad Q (p >>= f)
Soundly-bind {bad} {A} {B} {P} {Q} {p} {f} h next = record {
  run = λ m s. Handles-bind bad P Q p f m (h.run m s) (λ a m' r s'. (next a r).run m' s');
}

pub Soundly-then :
    {bad : Grade} {B : Type 0} {Q : B → Type 0} {p : M Unit₀} {k : M B}
    → Soundly bad Any p
    → Soundly bad Q k
    → Soundly bad Q (p >> k)
Soundly-then h next = Soundly-bind h (λ u r. next)

pub Soundly-pure : {bad : Grade} {A : Type 0} (a : A) → Soundly bad Any (pure a)
Soundly-pure a = record { run = λ m s. (tt, s) }

pub Soundly-if :
    {bad : Grade} {A : Type 0} {P : A → Type 0} {p q : M A} (b : Bool)
    → ((b ≡ true) → Soundly bad P p)
    → ((b ≡ false) → Soundly bad P q)
    → Soundly bad P (if b then p else q)
Soundly-if true h k = h refl
Soundly-if false h k = k refl

-- Changes of what only the debugger and the clock of the processor use.
pub modify_cpu-Soundly :
    {bad : Grade} (f : Cpu → Cpu)
    → ((c : Cpu) → (f c).registers ≡ c.registers)
    → Soundly bad Any (modify_cpu f)
modify_cpu-Soundly f h = record {
  run = λ m s. (
    tt,
    (
      ground (arith, s.0),
      Control-Frame m (record m { cpu = f m.cpu }) (refl, refl, refl, h m.cpu) s.1,
    ),
  );
}

with_flags-Sound :
    (m : Machine) (verbose running : Bool)
    → Sound (tt, m)
    → Sound (tt, record m { verbose_instructions = verbose; running = running })
with_flags-Sound m verbose running s = (
  ground (arith, s.0),
  Control-Frame m (record m { verbose_instructions = verbose; running = running })
      (refl, refl, refl, refl) s.1,
)

pub modify_flags-Soundly :
    {bad : Grade} (f g : Machine → Bool)
    → Soundly bad Any (modify (λ m. record m { verbose_instructions = f m; running = g m }))
modify_flags-Soundly f g = record { run = λ m s. (tt, with_flags-Sound m (f m) (g m) s) }

pub with_traps-Sound :
    (m : Machine) (reads writes : List ℕ)
    → Sound (tt, m)
    → let mem = m.memory in
      Sound (
        tt,
        record m { memory = record mem { read_breakpoints = reads; write_breakpoints = writes } },
      )
with_traps-Sound m reads writes s =
    (ground (arith, s.0), Control-Frame m _ (refl, refl, refl, refl) s.1)

pub read8-Soundly : {bad : Grade} (addr : ℕ) → addr < 65536 → Soundly bad Any (read8 addr)
read8-Soundly {bad} addr h = record {
  run = λ m s. go m s (read8 addr m) (read8-Reads m s.0 addr h);
}
  where
    go :
        (m : Machine)
        → Sound (tt, m)
        → (o : Outcome (ℕ × Machine)) → Returns (Reads m) o
        → Handles bad Any o
    go m s (ok out) r =
        let b : Bool = out.1.cpu.m_break in
        (
          tt,
          rw (r.1) (
            with_break-IsValid b m s.0,
            Control-Frame m (with_break b m) (refl, refl, refl, refl) s.1,
          ),
        )
    go m s (fault e) r = absurd r

pub write8-Soundly :
    {bad : Grade} (addr x : ℕ) → addr < 65536 → x < 256 → Soundly bad Any (write8 addr x)
write8-Soundly {bad} addr x h hx = record {
  run = λ m s. go (write8 addr x m) (write8-Sound m addr x s.0 s.1 h hx);
}
  where
    go : (o : Outcome (Unit₀ × Machine)) → Returns Sound o → Handles bad Any o
    go (ok out) r = (tt, r)
    go (fault e) r = absurd r

-- More refusals may be allowed than a call makes.
pub weaker-Soundly :
    {A : Type 0} {P : A → Type 0} {p : M A} (b b' : Grade)
    → (b.ends ≡ true → b'.ends ≡ true)
    → (b.endless ≡ true → b'.endless ≡ true)
    → Soundly b P p
    → Soundly b' P p
weaker-Soundly {A} {P} {p} b b' h k s = record { run = λ m v. go (p m) (s.run m v) }
  where
    go : (o : Outcome (A × Machine)) → Handles b P o → Handles b' P o
    go (ok out) r = r
    go (fault throws) r = h r
    go (fault assertion) r = h r
    go (fault out_of_bounds) r = absurd r
    go (fault too_deep) r = absurd r
    go (fault too_long) r = k r
