-- ===== src/Safety/Rules.antt =====
-- How safety passes through the sequences and branches of libgbc/cpu.cpp and instructions.cpp.
use gamebro.Base.{◌≡◌, Bool, true, false, if◌then◌else◌, Returns, refl}
use gamebro.State.{Machine}
use gamebro.State.Monad.{M, Unit₀, pure, ◌>>=◌, ◌>>◌, when, gets, then-Returns}
use gamebro.Safety.{IsSafe}

-- From a safe machine the method returns a value with `P` and leaves a safe machine.
pub record Safely {A : Type 0} (P : A → Type 0) (p : M A) : Type 0 where
  pub run : (m : Machine) → IsSafe m → Returns (λ out. P out.0 × IsSafe out.1) (p m)

abbrev pub Any : {A : Type 0} → A → Type 0
Any a = Unit

pub Safely-bind :
    {A B : Type 0} {P : A → Type 0} {Q : B → Type 0} {p : M A} {f : A → M B}
    → Safely P p
    → ((a : A) → P a → Safely Q (f a))
    → Safely Q (p >>= f)
Safely-bind {A} {B} {P} {Q} {p} {f} h next = record {
  run = λ m s.
      then-Returns (λ out. P out.0 × IsSafe out.1) (λ out. Q out.0 × IsSafe out.1) p f m (h.run m s)
        (λ a m' r. (next a r.0).run m' r.1);
}

pub Safely-then :
    {B : Type 0} {Q : B → Type 0} {p : M Unit₀} {k : M B}
    → Safely Any p
    → Safely Q k
    → Safely Q (p >> k)
Safely-then h next = Safely-bind h (λ u r. next)

pub Safely-pure : {A : Type 0} {P : A → Type 0} {a : A} → P a → Safely P (pure a)
Safely-pure h = record { run = λ m s. (h, s) }

pub Safely-if :
    {A : Type 0} {P : A → Type 0} {p q : M A} (b : Bool)
    → ((b ≡ true) → Safely P p)
    → ((b ≡ false) → Safely P q)
    → Safely P (if b then p else q)
Safely-if true h k = h refl
Safely-if false h k = k refl

pub Safely-when : {p : M Unit₀} (b : Bool) → Safely Any p → Safely Any (when b p)
Safely-when true h = h
Safely-when false h = Safely-pure tt

pub Safely-gets :
    {A : Type 0} {P : A → Type 0} {f : Machine → A}
    → ((m : Machine) → IsSafe m → P (f m))
    → Safely P (gets f)
Safely-gets h = record { run = λ m s. (h m s, s) }
