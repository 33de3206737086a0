-- ===== src/State/Monad.antt =====
-- A method of the emulator: it changes the machine and returns a value, or ends in a fault.
use gamebro.Base.{
  ◌≡◌, ap, ℕ, Bool, true, ltb, if◌then◌else◌, Outcome, ok, fault, Fault, throws, Returns,
}
use gamebro.State.{Machine, Cpu, Memory, Io, Gpu}

abbrev pub M : Type 0 → Type 0
M A = Machine → Outcome (A × Machine)

abbrev pub Unit₀ : Type 0
Unit₀ = Unit {0}

abbrev pub pure : {A : Type 0} → A → M A
pure a m = ok (a, m)

infixl 5 ◌>>=◌ ◌>>◌
abbrev pub ◌>>=◌ : {A B : Type 0} → M A → (A → M B) → M B
◌>>=◌ p f m = elim (p m) [ ok (a, m') ↦ f a m' | fault e ↦ fault e ]

abbrev pub ◌>>◌ : {A B : Type 0} → M A → M B → M B
p >> k = p >>= λ _. k

abbrev pub stop_with : {A : Type 0} → Fault → M A
stop_with e m = fault e

abbrev pub gets : {A : Type 0} → (Machine → A) → M A
gets f m = ok (f m, m)

abbrev pub modify : (Machine → Machine) → M Unit₀
modify f m = ok (tt, f m)

abbrev pub modify_cpu : (Cpu → Cpu) → M Unit₀
modify_cpu f m = ok (tt, record m { cpu = f m.cpu })

abbrev pub modify_memory : (Memory → Memory) → M Unit₀
modify_memory f m = ok (tt, record m { memory = f m.memory })

abbrev pub modify_io : (Io → Io) → M Unit₀
modify_io f m = ok (tt, record m { io = f m.io })

abbrev pub modify_gpu : (Gpu → Gpu) → M Unit₀
modify_gpu f m = ok (tt, record m { gpu = f m.gpu })

-- An `if` with no `else`.
abbrev pub when : Bool → M Unit₀ → M Unit₀
when b p = if b then p else pure tt

-- `array.at(i)` of an array of the given size, which throws past its end.
abbrev pub at : ℕ → (ℕ → ℕ) → ℕ → Outcome ℕ
at size array i = if ltb i size then ok (array i) else fault throws

-- `CPU::break_now`.
abbrev pub break_now : M Unit₀
break_now = modify_cpu (λ c. record c { m_break = true })

-- What follows a call that returns.
pub then-Returns :
    {A B : Type 0} (P : A × Machine → Type 0) (Q : B × Machine → Type 0) (p : M A) (f : A → M B)
    (m : Machine)
    → Returns P (p m)
    → ((a : A) (m' : Machine) → P (a, m') → Returns Q (f a m'))
    → Returns Q ((p >>= f) m)
then-Returns {A} P Q p f m h next = go (p m) h
  where
    go :
        (o : Outcome (A × Machine))
        → Returns P o
        → Returns Q (elim o [ ok (a, m') ↦ f a m' | fault e ↦ fault e ])
    go (ok (a, m')) h = next a m' h
    go (fault e) h = h

-- The same where the result is known.
pub bind-ok :
    {A B : Type 0} (p : M A) (f : A → M B) (m m' : Machine) (a : A)
    → p m ≡ ok (a, m')
    → (p >>= f) m ≡ f a m'
bind-ok {A} {B} p f m m' a e =
    ap (λ (o : Outcome (A × Machine)). elim o [ ok (b, n) ↦ f b n | fault e ↦ fault e ]) e

-- Two calls with the same outcome can stand for each other.
pub bind-same :
    {A B : Type 0} (p q : M A) (f : A → M B) (m : Machine) → p m ≡ q m → (p >>= f) m ≡ (q >>= f) m
bind-same {A} p q f m e =
    ap (λ (o : Outcome (A × Machine)). elim o [ ok (b, n) ↦ f b n | fault e ↦ fault e ]) e
