-- ===== src/Base/Faults.antt =====
-- What a C++ call can do besides returning: throw, fail an assertion, or read outside an array
-- that does not check its index. `too_deep` is a call nested deeper than the model follows, and
-- `too_long` a loop that runs longer.

pub data Fault : Type 0 where
  throws assertion out_of_bounds too_deep too_long : Fault

pub data Outcome {ℓ} (A : Type ℓ) : Type ℓ where
  ok : A → Outcome A
  fault : Fault → Outcome A

infixl 5 ◌>>=◌ ◌>>◌
abbrev pub ◌>>=◌ {ℓ κ} : {A : Type ℓ} {B : Type κ} → Outcome A → (A → Outcome B) → Outcome B
ok a >>= f = f a
fault e >>= f = fault e

abbrev pub ◌>>◌ {ℓ κ} : {A : Type ℓ} {B : Type κ} → Outcome A → Outcome B → Outcome B
m >> k = m >>= λ _. k

-- The call returns, and what it returns satisfies `P`.
abbrev pub Returns {ℓ} : {A : Type ℓ} → (A → Type 0) → Outcome A → Type 0
Returns P (ok a) = P a
Returns P (fault e) = ⊥

-- A call that returns at all returns what every weaker condition allows.
pub Returns-imp {ℓ} :
    {A : Type ℓ} (P Q : A → Type 0) (m : Outcome A)
    → ((a : A) → P a → Q a)
    → Returns P m
    → Returns Q m
Returns-imp P Q (ok a) f h = f a h
Returns-imp P Q (fault e) f h = h

-- What follows a call that returns.
pub Returns-bind {ℓ κ} :
    {A : Type ℓ} {B : Type κ} (P : A → Type 0) (Q : B → Type 0) (o : Outcome A) (f : A → Outcome B)
    → Returns P o
    → ((a : A) → P a → Returns Q (f a))
    → Returns Q (o >>= f)
Returns-bind P Q (ok a) f h next = next a h
Returns-bind P Q (fault e) f h next = h

pub Returns-elim {ℓ κ} :
    {A : Type ℓ} {B : Type κ} (P : A → Type 0) (Q : B → Type 0) (o : Outcome A) (f : A → Outcome B)
    → Returns P o
    → ((a : A) → P a → Returns Q (f a))
    → Returns Q (elim o [ ok a ↦ f a | fault e ↦ fault e ])
Returns-elim P Q (ok a) f h next = next a h
Returns-elim P Q (fault e) f h next = h
