-- ===== src/Base/Bits.antt =====
-- The bit operations at variables, and a check of every value of a small range.
use Prim.Native.Nat.{ℕ, zero, suc, ◌+◌, ◌-◌, ◌*◌, ◌/◌, ◌%◌, ◌^◌, ◌≤◌, ◌<◌, bit_and, bit_or, bit_xor}
use mathlib.Core.Path.{◌≡◌, refl, ap}
use mathlib.Core.Bool.{Bool, true, ◌&&◌}
use Prim.Native.Nat.{bit_or-bitwise}
use native.Mathlib.Nat.{pow-suc, one-le-pow, le_refl}
use native.Mathlib.Omega.{arith}
use gamebro.Base.Steps.{and_step, or_step, xor_step, differ-lt}

and-le_fuel : (n a b : ℕ) → a ≤ n → (bit_and a b ≤ a) × (bit_and a b ≤ b)
and-le_fuel n zero b h = omega (arith, and_step 0 b, and_zero_left (b / 2))
  where
    and_zero_left : (c : ℕ) → bit_and 0 c ≡ 0
    and_zero_left c = Prim.Native.Nat.bit_and-bitwise 0 c
and-le_fuel zero (suc a) b h = absurd (omega arith)
and-le_fuel (suc n) (suc a) b h =
    omega (arith, and_step (suc a) b, and-le_fuel n (suc a / 2) (b / 2) (omega arith))

pub and-le : (a b : ℕ) → (bit_and a b ≤ a) × (bit_and a b ≤ b)
and-le a b = and-le_fuel a a b (le_refl a)

pub and_zero : (a : ℕ) → bit_and a 0 ≡ 0
and_zero a = omega (arith, and-le a 0)

or_zero_fuel : (n a : ℕ) → a ≤ n → bit_or a 0 ≡ a
or_zero_fuel n zero h = refl
or_zero_fuel zero (suc a) h = absurd (omega arith)
or_zero_fuel (suc n) (suc a) h =
    omega (arith, or_step (suc a) 0, or_zero_fuel n (suc a / 2) (omega arith))

pub or_zero : (a : ℕ) → bit_or a 0 ≡ a
or_zero a = or_zero_fuel a a (le_refl a)

-- What fits `k` bits stays within them.
pub or-lt : (k a b : ℕ) → a < 2 ^ k → b < 2 ^ k → bit_or a b < 2 ^ k
or-lt zero a b p q =
    let ea : a ≡ 0 = omega arith in let eb : b ≡ 0 = omega arith in rw (ea, eb) (omega arith)
or-lt (suc k) a b p q = omega (
  arith,
  or_step a b,
  pow-suc 2 k,
  or-lt k (a / 2) (b / 2) (omega (arith, pow-suc 2 k)) (omega (arith, pow-suc 2 k)),
)

pub xor-lt : (k a b : ℕ) → a < 2 ^ k → b < 2 ^ k → bit_xor a b < 2 ^ k
xor-lt zero a b p q =
    let ea : a ≡ 0 = omega arith in let eb : b ≡ 0 = omega arith in rw (ea, eb) (omega arith)
xor-lt (suc k) a b p q = omega (
  arith,
  xor_step a b,
  differ-lt (a % 2) (b % 2) (omega arith) (omega arith),
  pow-suc 2 k,
  xor-lt k (a / 2) (b / 2) (omega (arith, pow-suc 2 k)) (omega (arith, pow-suc 2 k)),
)

-- Scaling by `2 ^ suc k` is scaling by `2 ^ k` and doubling.
double_shift : (q k : ℕ) → q * 2 ^ suc k ≡ q * 2 ^ k * 2
double_shift q k = omega (arith, ap (λ (t : ℕ). q * t) (pow-suc 2 k))

and_mask_split : (k q r : ℕ) → r < 2 ^ k → bit_and (q * 2 ^ k + r) (2 ^ k - 1) ≡ r
and_mask_split zero q r h = omega (arith, and_zero (q * 2 ^ 0 + r))
and_mask_split (suc k) q r h = ground (
  arith,
  and_step (q * 2 ^ suc k + r) (2 ^ suc k - 1),
  double_shift q k,
  pow-suc 2 k,
  one-le-pow k 2,
  and_mask_split k q (r / 2) (omega (arith, pow-suc 2 k)),
)

-- A mask of `k` low bits is the remainder by `2 ^ k`.
pub and_mask : (k a : ℕ) → bit_and a (2 ^ k - 1) ≡ a % 2 ^ k
and_mask k a = ground (arith, one-le-pow k 2, and_mask_split k (a / 2 ^ k) (a % 2 ^ k))

and_high_split :
    (k q r m : ℕ) → r < 2 ^ k → bit_and (q * 2 ^ k + r) (m * 2 ^ k) ≡ bit_and q m * 2 ^ k
and_high_split zero q r m h = ground (arith, (let e : r ≡ 0 = omega arith in e))
and_high_split (suc k) q r m h = ground (
  arith,
  and_step (q * 2 ^ suc k + r) (m * 2 ^ suc k),
  double_shift q k,
  double_shift m k,
  double_shift (bit_and q m) k,
  and_high_split k q (r / 2) m (omega (arith, pow-suc 2 k)),
)

-- A mask whose `k` low bits are clear looks only at what stands above them.
pub and_high : (k a m : ℕ) → bit_and a (m * 2 ^ k) ≡ bit_and (a / 2 ^ k) m * 2 ^ k
and_high k a m = ground (arith, one-le-pow k 2, and_high_split k (a / 2 ^ k) (a % 2 ^ k) m)

-- `(q << k) | r` is a sum when `r` fits `k` bits.
pub or_fields : (k q r : ℕ) → r < 2 ^ k → bit_or (q * 2 ^ k) r ≡ q * 2 ^ k + r
or_fields zero q r h = ground (arith, or_zero q)
or_fields (suc k) q r h = ground (
  arith,
  or_step (q * 2 ^ suc k) r,
  double_shift q k,
  or_fields k q (r / 2) (omega (arith, pow-suc 2 k)),
)

zero_or : (b : ℕ) → bit_or 0 b ≡ b
zero_or b = bit_or-bitwise 0 b

-- The same with the sides exchanged.
pub or_fields_right : (k q r : ℕ) → r < 2 ^ k → bit_or r (q * 2 ^ k) ≡ q * 2 ^ k + r
or_fields_right zero q r h =
    let e : r ≡ 0 = omega arith in rw (e, zero_or (q * 2 ^ 0)) (omega arith)
or_fields_right (suc k) q r h = ground (
  arith,
  or_step r (q * 2 ^ suc k),
  double_shift q k,
  or_fields_right k q (r / 2) (omega (arith, pow-suc 2 k)),
)

and_low_split : (k q r m : ℕ) → r < 2 ^ k → m < 2 ^ k → bit_and (q * 2 ^ k + r) m ≡ bit_and r m
and_low_split zero q r m h hm =
    let em : m ≡ 0 = omega arith in rw (em, and_zero (q * 2 ^ 0 + r), and_zero r)
and_low_split (suc k) q r m h hm = ground (
  arith,
  and_step (q * 2 ^ suc k + r) m,
  and_step r m,
  double_shift q k,
  and_low_split k q (r / 2) (m / 2) (omega (arith, pow-suc 2 k)) (omega (arith, pow-suc 2 k)),
)

-- A mask of at most `k` bits does not see what stands above them.
pub and_low : (k a m : ℕ) → m < 2 ^ k → bit_and a m ≡ bit_and (a % 2 ^ k) m
and_low k a m hm = ground (arith, one-le-pow k 2, and_low_split k (a / 2 ^ k) (a % 2 ^ k) m)

or_low_split :
    (k q r m : ℕ) → r < 2 ^ k → m < 2 ^ k → bit_or (q * 2 ^ k + r) m ≡ q * 2 ^ k + bit_or r m
or_low_split zero q r m h hm =
    let em : m ≡ 0 = omega arith in rw (em, or_zero (q * 2 ^ 0 + r), or_zero r) (omega arith)
or_low_split (suc k) q r m h hm = ground (
  arith,
  or_step (q * 2 ^ suc k + r) m,
  or_step r m,
  double_shift q k,
  or_low_split k q (r / 2) (m / 2) (omega (arith, pow-suc 2 k)) (omega (arith, pow-suc 2 k)),
)

-- Setting bits below the `k`-th leaves those above alone.
pub or_low : (k a m : ℕ) → m < 2 ^ k → bit_or a m ≡ a / 2 ^ k * 2 ^ k + bit_or (a % 2 ^ k) m
or_low k a m hm = ground (arith, one-le-pow k 2, or_low_split k (a / 2 ^ k) (a % 2 ^ k) m)

-- `&` and `|` of two numbers that are split at the same bit go by parts.
pub and_split :
    (k q r m t : ℕ)
    → r < 2 ^ k
    → t < 2 ^ k
    → bit_and (q * 2 ^ k + r) (m * 2 ^ k + t) ≡ bit_and q m * 2 ^ k + bit_and r t
and_split zero q r m t h ht =
    let er : r ≡ 0 = omega arith in
    let et : t ≡ 0 = omega arith in rw (er, et) (ground (arith, and_zero 0))
and_split (suc k) q r m t h ht = ground (
  arith,
  and_step (q * 2 ^ suc k + r) (m * 2 ^ suc k + t),
  and_step r t,
  double_shift q k,
  double_shift m k,
  double_shift (bit_and q m) k,
  and_split k q (r / 2) m (t / 2) (omega (arith, pow-suc 2 k)) (omega (arith, pow-suc 2 k)),
)

pub or_split :
    (k q r m t : ℕ)
    → r < 2 ^ k
    → t < 2 ^ k
    → bit_or (q * 2 ^ k + r) (m * 2 ^ k + t) ≡ bit_or q m * 2 ^ k + bit_or r t
or_split zero q r m t h ht =
    let er : r ≡ 0 = omega arith in
    let et : t ≡ 0 = omega arith in rw (er, et) (ground (arith, or_zero 0))
or_split (suc k) q r m t h ht = ground (
  arith,
  or_step (q * 2 ^ suc k + r) (m * 2 ^ suc k + t),
  or_step r t,
  double_shift q k,
  double_shift m k,
  double_shift (bit_or q m) k,
  or_split k q (r / 2) m (t / 2) (omega (arith, pow-suc 2 k)) (omega (arith, pow-suc 2 k)),
)

-- Every number below `count` passes the test, found out by trying them.
unfoldable pub checked : ℕ → (ℕ → Bool) → Bool
checked zero test = true
checked (suc count) test = checked count test && test count

pub checked-true :
    (test : ℕ → Bool) (count i : ℕ) → checked count test ≡ true → i < count → test i ≡ true
unfolding checked
checked-true test zero i h lt = absurd (omega arith)
checked-true test (suc count) i h lt = ground (arith, checked-true test count i)
