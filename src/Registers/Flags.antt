-- ===== src/Registers/Flags.antt =====
-- `setflag` of libgbc/common.hpp: one flag is set, and no other flag changes.
use gamebro.Base.{ℕ, ◌+◌, ◌*◌, ◌-◌, ◌/◌, ◌%◌, ◌<◌, bit_and, bit_or}
use gamebro.Base.{
  ◌≡◌, refl, sym, ap, ◌∙◌, arith, Bool, true, false, ◌==◌, ◌!=◌, ==_iff, if◌then◌else◌,
}
use gamebro.Base.{checked, checked-true, and_low, or_low, and-le, or-lt}
use gamebro.Registers.{
  Flag, mask_zero, mask_negative, mask_halfcarry, mask_carry, mask, flag, setflag,
}

abbrev pub same : Flag → Flag → Bool
same mask_zero mask_zero = true
same mask_negative mask_negative = true
same mask_halfcarry mask_halfcarry = true
same mask_carry mask_carry = true
same _ _ = false

mask-lt : (g : Flag) → mask g < 256
unfolding mask
mask-lt mask_zero = omega arith
mask-lt mask_negative = omega arith
mask-lt mask_halfcarry = omega arith
mask-lt mask_carry = omega arith

abbrev agree : Bool → Bool → Bool
agree true b = b
agree false true = false
agree false false = true

agree-eq : (a b : Bool) → agree a b ≡ true → a ≡ b
agree-eq true b h = ground arith
agree-eq false b h = ground arith

-- What `setflag` gives on each byte, for each two flags.
set_table :
    (b : Bool) (g k : Flag)
    → checked 256 (λ f. agree (flag g (setflag b f k)) (if same g k then b else flag g f)) ≡ true
unfolding checked setflag flag
set_table true mask_zero mask_zero = refl
set_table true mask_negative mask_zero = refl
set_table true mask_halfcarry mask_zero = refl
set_table true mask_carry mask_zero = refl
set_table false mask_zero mask_zero = refl
set_table false mask_negative mask_zero = refl
set_table false mask_halfcarry mask_zero = refl
set_table false mask_carry mask_zero = refl
set_table _ _ _ = refl

setflag-byte :
    (b : Bool) (f : ℕ) (g k : Flag)
    → f < 256
    → flag g (setflag b f k) ≡ (if same g k then b else flag g f)
setflag-byte b f g k h = agree-eq _ _ (checked-true _ 256 f (set_table b g k) h)

or-and-low :
    (f m n : ℕ) → m < 256 → n < 256 → bit_and (bit_or f m) n ≡ bit_and (bit_or (f % 256) m) n
or-and-low f m n hm hn =
    rw (or_low 8 f m hm, and_low 8 (f / 256 * 256 + bit_or (f % 256) m) n hn)
      (ap (λ x. bit_and x n) e)
  where
    e : (f / 256 * 256 + bit_or (f % 256) m) % 256 ≡ bit_or (f % 256) m
    e = omega (arith, or-lt 8 (f % 256) m (omega arith) hm)

-- Only the low byte of a flags value counts.
setflag-low :
    (b : Bool) (f : ℕ) (g k : Flag) → flag g (setflag b f k) ≡ flag g (setflag b (f % 256) k)
unfolding setflag flag
setflag-low true f g k = ap (λ x. x != 0) (or-and-low f (mask k) (mask g) (mask-lt k) (mask-lt g))
setflag-low false f g k = rw (and_low 8 f (255 - mask k) (omega arith))

flag-low : (g : Flag) (f : ℕ) → flag g f ≡ flag g (f % 256)
unfolding flag
flag-low g f = ap (λ x. x != 0) (and_low 8 f (mask g) (mask-lt g))

-- `setflag` sets or clears the flag of its mask and leaves the three others as they were.
pub flag-setflag :
    (b : Bool) (f : ℕ) (g k : Flag) → flag g (setflag b f k) ≡ (if same g k then b else flag g f)
flag-setflag b f g k = setflag-low b f g k ∙ setflag-byte b (f % 256) g k (omega arith) ∙ low
  where
    low : (if same g k then b else flag g (f % 256)) ≡ (if same g k then b else flag g f)
    low = rw (← flag-low g f)

pub flag-or :
    (f : ℕ) (g k : Flag) → flag g (bit_or f (mask k)) ≡ (if same g k then true else flag g f)
flag-or f g k =
    (let e : setflag true f k ≡ bit_or f (mask k) = unfold setflag in refl in ap (flag g) (sym e))
    ∙ flag-setflag true f g k

pub flag-mask : (g k : Flag) → flag g (mask k) ≡ same g k
unfolding flag
flag-mask mask_zero mask_zero = refl
flag-mask mask_negative mask_zero = refl
flag-mask mask_halfcarry mask_zero = refl
flag-mask mask_carry mask_zero = refl
flag-mask _ _ = refl

pub flag_none : (g : Flag) → flag g 0 ≡ false
unfolding flag
flag_none mask_zero = refl
flag_none _ = refl

pub ruleset flag_laws = (flag-setflag, flag-or, flag-mask, flag_none)

-- The four low bits of the flags byte are never touched.
nibble_table :
    (b : Bool) (k : Flag) → checked 256 (λ f. bit_and (setflag b f k) 0xf == bit_and f 0xf) ≡ true
unfolding checked setflag flag
nibble_table true mask_zero = refl
nibble_table false mask_zero = refl
nibble_table _ _ = refl

pub nibble-setflag :
    (b : Bool) (f : ℕ) (k : Flag) → f < 256 → bit_and (setflag b f k) 0xf ≡ bit_and f 0xf
nibble-setflag b f k h = (==_iff _ _).0 (checked-true _ 256 f (nibble_table b k) h)

pub setflag-lt : (b : Bool) (f : ℕ) (k : Flag) → f < 256 → setflag b f k < 256
unfolding setflag
setflag-lt true f k h = or-lt 8 f (mask k) h (mask-lt k)
setflag-lt false f k h = omega (arith, and-le f (255 - mask k))
