-- ===== src/Registers/Alu.antt =====
-- `regs_t::alu` of libgbc/registers.hpp against arithmetic on whole numbers.
use gamebro.Base.{
  ℕ, ◌+◌, ◌*◌, ◌/◌, ◌%◌, ◌<◌, bit_and, ◌≡◌, refl, arith, true, false, ltb, ◌==◌, ◌!=◌, to_ℕ,
  and_mask, and_high,
}
use gamebro.Registers.{
  Regs, mask_zero, mask_negative, mask_halfcarry, mask_carry, flag, alu_case, add, adc, sub, sbc,
  cp, carry_in, half_carry, half_borrow,
}
use gamebro.Registers.Flags.{flag_laws}

-- `r` holds the exact sum of two bytes and a carry: its carry flag is the ninth bit.
pub record IsSum (a v cin : ℕ) (r : Regs) : Type 0 where
  pub accum_byte : r.accum < 256
  pub exact : r.accum + 256 * to_ℕ (flag mask_carry r.flags) ≡ a + v + cin
  pub zero : flag mask_zero r.flags ≡ (r.accum == 0)
  pub halfcarry : flag mask_halfcarry r.flags ≡ ltb 15 (a % 16 + v % 16 + cin)
  pub negative : flag mask_negative r.flags ≡ false

-- The flags of `r` are those of the difference `d` of bytes: the carry flag is the borrow.
pub record IsDifference (a v cin d : ℕ) (r : Regs) : Type 0 where
  pub result_byte : d < 256
  pub exact : d + v + cin ≡ a + 256 * to_ℕ (flag mask_carry r.flags)
  pub zero : flag mask_zero r.flags ≡ (d == 0)
  pub halfcarry : flag mask_halfcarry r.flags ≡ ltb (a % 16) (v % 16 + cin)
  pub negative : flag mask_negative r.flags ≡ true

half_carry_lem : (a v : ℕ) → half_carry a v ≡ ltb 15 (a % 16 + v % 16 + 0)
unfolding half_carry
half_carry_lem a v = ground (
  arith,
  and_mask 4 a,
  and_mask 4 v,
  and_high 4 (bit_and a 15 + bit_and v 15) 1,
  and_mask 1 ((bit_and a 15 + bit_and v 15) / 16),
)

half_borrow_lem : (a v : ℕ) → half_borrow a v ≡ ltb (a % 16) (v % 16 + 0)
unfolding half_borrow
half_borrow_lem a v = ground (arith, and_mask 4 a, and_mask 4 v)

ninth_bit : (s : ℕ) → s < 512 → (bit_and s 0x100 != 0) ≡ ltb 255 s
ninth_bit s h = ground (arith, and_high 8 s 1, and_mask 1 (s / 256))

module _ (v : ℕ) (r : Regs) (hv : v < 256) (hr : r.accum < 256) where
  add-IsSum : IsSum r.accum v 0 (alu_case add v r)
  unfolding alu_case
  add-IsSum = record {
    accum_byte = omega arith;
    exact = simp flag_laws (ground (arith, ninth_bit (r.accum + v)));
    zero = simp flag_laws;
    halfcarry = simp flag_laws (half_carry_lem r.accum v);
    negative = simp flag_laws;
  }

  adc-IsSum : IsSum r.accum v (carry_in r) (alu_case adc v r)
  unfolding alu_case
  adc-IsSum = record {
    accum_byte = omega arith;
    exact = simp flag_laws (ground arith);
    zero = simp flag_laws;
    halfcarry = simp flag_laws (ground (arith, and_mask 4 r.accum, and_mask 4 v));
    negative = simp flag_laws;
  }

  sub-IsDifference : IsDifference r.accum v 0 (alu_case sub v r).accum (alu_case sub v r)
  unfolding alu_case
  sub-IsDifference = record {
    result_byte = omega arith;
    exact = simp flag_laws (ground arith);
    zero = simp flag_laws (ground arith);
    halfcarry = simp flag_laws (half_borrow_lem r.accum v);
    negative = simp flag_laws;
  }

  sbc-IsDifference : IsDifference r.accum v (carry_in r) (alu_case sbc v r).accum (alu_case sbc v r)
  unfolding alu_case
  sbc-IsDifference = record {
    result_byte = omega arith;
    exact = simp flag_laws (ground arith);
    zero = simp flag_laws;
    halfcarry = simp flag_laws (ground (arith, and_mask 4 r.accum, and_mask 4 v));
    negative = simp flag_laws;
  }

  cp-IsDifference : IsDifference r.accum v 0 (alu_case sub v r).accum (alu_case cp v r)
  unfolding alu_case
  cp-IsDifference = record {
    result_byte = omega arith;
    exact = simp flag_laws (ground arith);
    zero = simp flag_laws (ground arith);
    halfcarry = simp flag_laws (half_borrow_lem r.accum v);
    negative = simp flag_laws;
  }

module _ (v : ℕ) (r : Regs) (hv : v < 256) (hr : r.accum < 256) where
  -- On a byte in the accumulator and another, ADD and ADC leave the exact sum of the two and, for ADC, the carry flag: the new carry
  -- flag is its ninth bit, and the zero, half-carry and negative flags are those of an addition.
  pub alu_case-IsSum :
      IsSum r.accum v 0 (alu_case add v r) × IsSum r.accum v (carry_in r) (alu_case adc v r)
  alu_case-IsSum = (add-IsSum v r hv hr, adc-IsSum v r hv hr)

  -- On a byte in the accumulator and another, SUB, SBC and CP compute the difference of the two and, for SBC, the carry flag: the new
  -- carry flag is the borrow; CP sets the flags of SUB and leaves the accumulator alone.
  pub alu_case-IsDifference :
      IsDifference r.accum v 0 (alu_case sub v r).accum (alu_case sub v r)
      × IsDifference r.accum v (carry_in r) (alu_case sbc v r).accum (alu_case sbc v r)
      × IsDifference r.accum v 0 (alu_case sub v r).accum (alu_case cp v r)
      × ((alu_case cp v r).accum ≡ r.accum)
  unfolding alu_case
  alu_case-IsDifference =
      (sub-IsDifference v r hv hr, sbc-IsDifference v r hv hr, cp-IsDifference v r hv hr, refl)
