-- ===== src/Registers/Decimal.antt =====
-- The decimal correction `DAA` of libgbc/instructions.cpp after the additions and subtractions of
-- libgbc/registers.hpp: on packed decimal bytes it makes them decimal arithmetic.
use gamebro.Base.{ℕ, ◌+◌, ◌-◌, ◌*◌, ◌/◌, ◌%◌, ◌<◌, ◌≡◌, arith, true, ltb, and_mask}
use gamebro.Registers.{Regs, mask_carry, flag, alu_case, setflag, add, adc, sub, sbc, carry_in}
use gamebro.Registers.Flags.{flag_laws}
use gamebro.Registers.Alu.{IsSum, IsDifference, alu_case-IsSum, alu_case-IsDifference}
use gamebro.Cpu.Arithmetic.{daa}

-- Two decimal digits in a byte.
unfoldable pub packed : ℕ → ℕ
packed n = n / 10 * 16 + n % 10

carry_set : (r : Regs) → flag mask_carry (setflag true r.flags mask_carry) ≡ true
carry_set r = simp flag_laws

daa-IsSum :
    (x y cin : ℕ) (r : Regs)
    → x < 100
    → y < 100
    → cin < 2
    → IsSum (packed x) (packed y) cin r
    → ((daa r).accum ≡ packed ((x + y + cin) % 100))
      × (flag mask_carry (daa r).flags ≡ ltb 99 (x + y + cin))
unfolding daa packed
daa-IsSum x y cin r hx hy hc s = (
  ground (
    arith,
    s.exact,
    s.negative,
    s.halfcarry,
    s.accum_byte,
    and_mask 4 r.accum,
    and_mask 4 ((r.accum + 0x60) % 256),
  ),
  simp flag_laws (ground (arith, s.exact, s.negative, s.halfcarry, s.accum_byte, carry_set r)),
)

daa-IsDifference :
    (x y cin : ℕ) (r : Regs)
    → x < 100
    → y < 100
    → cin < 2
    → IsDifference (packed x) (packed y) cin r.accum r
    → ((daa r).accum ≡ packed ((x + 100 - (y + cin)) % 100))
      × (flag mask_carry (daa r).flags ≡ ltb x (y + cin))
unfolding daa packed
daa-IsDifference x y cin r hx hy hc s = (
  ground (arith, s.exact, s.negative, s.halfcarry, s.result_byte),
  simp flag_laws (ground (arith, s.exact, s.negative, s.halfcarry, s.result_byte)),
)

packed-lt : (x : ℕ) → x < 100 → packed x < 256
unfolding packed
packed-lt x h = omega arith

carry_in-lt : (r : Regs) → carry_in r < 2
carry_in-lt r = ground arith

module _ (x y : ℕ) (r : Regs) (hx : x < 100) (hy : y < 100) (e : r.accum ≡ packed x) where
  -- After ADD of two packed decimal numbers below 100, or ADC with the carry flag, DAA leaves the packed sum
  -- modulo 100, and the carry flag tells whether the sum has a third digit.
  pub daa-sum :
      let s = daa (alu_case add (packed y) r) in
      let t = daa (alu_case adc (packed y) r) in
      (s.accum ≡ packed ((x + y) % 100))
      × (flag mask_carry s.flags ≡ ltb 99 (x + y))
      × (t.accum ≡ packed ((x + y + carry_in r) % 100))
      × (flag mask_carry t.flags ≡ ltb 99 (x + y + carry_in r))
  daa-sum =
      let hr : r.accum < 256 = rw e (packed-lt x hx) in
      let sums : _ = alu_case-IsSum (packed y) r (packed-lt y hy) hr in
      let s : _ =
        daa-IsSum x y 0 (alu_case add (packed y) r) hx hy (omega arith) (rw (← e) sums.0) in
      let t : _ =
        daa-IsSum x y (carry_in r) (alu_case adc (packed y) r) hx hy (carry_in-lt r)
          (rw (← e) sums.1) in
      (ground (arith, s.0), ground (arith, s.1), t.0, t.1)

  -- After SUB of two packed decimal numbers below 100, or SBC with the carry flag, DAA leaves the packed
  -- difference modulo 100, and the carry flag is the borrow.
  pub daa-difference :
      let s = daa (alu_case sub (packed y) r) in
      let t = daa (alu_case sbc (packed y) r) in
      (s.accum ≡ packed ((x + 100 - y) % 100))
      × (flag mask_carry s.flags ≡ ltb x y)
      × (t.accum ≡ packed ((x + 100 - (y + carry_in r)) % 100))
      × (flag mask_carry t.flags ≡ ltb x (y + carry_in r))
  daa-difference =
      let hr : r.accum < 256 = rw e (packed-lt x hx) in
      let differences : _ = alu_case-IsDifference (packed y) r (packed-lt y hy) hr in
      let s : _ =
        daa-IsDifference x y 0 (alu_case sub (packed y) r) hx hy (omega arith)
          (rw (← e) differences.0) in
      let t : _ =
        daa-IsDifference x y (carry_in r) (alu_case sbc (packed y) r) hx hy (carry_in-lt r)
          (rw (← e) differences.1) in
      (ground (arith, s.0), ground (arith, s.1), t.0, t.1)
