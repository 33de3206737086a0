-- ===== src/Registers/Words.antt =====
-- Arithmetic on words of two bytes with the byte-wide `regs_t::alu` of libgbc/registers.hpp: the
-- low bytes first, then the high bytes with the carry flag left by them.
use gamebro.Base.{ℕ, ◌+◌, ◌*◌, ◌/◌, ◌%◌, ◌<◌, ◌≡◌, arith, to_ℕ}
use gamebro.Registers.{Regs, flag, mask_carry, alu_case, add, adc, sub, sbc}
use gamebro.Registers.Alu.{alu_case-IsSum, alu_case-IsDifference}

-- ADD of the low bytes and ADC of the high bytes of two 16-bit words add the words: the carry flag is
-- the seventeenth bit of the sum.
pub add_adc-word :
    (x y : ℕ) (r : Regs)
    → x < 65536
    → y < 65536
    → let low = alu_case add (y % 256) (record r { accum = x % 256 }) in
      let high = alu_case adc (y / 256) (record low { accum = x / 256 }) in
      high.accum * 256 + low.accum + 65536 * to_ℕ (flag mask_carry high.flags) ≡ x + y
add_adc-word x y r hx hy =
    let low : Regs = alu_case add (y % 256) (record r { accum = x % 256 }) in
    let s : _ =
      alu_case-IsSum (y % 256) (record r { accum = x % 256 }) (omega arith) (omega arith) in
    let t : _ =
      alu_case-IsSum (y / 256) (record low { accum = x / 256 }) (omega arith) (omega arith) in
    omega (arith, s.0.exact, t.1.exact)

-- SUB of the low bytes and SBC of the high bytes of two 16-bit words subtract the words: the carry flag
-- is the borrow.
pub sub_sbc-word :
    (x y : ℕ) (r : Regs)
    → x < 65536
    → y < 65536
    → let low = alu_case sub (y % 256) (record r { accum = x % 256 }) in
      let high = alu_case sbc (y / 256) (record low { accum = x / 256 }) in
      high.accum * 256 + low.accum + y ≡ x + 65536 * to_ℕ (flag mask_carry high.flags)
sub_sbc-word x y r hx hy =
    let low : Regs = alu_case sub (y % 256) (record r { accum = x % 256 }) in
    let s : _ =
      alu_case-IsDifference (y % 256) (record r { accum = x % 256 }) (omega arith) (omega arith) in
    let t : _ =
      alu_case-IsDifference (y / 256) (record low { accum = x / 256 }) (omega arith)
        (omega arith) in
    omega (arith, s.0.exact, t.1.exact)
