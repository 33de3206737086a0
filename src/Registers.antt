-- ===== src/Registers.antt =====
-- libgbc/registers.hpp and `setflag` of libgbc/common.hpp: the register file, its 8- and 16-bit
-- views, and the arithmetic unit.
pub mod Flags
pub mod Alu
pub mod Words
pub mod Select
pub mod Decimal
use gamebro.Base.{ℕ, ◌+◌, ◌-◌, ◌*◌, ◌/◌, ◌%◌, ◌^◌, bit_and, bit_or, bit_xor}
use gamebro.Base.{Bool, true, false, not, ◌||◌, ltb, ◌==◌, ◌!=◌, if◌then◌else◌, to_ℕ}
use gamebro.Base.{Outcome, ok, fault, Fault, throws, ◌>>=◌}

-- The enumerators of `flags_t`.
pub data Flag : Type 0 where
  mask_zero mask_negative mask_halfcarry mask_carry : Flag

unfoldable pub mask : Flag → ℕ
mask mask_zero = 0x80
mask mask_negative = 0x40
mask mask_halfcarry = 0x20
mask mask_carry = 0x10

-- `flags & MASK_...`, read as a truth value.
unfoldable pub flag : Flag → ℕ → Bool
unfolding mask
flag g flags = bit_and flags (mask g) != 0

-- `flg |= mask` or `flg &= ~mask`, on a byte.
unfoldable pub setflag : Bool → ℕ → Flag → ℕ
unfolding mask
setflag expr flg g = if expr then bit_or flg (mask g) else bit_and flg (255 - mask g)

-- The bytes of the four unions are the fields. `af` and its like are views of two of them, the
-- first member of each struct being the low byte.
pub record Regs : Type 0 where
  pub flags : ℕ
  pub accum : ℕ
  pub c : ℕ
  pub b : ℕ
  pub e : ℕ
  pub d : ℕ
  pub l : ℕ
  pub h : ℕ
  pub sp : ℕ
  pub pc : ℕ

abbrev pub af : Regs → ℕ
af r = r.accum * 256 + r.flags

abbrev pub bc : Regs → ℕ
bc r = r.b * 256 + r.c

abbrev pub de : Regs → ℕ
de r = r.d * 256 + r.e

abbrev pub hl : Regs → ℕ
hl r = r.h * 256 + r.l

abbrev pub set_af : ℕ → Regs → Regs
set_af v r = record r { accum = v / 256 % 256; flags = v % 256 }

abbrev pub set_bc : ℕ → Regs → Regs
set_bc v r = record r { b = v / 256 % 256; c = v % 256 }

abbrev pub set_de : ℕ → Regs → Regs
set_de v r = record r { d = v / 256 % 256; e = v % 256 }

abbrev pub set_hl : ℕ → Regs → Regs
set_hl v r = record r { h = v / 256 % 256; l = v % 256 }

-- A reference result is a read here and a write in `setreg`.
unfoldable pub getreg : ℕ → Bool → Regs → ℕ
getreg bf use_sp r =
    let sel = bit_and bf 3 in
    if sel == 0
    then bc r
    else if sel == 1
    then de r
    else if sel == 2
    then hl r
    else if use_sp
    then r.sp
    else af r

unfoldable pub setreg : ℕ → Bool → ℕ → Regs → Regs
setreg bf use_sp v r =
    let sel = bit_and bf 3 in
    if sel == 0
    then set_bc v r
    else if sel == 1
    then set_de v r
    else if sel == 2
    then set_hl v r
    else if use_sp
    then record r { sp = v % 65536 }
    else set_af v r

abbrev pub getreg_sp : ℕ → Regs → ℕ
getreg_sp opcode r = getreg (bit_and (opcode / 2 ^ 4) 3) true r

abbrev pub setreg_sp : ℕ → ℕ → Regs → Regs
setreg_sp opcode v r = setreg (bit_and (opcode / 2 ^ 4) 3) true v r

abbrev pub getreg_af : ℕ → Regs → ℕ
getreg_af opcode r = getreg (bit_and (opcode / 2 ^ 4) 3) false r

abbrev pub setreg_af : ℕ → ℕ → Regs → Regs
setreg_af opcode v r = setreg (bit_and (opcode / 2 ^ 4) 3) false v r

-- `getdest` throws for the code of (HL); `setdest` writes through the reference.
unfoldable pub getdest : ℕ → Regs → Outcome ℕ
getdest bf r =
    let sel = bit_and bf 7 in
    if sel == 0
    then ok r.b
    else if sel == 1
    then ok r.c
    else if sel == 2
    then ok r.d
    else if sel == 3
    then ok r.e
    else if sel == 4
    then ok r.h
    else if sel == 5
    then ok r.l
    else if sel == 6
    then fault throws
    else ok r.accum

unfoldable pub setdest : ℕ → ℕ → Regs → Outcome Regs
setdest bf v r =
    let sel = bit_and bf 7 in
    if sel == 0
    then ok (record r { b = v })
    else if sel == 1
    then ok (record r { c = v })
    else if sel == 2
    then ok (record r { d = v })
    else if sel == 3
    then ok (record r { e = v })
    else if sel == 4
    then ok (record r { h = v })
    else if sel == 5
    then ok (record r { l = v })
    else if sel == 6
    then fault throws
    else ok (record r { accum = v })

-- `idx` is below 4, so the last branch is the carry test.
unfoldable pub compare_flags : ℕ → Regs → Bool
compare_flags opcode r =
    let idx = bit_and (opcode / 2 ^ 3) 3 in
    if idx == 0
    then not (flag mask_zero r.flags)
    else if idx == 1
    then flag mask_zero r.flags
    else if idx == 2
    then not (flag mask_carry r.flags)
    else flag mask_carry r.flags

unfoldable pub half_carry : ℕ → ℕ → Bool
half_carry reg val = bit_and (bit_and reg 0xf + bit_and val 0xf) 0x10 != 0

unfoldable pub half_borrow : ℕ → ℕ → Bool
half_borrow reg val = ltb (bit_and reg 0xf) (bit_and val 0xf)

-- `alu_t` of libgbc/instruction.hpp, the cases of the switch in `alu`.
pub data AluOp : Type 0 where
  add adc sub sbc and xor or cp : AluOp

unfoldable pub to_alu : ℕ → AluOp
to_alu op =
    let sel = bit_and op 7 in
    if sel == 0
    then add
    else if sel == 1
    then adc
    else if sel == 2
    then sub
    else if sel == 3
    then sbc
    else if sel == 4
    then and
    else if sel == 5
    then xor
    else if sel == 6
    then or
    else cp

-- The carry flag as 0 or 1.
abbrev pub carry_in : Regs → ℕ
carry_in r = to_ℕ (flag mask_carry r.flags)

-- One case of the switch. A negative `int` in the half borrow of SBC is a comparison here.
unfoldable pub alu_case : AluOp → ℕ → Regs → Regs
alu_case add value r =
    let calc = r.accum + value in
    let f1 = setflag false r.flags mask_negative in
    let f2 = setflag (half_carry r.accum value) f1 mask_halfcarry in
    let f3 = setflag (bit_and calc 0x100 != 0) f2 mask_carry in
    let reg = (r.accum + value) % 256 in
    record r { accum = reg; flags = setflag (reg == 0) f3 mask_zero }
alu_case adc value r =
    let carry = carry_in r in
    let f1 = setflag false r.flags mask_negative in
    let f2 =
      setflag (ltb 0xf (bit_and r.accum 0xf + bit_and value 0xf + carry)) f1 mask_halfcarry in
    let f3 = setflag (ltb 0xff (r.accum + value + carry)) f2 mask_carry in
    let reg = (r.accum + (value + carry)) % 256 in
    record r { accum = reg; flags = setflag (reg == 0) f3 mask_zero }
alu_case sub value r =
    let f1 = setflag true r.flags mask_negative in
    let f2 = setflag (half_borrow r.accum value) f1 mask_halfcarry in
    let f3 = setflag (ltb r.accum value) f2 mask_carry in
    let f4 = setflag (r.accum == value) f3 mask_zero in
    record r { accum = (r.accum + 256 - value) % 256; flags = f4 }
alu_case sbc value r =
    let carry = carry_in r in
    let f1 =
      setflag (ltb (bit_and r.accum 0xf) (bit_and value 0xf + carry)) (mask mask_negative)
        mask_halfcarry in
    let f2 = setflag (ltb r.accum (value + carry)) f1 mask_carry in
    let reg = (r.accum + 512 - (value + carry)) % 256 in
    record r { accum = reg; flags = setflag (reg == 0) f2 mask_zero }
alu_case and value r =
    let reg = bit_and r.accum value in
    record r { accum = reg; flags = setflag (reg == 0) (mask mask_halfcarry) mask_zero }
alu_case xor value r =
    let reg = bit_xor r.accum value in
    record r { accum = reg; flags = setflag (reg == 0) 0 mask_zero }
alu_case or value r =
    let reg = bit_or r.accum value in
    record r { accum = reg; flags = setflag (reg == 0) 0 mask_zero }
alu_case cp value r =
    let tmp = (r.accum + 256 - value) % 256 in
    let f1 = bit_or r.flags (mask mask_negative) in
    let f2 = setflag (tmp == 0) f1 mask_zero in
    let f3 = setflag (ltb r.accum value) f2 mask_carry in
    record r { flags = setflag (half_borrow r.accum value) f3 mask_halfcarry }

unfoldable pub alu : ℕ → ℕ → Regs → Regs
unfolding to_alu alu_case
alu op value r = alu_case (to_alu op) value r
