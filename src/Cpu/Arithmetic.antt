-- ===== src/Cpu/Arithmetic.antt =====
-- The arithmetic and rotate instructions of libgbc/instructions.cpp.
use gamebro.Base.{ℕ, ◌+◌, ◌-◌, ◌*◌, ◌/◌, ◌%◌, ◌^◌, bit_and, bit_or, bit_xor, true, false, not, ◌||◌}
use gamebro.Base.{ltb, ◌==◌, ◌!=◌, if◌then◌else◌, add_signed, assertion}
use gamebro.Registers.{
  Regs, mask_zero, mask_negative, mask_halfcarry, mask_carry, mask, flag, setflag, alu,
}
use gamebro.Registers.{hl, set_hl, getreg_sp, setreg_sp}
use gamebro.Base.{Option, none, some}
use gamebro.State.Monad.{M, Unit₀, pure, ◌>>◌, ◌>>=◌, stop_with}
use gamebro.Cpu.{modify_regs, hardware_tick, readop8}
use gamebro.Cpu.{read_hl, write_hl, dest, put_dest}

unfoldable pub add_hl : ℕ → Regs → Regs
add_hl v r =
    let f1 = setflag false r.flags mask_negative in
    let f2 =
      setflag (bit_and (bit_and (hl r) 0x0fff + bit_and v 0x0fff) 0x1000 != 0) f1 mask_halfcarry in
    let f3 =
      setflag (bit_and (bit_and (hl r) 0xffff + bit_and v 0xffff) 0x10000 != 0) f2 mask_carry in
    set_hl ((hl r + v) % 65536) (record r { flags = f3 })

unfoldable pub handler_add_hl_r : ℕ → M Unit₀
handler_add_hl_r opcode = do modify_regs (λ r. add_hl (getreg_sp opcode r) r); hardware_tick

unfoldable pub handler_inc_dec_r : ℕ → M Unit₀
handler_inc_dec_r opcode = do
  modify_regs (λ r.
      let v = getreg_sp opcode r in
      setreg_sp opcode (if bit_and opcode 0x8 == 0 then (v + 1) % 65536 else (v + 65535) % 65536) r)
  hardware_tick

-- `value++` or `value--` on a byte.
abbrev pub step_byte : ℕ → ℕ → ℕ
step_byte opcode v = if bit_and opcode 0x1 == 0 then (v + 1) % 256 else (v + 255) % 256

unfoldable pub inc_dec_flags : ℕ → ℕ → Regs → Regs
inc_dec_flags opcode value r =
    let f1 = setflag (bit_and opcode 0x1 != 0) r.flags mask_negative in
    let f2 = setflag (value == 0) f1 mask_zero in
    let half =
      if bit_and opcode 0x1 == 0 then bit_and value 0xf == 0x0 else bit_and value 0xf == 0xf in
    record r { flags = setflag half f2 mask_halfcarry }

unfoldable pub handler_inc_dec_d : ℕ → M Unit₀
handler_inc_dec_d opcode = do
  let dst = opcode / 2 ^ 3
  value ←
      (if dst != 0x6
        then (dest dst >>= λ v. put_dest dst (step_byte opcode v) >> dest dst)
        else (read_hl >>= λ v. write_hl (step_byte opcode v) >> pure (step_byte opcode v)))
  modify_regs (inc_dec_flags opcode value)

-- The switch of RLC_RRC on the accumulator; any other opcode fails the assertion.
unfoldable pub rotate_a : ℕ → Regs → Option Regs
rotate_a opcode r =
    let a = r.accum in
    let bit7 = bit_and a 0x80 in
    let bit0 = bit_and a 0x1 in
    let cf = bit_and r.flags (mask mask_carry) in
    if opcode == 0x07
    then some (record r {
      accum = bit_or (a * 2 % 256) (bit7 / 2 ^ 7);
      flags = setflag (bit7 != 0) 0 mask_carry;
    })
    else if opcode == 0x0f
    then some (record r {
      accum = bit_or (a / 2) (bit0 * 2 ^ 7);
      flags = setflag (bit0 != 0) 0 mask_carry;
    })
    else if opcode == 0x17
    then some (record r {
      accum = bit_or (a * 2 % 256) (cf / 2 ^ 4);
      flags = setflag (bit7 != 0) 0 mask_carry;
    })
    else if opcode == 0x1f
    then some
        (record r { accum = bit_or (a / 2) (cf * 2 ^ 3); flags = setflag (bit0 != 0) 0 mask_carry })
    else none

unfoldable pub handler_rlc_rrc : ℕ → M Unit₀
handler_rlc_rrc opcode m = elim (rotate_a opcode m.cpu.registers) [
  | some r ↦ modify_regs (λ _. r) m
  | none ↦ stop_with assertion m
]

unfoldable pub daa : Regs → Regs
daa r =
    let f = r.flags in
    let n = flag mask_negative f in
    let c = flag mask_carry f in
    let h = flag mask_halfcarry f in
    let carry = c || ltb 0x99 r.accum in
    let a1 =
      if n
      then (if c then (r.accum + 256 - 0x60) % 256 else r.accum)
      else if carry
      then (r.accum + 0x60) % 256
      else r.accum in
    let f1 = if n then f else if carry then setflag true f mask_carry else f in
    let a2 =
      if n
      then (if h then (a1 + 256 - 0x06) % 256 else a1)
      else if h || ltb 0x9 (bit_and a1 0xf)
      then (a1 + 0x06) % 256
      else a1 in
    record r { accum = a2; flags = setflag false (setflag (a2 == 0) f1 mask_zero) mask_halfcarry }

unfoldable pub cpl_a : Regs → Regs
cpl_a r = record r {
  accum = 255 - r.accum;
  flags = setflag true (setflag true r.flags mask_negative) mask_halfcarry;
}

unfoldable pub scf_ccf : ℕ → Regs → Regs
scf_ccf opcode r =
    let f1 =
      if bit_and opcode 0x8 == 0
      then bit_or r.flags (mask mask_carry)
      else setflag (not (flag mask_carry r.flags)) r.flags mask_carry in
    record r { flags = setflag false (setflag false f1 mask_negative) mask_halfcarry }

unfoldable pub handler_alu_a_d : ℕ → M Unit₀
handler_alu_a_d opcode = do
  let alu_op = bit_and (opcode / 2 ^ 3) 0x7
  v ← if bit_and opcode 0x7 != 0x6 then dest opcode else read_hl
  modify_regs (alu alu_op v)

unfoldable pub handler_alu_a_n : ℕ → M Unit₀
handler_alu_a_n opcode = do
  let alu_op = bit_and (opcode / 2 ^ 3) 0x7
  imm8 ← readop8
  modify_regs (alu alu_op imm8)

-- `s8` takes part in the exclusive or as a negative `int`; its bits 4 and 8 are those of the
-- 16-bit pattern.
unfoldable pub add_sp_n : ℕ → Regs → Regs
add_sp_n imm r =
    let s8 = if ltb imm 128 then imm else imm + 0xff00 in
    let calc = add_signed r.sp imm in
    let bits = bit_xor (bit_xor r.sp s8) calc in
    let f1 = setflag (bit_and bits 0x100 == 0x100) 0 mask_carry in
    let f2 = setflag (bit_and bits 0x10 == 0x10) f1 mask_halfcarry in
    record r { flags = f2; sp = calc }

unfoldable pub handler_add_sp_n : M Unit₀
handler_add_sp_n = do imm ← readop8; modify_regs (add_sp_n imm); hardware_tick; hardware_tick
