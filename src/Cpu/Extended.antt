-- ===== src/Cpu/Extended.antt =====
-- The instructions behind the prefix 0xCB: `CB_EXT` of libgbc/instructions.cpp.
use gamebro.Base.{ℕ, ◌-◌, ◌*◌, ◌/◌, ◌%◌, ◌^◌, bit_and, bit_or, not}
use gamebro.Base.{◌==◌, ◌!=◌, if◌then◌else◌}
use gamebro.Registers.{Regs, mask_zero, mask_negative, mask_halfcarry, mask_carry, mask, setflag}
use gamebro.State.Monad.{M, Unit₀, ◌>>◌, ◌>>=◌}
use gamebro.Cpu.{regs, modify_regs, readop8}
use gamebro.Cpu.{read_hl, write_hl, dest, put_dest}

-- BIT: only the flags change.
unfoldable pub test_bit : ℕ → ℕ → Regs → Regs
test_bit bit v r =
    let f1 = bit_and r.flags (255 - mask mask_negative) in
    let f2 = bit_or f1 (mask mask_halfcarry) in
    record r { flags = setflag (bit_and v (2 ^ bit) == 0) f2 mask_zero }

abbrev pub reset_bit : ℕ → ℕ → ℕ
reset_bit bit v = bit_and v (255 - 2 ^ bit)

abbrev pub set_bit : ℕ → ℕ → ℕ
set_bit bit v = bit_or v (2 ^ bit)

-- The rotates and shifts, by the bits 3 to 5 of the opcode: the new value and the new flags.
unfoldable pub rotate : ℕ → ℕ → ℕ → ℕ × ℕ
rotate opcode v flags =
    let cf = bit_and flags (mask mask_carry) in
    let right = bit_and opcode 0x8 != 0 in
    let kind = bit_and opcode 0xf0 in
    if kind == 0x00
    then (if right
        then (let w = bit_or (v / 2) (v * 2 ^ 7 % 256) in
            (w, setflag (w == 0) (setflag (bit_and v 0x1 != 0) 0 mask_carry) mask_zero))
        else (let w = bit_or (v * 2 % 256) (v / 2 ^ 7) in
            (w, setflag (w == 0) (setflag (bit_and v 0x80 != 0) 0 mask_carry) mask_zero)))
    else if kind == 0x10
    then (if right
        then (let w = bit_or (v / 2) (cf * 2 ^ 3) in
            (w, setflag (w == 0) (setflag (bit_and v 0x1 != 0) 0 mask_carry) mask_zero))
        else (let w = bit_or (v * 2 % 256) (cf / 2 ^ 4) in
            (w, setflag (w == 0) (setflag (bit_and v 0x80 != 0) 0 mask_carry) mask_zero)))
    else if kind == 0x20
    then (if right
        then (let w = bit_or (v / 2) (bit_and (v / 2) 0x40 * 2) in
            (w, setflag (w == 0) (setflag (bit_and v 0x1 != 0) 0 mask_carry) mask_zero))
        else (let w = v * 2 % 256 in
            (w, setflag (w == 0) (setflag (bit_and v 0x80 != 0) 0 mask_carry) mask_zero)))
    else if not right
    then (let w = bit_or (v / 2 ^ 4) (v * 2 ^ 4 % 256) in (w, setflag (w == 0) 0 mask_zero))
    else (let w = v / 2 in
        (w, setflag (w == 0) (setflag (bit_and v 0x1 != 0) 0 mask_carry) mask_zero))

-- An opcode below 0x40 has one of the four kinds of `rotate`, so the source's last branch, an
-- assertion, is not reached.
unfoldable pub handler_cb_ext : M Unit₀
handler_cb_ext = do
  opcode ← readop8
  let is_hl = bit_and opcode 0x7 == 0x6
  let bit = bit_and (opcode / 2 ^ 3) 7
  let group = opcode / 2 ^ 6
  let store = λ (v : ℕ). if not is_hl then put_dest opcode v else write_hl v
  v ← if not is_hl then dest opcode else read_hl
  (if group == 0x1
      then modify_regs (test_bit bit v)
      else if group == 0x2
      then store (reset_bit bit v)
      else if group == 0x3
      then store (set_bit bit v)
      else (regs >>= λ r.
          modify_regs (λ q. record q { flags = (rotate opcode v r.flags).1 })
          >> store (rotate opcode v r.flags).0))
