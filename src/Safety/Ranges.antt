-- ===== src/Safety/Ranges.antt =====
-- Every instruction keeps the registers in their ranges: the arithmetic of libgbc/registers.hpp and
-- instructions.cpp.
use gamebro.Base.{
  ℕ, ◌+◌, ◌-◌, ◌*◌, ◌/◌, ◌%◌, ◌^◌, ◌<◌, ◌≤◌, ◌≡◌, refl, arith, Bool, true, false, not, ◌||◌, ltb,
  ◌==◌, ◌!=◌, if◌then◌else◌, bit_and, bit_or, and-le, or-lt, xor-lt, add_signed, checked,
  checked-true,
}
use gamebro.Registers.{
  Regs, Flag, mask_zero, mask_negative, mask_halfcarry, mask_carry, mask, flag, setflag, alu, AluOp,
  add, adc, sub, sbc, and, xor, or, cp, to_alu, alu_case, set_hl, getreg, setreg,
}
use gamebro.Registers.Flags.{setflag-lt}
use gamebro.Memory.Control.{IsRegs}
use gamebro.Cpu.Arithmetic.{add_hl, inc_dec_flags, daa, cpl_a, scf_ccf, add_sp_n}
use gamebro.Cpu.Load.{ld_hl_sp_n}
use gamebro.Cpu.Extended.{test_bit, rotate}

-- The accumulator and the flags replaced.
pub accum-IsRegs :
    (r : Regs)
    → IsRegs r
    → (a f : ℕ) → a < 256
    → f < 256
    → IsRegs (record r { accum = a; flags = f })
accum-IsRegs r k a f ha hf = ground (arith, k)

pub flags-IsRegs : (r : Regs) → IsRegs r → (f : ℕ) → f < 256 → IsRegs (record r { flags = f })
flags-IsRegs r k f hf = ground (arith, k)

mask-byte : (g : Flag) → mask g < 256
unfolding mask
mask-byte mask_zero = omega arith
mask-byte _ = omega arith

-- Two flags set in turn, and three.
set2-lt : (b b' : Bool) (f : ℕ) (g g' : Flag) → f < 256 → setflag b' (setflag b f g) g' < 256
set2-lt b b' f g g' h = setflag-lt b' (setflag b f g) g' (setflag-lt b f g h)

set3-lt :
    (b b' b'' : Bool) (f : ℕ) (g g' g'' : Flag)
    → f < 256
    → setflag b'' (setflag b' (setflag b f g) g') g'' < 256
set3-lt b b' b'' f g g' g'' h = setflag-lt b'' _ g'' (set2-lt b b' f g g' h)

alu_case-IsRegs : (op : AluOp) (x : ℕ) (r : Regs) → x < 256 → IsRegs r → IsRegs (alu_case op x r)
unfolding alu_case
alu_case-IsRegs add x r h k =
    accum-IsRegs r k _ _ (omega arith)
      (setflag-lt _ _ mask_zero (set3-lt _ _ _ r.flags _ _ _ k.flags_byte))
alu_case-IsRegs adc x r h k =
    accum-IsRegs r k _ _ (omega arith)
      (setflag-lt _ _ mask_zero (set3-lt _ _ _ r.flags _ _ _ k.flags_byte))
alu_case-IsRegs sub x r h k =
    accum-IsRegs r k _ _ (omega arith)
      (setflag-lt _ _ mask_zero (set3-lt _ _ _ r.flags _ _ _ k.flags_byte))
alu_case-IsRegs sbc x r h k =
    accum-IsRegs r k _ _ (omega arith)
      (set3-lt _ _ _ (mask mask_negative) _ _ _ (mask-byte mask_negative))
alu_case-IsRegs and x r h k =
    accum-IsRegs r k _ _ (omega (arith, and-le r.accum x))
      (setflag-lt _ _ _ (mask-byte mask_halfcarry))
alu_case-IsRegs xor x r h k =
    accum-IsRegs r k _ _ (xor-lt 8 r.accum x k.accum_byte h) (setflag-lt _ 0 _ (omega arith))
alu_case-IsRegs or x r h k =
    accum-IsRegs r k _ _ (or-lt 8 r.accum x k.accum_byte h) (setflag-lt _ 0 _ (omega arith))
alu_case-IsRegs cp x r h k = flags-IsRegs r k _ (
    set3-lt _ _ _ (bit_or r.flags (mask mask_negative)) _ _ _
      (or-lt 8 r.flags (mask mask_negative) k.flags_byte (mask-byte mask_negative)))

pub alu-IsRegs : (op x : ℕ) (r : Regs) → x < 256 → IsRegs r → IsRegs (alu op x r)
unfolding alu
alu-IsRegs op x r h k = alu_case-IsRegs (to_alu op) x r h k

pub set_hl-IsRegs : (x : ℕ) (r : Regs) → IsRegs r → IsRegs (set_hl x r)
set_hl-IsRegs x r k = ground (arith, k)

pub getreg-word : (bf : ℕ) (b : Bool) (r : Regs) → IsRegs r → getreg bf b r < 65536
unfolding getreg
getreg-word bf b r k = ground (arith, k)

pub setreg-IsRegs : (bf : ℕ) (b : Bool) (x : ℕ) (r : Regs) → IsRegs r → IsRegs (setreg bf b x r)
unfolding setreg
setreg-IsRegs bf b x r k = ground (arith, k)

pub add_hl-IsRegs : (x : ℕ) (r : Regs) → IsRegs r → IsRegs (add_hl x r)
unfolding add_hl
add_hl-IsRegs x r k =
    set_hl-IsRegs _ _ (flags-IsRegs r k _ (set3-lt _ _ _ r.flags _ _ _ k.flags_byte))

pub inc_dec_flags-IsRegs : (opcode x : ℕ) (r : Regs) → IsRegs r → IsRegs (inc_dec_flags opcode x r)
unfolding inc_dec_flags
inc_dec_flags-IsRegs opcode x r k = flags-IsRegs r k _ (set3-lt _ _ _ r.flags _ _ _ k.flags_byte)

pub cpl_a-IsRegs : (r : Regs) → IsRegs r → IsRegs (cpl_a r)
unfolding cpl_a
cpl_a-IsRegs r k = accum-IsRegs r k _ _ (omega arith) (set2-lt _ _ r.flags _ _ k.flags_byte)

if-lt : (b : Bool) (x y : ℕ) → x < 256 → y < 256 → (if b then x else y) < 256
if-lt true x y hx hy = hx
if-lt false x y hx hy = hy

pub scf_ccf-IsRegs : (opcode : ℕ) (r : Regs) → IsRegs r → IsRegs (scf_ccf opcode r)
unfolding scf_ccf
scf_ccf-IsRegs opcode r k = flags-IsRegs r k _ (
    set2-lt _ _ _ _ _ (
      if-lt _ _ _ (or-lt 8 r.flags (mask mask_carry) k.flags_byte (mask-byte mask_carry))
        (setflag-lt _ _ _ k.flags_byte)))

pub daa-IsRegs : (r : Regs) → IsRegs r → IsRegs (daa r)
unfolding daa
daa-IsRegs r k =
    let f : ℕ = r.flags in
    let n : Bool = flag mask_negative f in
    let c : Bool = flag mask_carry f in
    let h : Bool = flag mask_halfcarry f in
    let carry : Bool = c || ltb 0x99 r.accum in
    let a1 : ℕ =
      if n
      then (if c then (r.accum + 256 - 0x60) % 256 else r.accum)
      else if carry
      then (r.accum + 0x60) % 256
      else r.accum in
    let a1_byte : a1 < 256 =
      if-lt n (if c then (r.accum + 256 - 0x60) % 256 else r.accum)
        (if carry then (r.accum + 0x60) % 256 else r.accum)
        (if-lt c _ r.accum (omega arith) k.accum_byte)
        (if-lt carry _ r.accum (omega arith) k.accum_byte) in
    accum-IsRegs r k _ _
      (if-lt n (if h then (a1 + 256 - 0x06) % 256 else a1)
        (if h || ltb 0x9 (bit_and a1 0xf) then (a1 + 0x06) % 256 else a1)
        (if-lt h _ a1 (omega arith) a1_byte)
        (if-lt (h || ltb 0x9 (bit_and a1 0xf)) _ a1 (omega arith) a1_byte))
      (set2-lt _ _ _ _ _ (
        if-lt n f (if carry then setflag true f mask_carry else f) k.flags_byte
          (if-lt carry _ f (setflag-lt true f mask_carry k.flags_byte) k.flags_byte)))

pub add_sp_n-IsRegs : (imm : ℕ) (r : Regs) → imm < 256 → IsRegs r → IsRegs (add_sp_n imm r)
unfolding add_sp_n
add_sp_n-IsRegs imm r h k =
    let calc : ℕ = add_signed r.sp imm in
    let moved : IsRegs (record r { sp = calc }) = ground (arith, k) in
    flags-IsRegs (record r { sp = calc }) moved _ (set2-lt _ _ 0 _ _ (omega arith))

pub ld_hl_sp_n-IsRegs : (imm : ℕ) (r : Regs) → IsRegs r → IsRegs (ld_hl_sp_n imm r)
unfolding ld_hl_sp_n
ld_hl_sp_n-IsRegs imm r k = set_hl-IsRegs _ _ (flags-IsRegs r k _ (set2-lt _ _ 0 _ _ (omega arith)))

pub test_bit-IsRegs : (bit x : ℕ) (r : Regs) → IsRegs r → IsRegs (test_bit bit x r)
unfolding test_bit
test_bit-IsRegs bit x r k = flags-IsRegs r k _ (
    setflag-lt _ _ mask_zero (
      or-lt 8 (bit_and r.flags (255 - mask mask_negative)) (mask mask_halfcarry)
        (omega (arith, and-le r.flags (255 - mask mask_negative), k.flags_byte))
        (mask-byte mask_halfcarry)))

power_table : checked 8 (λ bit. ltb (2 ^ bit) 256) ≡ true
unfolding checked
power_table = refl

pub power-byte : (bit : ℕ) → bit < 8 → 2 ^ bit < 256
power-byte bit h = ground (arith, checked-true (λ bit. ltb (2 ^ bit) 256) 8 bit power_table h)

abbrev AreBytes : ℕ × ℕ → Type 0
AreBytes t = (t.0 < 256) × (t.1 < 256)

if-AreBytes : (b : Bool) (s t : ℕ × ℕ) → AreBytes s → AreBytes t → AreBytes (if b then s else t)
if-AreBytes true s t hs ht = hs
if-AreBytes false s t hs ht = ht

-- A rotated or shifted byte is a byte, and so are its flags.
pub rotate-bytes :
    (opcode x flags : ℕ)
    → x < 256
    → ((rotate opcode x flags).0 < 256) × ((rotate opcode x flags).1 < 256)
unfolding rotate mask
rotate-bytes opcode x flags h =
    let cf : ℕ = bit_and flags 16 in
    let low : cf ≤ 16 = omega (arith, and-le flags 16) in
    let right : Bool = bit_and opcode 0x8 != 0 in
    let kind : ℕ = bit_and opcode 0xf0 in
    let both : (v : ℕ) (b : Bool)
        → v < 256
        → AreBytes (v, setflag (v == 0) (setflag b 0 mask_carry) mask_zero) =
      λ v b hv. (hv, set2-lt b (v == 0) 0 mask_carry mask_zero (omega arith)) in
    let ored : (v w : ℕ) (b : Bool)
        → v < 256
        → w < 256
        → AreBytes (bit_or v w, setflag (bit_or v w == 0) (setflag b 0 mask_carry) mask_zero) =
      λ v w b hv hw. both (bit_or v w) b (or-lt 8 v w hv hw) in
    let swapped : ℕ = bit_or (x / 2 ^ 4) (x * 2 ^ 4 % 256) in
    let swapped_byte : swapped < 256 =
      or-lt 8 (x / 2 ^ 4) (x * 2 ^ 4 % 256) (omega arith) (omega arith) in
    let bit0 : Bool = bit_and x 0x1 != 0 in
    let bit7 : Bool = bit_and x 0x80 != 0 in
    if-AreBytes (kind == 0x00) _ _
      (if-AreBytes right _ _ (ored (x / 2) (x * 2 ^ 7 % 256) bit0 (omega arith) (omega arith))
        (ored (x * 2 % 256) (x / 2 ^ 7) bit7 (omega arith) (omega arith)))
      (if-AreBytes (kind == 0x10) _ _
        (if-AreBytes right _ _ (ored (x / 2) (cf * 2 ^ 3) bit0 (omega arith) (omega arith))
          (ored (x * 2 % 256) (cf / 2 ^ 4) bit7 (omega arith) (omega arith)))
        (if-AreBytes (kind == 0x20) _ _
          (if-AreBytes right _ _
            (ored (x / 2) (bit_and (x / 2) 0x40 * 2) bit0 (omega arith)
              (omega (arith, and-le (x / 2) 0x40)))
            (both (x * 2 % 256) bit7 (omega arith)))
          (if-AreBytes (not right) _ _
            (swapped_byte, setflag-lt (swapped == 0) 0 mask_zero (omega arith))
            (both (x / 2) bit0 (omega arith)))))
