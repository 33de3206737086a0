-- ===== src/Safety/Alu.antt =====
-- The arithmetic, rotate and bit instructions of libgbc/instructions.cpp are safe.
use gamebro.Base.{
  ℕ, ◌+◌, ◌-◌, ◌*◌, ◌/◌, ◌%◌, ◌^◌, ◌<◌, ◌≤◌, ◌≡◌, ◌≢◌, refl, arith, Bool, true, false, not, ◌||◌,
  ◌==◌, ◌!=◌, if◌then◌else◌, bit_and, bit_or, and-le, or-lt, assertion, Option, none, some,
  and_mask,
}
use gamebro.Registers.{Regs, getreg_sp, setreg_sp, alu, mask_carry, setflag, mask}
use gamebro.Registers.Flags.{setflag-lt}
use gamebro.State.{Machine}
use gamebro.State.Monad.{Unit₀, stop_with}
use gamebro.Cpu.{modify_regs}
use gamebro.Cpu.Arithmetic.{
  add_hl, handler_add_hl_r, handler_inc_dec_r, step_byte, inc_dec_flags, handler_inc_dec_d,
  rotate_a, handler_rlc_rrc, handler_alu_a_d, handler_alu_a_n, add_sp_n, handler_add_sp_n,
}
use gamebro.Cpu.Extended.{test_bit, reset_bit, set_bit, rotate, handler_cb_ext}
use gamebro.Memory.Control.{IsRegs}
use gamebro.Safety.{IsSafe}
use gamebro.Base.{Returns}
use gamebro.Safety.Rules.{Safely, Any, Safely-bind, Safely-then, Safely-pure, Safely-if}
use gamebro.Safety.Access.{
  Byte, hardware_tick-Safely, modify_regs-Safely, regs-Safely, readop8-Safely, read_hl-Safely,
  write_hl-Safely, dest-Safely, put_dest-Safely,
}
use gamebro.Safety.Loads.{fetch-Safely, store-Safely}
use gamebro.Safety.Ranges.{
  alu-IsRegs, add_hl-IsRegs, setreg-IsRegs, inc_dec_flags-IsRegs, add_sp_n-IsRegs, accum-IsRegs,
  flags-IsRegs, test_bit-IsRegs, rotate-bytes, power-byte,
}

pub add_hl_r-Safely : (opcode : ℕ) → Safely Any (handler_add_hl_r opcode)
unfolding handler_add_hl_r
add_hl_r-Safely opcode =
    Safely-then
      (modify_regs-Safely (λ r. add_hl (getreg_sp opcode r) r) (λ r k. add_hl-IsRegs _ r k))
      hardware_tick-Safely

pub inc_dec_r-Safely : (opcode : ℕ) → Safely Any (handler_inc_dec_r opcode)
unfolding handler_inc_dec_r
inc_dec_r-Safely opcode =
    Safely-then
      (modify_regs-Safely
        (λ r.
          let v = getreg_sp opcode r in
          setreg_sp opcode
            (if bit_and opcode 0x8 == 0 then (v + 1) % 65536 else (v + 65535) % 65536) r)
        (λ r k. setreg-IsRegs _ true _ r k))
      hardware_tick-Safely

step_byte-lt : (opcode v : ℕ) → step_byte opcode v < 256
step_byte-lt opcode v = ground arith

-- The code of the register is the opcode's upper part, below 8 for the opcodes that are decoded.
pub inc_dec_d-Safely : (opcode : ℕ) → opcode < 64 → Safely Any (handler_inc_dec_d opcode)
unfolding handler_inc_dec_d
inc_dec_d-Safely opcode h =
    let code : bit_and (opcode / 2 ^ 3) 7 ≡ opcode / 2 ^ 3 =
      omega (arith, and_mask 3 (opcode / 8)) in
    Safely-bind
      (Safely-if {P = Byte} (opcode / 2 ^ 3 != 0x6)
        (λ e.
          let other : bit_and (opcode / 2 ^ 3) 7 ≢ 6 = ground (arith, e, code) in
          Safely-bind (dest-Safely (opcode / 2 ^ 3) other) (λ v hv.
            Safely-then
              (put_dest-Safely (opcode / 2 ^ 3) (step_byte opcode v) other (step_byte-lt opcode v))
              (dest-Safely (opcode / 2 ^ 3) other)))
        (λ e. Safely-bind read_hl-Safely (λ v hv.
          Safely-then (write_hl-Safely (step_byte opcode v) (step_byte-lt opcode v))
            (Safely-pure {a = step_byte opcode v} (step_byte-lt opcode v)))))
      (λ v hv.
        modify_regs-Safely (inc_dec_flags opcode v) (λ r k. inc_dec_flags-IsRegs opcode v r k))

pub alu_a_d-Safely : (opcode : ℕ) → Safely Any (handler_alu_a_d opcode)
unfolding handler_alu_a_d
alu_a_d-Safely opcode = Safely-bind (fetch-Safely opcode) (λ v hv.
    modify_regs-Safely (alu (bit_and (opcode / 2 ^ 3) 0x7) v) (λ r k. alu-IsRegs _ v r hv k))

pub alu_a_n-Safely : (opcode : ℕ) → Safely Any (handler_alu_a_n opcode)
unfolding handler_alu_a_n
alu_a_n-Safely opcode = Safely-bind readop8-Safely (λ v hv.
    modify_regs-Safely (alu (bit_and (opcode / 2 ^ 3) 0x7) v) (λ r k. alu-IsRegs _ v r hv k))

pub add_sp_n_handler-Safely : Safely Any handler_add_sp_n
unfolding handler_add_sp_n
add_sp_n_handler-Safely = Safely-bind readop8-Safely (λ imm h.
    Safely-then (modify_regs-Safely (add_sp_n imm) (λ r k. add_sp_n-IsRegs imm r h k))
      (Safely-then hardware_tick-Safely hardware_tick-Safely))

abbrev IsSome : Option Regs → Type 0
IsSome (some r) = IsRegs r
IsSome none = ⊥

if-IsSome :
    (b : Bool) (x y : Option Regs)
    → ((b ≡ true) → IsSome x)
    → ((b ≡ false) → IsSome y)
    → IsSome (if b then x else y)
if-IsSome true x y hx hy = hx refl
if-IsSome false x y hx hy = hy refl

rotate_a-IsRegs :
    (opcode : ℕ) (r : Regs)
    → ((opcode == 0x07) || ((opcode == 0x0f) || ((opcode == 0x17) || (opcode == 0x1f)))) ≡ true
    → IsRegs r
    → IsSome (rotate_a opcode r)
unfolding rotate_a mask
rotate_a-IsRegs opcode r one k =
    let a : ℕ = r.accum in
    let cf : ℕ = bit_and r.flags 16 in
    let low : cf ≤ 16 = omega (arith, and-le r.flags 16) in
    let bit0 : ℕ = bit_and a 0x1 in
    let bit7 : ℕ = bit_and a 0x80 in
    let ored : (v w : ℕ) (b : Bool)
        → v < 256
        → w < 256
        → IsRegs (record r { accum = bit_or v w; flags = setflag b 0 mask_carry }) =
      λ v w b hv hw.
        accum-IsRegs r k (bit_or v w) (setflag b 0 mask_carry) (or-lt 8 v w hv hw)
          (setflag-lt b 0 mask_carry (omega arith)) in
    if-IsSome (opcode == 0x07) _ _
      (λ e.
        ored (a * 2 % 256) (bit7 / 2 ^ 7) (bit7 != 0) (omega arith) (omega (arith, and-le a 0x80)))
      (λ e1.
        if-IsSome (opcode == 0x0f) _ _
          (λ e.
            ored (a / 2) (bit0 * 2 ^ 7) (bit0 != 0) (omega (arith, k.accum_byte))
              (omega (arith, and-le a 0x1)))
          (λ e2.
            if-IsSome (opcode == 0x17) _ _
              (λ e. ored (a * 2 % 256) (cf / 2 ^ 4) (bit7 != 0) (omega arith) (omega arith))
              (λ e3.
                if-IsSome (opcode == 0x1f) _ none
                  (λ e.
                    ored (a / 2) (cf * 2 ^ 3) (bit0 != 0) (omega (arith, k.accum_byte))
                      (omega arith))
                  (λ e4. absurd (ground (arith, one, e1, e2, e3, e4))))))

pub rlc_rrc-Safely :
    (opcode : ℕ)
    → ((opcode == 0x07) || ((opcode == 0x0f) || ((opcode == 0x17) || (opcode == 0x1f)))) ≡ true
    → Safely Any (handler_rlc_rrc opcode)
unfolding handler_rlc_rrc
rlc_rrc-Safely opcode one = record {
  run = λ m s.
      go (rotate_a opcode m.cpu.registers) (rotate_a-IsRegs opcode _ one s.control.registers) m s;
}
  where
    go :
        (o : Option Regs)
        → IsSome o
        → (m : Machine) → IsSafe m
        → Returns
            (λ out. Any out.0 × IsSafe out.1)
            (elim o [ some r ↦ modify_regs (λ _. r) m | none ↦ stop_with {A = Unit₀} assertion m ])
    go (some r) k m s = (modify_regs-Safely (λ old. r) (λ old q. k)).run m s
    go none k m s = absurd k

-- Whatever byte follows the prefix, the instruction behind it is safe.
pub cb_ext-Safely : Safely Any handler_cb_ext
unfolding handler_cb_ext
cb_ext-Safely = Safely-bind readop8-Safely (λ opcode h.
    let other : (not (bit_and opcode 0x7 == 0x6) ≡ true) → bit_and opcode 7 ≢ 6 =
      λ e. ground (arith, e) in
    let bit : ℕ = bit_and (opcode / 2 ^ 3) 7 in
    let power : 2 ^ bit < 256 = power-byte bit (omega (arith, and-le (opcode / 2 ^ 3) 7)) in
    let is_reg : Bool = not (bit_and opcode 0x7 == 0x6) in
    Safely-bind
      (Safely-if {P = Byte} is_reg (λ e. dest-Safely opcode (other e)) (λ e. read_hl-Safely))
      (λ v hv.
        Safely-if (opcode / 2 ^ 6 == 0x1)
          (λ e. modify_regs-Safely (test_bit bit v) (λ r k. test_bit-IsRegs bit v r k))
          (λ e1.
            Safely-if (opcode / 2 ^ 6 == 0x2)
              (λ e.
                store-Safely is_reg opcode (reset_bit bit v) other
                  (omega (arith, and-le v (255 - 2 ^ bit))))
              (λ e2.
                Safely-if (opcode / 2 ^ 6 == 0x3)
                  (λ e.
                    store-Safely is_reg opcode (set_bit bit v) other (or-lt 8 v (2 ^ bit) hv power))
                  (λ e3. Safely-bind regs-Safely (λ r k.
                    Safely-then
                      (modify_regs-Safely (λ q. record q { flags = (rotate opcode v r.flags).1 })
                        (λ q l. flags-IsRegs q l _ (rotate-bytes opcode v r.flags hv).1))
                      (store-Safely is_reg opcode (rotate opcode v r.flags).0 other
                        (rotate-bytes opcode v r.flags hv).0)))))))
