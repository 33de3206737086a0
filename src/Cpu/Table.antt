-- ===== src/Cpu/Table.antt =====
-- The opcode table of `CPU::decode` in libgbc/cpu.cpp as a whole.
use gamebro.Base.{
  ℕ, ◌<◌, ◌≡◌, refl, sym, arith, Bool, true, false, ◌||◌, not, checked, checked-true, List, [], ◌∷◌,
  Returns,
}
use gamebro.State.{Machine}
use gamebro.Cpu.Decode.{Instruction, decode, one_of}
use gamebro.Cpu.Arithmetic.{rotate_a, handler_rlc_rrc}

abbrev pub is_missing : Instruction → Bool
is_missing Instruction.missing = true
is_missing _ = false

abbrev is_rotate : Instruction → Bool
is_rotate Instruction.rlc_rrc = true
is_rotate _ = false

abbrev same_test : Bool → Bool → Bool
same_test true b = b
same_test false b = not b

same_test_sound : (a b : Bool) → same_test a b ≡ true → a ≡ b
same_test_sound true true h = refl
same_test_sound true false h = sym h
same_test_sound false true h = h
same_test_sound false false h = refl

abbrev pub unused_opcodes : List ℕ
unused_opcodes = 0xd3 ∷ 0xdb ∷ 0xdd ∷ 0xe3 ∷ 0xe4 ∷ 0xeb ∷ 0xec ∷ 0xed ∷ 0xf4 ∷ 0xfc ∷ 0xfd ∷ []

missing_table :
    checked 256 (λ op. same_test (is_missing (decode op)) (one_of op unused_opcodes)) ≡ true
unfolding checked decode
missing_table = refl

-- `CPU::decode` knows every byte but the eleven that the processor does not define.
pub decode-missing :
    (opcode : ℕ) → opcode < 256 → is_missing (decode opcode) ≡ one_of opcode unused_opcodes
decode-missing opcode h = same_test_sound _ _ (checked-true _ 256 opcode missing_table h)

rotate_table :
    checked 256 (λ op. not (is_rotate (decode op)) || one_of op (0x07 ∷ 0x0f ∷ 0x17 ∷ 0x1f ∷ []))
    ≡ true
unfolding checked decode
rotate_table = refl

-- `RLC_RRC` is decoded only from opcodes its switch has a case for: its assertion never fails, and
-- it changes the accumulator and the flags alone.
pub handler_rlc_rrc-decoded :
    (opcode : ℕ) (m : Machine)
    → opcode < 256
    → is_rotate (decode opcode) ≡ true
    → Returns
        (λ out. out.1 ≡ record m {
          cpu = record m.cpu {
            registers = record m.cpu.registers {
              accum = out.1.cpu.registers.accum;
              flags = out.1.cpu.registers.flags;
            };
          };
        })
        (handler_rlc_rrc opcode m)
unfolding handler_rlc_rrc rotate_a
handler_rlc_rrc-decoded opcode m h r = ground (arith, r, checked-true _ 256 opcode rotate_table h)
