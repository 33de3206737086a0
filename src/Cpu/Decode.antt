-- ===== src/Cpu/Decode.antt =====
-- `CPU::decode` of libgbc/cpu.cpp: from an opcode to one of the instructions that
-- libgbc/instructions.cpp defines.
use gamebro.Base.{ℕ, Bool, false, ◌||◌, ◌&&◌, leb, ◌==◌, ◌!=◌, if◌then◌else◌, Option, none, some}
use gamebro.Base.{List, [], ◌∷◌}

-- The names of the DEF_INSTR lines.
pub data Instruction : Type 0 where
  nop ld_n_sp ld_r_n add_hl_r ld_r_a_r inc_dec_r inc_dec_d ld_d_n ld_d_d ld_n_a_n jr_n : Instruction
  rlc_rrc ldid_hl_a daa cpl_a scf_ccf halt alu_a_d alu_a_n push_pop rst ret reti stop : Instruction
  jp call add_sp_n ld_ff00_a ld_hl_sp jp_hl di_ei cb_ext missing : Instruction

-- `opcode` is one of the `case` labels.
abbrev pub one_of : ℕ → List ℕ → Bool
one_of opcode [] = false
one_of opcode (c ∷ cs) = opcode == c || one_of opcode cs

-- The labels from NOP to the stack instructions.
unfoldable pub decode_load : ℕ → Option Instruction
decode_load opcode =
    if opcode == 0x00
    then some nop
    else if opcode == 0x08
    then some ld_n_sp
    else if opcode == 0x10
    then some stop
    else if opcode == 0x76
    then some halt
    else if one_of opcode (0x06 ∷ 0x16 ∷ 0x26 ∷ 0x36 ∷ 0x0e ∷ 0x1e ∷ 0x2e ∷ 0x3e ∷ [])
    then some ld_d_n
    else if leb 0x40 opcode && leb opcode 0x7f && opcode != 0x76
    then some ld_d_d
    else if one_of opcode (0x02 ∷ 0x12 ∷ 0x0a ∷ 0x1a ∷ [])
    then some ld_r_a_r
    else if one_of opcode (0xea ∷ 0xfa ∷ [])
    then some ld_n_a_n
    else if one_of opcode (0x22 ∷ 0x32 ∷ 0x2a ∷ 0x3a ∷ [])
    then some ldid_hl_a
    else if one_of opcode (0xe2 ∷ 0xf2 ∷ 0xe0 ∷ 0xf0 ∷ [])
    then some ld_ff00_a
    else if one_of opcode (0x01 ∷ 0x11 ∷ 0x21 ∷ 0x31 ∷ [])
    then some ld_r_n
    else if opcode == 0xe8
    then some add_sp_n
    else if one_of opcode (0xf8 ∷ 0xf9 ∷ [])
    then some ld_hl_sp
    else if one_of opcode (0xc1 ∷ 0xd1 ∷ 0xe1 ∷ 0xf1 ∷ 0xc5 ∷ 0xd5 ∷ 0xe5 ∷ 0xf5 ∷ [])
    then some push_pop
    else none

-- The labels of the arithmetic instructions.
unfoldable pub decode_alu : ℕ → Option Instruction
decode_alu opcode =
    if leb 0x80 opcode && leb opcode 0xbf
    then some alu_a_d
    else if one_of opcode (0xc6 ∷ 0xce ∷ 0xd6 ∷ 0xde ∷ 0xe6 ∷ 0xee ∷ 0xf6 ∷ 0xfe ∷ [])
    then some alu_a_n
    else if one_of opcode (0x03 ∷ 0x0b ∷ 0x13 ∷ 0x1b ∷ 0x23 ∷ 0x2b ∷ 0x33 ∷ 0x3b ∷ [])
    then some inc_dec_r
    else if one_of opcode (0x04 ∷ 0x05 ∷ 0x0c ∷ 0x0d ∷ 0x14 ∷ 0x15 ∷ 0x1c ∷ 0x1d ∷ [])
    then some inc_dec_d
    else if one_of opcode (0x24 ∷ 0x25 ∷ 0x2c ∷ 0x2d ∷ 0x34 ∷ 0x35 ∷ 0x3c ∷ 0x3d ∷ [])
    then some inc_dec_d
    else if one_of opcode (0x09 ∷ 0x19 ∷ 0x29 ∷ 0x39 ∷ [])
    then some add_hl_r
    else if opcode == 0x27
    then some daa
    else if opcode == 0x2f
    then some cpl_a
    else if one_of opcode (0x37 ∷ 0x3f ∷ [])
    then some scf_ccf
    else if one_of opcode (0x07 ∷ 0x17 ∷ 0x0f ∷ 0x1f ∷ [])
    then some rlc_rrc
    else none

-- The labels of the jumps and of machine control.
unfoldable pub decode_control : ℕ → Option Instruction
decode_control opcode =
    if one_of opcode (0xc3 ∷ 0xc2 ∷ 0xca ∷ 0xd2 ∷ 0xda ∷ [])
    then some jp
    else if opcode == 0xe9
    then some jp_hl
    else if one_of opcode (0x18 ∷ 0x20 ∷ 0x28 ∷ 0x30 ∷ 0x38 ∷ [])
    then some jr_n
    else if one_of opcode (0xcd ∷ 0xc4 ∷ 0xcc ∷ 0xd4 ∷ 0xdc ∷ [])
    then some call
    else if one_of opcode (0xc9 ∷ 0xc0 ∷ 0xc8 ∷ 0xd0 ∷ 0xd8 ∷ [])
    then some ret
    else if opcode == 0xd9
    then some reti
    else if one_of opcode (0xc7 ∷ 0xcf ∷ 0xd7 ∷ 0xdf ∷ 0xe7 ∷ 0xef ∷ 0xf7 ∷ 0xff ∷ [])
    then some rst
    else if one_of opcode (0xf3 ∷ 0xfb ∷ [])
    then some di_ei
    else if opcode == 0xcb
    then some cb_ext
    else none

unfoldable pub decode : ℕ → Instruction
unfolding decode_load decode_alu decode_control
decode opcode = elim (decode_load opcode) [
  | some i ↦ i
  | none ↦ elim (decode_alu opcode) [
    | some i ↦ i
    | none ↦ elim (decode_control opcode) [ some i ↦ i | none ↦ missing ]
  ]
]
