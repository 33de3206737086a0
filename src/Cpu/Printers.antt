-- ===== src/Cpu/Printers.antt =====
-- What the printers of libgbc/instructions.cpp do to the machine: they read the operands of the
-- instruction, which can set the debugger's flag. The text they format is left out.
use gamebro.Base.{ℕ, ◌==◌, ◌||◌, ◌!=◌, if◌then◌else◌, bit_and, assertion}
use gamebro.State.Monad.{M, Unit₀, pure, ◌>>◌, ◌>>=◌, stop_with}
use gamebro.Memory.{read16}
use gamebro.Cpu.{regs, peekop8, peekop16}
use gamebro.Cpu.Decode.{Instruction}

-- `cpu.peekop8(1)` and `cpu.peekop16(1)` among the arguments of `snprintf`.
abbrev pub show8 : M Unit₀
show8 = peekop8 1 >> pure tt

abbrev pub show16 : M Unit₀
show16 = peekop16 1 >> pure tt

abbrev pub printer_ld_n_sp : M Unit₀
printer_ld_n_sp = show16

abbrev pub printer_ld_r_n : M Unit₀
printer_ld_r_n = show16

-- The operand is shown in both branches, and so in the next four.
abbrev pub printer_ld_d_n : M Unit₀
printer_ld_d_n = show8

abbrev pub printer_ld_n_a_n : M Unit₀
printer_ld_n_a_n = show16

abbrev pub printer_jp : M Unit₀
printer_jp = show16

abbrev pub printer_jr_n : M Unit₀
printer_jr_n = show8

abbrev pub printer_call : M Unit₀
printer_call = show16

abbrev pub printer_alu_a_n : M Unit₀
printer_alu_a_n = show8

abbrev pub printer_add_sp_n : M Unit₀
printer_add_sp_n = show8

abbrev pub printer_cb_ext : M Unit₀
printer_cb_ext = show8

unfoldable pub printer_push_pop : ℕ → M Unit₀
printer_push_pop opcode =
    if bit_and opcode 4 != 0 then pure tt else (regs >>= λ r. read16 r.sp >> pure tt)

-- Its assertion stands after the `switch`.
unfoldable pub printer_ld_ff00_a : ℕ → M Unit₀
printer_ld_ff00_a opcode =
    if opcode == 0xe2 || opcode == 0xf2
    then pure tt
    else if opcode == 0xe0 || opcode == 0xf0
    then show8
    else stop_with assertion

unfoldable pub printer_ld_hl_sp : ℕ → M Unit₀
printer_ld_hl_sp opcode = if opcode == 0xf8 then show8 else pure tt

-- `instr.printer(...)`; the printers that are not named read registers only.
unfoldable pub printer : Instruction → ℕ → M Unit₀
printer Instruction.ld_n_sp opcode = printer_ld_n_sp
printer Instruction.ld_r_n opcode = printer_ld_r_n
printer Instruction.ld_d_n opcode = printer_ld_d_n
printer Instruction.ld_n_a_n opcode = printer_ld_n_a_n
printer Instruction.alu_a_n opcode = printer_alu_a_n
printer Instruction.jp opcode = printer_jp
printer Instruction.push_pop opcode = printer_push_pop opcode
printer Instruction.jr_n opcode = printer_jr_n
printer Instruction.call opcode = printer_call
printer Instruction.add_sp_n opcode = printer_add_sp_n
printer Instruction.ld_ff00_a opcode = printer_ld_ff00_a opcode
printer Instruction.ld_hl_sp opcode = printer_ld_hl_sp opcode
printer Instruction.cb_ext opcode = printer_cb_ext
printer _ opcode = pure tt
