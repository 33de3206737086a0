-- ===== src/Safety/Step.antt =====
-- `CPU::execute` of libgbc/cpu.cpp is safe: fetching, decoding and every instruction.
use gamebro.Base.{ℕ, ◌≡◌, arith, true, false}
use gamebro.State.{Cpu}
use gamebro.State.Monad.{M, Unit₀, ◌>>=◌, ◌>>◌, pure}
use gamebro.Base.{Bool}
use gamebro.Cpu.Decode.{Instruction}
use gamebro.Cpu.Arithmetic
use gamebro.Cpu.Execute.{count_pending, handler, count_break}
use gamebro.Memory.Control.{IsRegs}
use gamebro.Safety.Printers.{fits}
use gamebro.Safety.Rules.{Safely, Any, Safely-pure}
use gamebro.Safety.Ranges.{daa-IsRegs, cpl_a-IsRegs, scf_ccf-IsRegs}
use gamebro.Safety.Access.{modify_regs-Safely}
use gamebro.Safety.Loads.{
  ld_n_sp-Safely, ld_r_n-Safely, ld_r_a_r-Safely, ld_d_n-Safely, ld_d_d-Safely, ld_n_a_n-Safely,
  ldid_hl_a-Safely, push_pop-Safely, ld_hl_sp-Safely, ld_ff00_a-Safely,
}
use gamebro.Safety.Alu.{
  add_hl_r-Safely, inc_dec_r-Safely, inc_dec_d-Safely, alu_a_d-Safely, alu_a_n-Safely,
  add_sp_n_handler-Safely, rlc_rrc-Safely, cb_ext-Safely,
}
use gamebro.Safety.Jumps.{
  jp-Safely, jp_hl-Safely, jr_n-Safely, call-Safely, ret-Safely, reti-Safely, rst-Safely,
  handler_stop-Safely, halt-Safely, di_ei-Safely,
}

pub pending-IsRegs : (c : Cpu) → IsRegs c.registers → IsRegs (count_pending c).registers
unfolding count_pending
pending-IsRegs c r = ground (arith, r)

pub count_break-IsRegs : (c : Cpu) → IsRegs c.registers → IsRegs (count_break c).1.registers
unfolding count_break
count_break-IsRegs c r = ground (arith, r)

module _ (print_and_pause : ℕ → M Unit₀)
    (pausing : (opcode : ℕ) → Safely Any (print_and_pause opcode)) where
  pub handler-Safely :
      (i : Instruction) (opcode : ℕ)
      → fits i opcode ≡ true
      → Safely Any (handler print_and_pause i opcode)
  unfolding handler
  handler-Safely Instruction.nop opcode f = Safely-pure {a = tt} tt
  handler-Safely Instruction.ld_n_sp opcode f = ld_n_sp-Safely
  handler-Safely Instruction.ld_r_n opcode f = ld_r_n-Safely opcode
  handler-Safely Instruction.add_hl_r opcode f = add_hl_r-Safely opcode
  handler-Safely Instruction.ld_r_a_r opcode f = ld_r_a_r-Safely opcode
  handler-Safely Instruction.inc_dec_r opcode f = inc_dec_r-Safely opcode
  handler-Safely Instruction.inc_dec_d opcode f = inc_dec_d-Safely opcode (ground (arith, f))
  handler-Safely Instruction.ld_d_n opcode f = ld_d_n-Safely opcode
  handler-Safely Instruction.ld_d_d opcode f = ld_d_d-Safely opcode
  handler-Safely Instruction.ld_n_a_n opcode f = ld_n_a_n-Safely opcode
  handler-Safely Instruction.jr_n opcode f = jr_n-Safely opcode
  handler-Safely Instruction.rlc_rrc opcode f = rlc_rrc-Safely opcode f
  handler-Safely Instruction.ldid_hl_a opcode f = ldid_hl_a-Safely opcode
  handler-Safely Instruction.daa opcode f = modify_regs-Safely Arithmetic.daa daa-IsRegs
  handler-Safely Instruction.cpl_a opcode f = modify_regs-Safely Arithmetic.cpl_a cpl_a-IsRegs
  handler-Safely Instruction.scf_ccf opcode f =
      modify_regs-Safely (Arithmetic.scf_ccf opcode) (scf_ccf-IsRegs opcode)
  handler-Safely Instruction.halt opcode f = halt-Safely
  handler-Safely Instruction.alu_a_d opcode f = alu_a_d-Safely opcode
  handler-Safely Instruction.alu_a_n opcode f = alu_a_n-Safely opcode
  handler-Safely Instruction.push_pop opcode f = push_pop-Safely opcode
  handler-Safely Instruction.rst opcode f = rst-Safely opcode
  handler-Safely Instruction.ret opcode f = ret-Safely opcode
  handler-Safely Instruction.reti opcode f = reti-Safely
  handler-Safely Instruction.stop opcode f = handler_stop-Safely
  handler-Safely Instruction.jp opcode f = jp-Safely opcode
  handler-Safely Instruction.call opcode f = call-Safely opcode
  handler-Safely Instruction.add_sp_n opcode f = add_sp_n_handler-Safely
  handler-Safely Instruction.ld_ff00_a opcode f = ld_ff00_a-Safely opcode f
  handler-Safely Instruction.ld_hl_sp opcode f = ld_hl_sp-Safely opcode
  handler-Safely Instruction.jp_hl opcode f = jp_hl-Safely
  handler-Safely Instruction.di_ei opcode f = di_ei-Safely opcode
  handler-Safely Instruction.cb_ext opcode f = cb_ext-Safely
  handler-Safely Instruction.missing opcode f = pausing opcode

-- A debugger that does nothing, for the instructions that do not call it.
abbrev pub quiet : ℕ → M Unit₀
quiet opcode = pure tt

pub quiet-Safely : (opcode : ℕ) → Safely Any (quiet opcode)
quiet-Safely opcode = Safely-pure {a = tt} tt

abbrev pub is_missing : Instruction → Bool
is_missing Instruction.missing = true
is_missing _ = false
