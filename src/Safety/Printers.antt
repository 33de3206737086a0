-- ===== src/Safety/Printers.antt =====
-- The printers of libgbc/instructions.cpp are safe, each for the opcodes decoded to it.
use gamebro.Base.{
  ℕ, ◌<◌, ◌≡◌, refl, arith, Bool, true, ◌||◌, ◌==◌, ◌!=◌, ltb, bit_and, checked, checked-true,
}
use gamebro.State.Monad.{pure}
use gamebro.Cpu.Printers.{
  show8, show16, printer_push_pop, printer_ld_ff00_a, printer_ld_hl_sp, printer,
}
use gamebro.Cpu.Decode.{Instruction, decode}
use gamebro.Safety.Peeks.{
  Peeks, Peeks-bind, Peeks-pure, Peeks-if, Peeks-Safely, regs-Peeks, read16-Peeks, peekop8-Peeks,
  peekop16-Peeks,
}
use gamebro.Safety.Rules.{Safely, Any}

-- What three of the handlers rely on: the opcodes that are decoded to them.
abbrev pub fits : Instruction → ℕ → Bool
fits Instruction.rlc_rrc op = op == 0x07 || (op == 0x0f || (op == 0x17 || op == 0x1f))
fits Instruction.ld_ff00_a op = op == 0xe2 || (op == 0xf2 || (op == 0xe0 || op == 0xf0))
fits Instruction.inc_dec_d op = ltb op 64
fits _ op = true

fits_table : checked 256 (λ op. fits (decode op) op) ≡ true
unfolding checked decode
fits_table = refl

pub decode-fits : (opcode : ℕ) → opcode < 256 → fits (decode opcode) opcode ≡ true
decode-fits opcode h = checked-true (λ op. fits (decode op) op) 256 opcode fits_table h

show8-Peeks : Peeks Any show8
show8-Peeks = Peeks-bind (peekop8-Peeks 1) (λ x h. Peeks-pure tt tt)

show16-Peeks : Peeks Any show16
show16-Peeks = Peeks-bind (peekop16-Peeks 1) (λ x h. Peeks-pure tt tt)

shown : Peeks Any (pure tt)
shown = Peeks-pure tt tt

printer_push_pop-Peeks : (opcode : ℕ) → Peeks Any (printer_push_pop opcode)
unfolding printer_push_pop
printer_push_pop-Peeks opcode =
    Peeks-if (bit_and opcode 4 != 0) (λ e. shown)
      (λ e. Peeks-bind regs-Peeks (λ r k. Peeks-bind (read16-Peeks r.sp k.sp_word) (λ x h. shown)))

printer_ld_ff00_a-Peeks :
    (opcode : ℕ) → fits Instruction.ld_ff00_a opcode ≡ true → Peeks Any (printer_ld_ff00_a opcode)
unfolding printer_ld_ff00_a
printer_ld_ff00_a-Peeks opcode h =
    Peeks-if (opcode == 0xe2 || opcode == 0xf2) (λ e. shown)
      (λ e.
        Peeks-if (opcode == 0xe0 || opcode == 0xf0) (λ e. show8-Peeks)
          (λ e'. absurd (ground (arith, h, e, e'))))

pub printer-Peeks :
    (i : Instruction) (opcode : ℕ) → fits i opcode ≡ true → Peeks Any (printer i opcode)
unfolding printer printer_ld_hl_sp
printer-Peeks Instruction.ld_n_sp opcode h = show16-Peeks
printer-Peeks Instruction.ld_r_n opcode h = show16-Peeks
printer-Peeks Instruction.ld_d_n opcode h = show8-Peeks
printer-Peeks Instruction.ld_n_a_n opcode h = show16-Peeks
printer-Peeks Instruction.alu_a_n opcode h = show8-Peeks
printer-Peeks Instruction.jp opcode h = show16-Peeks
printer-Peeks Instruction.push_pop opcode h = printer_push_pop-Peeks opcode
printer-Peeks Instruction.jr_n opcode h = show8-Peeks
printer-Peeks Instruction.call opcode h = show16-Peeks
printer-Peeks Instruction.add_sp_n opcode h = show8-Peeks
printer-Peeks Instruction.ld_ff00_a opcode h = printer_ld_ff00_a-Peeks opcode h
printer-Peeks Instruction.ld_hl_sp opcode h =
    Peeks-if (opcode == 0xf8) (λ e. show8-Peeks) (λ e. shown)
printer-Peeks Instruction.cb_ext opcode h = show8-Peeks
printer-Peeks Instruction.nop opcode h = shown
printer-Peeks Instruction.add_hl_r opcode h = shown
printer-Peeks Instruction.ld_r_a_r opcode h = shown
printer-Peeks Instruction.inc_dec_r opcode h = shown
printer-Peeks Instruction.inc_dec_d opcode h = shown
printer-Peeks Instruction.ld_d_d opcode h = shown
printer-Peeks Instruction.rlc_rrc opcode h = shown
printer-Peeks Instruction.ldid_hl_a opcode h = shown
printer-Peeks Instruction.daa opcode h = shown
printer-Peeks Instruction.cpl_a opcode h = shown
printer-Peeks Instruction.scf_ccf opcode h = shown
printer-Peeks Instruction.halt opcode h = shown
printer-Peeks Instruction.alu_a_d opcode h = shown
printer-Peeks Instruction.rst opcode h = shown
printer-Peeks Instruction.ret opcode h = shown
printer-Peeks Instruction.reti opcode h = shown
printer-Peeks Instruction.stop opcode h = shown
printer-Peeks Instruction.jp_hl opcode h = shown
printer-Peeks Instruction.di_ei opcode h = shown
printer-Peeks Instruction.missing opcode h = shown

pub printer-Safely :
    (i : Instruction) (opcode : ℕ) → fits i opcode ≡ true → Safely Any (printer i opcode)
printer-Safely i opcode h = Peeks-Safely (printer-Peeks i opcode h)
