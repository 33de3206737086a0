-- ===== src/Safety/Jumps.antt =====
-- The jumps, calls and machine control of libgbc/instructions.cpp are safe.
use gamebro.Base.{ℕ, ◌+◌, ◌%◌, arith, true, ◌||◌, ◌==◌, ◌!=◌, if◌then◌else◌, bit_and, add_signed}
use gamebro.Registers.{hl, compare_flags}
use gamebro.State.{Cpu}
use gamebro.State.Monad.{break_now}
use gamebro.Io.{joypad_is_disabled}
use gamebro.Cpu.{enable_interrupts, disable_interrupts, wait, buggy_halt}
use gamebro.Cpu.Jump.{
  handler_jp, handler_jp_hl, handler_jr_n, handler_call, return_to, handler_ret, handler_reti,
  handler_rst, handler_stop, handler_halt, handler_di_ei,
}
use gamebro.Memory.Control.{IsRegs}
use gamebro.Safety.Rules.{
  Safely, Any, Safely-bind, Safely-then, Safely-if, Safely-when, Safely-gets,
}
use gamebro.Safety.Access.{
  hardware_tick-Safely, modify_cpu-Safely, modify_regs-Safely, regs-Safely, readop8-Safely,
  readop16-Safely, mtread16-Safely, jump-Safely, push_and_jump-Safely, advance_pc-Safely,
}
use gamebro.Safety.Power.{stop-Safely}

pub break_now-Safely : Safely Any break_now
break_now-Safely = modify_cpu-Safely (λ c. record c { m_break = true }) (λ c r. r)

pub jp-Safely : (opcode : ℕ) → Safely Any (handler_jp opcode)
unfolding handler_jp
jp-Safely opcode = Safely-bind readop16-Safely (λ target h. Safely-bind regs-Safely (λ r k.
    Safely-when (bit_and opcode 1 != 0 || compare_flags opcode r)
      (Safely-then (jump-Safely target) hardware_tick-Safely)))

pub jp_hl-Safely : Safely Any handler_jp_hl
unfolding handler_jp_hl
jp_hl-Safely = Safely-bind regs-Safely (λ r k. jump-Safely (hl r))

pub jr_n-Safely : (opcode : ℕ) → Safely Any (handler_jr_n opcode)
unfolding handler_jr_n
jr_n-Safely opcode = Safely-bind readop8-Safely (λ disp h. Safely-then hardware_tick-Safely (
    Safely-bind regs-Safely (λ r k.
      Safely-when (opcode == 0x18 || compare_flags opcode r) (jump-Safely (add_signed r.pc disp)))))

pub call-Safely : (opcode : ℕ) → Safely Any (handler_call opcode)
unfolding handler_call
call-Safely opcode = Safely-bind readop16-Safely (λ target h. Safely-bind regs-Safely (λ r k.
    Safely-when (bit_and opcode 1 != 0 || compare_flags opcode r) (push_and_jump-Safely target)))

return_to-Safely : Safely Any return_to
return_to-Safely = Safely-bind regs-Safely (λ r k.
    Safely-bind (mtread16-Safely r.sp k.sp_word) (λ v h.
      Safely-then (modify_regs-Safely (λ r. record r { pc = v }) (λ r k. ground (arith, k))) (
        modify_regs-Safely (λ r. record r { sp = (r.sp + 2) % 65536 }) (λ r k. ground (arith, k)))))

pub ret-Safely : (opcode : ℕ) → Safely Any (handler_ret opcode)
unfolding handler_ret
ret-Safely opcode = Safely-bind regs-Safely (λ r k.
    Safely-then
      (Safely-when (bit_and opcode 0xef == 0xc9 || compare_flags opcode r)
        (Safely-then return_to-Safely (Safely-when (opcode != 0xc9) hardware_tick-Safely)))
      hardware_tick-Safely)

enable-IsRegs : (c : Cpu) → IsRegs c.registers → IsRegs (enable_interrupts c).registers
unfolding enable_interrupts
enable-IsRegs c r = ground (arith, r)

pub reti-Safely : Safely Any handler_reti
unfolding handler_reti
reti-Safely =
    Safely-then return_to-Safely
      (Safely-then hardware_tick-Safely (modify_cpu-Safely enable_interrupts enable-IsRegs))

pub rst-Safely : (opcode : ℕ) → Safely Any (handler_rst opcode)
unfolding handler_rst
rst-Safely opcode = Safely-bind regs-Safely (λ r k.
    Safely-if (r.pc == bit_and opcode 0x38 + 1) (λ e. break_now-Safely)
      (λ e. push_and_jump-Safely (bit_and opcode 0x38)))

pub handler_stop-Safely : Safely Any handler_stop
unfolding handler_stop
handler_stop-Safely = Safely-then (advance_pc-Safely 1) (
    Safely-bind {P = Any} (Safely-gets {f = λ m. joypad_is_disabled m.io} (λ m s. tt))
      (λ disabled u. Safely-then (Safely-when disabled break_now-Safely) stop-Safely))

pub halt-Safely : Safely Any handler_halt
unfolding handler_halt wait buggy_halt
halt-Safely =
    modify_cpu-Safely (λ c. if c.ime then wait c else buggy_halt c) (λ c r. ground (arith, r))

pub di_ei-Safely : (opcode : ℕ) → Safely Any (handler_di_ei opcode)
unfolding handler_di_ei
di_ei-Safely opcode =
    modify_cpu-Safely (if bit_and opcode 0x08 != 0 then enable_interrupts else disable_interrupts)
      (λ c r. unfold disable_interrupts in ground (arith, r, enable-IsRegs c r))
