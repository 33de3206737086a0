-- ===== src/Cpu/Jump.antt =====
-- The jumps, calls and machine control of libgbc/instructions.cpp. Messages are left out.
use gamebro.Base.{ℕ, ◌+◌, ◌%◌, bit_and, ◌||◌}
use gamebro.Base.{◌==◌, ◌!=◌, if◌then◌else◌, add_signed}
use gamebro.Registers.{hl, compare_flags}
use gamebro.State.Monad.{M, Unit₀, ◌>>◌, ◌>>=◌, when, gets, modify_cpu, break_now}
use gamebro.Io.{joypad_is_disabled}
use gamebro.Cpu.{regs, modify_regs, hardware_tick, readop8, readop16, mtread16}
use gamebro.Cpu.{advance_pc, push_and_jump}
use gamebro.Cpu.{jump, stop, wait, buggy_halt, enable_interrupts, disable_interrupts}

unfoldable pub handler_jp : ℕ → M Unit₀
handler_jp opcode = do
  target ← readop16
  r ← regs
  when (bit_and opcode 1 != 0 || compare_flags opcode r) (jump target >> hardware_tick)

unfoldable pub handler_jp_hl : M Unit₀
handler_jp_hl = regs >>= λ r. jump (hl r)

unfoldable pub handler_jr_n : ℕ → M Unit₀
handler_jr_n opcode = do
  disp ← readop8
  hardware_tick
  r ← regs
  when (opcode == 0x18 || compare_flags opcode r) (jump (add_signed r.pc disp))

unfoldable pub handler_call : ℕ → M Unit₀
handler_call opcode = do
  target ← readop16
  r ← regs
  when (bit_and opcode 1 != 0 || compare_flags opcode r) (push_and_jump target)

-- Pop the program counter.
abbrev pub return_to : M Unit₀
return_to = do
  r ← regs
  v ← mtread16 r.sp
  modify_regs (λ r. record r { pc = v })
  modify_regs (λ r. record r { sp = (r.sp + 2) % 65536 })

unfoldable pub handler_ret : ℕ → M Unit₀
handler_ret opcode = do
  r ← regs
  when (bit_and opcode 0xef == 0xc9 || compare_flags opcode r)
      (return_to >> when (opcode != 0xc9) hardware_tick)
  hardware_tick

unfoldable pub handler_reti : M Unit₀
handler_reti = do return_to; hardware_tick; modify_cpu enable_interrupts

-- A call of the vector that the instruction itself stands at stops in the debugger.
unfoldable pub handler_rst : ℕ → M Unit₀
handler_rst opcode = do
  let dst = bit_and opcode 0x38
  r ← regs
  if r.pc == dst + 1 then break_now else push_and_jump dst

unfoldable pub handler_stop : M Unit₀
handler_stop = do
  advance_pc 1
  disabled ← gets (λ m. joypad_is_disabled m.io)
  when disabled break_now
  stop

unfoldable pub handler_halt : M Unit₀
handler_halt = modify_cpu (λ c. if c.ime then wait c else buggy_halt c)

unfoldable pub handler_di_ei : ℕ → M Unit₀
handler_di_ei opcode =
    modify_cpu (if bit_and opcode 0x08 != 0 then enable_interrupts else disable_interrupts)
