-- ===== src/Cpu/Execute.antt =====
-- The main loop of libgbc/cpu.cpp: decoding and running an instruction, interrupts, and one step
-- of the emulator. Of what is printed, only the reads of the printers are kept.
use gamebro.Base.{
  List, [], ◌∷◌, ok, ◌==◌, leb, ◌+◌, ◌%◌, ℕ, ◌-◌, bit_and, Bool, true, false, not, ◌||◌, ◌&&◌,
  Option, none, some, ◌≡◌, ◌⊎◌,
}
use gamebro.Base.{◌!=◌, if◌then◌else◌, increment, decrement, is_zero, is_positive}
use gamebro.State.{Cpu, reg, set_reg}
use gamebro.State.Monad.{M, Unit₀, pure, ◌>>◌, ◌>>=◌, when, gets, modify_cpu, modify_io, break_now}
use gamebro.State.Ports.{reg_if, Interrupt, vblank, lcd_stat, timerint, serialint, joypadint}
use gamebro.Io.{interrupt_mask}
use gamebro.Memory.{is_within, video_ram, echo_ram, oam_ram, io_ports}
use gamebro.Cpu.{
  regs, modify_regs, hardware_tick, peekop8, advance_pc, push_and_jump, handle_speed_switch,
}
use gamebro.Cpu.Decode.{Instruction, decode}
use gamebro.Cpu.Printers.{printer}
use gamebro.Cpu.Load
use gamebro.Cpu.Arithmetic
use gamebro.Cpu.Jump
use gamebro.Cpu.Extended

-- The pending change of the interrupt switch: two instructions after EI or DI it takes place.
unfoldable pub count_pending : Cpu → Cpu
count_pending c =
    if is_zero c.intr_pending
    then c
    else if is_positive c.intr_pending
    then (let left = decrement c.intr_pending in
        record c { intr_pending = left; ime = if is_zero left then true else c.ime })
    else (let left = increment c.intr_pending in
        record c { intr_pending = left; ime = if is_zero left then false else c.ime })

-- The interrupt callbacks that a client sets with `Machine::set_handler`.
pub record Callbacks : Type 0 where
  pub vblank : Option (M Unit₀)
  pub timerint : Option (M Unit₀)
  pub joypadint : Option (M Unit₀)
  pub debugint : Option (M Unit₀)

-- The function is one of the callbacks.
abbrev pub Sets : Callbacks → M Unit₀ → Type 0
Sets callbacks f =
    (callbacks.vblank ≡ some f)
    ⊎ ((callbacks.timerint ≡ some f)
        ⊎ ((callbacks.joypadint ≡ some f) ⊎ (callbacks.debugint ≡ some f)))

-- `if (intr.callback) intr.callback(machine(), intr)`.
abbrev pub call_if_set : Option (M Unit₀) → M Unit₀
call_if_set none = pure tt
call_if_set (some f) = f

-- `CPU::interrupt`; the second argument is the callback that the interrupt has.
unfoldable pub interrupt : Interrupt → Option (M Unit₀) → M Unit₀
interrupt intr callback =
    modify_io (λ io. set_reg reg_if (bit_and (reg reg_if io) (255 - intr.mask)) io)
    >> hardware_tick
    >> hardware_tick
    >> push_and_jump intr.fixed_address
    >> gets (λ m. m.break_on_interrupts && not m.cpu.m_break)
    >>= λ b. when b break_now >> call_if_set callback

module _ (callbacks : Callbacks) where
  -- The pending interrupt of the highest priority. No client can set a callback for two of them.
  unfoldable pub dispatch : ℕ → M Unit₀
  dispatch imask =
      if bit_and imask 0x1 != 0
      then interrupt vblank callbacks.vblank
      else if bit_and imask 0x2 != 0
      then interrupt lcd_stat none
      else if bit_and imask 0x4 != 0
      then interrupt timerint callbacks.timerint
      else if bit_and imask 0x8 != 0
      then interrupt serialint none
      else if bit_and imask 0x10 != 0
      then interrupt joypadint callbacks.joypadint
      else pure tt

  unfoldable pub handle_interrupts : M Unit₀
  handle_interrupts = do
    modify_cpu count_pending
    imask ← gets (λ m. interrupt_mask m.io)
    c ← gets (λ m. m.cpu)
    (if c.ime && imask != 0
        then (modify_cpu (λ c. record c { ime = false; asleep = false }) >> dispatch imask)
        else when (c.haltbug && imask != 0)
            (modify_cpu (λ c. record c { asleep = false; haltbug = false })))

-- The step counter of `break_time`, an `int16_t` that counts down and starts again; the first
-- component is the result.
unfoldable pub count_break : Cpu → Bool × Cpu
count_break c =
    let left = (c.break_steps + 65535) % 65536 in
    if c.m_break
    then (true, c)
    else if c.break_steps_cnt != 0
    then (if left == 0 || leb 0x8000 left
        then (true, record c { break_steps = c.break_steps_cnt })
        else (false, record c { break_steps = left }))
    else (false, c)

-- `CPU::break_time`.
unfoldable pub break_time : M Bool
break_time m = let out = count_break m.cpu in ok (out.0, record m { cpu = out.1 })

abbrev pub is_empty : List ℕ → Bool
is_empty [] = true
is_empty (x ∷ xs) = false

-- `m_breakpoints.find(pc) != m_breakpoints.end()`.
abbrev pub is_breakpoint : ℕ → List ℕ → Bool
is_breakpoint pc [] = false
is_breakpoint pc (addr ∷ addrs) = addr == pc || is_breakpoint pc addrs

-- `print_and_pause` talks to the person at the terminal, who may do anything to the machine.
module _ (print_and_pause : ℕ → M Unit₀) where
  unfoldable pub handler : Instruction → ℕ → M Unit₀
  handler Instruction.nop opcode = pure tt
  handler Instruction.ld_n_sp opcode = Load.handler_ld_n_sp
  handler Instruction.ld_r_n opcode = Load.handler_ld_r_n opcode
  handler Instruction.add_hl_r opcode = Arithmetic.handler_add_hl_r opcode
  handler Instruction.ld_r_a_r opcode = Load.handler_ld_r_a_r opcode
  handler Instruction.inc_dec_r opcode = Arithmetic.handler_inc_dec_r opcode
  handler Instruction.inc_dec_d opcode = Arithmetic.handler_inc_dec_d opcode
  handler Instruction.ld_d_n opcode = Load.handler_ld_d_n opcode
  handler Instruction.ld_d_d opcode = Load.handler_ld_d_d opcode
  handler Instruction.ld_n_a_n opcode = Load.handler_ld_n_a_n opcode
  handler Instruction.jr_n opcode = Jump.handler_jr_n opcode
  handler Instruction.rlc_rrc opcode = Arithmetic.handler_rlc_rrc opcode
  handler Instruction.ldid_hl_a opcode = Load.handler_ldid_hl_a opcode
  handler Instruction.daa opcode = modify_regs Arithmetic.daa
  handler Instruction.cpl_a opcode = modify_regs Arithmetic.cpl_a
  handler Instruction.scf_ccf opcode = modify_regs (Arithmetic.scf_ccf opcode)
  handler Instruction.halt opcode = Jump.handler_halt
  handler Instruction.alu_a_d opcode = Arithmetic.handler_alu_a_d opcode
  handler Instruction.alu_a_n opcode = Arithmetic.handler_alu_a_n opcode
  handler Instruction.push_pop opcode = Load.handler_push_pop opcode
  handler Instruction.rst opcode = Jump.handler_rst opcode
  handler Instruction.ret opcode = Jump.handler_ret opcode
  handler Instruction.reti opcode = Jump.handler_reti
  handler Instruction.stop opcode = Jump.handler_stop
  handler Instruction.jp opcode = Jump.handler_jp opcode
  handler Instruction.call opcode = Jump.handler_call opcode
  handler Instruction.add_sp_n opcode = Arithmetic.handler_add_sp_n
  handler Instruction.ld_ff00_a opcode = Load.handler_ld_ff00_a opcode
  handler Instruction.ld_hl_sp opcode = Load.handler_ld_hl_sp opcode
  handler Instruction.jp_hl opcode = Jump.handler_jp_hl
  handler Instruction.di_ei opcode = Jump.handler_di_ei opcode
  handler Instruction.cb_ext opcode = Extended.handler_cb_ext
  handler Instruction.missing opcode = print_and_pause opcode

  -- The four areas where the program counter stops the emulator in the debugger.
  abbrev pub outside_code : ℕ → Bool
  outside_code pc =
      is_within pc video_ram
      || is_within pc echo_ram
      || is_within pc oam_ram
      || is_within pc io_ports

  unfoldable pub execute : M Unit₀
  execute = do
    opcode ← peekop8 0
    verbose ← gets (λ m. m.verbose_instructions)
    when verbose (printer (decode opcode) opcode)
    advance_pc 1
    hardware_tick
    handler (decode opcode) opcode
    r ← regs
    when (outside_code r.pc) break_now

  -- `CPU::break_checks`.
  unfoldable pub break_checks : M Unit₀
  break_checks = do
    due ← break_time
    when due (modify_cpu (λ c. record c { m_break = false }) >> peekop8 0 >>= print_and_pause)
    c ← gets (λ m. m.cpu)
    when (is_breakpoint c.registers.pc c.breakpoints) (peekop8 0 >>= print_and_pause)

module _ (callbacks : Callbacks) (print_and_pause : ℕ → M Unit₀) where
  -- What `simulate` does when the machine is running.
  unfoldable pub run_step : M Unit₀
  run_step = do
    handle_interrupts callbacks
    c ← gets (λ m. m.cpu)
    if not c.asleep && not c.stopped
        then execute print_and_pause
        else (hardware_tick >> handle_speed_switch)

  -- `CPU::simulate`.
  unfoldable pub simulate : M Unit₀
  simulate = do
    due ← break_time
    c ← gets (λ m. m.cpu)
    (if due || not (is_empty c.breakpoints)
        then (break_checks print_and_pause >> gets (λ m. m.running) >>= λ running.
            when running run_step)
        else run_step)
