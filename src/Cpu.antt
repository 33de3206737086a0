-- ===== src/Cpu.antt =====
-- The CPU's own methods: libgbc/cpu.cpp and libgbc/cpu.hpp. Each memory access and operand fetch
-- ticks the hardware. `APU::simulate` of libgbc/apu.cpp does nothing yet, so a tick has two parts.
pub mod Decode
pub mod Load
pub mod Arithmetic
pub mod Jump
pub mod Extended
pub mod Printers
pub mod Execute
pub mod Table
pub mod Interrupts
use gamebro.Base.{
  ℕ, ◌+◌, ◌-◌, ◌*◌, ◌/◌, ◌%◌, ◌^◌, bit_and, Bool, true, false, not, ltb, ◌==◌, ◌!=◌, if◌then◌else◌,
}
use gamebro.Base.{ℤ, pos, negsuc, is_positive, Outcome, ok, fault}
use gamebro.Registers.{Regs, set_af, set_bc, set_de, set_hl, hl, getdest, setdest}
use gamebro.State.{Cpu, Machine, reg}
use gamebro.State.Monad.{M, Unit₀, pure, ◌>>◌, ◌>>=◌, when, gets, modify_cpu, modify_io}
use gamebro.State.Ports.{reg_key1}
use gamebro.Memory.{read8, read16, write8, write16, do_switch_speed, double_speed}
use gamebro.Io.{perform_stop, deactivate_stop}
use gamebro.Io.Simulate as IoSimulate
use gamebro.Video.Render

abbrev pub regs : M Regs
regs = gets (λ m. m.cpu.registers)

abbrev pub modify_regs : (Regs → Regs) → M Unit₀
modify_regs f = modify_cpu (λ c. record c { registers = f c.registers })

-- `bootrom_enabled()` is always false, so execution starts at 0x100.
unfoldable pub reset : Bool → Cpu → Cpu
reset is_cgb c =
    let r = c.registers in
    let r1 =
      if not is_cgb
      then set_hl 0x014d (set_de 0x00d8 (set_bc 0x0013 (set_af 0x01b0 r)))
      else set_hl 0x000d (set_de 0xff56 (set_bc 0x0000 (set_af 0x1180 r))) in
    record c { registers = record r1 { sp = 0xfffe; pc = 0x100 }; cycles_total = 0 }

unfoldable pub incr_cycles : ℕ → Cpu → Cpu
incr_cycles count c = record c { cycles_total = (c.cycles_total + count) % 2 ^ 64 }

unfoldable pub hardware_tick : M Unit₀
hardware_tick = modify_cpu (incr_cycles 4) >> Render.simulate >> IoSimulate.simulate

unfoldable pub peekop8 : ℕ → M ℕ
peekop8 disp m = read8 ((m.cpu.registers.pc + disp) % 65536) m

unfoldable pub peekop16 : ℕ → M ℕ
peekop16 disp m = read16 ((m.cpu.registers.pc + disp) % 65536) m

abbrev pub advance_pc : ℕ → M Unit₀
advance_pc n = modify_regs (λ r. record r { pc = (r.pc + n) % 65536 })

unfoldable pub readop8 : M ℕ
readop8 = do operand ← peekop8 0; advance_pc 1; hardware_tick; pure operand

unfoldable pub readop16 : M ℕ
readop16 = do operand ← peekop16 0; advance_pc 2; hardware_tick; hardware_tick; pure operand

unfoldable pub mtread8 : ℕ → M ℕ
mtread8 addr = do value ← read8 addr; hardware_tick; pure value

unfoldable pub mtwrite8 : ℕ → ℕ → M Unit₀
mtwrite8 addr value = do write8 addr value; hardware_tick

unfoldable pub mtread16 : ℕ → M ℕ
mtread16 addr = do value ← read16 addr; hardware_tick; hardware_tick; pure value

unfoldable pub mtwrite16 : ℕ → ℕ → M Unit₀
mtwrite16 addr value = do write16 addr value; hardware_tick; hardware_tick

unfoldable pub read_hl : M ℕ
read_hl = regs >>= λ r. mtread8 (hl r)

unfoldable pub write_hl : ℕ → M Unit₀
write_hl value = regs >>= λ r. mtwrite8 (hl r) value

-- `getdest` and `setdest` on the CPU's registers; both throw for (HL).
unfoldable pub dest : ℕ → M ℕ
dest bf m = elim (getdest bf m.cpu.registers) [ ok v ↦ pure v m | fault e ↦ fault e ]

unfoldable pub put_dest : ℕ → ℕ → M Unit₀
put_dest bf v m = elim (setdest bf v m.cpu.registers) [
  | ok r ↦ modify_regs (λ _. r) m
  | fault e ↦ fault e
]

unfoldable pub enable_interrupts : Cpu → Cpu
enable_interrupts c = if is_positive c.intr_pending then c else record c { intr_pending = pos 2 }

unfoldable pub disable_interrupts : Cpu → Cpu
disable_interrupts c = record c { intr_pending = negsuc 1 }

unfoldable pub jump : ℕ → M Unit₀
jump dest = modify_regs (λ r. record r { pc = dest % 65536 })

unfoldable pub push_value : ℕ → M Unit₀
push_value value = do
  hardware_tick
  modify_regs (λ r. record r { sp = (r.sp + 65536 - 2) % 65536 })
  r ← regs
  mtwrite16 r.sp value

unfoldable pub push_and_jump : ℕ → M Unit₀
push_and_jump address = do r ← regs; push_value r.pc; jump address

unfoldable pub stop : M Unit₀
stop m =
    (modify_cpu (λ c. record c {
      stopped = true;
      switch_cycles = if bit_and (reg reg_key1 m.io) 0x1 != 0 then 4 else c.switch_cycles;
    })
        >> modify_io perform_stop)
      m

unfoldable pub handle_speed_switch : M Unit₀
handle_speed_switch m =
    if ltb 0 m.cpu.switch_cycles
    then (let left = m.cpu.switch_cycles - 1 in
          modify_cpu (λ c. record c { switch_cycles = left })
          >> when (left == 0) (
              modify_cpu (λ c. record c { stopped = false })
              >> do_switch_speed
              >> gets (λ m. double_speed m.memory)
              >>= λ fast. modify_io (deactivate_stop fast)))
        m
    else pure tt m

unfoldable pub wait : Cpu → Cpu
wait c = record c { asleep = true; haltbug = false }

unfoldable pub buggy_halt : Cpu → Cpu
buggy_halt c = record c { asleep = true; haltbug = true }
