-- ===== src/Checks/Timing.antt =====
-- The theorems on the screen, the timers and the interrupts (libgbc/gpu.cpp, io.cpp, cpu.cpp) at
-- concrete inputs.
use gamebro.Base.{
  ℕ, ◌+◌, ◌*◌, ◌/◌, ◌%◌, ◌≡◌, inl, refl, arith, Bool, true, false, ◌==◌, if◌then◌else◌, ok, [],
  bit_and,
}
use gamebro.State.{Machine, Io, reg}
use gamebro.State.Ports.{reg_div, reg_tima, reg_tac}
use gamebro.Gpu.{get_mode}
use gamebro.Gpu.Schedule as Schedule
use gamebro.Gpu.Schedule.{scheduled, ticks-scheduled}
use gamebro.Io.{interrupt_mask}
use gamebro.Io.Simulate.{tima_cycles}
use gamebro.Io.Timer as Timer
use gamebro.Io.Timer.{ticks-divider, ticks-tima}
use gamebro.Cpu.{enable_interrupts, disable_interrupts}
use gamebro.Cpu.Execute.{count_pending, handle_interrupts}
use gamebro.Cpu.Interrupts.{handle_interrupts-lost, count_pending-delay}
use gamebro.Checks.Machines.{cpu, machine, no_callbacks}

-- Registers in mode 2, with the timer on at its fastest, and the joypad interrupt requested.
abbrev io : Io
io =
    let i = (machine []).io in
    record i {
      ioregs = λ i.
          if i == 0x40
          then 0x91
          else if i == 0x41
          then 0x82
          else if i == 7
          then 5
          else if i == 15
          then 0x10
          else 0;
      reg_ie = 0x1f;
    }

ticks-scheduled_example :
    let (gpu', io') = Schedule.ticks 1 30 ((machine []).gpu, io) in
    (get_mode io' ≡ scheduled 1 (4 * 30)) × (gpu'.period ≡ 4 * 30) × (gpu'.current_scanline ≡ 0)
unfolding get_mode reg
ticks-scheduled_example =
    ticks-scheduled 1 30 (machine []).gpu io (inl refl) refl refl (omega arith)

ticks-divider_example :
    ((Timer.ticks 100 io).divider ≡ (0 + 4 * 100) % 65536)
    × (reg reg_div (Timer.ticks 100 io) ≡ (0 + 4 * 100) % 65536 / 256)
ticks-divider_example = ticks-divider 99 io (omega arith)

ticks-tima_example :
    let period = tima_cycles (bit_and (reg reg_tac io) 3) in
    let counted = (0 % period + 4 * 100) / period in
    (reg reg_tima (Timer.ticks 100 io) ≡ reg reg_tima io + counted)
    × (reg reg_tac (Timer.ticks 100 io) ≡ reg reg_tac io)
    × ((Timer.ticks 100 io).timabug ≡ 0)
    × ((Timer.ticks 100 io).divider ≡ (0 + 4 * 100) % 65536)
unfolding reg tima_cycles
ticks-tima_example = ticks-tima 100 io (omega arith) refl refl (omega arith) (omega arith)

abbrev requested : Bool → ℕ → Machine
requested ime ie =
    let m = machine [] in
    record m {
      cpu = record cpu { ime = ime };
      io = record io { reg_ie = ie; ioregs = λ i. if i == 15 then ie else 0 };
    }

handle_interrupts-lost_example :
    handle_interrupts no_callbacks (requested true 0x20)
    ≡ ok (
      tt,
      let m = requested true 0x20 in record m { cpu = record cpu { ime = false; asleep = false } },
    )
unfolding interrupt_mask reg
handle_interrupts-lost_example =
    handle_interrupts-lost no_callbacks (requested true 0x20) refl refl refl (omega arith)

count_pending-delay_example :
    let on = count_pending (enable_interrupts cpu) in
    let off = count_pending (disable_interrupts cpu) in
    (on.ime ≡ false)
    × ((count_pending on).ime ≡ true)
    × ((count_pending (enable_interrupts on)).ime ≡ true)
    × (off.ime ≡ false)
    × ((count_pending off).ime ≡ false)
    × ((count_pending (count_pending on)).ime ≡ true)
    × ((count_pending (count_pending off)).ime ≡ false)
count_pending-delay_example = count_pending-delay cpu refl
