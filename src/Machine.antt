-- ===== src/Machine.antt =====
-- libgbc/machine.cpp: construction, reset, the joypad and the loops that run a whole frame. A loop
-- runs on fuel, as a frame takes as long as the program under emulation likes.
pub mod Endless
use gamebro.Cpu.Execute.{Callbacks}
use gamebro.Base.{
  ℕ, zero, suc, Bool, true, ◌&&◌, ◌==◌, ◌!=◌, if◌then◌else◌, bit_and, too_long, assertion,
}
use gamebro.State.{Machine}
use gamebro.State.Monad.{M, Unit₀, pure, ◌>>=◌, ◌>>◌, when, gets, modify, modify_cpu}
use gamebro.State.Monad.{stop_with}
use gamebro.Memory.{read8}
use gamebro.Gpu.{is_vblank}
use gamebro.Gpu
use gamebro.Io
use gamebro.Io.{trigger_keys}
use gamebro.Cpu
use gamebro.Cpu.Execute.{simulate}

abbrev pub enable_gbc : Bool
enable_gbc = true

-- The body of the constructor, after its members have been constructed.
unfoldable pub construct : Bool → M Unit₀
construct init = do
  cgb ← read8 0x143
  modify (λ m. record m { cgb_mode = bit_and cgb 0x80 != 0 && enable_gbc })
  when init (λ m. modify_cpu (Cpu.reset m.cgb_mode) m)

-- `Memory::reset` does nothing.
unfoldable pub reset : Machine → Machine
reset m = record m { cpu = Cpu.reset m.cgb_mode m.cpu; io = Io.reset m.io; gpu = Gpu.reset m.gpu }

-- `Machine::set_inputs`.
unfoldable pub set_inputs : ℕ → Machine → Machine
set_inputs mask m = record m { io = trigger_keys mask m.io }

module _ (callbacks : Callbacks) (print_and_pause : ℕ → M Unit₀) where
  -- `while (gpu.current_scanline() != line) cpu.simulate();`
  unfoldable pub until_line : ℕ → ℕ → M Unit₀
  until_line line zero m =
      if m.gpu.current_scanline == line then pure tt m else stop_with too_long m
  until_line line (suc fuel) m =
      if m.gpu.current_scanline == line
      then pure tt m
      else (simulate callbacks print_and_pause >> until_line line fuel) m

  -- `Machine::simulate_one_frame`, with its assertion.
  unfoldable pub simulate_one_frame : ℕ → M Unit₀
  simulate_one_frame fuel = do
    until_line 0 fuel
    until_line 144 fuel
    vblank ← gets (λ m. is_vblank m.io)
    if vblank then pure tt else stop_with assertion
