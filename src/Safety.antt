-- ===== src/Safety.antt =====
-- The emulator as a whole never faults: libgbc/cpu.cpp, instructions.cpp, gpu.cpp and io.cpp over
-- a machine that is valid and whose control part is in order.
pub mod Scanline
pub mod Clock
pub mod Sprites
pub mod Setup
pub mod Screen
pub mod Rules
pub mod Frames
pub mod Timers
pub mod OamDma
pub mod Hdma
pub mod Tick
pub mod Access
pub mod Ranges
pub mod Power
pub mod Loads
pub mod Alu
pub mod Jumps
pub mod Peeks
pub mod Printers
pub mod Step
pub mod Runs
use gamebro.State.{Machine}
use gamebro.Memory.Invariant.{IsValid}
use gamebro.Memory.Control.{Control, IsSettled}

-- What holds between two ticks of the hardware.
pub record IsSafe (m : Machine) : Type 0 where
  pub valid : IsValid m
  pub control : Control m
  pub settled : IsSettled m.gpu m.io
