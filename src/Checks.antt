-- ===== src/Checks.antt =====
-- Tests and examples at concrete inputs, of the whole of libgbc.
pub mod Machines
pub mod Storage
pub mod Words
pub mod Timing
pub mod Runs
pub mod Debugger
