-- ===== src/Lib.antt =====
-- A model of the Game Boy emulator library libgbc of this repository, and what has been proved of
-- it.
--
-- The program. A `Machine` (libgbc/machine.hpp) has a CPU, a memory with the cartridge's bank
-- controller, I/O registers, a GPU and a sound unit. The CPU fetches and runs instructions; each of
-- its memory accesses ticks the hardware, which lets the GPU and the I/O unit advance and raise
-- interrupts. Memory is the map over the cartridge, the RAMs and the I/O registers; some I/O writes
-- move memory themselves (DMA) or switch banks and speed.
--
-- The model. Every method is a function on the machine's state that returns a value and a state, or
-- a fault: an exception, a failed assertion, or an index outside an unchecked array. Numbers are
-- natural numbers with the wrap-around of the C++ type written out; arrays are functions of the
-- index, and their sizes stand with the accesses.
--   Base        Boolean tests, bitwise operations by fields of bits, faults, signed bytes
--   Registers   libgbc/registers.hpp, `setflag` of common.hpp: register file and arithmetic unit
--               (Flags, Alu, Words, Select: proofs; Decimal: with `DAA` of instructions.cpp)
--   State       the `state_t` of every component, `IO::reg`, the interrupts of libgbc/io.cpp
--   Mbc         libgbc/mbc.cpp, mbc1m.hpp, mbc3.hpp, mbc5.hpp; Init: `MBC::init`
--               (Invariant, Banks, WorkRam: proofs)
--   Gpu         libgbc/gpu.cpp without the pixels (Schedule, Lines, Frames: proofs)
--   Io          libgbc/io.cpp and io_regs.cpp; Write: the write handlers; Simulate: `IO::simulate`
--               (Timer: proofs)
--   Memory      libgbc/memory.hpp and memory.cpp, with the breakpoint functions that the debugger
--               installs (Invariant, Ports, Writes, HighRam, Traps, Control, Kept, Commands:
--               proofs)
--   Video       libgbc/tiledata.hpp, sprite.hpp and the drawing of libgbc/gpu.cpp; Render:
--               `GPU::render_scanline` and `GPU::simulate`; Dump: the pictures of background and
--               tiles, and the colours of the DMG (Bounds, Order, Pictures: proofs)
--   Cpu         libgbc/cpu.cpp; Decode: `CPU::decode`; Load, Arithmetic, Jump, Extended: the
--               handlers of libgbc/instructions.cpp; Printers: what their printers read; Execute:
--               `CPU::simulate` (Table, Interrupts: proofs)
--   Machine     libgbc/machine.cpp: the constructor, reset, the joypad, and a whole frame (Endless:
--               proofs)
--   Safety      proofs over the machine as a whole: Scanline and Clock (the counters of the GPU),
--               Sprites, Setup and Screen (drawing), Timers, OamDma and Hdma (`IO::simulate`),
--               Tick (`CPU::hardware_tick`), Access, Ranges, Loads, Alu, Jumps, Power (the
--               instructions), Peeks and Printers (what is read to be printed), Step
--               (`CPU::execute`) and Runs (the joypad and resets); Rules and Frames are their
--               common steps
--   Debug       libgbc/debug.cpp: Parse (`split` and the numbers of the standard library), Commands
--               (`execute_commands`), and the loop of `print_and_pause`; the rest are proofs. Its
--               loop runs on as many rounds as there are characters typed, and one, which is enough
--               since every command takes one of them
--   FrontEnd    src/main.cpp: the main loop, the handler of Ctrl-C and that of the command `debug`,
--               which runs a frame and takes screenshots (Session, Driven: proofs)
--   Checks      the unit test of src/tests.cpp, and examples of the theorems
--
-- Bounds. The copy loop of an HDMA transfer runs on a fuel of 2048 rounds: a transfer is at most
-- 128 blocks of 16 bytes, and each round copies one. `write8` can be called from a write handler
-- for HDMA only; that inner call's targets lie below the I/O page, so it is one level deep, and the
-- deeper level of the model is a fault which the safety theorem on `write8` excludes. The loops of
-- `simulate_one_frame` run on a fuel that the caller gives, since a program may switch the LCD off
-- and so hold a frame open for as long as it likes; `too_long` stands for a loop that goes on.
--
-- The handler of `debug` runs such a frame, in which the debugger may be entered and `debug` typed
-- again: `FrontEnd.handlers` has one fuel for the frames and one for that depth.
--
-- Callbacks. `Cpu.Execute.Callbacks` are those that a client may set for the V-blank, timer and
-- joypad interrupts, which `interrupt` calls, and for the command `debug`; src/main.cpp sets only
-- the last. Theorems on any callbacks take their good behaviour as a hypothesis, `AreSound`: from a
-- machine that is valid and in order a callback leaves such a machine, or it ends as a grade allows.
--
-- Not modelled: what is printed (only the reads of memory that printing makes are kept), the
-- callbacks for the joypad's masks and for changes of the palette (the one of src/main.cpp keeps
-- the colours of its screenshots), saving and restoring states, the sound generators (the source
-- does nothing there), the files of src/main.cpp, and the other programs around the library
-- (trainer, service). `Cpu.Execute` takes the interactive debugger as a
-- parameter, and `Debug.print_and_pause` is the one of libgbc; what the person at the terminal
-- types is a field of the machine. A read that throws inside the debugger's `try` is taken to leave
-- the machine as it was.
pub mod Base
pub mod Registers
pub mod State
pub mod Mbc
pub mod Gpu
pub mod Io
pub mod Memory
pub mod Video
pub mod Cpu
pub mod Machine
pub mod Safety
pub mod Debug
pub mod FrontEnd
pub mod Checks
