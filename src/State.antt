-- ===== src/State.antt =====
-- The state of the emulator: `Machine` of libgbc/machine.hpp and the `state_t` of each component
-- (libgbc/cpu.hpp, memory.hpp, mbc.hpp, io.hpp, gpu.hpp). Arrays are functions of the index, and
-- their sizes stand with the accesses. Members that only steer printing are left out.
pub mod Monad
pub mod Ports
use gamebro.Base.{ℕ, List, ◌==◌, Bool, ℤ, if◌then◌else◌, bit_and}
use gamebro.Registers.{Regs}

-- `CPU::state_t` and the debugger's part of the class: the step counters, which are `int16_t`, and
-- the addresses in `m_breakpoints`, all of them with the function of `default_pausepoint`.
pub record Cpu : Type 0 where
  pub registers : Regs
  pub cycles_total : ℕ
  pub intr_pending : ℤ
  pub ime : Bool
  pub stopped : Bool
  pub asleep : Bool
  pub haltbug : Bool
  pub switch_cycles : ℕ
  pub m_break : Bool
  pub break_steps : ℕ
  pub break_steps_cnt : ℕ
  pub breakpoints : List ℕ

-- `MBC::state_t` with `m_ram`.
pub record Mbc : Type 0 where
  pub rom_bank_offset : ℕ
  pub ram_banks : ℕ
  pub ram_bank_offset : ℕ
  pub ram_bank_size : ℕ
  pub wram_offset : ℕ
  pub wram_size : ℕ
  pub ram_enabled : Bool
  pub rtc_enabled : Bool
  pub rumble : Bool
  pub rom_bank_reg : ℕ
  pub mode_select : ℕ
  pub version : ℕ
  pub wram : ℕ → ℕ
  pub ram : ℕ → ℕ

-- `Memory::state_t`, `m_mbc`, and the locations that the functions in `m_read_breakpoints` and
-- `m_write_breakpoints` wait for.
pub record Memory : Type 0 where
  pub mbc : Mbc
  pub video_ram : ℕ → ℕ
  pub oam_ram : ℕ → ℕ
  pub zram : ℕ → ℕ
  pub bootrom_enabled : Bool
  pub speed_factor : ℕ
  pub read_breakpoints : List ℕ
  pub write_breakpoints : List ℕ

pub record Joypad : Type 0 where
  pub ioswitch : ℕ
  pub keypad : ℕ
  pub buttons : ℕ
  pub last_mask : ℕ

pub record Dma : Type 0 where
  pub cur_line : ℕ
  pub slow_start : ℕ
  pub src : ℕ
  pub dst : ℕ
  pub bytes_left : ℕ

-- `IO::state_t`.
pub record Io : Type 0 where
  pub ioregs : ℕ → ℕ
  pub joypad : Joypad
  pub divider : ℕ
  pub timabug : ℕ
  pub lcd_powered : Bool
  pub reg_ie : ℕ
  pub dma : Dma
  pub hdma : Dma

-- `GPU::state_t`, the pixel buffer and the rendering switch.
pub record Gpu : Type 0 where
  pub period : ℕ
  pub frame_count : ℕ
  pub current_scanline : ℕ
  pub video_offset : ℕ
  pub white_frame : Bool
  pub cgb_palette : ℕ → ℕ
  pub pixels : ℕ → ℕ
  pub render : Bool

-- The cartridge is a constant array of `rom_size` bytes. `console` is what the person at the
-- terminal is still to type.
pub record Machine : Type 0 where
  pub cpu : Cpu
  pub memory : Memory
  pub io : Io
  pub gpu : Gpu
  pub rom_size : ℕ
  pub rom : ℕ → ℕ
  pub running : Bool
  pub cgb_mode : Bool
  pub stop_when_undefined : Bool
  pub break_on_interrupts : Bool
  pub break_on_io : Bool
  pub verbose_instructions : Bool
  pub console : List ℕ

-- An array with one element written.
abbrev pub update : (ℕ → ℕ) → ℕ → ℕ → ℕ → ℕ
update f i v j = if j == i then v else f j

-- `IO::reg(addr)`, read and written.
unfoldable pub reg : ℕ → Io → ℕ
reg addr io = io.ioregs (bit_and addr 0x7f)

unfoldable pub set_reg : ℕ → ℕ → Io → Io
set_reg addr v io = record io { ioregs = update io.ioregs (bit_and addr 0x7f) v }
