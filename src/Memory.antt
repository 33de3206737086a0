-- ===== src/Memory.antt =====
-- The memory map: libgbc/memory.hpp and libgbc/memory.cpp. The breakpoint functions are those
-- that the debugger of libgbc/debug.cpp installs.
pub mod Invariant
pub mod Ports
pub mod Writes
pub mod HighRam
pub mod Traps
pub mod Control
pub mod Kept
pub mod Commands
use gamebro.Base.{
  ℕ, List, [], ◌∷◌, zero, suc, ◌+◌, ◌-◌, ◌*◌, ◌/◌, ◌%◌, ◌^◌, bit_and, bit_or, Bool, true, false,
  not,
}
use gamebro.Base.{
  ◌&&◌, ltb, leb, ◌==◌, ◌!=◌, if◌then◌else◌, Outcome, ok, fault, throws, out_of_bounds, too_deep,
}
use gamebro.State.{Mbc, Memory, Io, Machine, reg, set_reg, update}
use gamebro.State.Monad.{
  M, Unit₀, pure, ◌>>◌, ◌>>=◌, when, gets, modify_memory, break_now, stop_with, at,
}
use gamebro.State.Ports.{reg_key1}
use gamebro.Mbc
use gamebro.Gpu.{get_mode}
use gamebro.Io.{read_io, dma_active}
use gamebro.Io.Write.{write_io}

-- Both ends belong to a range.
abbrev pub Range : Type 0
Range = ℕ × ℕ

abbrev pub video_ram : Range
video_ram = (0x8000, 0x9fff)

abbrev pub echo_ram : Range
echo_ram = (0xe000, 0xfdff)

abbrev pub oam_ram : Range
oam_ram = (0xfe00, 0xfeff)

abbrev pub io_ports : Range
io_ports = (0xff00, 0xff7f)

abbrev pub zram : Range
zram = (0xff80, 0xfffe)

abbrev pub interrupt_en : ℕ
interrupt_en = 0xffff

abbrev pub is_within : ℕ → Range → Bool
is_within addr range = leb range.0 addr && leb addr range.1

-- `m_rom[i]`, which checks nothing.
unfoldable pub rom_at : ℕ → M ℕ
rom_at i m = if ltb i m.rom_size then pure (m.rom i) m else stop_with out_of_bounds m

-- `array.at(i)` on an array of the machine.
abbrev pub array_at : ℕ → (Machine → ℕ → ℕ) → ℕ → M ℕ
array_at size array i m = if ltb i size then pure (array m i) m else stop_with throws m

abbrev pub mbc_read : ℕ → M ℕ
mbc_read addr m = elim (Mbc.read addr m.memory.mbc) [ ok v ↦ pure v m | fault e ↦ stop_with e m ]

-- The bank controller's `break_now` reaches the CPU.
unfoldable pub mbc_write : ℕ → ℕ → M Unit₀
mbc_write addr value m = elim (Mbc.write m.rom_size addr value m.memory.mbc) [
  | ok (mbc, broke) ↦ (modify_memory (λ mem. record mem { mbc = mbc }) >> when broke break_now) m
  | fault e ↦ stop_with e m
]

-- Video RAM can be reached unless the GPU draws a line.
unfoldable pub read_video : ℕ → M ℕ
read_video address m =
    if get_mode m.io != 3
    then array_at 16384 (λ m. m.memory.video_ram) (m.gpu.video_offset + address - 0x8000) m
    else pure 0xff m

-- The page 0xF000.
unfoldable pub read_high : ℕ → M ℕ
read_high address m =
    if is_within address echo_ram
    then mbc_read address m
    else if is_within address oam_ram
    then (if not (dma_active m.io)
        then array_at 256 (λ m. m.memory.oam_ram) (address - 0xfe00) m
        else pure 0xff m)
    else if is_within address io_ports
    then read_io address m
    else if is_within address zram
    then array_at 128 (λ m. m.memory.zram) (address - 0xff80) m
    else if address == interrupt_en
    then read_io address m
    else pure 0xff m

-- The `switch` of `Memory::read8`.
unfoldable pub fetch8 : ℕ → M ℕ
fetch8 address m =
    let page = bit_and address 0xf000 in
    if leb page 0x3000
    then rom_at address m
    else if leb page 0x7000
    then rom_at (bit_or m.memory.mbc.rom_bank_offset (address - 0x4000)) m
    else if leb page 0x9000
    then read_video address m
    else if leb page 0xe000
    then mbc_read address m
    else read_high address m

-- The functions that the debugger's `rb` and `wb` install: each reads the address, to print it, and
-- breaks when it is its own. They run while `m_is_busy` is set, so the inner read calls none.
unfoldable pub traps : List ℕ → ℕ → M Unit₀
traps [] address = pure tt
traps (traploc ∷ locs) address =
    let rest = traps locs address in when (address == traploc) (fetch8 address >> break_now) >> rest

unfoldable pub read_traps : ℕ → M Unit₀
read_traps address m = traps m.memory.read_breakpoints address m

unfoldable pub write_traps : ℕ → M Unit₀
write_traps address m = traps m.memory.write_breakpoints address m

unfoldable pub read8 : ℕ → M ℕ
read8 address = read_traps address >> fetch8 address

-- The second address is a `uint16_t`.
unfoldable pub read16 : ℕ → M ℕ
read16 address = do
  lo ← read8 address
  hi ← read8 ((address + 1) % 65536)
  pure (bit_or lo (hi * 2 ^ 8))

-- `array.at(i) = v` on an array of `Memory`.
abbrev pub array_set : ℕ → ℕ → (Memory → Memory) → M Unit₀
array_set size i f = if ltb i size then modify_memory f else stop_with throws

unfoldable pub write_video : ℕ → ℕ → M Unit₀
write_video address value m =
    if get_mode m.io != 3
    then (let i = m.gpu.video_offset + address - 0x8000 in
        array_set 16384 i (λ mem. record mem { video_ram = update mem.video_ram i value }) m)
    else pure tt m

module _ (write_port : ℕ → ℕ → M Unit₀) where
  -- The page 0xF000; `write_port` is `IO::write_io`.
  unfoldable pub write_high : ℕ → ℕ → M Unit₀
  write_high address value =
      if is_within address echo_ram
      then mbc_write address value
      else if is_within address oam_ram
      then (let i = address - 0xfe00 in
          array_set 256 i (λ mem. record mem { oam_ram = update mem.oam_ram i value }))
      else if is_within address io_ports
      then write_port address value
      else if is_within address zram
      then (let i = address - 0xff80 in
          array_set 128 i (λ mem. record mem { zram = update mem.zram i value }))
      else if address == interrupt_en
      then write_port address value
      else pure tt

  -- The `switch` of `Memory::write8`.
  unfoldable pub store8 : ℕ → ℕ → M Unit₀
  store8 address value =
      let page = bit_and address 0xf000 in
      if leb page 0x7000
      then mbc_write address value
      else if leb page 0x9000
      then write_video address value
      else if leb page 0xe000
      then mbc_write address value
      else write_high address value

  unfoldable pub write8_with : ℕ → ℕ → M Unit₀
  write8_with address value = write_traps address >> store8 address value

-- An HDMA transfer writes memory from within `write_io`. Its targets lie in video and cartridge
-- RAM, so the inner write meets no I/O port; `too_deep` stands for one that would.
unfoldable pub inner_write8 : ℕ → ℕ → M Unit₀
inner_write8 = write8_with (λ address value. stop_with too_deep)

unfoldable pub write8 : ℕ → ℕ → M Unit₀
write8 = write8_with (write_io read8 inner_write8)

unfoldable pub write16 : ℕ → ℕ → M Unit₀
write16 address value = do
  write8 address (bit_and value 0xff)
  write8 ((address + 1) % 65536) (value / 2 ^ 8)

abbrev pub double_speed : Memory → Bool
double_speed mem = mem.speed_factor != 1

unfoldable pub do_switch_speed : M Unit₀
do_switch_speed m =
    if double_speed m.memory
    then pure tt
        (record m { memory = record m.memory { speed_factor = 1 }; io = set_reg reg_key1 0 m.io })
    else pure tt (record m {
      memory = record m.memory { speed_factor = 2 };
      io = set_reg reg_key1 0x80 m.io;
    })
