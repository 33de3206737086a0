-- ===== src/Mbc.antt =====
-- The cartridge's bank controller: libgbc/mbc.hpp, mbc.cpp, mbc1m.hpp, mbc3.hpp and mbc5.hpp.
-- A method that may call `break_now` returns whether it did, beside the new state.
pub mod Invariant
pub mod Banks
pub mod WorkRam
pub mod Init
use gamebro.Base.{
  ℕ, ◌+◌, ◌-◌, ◌*◌, ◌/◌, ◌%◌, ◌^◌, bit_and, bit_or, Bool, true, false, not, ◌&&◌, ◌||◌,
}
use gamebro.Base.{ltb, leb, ◌==◌, ◌!=◌, if◌then◌else◌, Outcome, ok, fault, throws, assertion}
use gamebro.State.{Mbc, update}
use gamebro.State.Monad.{at}

-- The new state, and whether the debugger was asked to break.
abbrev pub Banked : Type 0
Banked = Mbc × Bool

abbrev pub rombank_size : ℕ
rombank_size = 0x4000

abbrev pub rambank_size : ℕ
rambank_size = 0x2000

abbrev pub wrambank_size : ℕ
wrambank_size = 0x1000

-- `reg &= count - 1` on `int`: for a count of 0 the mask is -1.
abbrev pub mask_bank : ℕ → ℕ → ℕ
mask_bank reg count = if count == 0 then reg else bit_and reg (count - 1)

unfoldable pub set_rombank : ℕ → ℕ → Mbc → Banked
set_rombank rom_size reg mbc =
    let rom_banks = rom_size / rombank_size in
    let offset = mask_bank reg rom_banks * rombank_size in
    if ltb rom_size (offset + rombank_size)
    then (mbc, true)
    else (record mbc { rom_bank_offset = offset }, false)

-- `ram_bank_offset` is a `uint16_t`.
unfoldable pub set_rambank : ℕ → Mbc → Mbc
set_rambank reg mbc =
    let offset = mask_bank reg mbc.ram_banks * rambank_size in
    record mbc { ram_bank_offset = offset % 65536 }

unfoldable pub set_wrambank : ℕ → Mbc → Banked
set_wrambank reg mbc =
    let offset = reg * wrambank_size in
    if ltb mbc.wram_size (offset + wrambank_size)
    then (mbc, true)
    else (record mbc { wram_offset = offset }, false)

unfoldable pub set_mode : ℕ → ℕ → Mbc → Banked
set_mode rom_size mode mbc =
    let mbc1 = record mbc { mode_select = bit_and mode 1 } in
    if mbc1.version == 1 && mbc1.mode_select == 1 && bit_and mbc1.rom_bank_reg 0x60 != 0
    then (let reg = bit_and mbc1.rom_bank_reg 0x1f in
        set_rombank rom_size reg (record mbc1 { rom_bank_reg = reg }))
    else (mbc1, false)

unfoldable pub write_mbc1m : ℕ → ℕ → ℕ → Mbc → Banked
write_mbc1m rom_size addr value mbc =
    let page = bit_and addr 0xf000 in
    if page == 0x2000 || page == 0x3000
    then (let reg = bit_or (bit_and mbc.rom_bank_reg 0x60) (bit_and value 0x1f) in
        let reg1 = if bit_and value 0x1f == 0 then reg + 1 else reg in
        set_rombank rom_size reg1 (record mbc { rom_bank_reg = reg1 }))
    else if page == 0x4000 || page == 0x5000
    then (let mbc1 = if mbc.mode_select == 1 then set_rambank (bit_and value 3) mbc else mbc in
        let reg = bit_or (bit_and mbc1.rom_bank_reg 0x1f) (bit_and value 3 * 2 ^ 5) in
        set_rombank rom_size reg (record mbc1 { rom_bank_reg = reg }))
    else if page == 0x6000 || page == 0x7000
    then set_mode rom_size (bit_and value 1) mbc
    else (mbc, false)

unfoldable pub write_mbc3 : ℕ → ℕ → ℕ → Mbc → Banked
write_mbc3 rom_size addr value mbc =
    let page = bit_and addr 0xf000 in
    if page == 0x2000 || page == 0x3000
    then (let reg = bit_and value 0x7f in
        let reg1 = if reg == 0 then 1 else reg in
        set_rombank rom_size reg1 (record mbc { rom_bank_reg = reg1 }))
    else if page == 0x4000 || page == 0x5000
    then (let mbc1 = set_rambank (bit_and value 7) mbc in
        (record mbc1 { rtc_enabled = bit_and value 0x80 != 0 }, false))
    else (mbc, false)

unfoldable pub write_mbc5 : ℕ → ℕ → ℕ → Mbc → Banked
write_mbc5 rom_size addr value mbc =
    let page = bit_and addr 0xf000 in
    if page == 0x2000
    then (let reg = bit_or (bit_and mbc.rom_bank_reg 0x100) (bit_and value 0xff) in
        set_rombank rom_size reg (record mbc { rom_bank_reg = reg }))
    else if page == 0x3000
    then (let reg = bit_or (bit_and mbc.rom_bank_reg 0xff) (bit_and value 0x100) in
        set_rombank rom_size reg (record mbc { rom_bank_reg = reg }))
    else if page == 0x4000 || page == 0x5000
    then (set_rambank (bit_and value 0xf) mbc, false)
    else (mbc, false)

-- The index into the cartridge RAM, a `uint16_t`.
abbrev pub ram_index : ℕ → Mbc → ℕ
ram_index addr mbc = bit_or (addr - 0xa000) mbc.ram_bank_offset

-- The cases of `read` below the echo.
unfoldable pub read_bank : ℕ → Mbc → Outcome ℕ
read_bank addr mbc =
    let page = bit_and addr 0xf000 in
    if page == 0xa000 || page == 0xb000
    then (if mbc.ram_enabled && not mbc.rtc_enabled && ltb (ram_index addr mbc) mbc.ram_bank_size
        then at 131072 mbc.ram (ram_index addr mbc)
        else ok 0xff)
    else if page == 0xc000
    then at 32768 mbc.wram (addr - 0xc000)
    else if page == 0xd000
    then at 32768 mbc.wram (mbc.wram_offset + addr - 0xd000)
    else ok 0xff

-- `MBC::read`: an echo address is read 0x2000 lower, which is no echo address.
unfoldable pub read : ℕ → Mbc → Outcome ℕ
read addr mbc =
    let page = bit_and addr 0xf000 in
    if page == 0xe000 || page == 0xf000 then read_bank (addr - 0x2000) mbc else read_bank addr mbc

-- `array.at(i) = v`.
abbrev pub write_wram : ℕ → ℕ → Mbc → Outcome Banked
write_wram i v mbc =
    if ltb i 32768 then ok (record mbc { wram = update mbc.wram i v }, false) else fault throws

abbrev pub write_ram : ℕ → ℕ → Mbc → Outcome Banked
write_ram i v mbc =
    if ltb i 131072 then ok (record mbc { ram = update mbc.ram i v }, false) else fault throws

-- The switch on the controller's version.
unfoldable pub write_control : ℕ → ℕ → ℕ → Mbc → Outcome Banked
write_control rom_size addr value mbc =
    if mbc.version == 5
    then ok (write_mbc5 rom_size addr value mbc)
    else if mbc.version == 3
    then ok (write_mbc3 rom_size addr value mbc)
    else if mbc.version == 1
    then ok (write_mbc1m rom_size addr value mbc)
    else if mbc.version == 0
    then ok (mbc, false)
    else fault assertion

-- The cases of `write` below the echo.
unfoldable pub write_bank : ℕ → ℕ → ℕ → Mbc → Outcome Banked
write_bank rom_size addr value mbc =
    let page = bit_and addr 0xf000 in
    if page == 0x0000 || page == 0x1000
    then (let enabled = if mbc.version == 2 then value != 0 else bit_and value 0xf == 0xa in
        ok (record mbc { ram_enabled = enabled }, false))
    else if leb 0x2000 page && leb page 0x7000
    then write_control rom_size addr value mbc
    else if page == 0xa000 || page == 0xb000
    then (if mbc.ram_enabled && not mbc.rtc_enabled && ltb (ram_index addr mbc) mbc.ram_bank_size
        then write_ram (ram_index addr mbc) value mbc
        else ok (mbc, false))
    else if page == 0xc000
    then write_wram (addr - 0xc000) value mbc
    else if page == 0xd000
    then write_wram (mbc.wram_offset + addr - 0xd000) value mbc
    else fault assertion

-- `MBC::write`.
unfoldable pub write : ℕ → ℕ → ℕ → Mbc → Outcome Banked
write rom_size addr value mbc =
    let page = bit_and addr 0xf000 in
    if page == 0xe000 || page == 0xf000
    then write_bank rom_size (addr - 0x2000) value mbc
    else write_bank rom_size addr value mbc
