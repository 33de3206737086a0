-- ===== src/Checks/Storage.antt =====
-- The theorems on memory and the bank controllers (libgbc/memory.cpp, mbc.cpp) at concrete inputs.
use gamebro.Memory.Traps.{read8-write8_stopped}
use gamebro.Memory.{fetch8, store8, inner_write8}
use gamebro.Io.Write.{write_io}
use gamebro.Memory.Invariant.{with_break}
use gamebro.Base.{◌∷◌, true}
use gamebro.Video.Dump.{background_pixel, tile_pixel, dump_background, dump_tiles}
use gamebro.Video.Pictures.{Pictures, dumps-Pictures}
use gamebro.Base.{
  ℕ, ◌+◌, ◌*◌, ◌%◌, ◌^◌, ◌<◌, ◌≡◌, inl, refl, arith, ◌==◌, if◌then◌else◌, ok, Returns, [], ◌∷◌,
  false,
}
use gamebro.State.{Machine, update}
use gamebro.State.Monad.{◌>>◌}
use gamebro.Memory.{read8, write8, read16, write16}
use gamebro.Memory.Invariant.{IsValid, Reads, read8-Reads}
use gamebro.Memory.Ports.{Keeps}
use gamebro.Memory.Writes.{write8-IsValid, read16-write16-IsValid}
use gamebro.Memory.HighRam.{write8-read8_zram}
use gamebro.Mbc.{read, write, set_rombank, set_rambank, write_mbc1m}
use gamebro.Mbc.Invariant as MbcInvariant
use gamebro.Mbc.WorkRam.{cell, read-write}
use gamebro.Mbc.Init.{lookup, controllers, Follows, init-IsValid}
use gamebro.Mbc.Banks.{
  mbc1_selects, low_bank, run_mbc5, mbc5_ninth_bit_lost, set_rambank_aliases, set_rombank_wraps,
}
use gamebro.Checks.Machines.{mbc, machine, mbc-IsValid, machine-IsValid}

-- Starting an HDMA transfer of 16 bytes.
write8-IsValid_example : Returns Keeps (write8 0xff55 0 (machine []))
write8-IsValid_example =
    write8-IsValid (machine []) machine-IsValid 0 (omega arith) 0xff55 (omega arith)

read8-Reads_example : Returns (Reads (machine [])) (read8 0x4123 (machine []))
read8-Reads_example = read8-Reads (machine []) machine-IsValid 0x4123 (omega arith)

-- The second byte of the word stands at address 0.
read16-write16-IsValid_example :
    Returns (λ out. (out.0 < 65536) × IsValid out.1) (read16 0xffff (machine []))
    × Returns Keeps (write16 0xffff 0x1234 (machine []))
read16-write16-IsValid_example =
    read16-write16-IsValid (machine []) 0xffff 0x1234 machine-IsValid (omega arith) (omega arith)

write-IsValid_example :
    Returns (λ out. MbcInvariant.IsValid 0x8000 out.0) (write 0x8000 0x2000 5 mbc)
write-IsValid_example =
    MbcInvariant.write-IsValid 0x8000 mbc 0x2000 5 mbc-IsValid (omega arith) (inl (omega arith))
      (omega arith)

-- A write to the echo, read in the work RAM.
read-write_example :
    Returns
      (λ out.
        read 0xd123 out.0 ≡ (if cell 0xd123 mbc == cell 0xf123 mbc then ok 42 else read 0xd123 mbc))
      (write 0x8000 0xf123 42 mbc)
read-write_example =
    read-write 0x8000 mbc 0xf123 42 0xd123 mbc-IsValid (omega arith) (omega arith) (omega arith)
      (omega arith)

-- An MBC1 cartridge with 8 KB of RAM.
abbrev header : ℕ → ℕ
header i = if i == 0x147 then 3 else if i == 0x149 then 2 else 0

init-IsValid_example : Follows 0x8000 header mbc (lookup (header 0x147) controllers)
init-IsValid_example = init-IsValid 0x8000 header mbc mbc-IsValid (omega arith)

write8-read8_zram_example :
    (read8 0xff90 (machine []) ≡ ok (0, machine []))
    × ((write8 0xff90 7 >> read8 0xff90) (machine [])
        ≡ ok (
          7,
          let m = machine [] in
              record m { memory = record m.memory { zram = update m.memory.zram 0x10 7 } },
        ))
write8-read8_zram_example =
    write8-read8_zram (machine []) 0xff90 0xff90 7 (omega arith) (omega arith) (omega arith)
      (omega arith) refl refl

set_rombank_wraps_example :
    set_rombank (2 ^ 4 * 0x4000) 19 mbc
    ≡ (record mbc { rom_bank_offset = 19 % 2 ^ 4 * 0x4000 }, false)
set_rombank_wraps_example = set_rombank_wraps 4 19 mbc

-- Bank 0x20 of an MBC1 with 64 banks cannot be selected: bank 0x21 is.
mbc1_selects_example :
    let mbc1 = (write_mbc1m (2 ^ 6 * 0x4000) 0x2000 0 mbc).0 in
    let mbc2 = (write_mbc1m (2 ^ 6 * 0x4000) 0x4000 1 mbc1).0 in
    mbc2.rom_bank_offset ≡ (1 % 4 * 32 + low_bank 0) % 2 ^ 6 * 0x4000
mbc1_selects_example =
    mbc1_selects 6 0x2000 0 0x4000 1 mbc (omega arith) (omega arith) (omega arith) (omega arith)

mbc5_ninth_bit_lost_example :
    ((run_mbc5 0x800000 ((0x3000, 1) ∷ (0x2000, 0) ∷ []) mbc).rom_bank_reg < 256)
    × ((run_mbc5 0x800000 ((0x3000, 1) ∷ (0x2000, 0) ∷ []) mbc).rom_bank_offset < 256 * 0x4000)
mbc5_ninth_bit_lost_example =
    mbc5_ninth_bit_lost 0x800000 ((0x3000, 1) ∷ (0x2000, 0) ∷ []) mbc
      (omega arith, (omega arith, tt)) (omega arith) (omega arith)

set_rambank_aliases_example :
    set_rambank (3 + 8) (record mbc { ram_banks = 16 })
    ≡ set_rambank 3 (record mbc { ram_banks = 16 })
set_rambank_aliases_example =
    set_rambank_aliases 3 (record mbc { ram_banks = 16 }) refl (omega arith)

dumps-Pictures_example :
    Returns (Pictures background_pixel 256 256 65536 (machine [])) (dump_background (machine []))
    × Returns
        (Pictures (λ m tconf. tile_pixel m tconf 0x08) 128 192 24576 (machine []))
        (dump_tiles 1 (machine []))
dumps-Pictures_example = dumps-Pictures (machine []) 1 machine-IsValid

-- A machine that waits for reads of the first byte of work RAM.
abbrev watched : Machine
watched =
    let m = machine [] in record m { memory = record m.memory { read_breakpoints = 0xc000 ∷ [] } }

watched-IsValid : IsValid watched
watched-IsValid = ground (arith, machine-IsValid)

read8-write8_stopped_example :
    (read8 0xc000 watched ≡ fetch8 0xc000 (with_break true watched))
    × (write8 0xc000 7 watched ≡ store8 (write_io read8 inner_write8) 0xc000 7 watched)
read8-write8_stopped_example = read8-write8_stopped watched 0xc000 7 watched-IsValid (omega arith)
