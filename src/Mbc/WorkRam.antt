-- ===== src/Mbc/WorkRam.antt =====
-- Work RAM through the bank controller of libgbc/mbc.cpp: what is written is read back, also
-- through the echo, and nothing else changes.
use gamebro.Base.{ℕ, ◌+◌, ◌-◌, ◌<◌, ◌≤◌, ◌≡◌, arith, false, ltb, ◌==◌, if◌then◌else◌, ok, Returns}
use gamebro.State.{Mbc, update}
use gamebro.Mbc.{read, read_bank, write, write_bank}
use gamebro.Mbc.Invariant.{IsValid, page_lem}

-- The cell of the work RAM array that an address stands for: the first bank, the selected bank,
-- or the echo of either.
pub cell : ℕ → Mbc → ℕ
cell addr mbc =
    let a = if ltb addr 0xe000 then addr else addr - 0x2000 in
    if ltb a 0xd000 then a - 0xc000 else mbc.wram_offset + (a - 0xd000)

module _ (mbc : Mbc) (fits : mbc.wram_offset + 0x1000 ≤ 32768) where
  read-cell :
      (addr : ℕ) → 0xc000 ≤ addr → addr < 65536 → read addr mbc ≡ ok (mbc.wram (cell addr mbc))
  unfolding read read_bank cell
  read-cell addr lo hi = ground (arith, page_lem addr hi, page_lem (addr - 0x2000))

  write-cell :
      (rom_size addr value : ℕ)
      → 0xc000 ≤ addr
      → addr < 65536
      → write rom_size addr value mbc
        ≡ ok (record mbc { wram = update mbc.wram (cell addr mbc) value }, false)
  unfolding write write_bank cell
  write-cell rom_size addr value lo hi = ground (arith, page_lem addr hi, page_lem (addr - 0x2000))

-- In a valid controller, a write from 0xC000 on, to work RAM or to its echo, succeeds; the value is
-- what every such address of the same cell reads afterwards, and an address of another cell reads
-- what it read before.
pub read-write :
    (rom_size : ℕ) (mbc : Mbc) (addr value addr' : ℕ)
    → IsValid rom_size mbc
    → 0xc000 ≤ addr
    → addr < 65536
    → 0xc000 ≤ addr'
    → addr' < 65536
    → Returns
        (λ out.
          read addr' out.0 ≡ (if cell addr' mbc == cell addr mbc then ok value else read addr' mbc))
        (write rom_size addr value mbc)
unfolding cell
read-write rom_size mbc addr value addr' v lo hi lo' hi' =
    let fits : mbc.wram_offset + 0x1000 ≤ 32768 = omega arith in
    let after : Mbc = record mbc { wram = update mbc.wram (cell addr mbc) value } in
    rw
      (
        write-cell mbc fits rom_size addr value lo hi,
        read-cell after fits addr' lo' hi',
        read-cell mbc fits addr' lo' hi',
      )
      (ground arith)
