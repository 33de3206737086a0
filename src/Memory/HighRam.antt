-- ===== src/Memory/HighRam.antt =====
-- The 127 bytes of high RAM through `Memory::read8` and `write8` of libgbc/memory.cpp.
use gamebro.Base.{[], ℕ, ◌-◌, ◌≤◌, ◌≡◌, ◌∙◌, arith, ◌==◌, if◌then◌else◌, ok}
use gamebro.State.{Machine, update}
use gamebro.State.Monad.{bind-ok, ◌>>◌}
use gamebro.Mbc.Invariant.{page_lem}
use gamebro.Memory.{
  traps, read_traps, write_traps, fetch8, store8, read8, read_high, write8, write8_with, write_high,
}

module _ (m : Machine) (addr : ℕ) (lo : 0xff80 ≤ addr) (hi : addr ≤ 0xfffe)
    (none_read : m.memory.read_breakpoints ≡ [])
    (none_written : m.memory.write_breakpoints ≡ []) where
  read8-zram : read8 addr m ≡ ok (m.memory.zram (addr - 0xff80), m)
  unfolding read8 read_traps traps fetch8 read_high
  read8-zram = ground (arith, page_lem addr, none_read, none_written)

  write8-zram :
      (x : ℕ)
      → write8 addr x m
        ≡ ok (
          tt,
          record m { memory = record m.memory { zram = update m.memory.zram (addr - 0xff80) x } },
        )
  unfolding write8 write8_with write_traps traps store8 write_high
  write8-zram x = ground (arith, page_lem addr, none_read, none_written)

-- With no breakpoint on memory, a write to high RAM succeeds; afterwards its address reads the value written, and every other
-- address of high RAM what it read before. Neither access changes anything else.
pub write8-read8_zram :
    (m : Machine) (addr addr' x : ℕ)
    → 0xff80 ≤ addr
    → addr ≤ 0xfffe
    → 0xff80 ≤ addr'
    → addr' ≤ 0xfffe
    → m.memory.read_breakpoints ≡ []
    → m.memory.write_breakpoints ≡ []
    → let old = m.memory.zram (addr' - 0xff80) in
      let zram = update m.memory.zram (addr - 0xff80) x in
      (read8 addr' m ≡ ok (old, m))
      × ((write8 addr x >> read8 addr') m
          ≡ ok (
            if addr == addr' then x else old,
            record m { memory = record m.memory { zram = zram } },
          ))
write8-read8_zram m addr addr' x lo hi lo' hi' r w =
    let after : Machine = record m {
      memory = record m.memory { zram = update m.memory.zram (addr - 0xff80) x };
    } in
    (
      read8-zram m addr' lo' hi' r w,
      bind-ok (write8 addr x) (λ u. read8 addr') m after tt (write8-zram m addr lo hi r w x)
          ∙ read8-zram after addr' lo' hi' r w
          ∙ ground arith,
    )
