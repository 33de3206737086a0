-- ===== src/Memory/Writes.antt =====
-- Writes keep the machine's invariant (libgbc/memory.cpp, io_regs.cpp): no write throws, whatever
-- the program under emulation stores, also while an HDMA transfer copies a block.
use gamebro.Base.{
  ℕ, zero, suc, ◌+◌, ◌*◌, ◌/◌, ◌%◌, ◌^◌, ◌<◌, ◌≤◌, ◌≡◌, ◌⊎◌, inl, inr, refl, arith, bit_and, bit_or,
  true, false, ltb, ◌==◌, Bool-cases,
}
use gamebro.Base.{Returns, and_mask, and-le, or-lt}
use gamebro.Base.{Returns-imp, too_deep}
use gamebro.State.Monad.{stop_with}
use gamebro.Memory.Invariant.{Looks, write_traps-Looks}
use gamebro.Memory.{read16, write16, store8, write_traps}
use gamebro.State.{Machine, reg, set_reg}
use gamebro.State.Monad.{M, Unit₀, ◌>>=◌, ◌>>◌, modify_io, pure}
use gamebro.State.Ports.{reg_hdma1, reg_hdma2, reg_hdma3, reg_hdma4, reg_hdma5}
use gamebro.Base.{and_split, or_split, or_zero}
use gamebro.Memory.Ports.{Keeps-bind, Keeps-then}
use gamebro.Memory.Invariant.{read8-IsValid}
use gamebro.Mbc.Invariant
use gamebro.Mbc.Invariant.{page_lem}
use gamebro.Io.{start_hdma, hdma_active}
use gamebro.Io.Write.{copy_block, start_transfer, iowrite_hdma, write_handler, write_io}
use gamebro.Memory.{read8, mbc_write, write_video, write_high, write8_with, inner_write8, write8}
use gamebro.Memory.Invariant.{IsValid, with_break, with_break-IsValid, read8-IsValid}
use gamebro.Memory.Ports.{
  Keeps, set_reg-IsValid, iowrite_joyp-IsValid, iowrite_stat-IsValid, iowrite_audio-IsValid,
  iowrite_key1-IsValid, iowrite_lcdc-Keeps, iowrite_vbk-Keeps, iowrite_boot-Keeps,
  iowrite_svbk-Keeps, iowrite_palette-Keeps, dma-IsValid, divider-IsValid,
}

module _ (m : Machine) (v : IsValid m) where
  mbc_write-Keeps :
      (addr x : ℕ)
      → addr < 65536
      → (addr < 0x8000) ⊎ (0xa000 ≤ addr)
      → x < 256
      → Returns Keeps (mbc_write addr x m)
  unfolding mbc_write
  mbc_write-Keeps addr x h region hx =
      ground (arith, Invariant.write-IsValid m.rom_size m.memory.mbc addr x v.mbc h region hx)

  write_video-Keeps :
      (addr x : ℕ) → 0x8000 ≤ addr → addr < 0xa000 → x < 256 → Returns Keeps (write_video addr x m)
  unfolding write_video
  write_video-Keeps addr x lo hi hx = ground arith

  -- Below the page 0xF000 the ports do not matter.
  write_low-Keeps :
      (port : ℕ → ℕ → M Unit₀) (addr x : ℕ)
      → addr < 0xf000
      → x < 256
      → Returns Keeps (store8 port addr x m)
  unfolding store8
  write_low-Keeps port addr x h hx =
      ground (arith, page_lem addr, mbc_write-Keeps addr x, write_video-Keeps addr x)

-- The breakpoint functions, and then the write itself.
trapped-Keeps :
    (k : M Unit₀) (addr : ℕ) (m : Machine)
    → IsValid m
    → addr < 65536
    → ((m' : Machine) → IsValid m' → Returns Keeps (k m'))
    → Returns Keeps ((write_traps addr >> k) m)
trapped-Keeps k addr m v h next =
    Keeps-then Keeps (write_traps addr) k m
      (Returns-imp (Looks m) Keeps (write_traps addr m)
        (λ out e. rw e (with_break-IsValid out.1.cpu.m_break m v)) (write_traps-Looks m addr v h))
      next

inner_write8-Keeps :
    (addr x : ℕ) (m : Machine)
    → IsValid m
    → addr < 0xf000
    → x < 256
    → Returns Keeps (inner_write8 addr x m)
unfolding inner_write8 write8_with
inner_write8-Keeps addr x m v h hx =
    trapped-Keeps (store8 (λ address value. stop_with too_deep) addr x) addr m v (omega arith)
      (λ m' v'. write_low-Keeps m' v' (λ address value. stop_with too_deep) addr x h hx)

-- A block that ends below the page 0xF000 is copied with no fault.
copy_block-Keeps :
    (fuel src end dst : ℕ) (m : Machine)
    → IsValid m
    → src < 65536
    → dst + fuel ≤ 0xf000
    → Returns Keeps (copy_block read8 inner_write8 fuel src end dst m)
unfolding copy_block
copy_block-Keeps zero src end dst m v hs hd = v
copy_block-Keeps (suc fuel) src end dst m v hs hd =
    let rest : M Unit₀ =
      copy_block read8 inner_write8 fuel ((src + 1) % 65536) end ((dst + 1) % 65536) in
    elim (ltb src end)
      as (λ b.
        Returns Keeps (elim b [
          | true ↦ (read8 src >>= λ x. inner_write8 dst x >> rest) m
          | false ↦ pure tt m
        ])) [
          | false ↦ v
          | true ↦
              Keeps-bind (λ x. x < 256) Keeps (read8 src) (λ x. inner_write8 dst x >> rest) m
                (read8-IsValid m src v hs)
                (λ x m' hx v'.
                  Keeps-then Keeps (inner_write8 dst x) rest m'
                    (inner_write8-Keeps dst x m' v' (omega arith) hx)
                    (λ m'' v''.
                      copy_block-Keeps fuel ((src + 1) % 65536) end ((dst + 1) % 65536) m'' v''
                        (omega arith) (omega arith)))
        ]

-- The target of an HDMA transfer lies in video RAM.
pub hdma_target :
    (x : ℕ) → let dst = bit_or (bit_and x 0x9ff0) 0x8000 in (0x8000 ≤ dst) × (dst ≤ 0x9ff0)
hdma_target x =
    let q : ℕ = x / 0x8000 in
    let r : ℕ = x % 0x8000 in
    let low : ℕ = bit_and r 0x1ff0 in
    ground (
      arith,
      and_split 15 q r 1 0x1ff0,
      and-le r 0x1ff0,
      and_mask 1 q,
      or_split 15 (q % 2) low 1 0,
      or_zero low,
      one_or (q % 2),
    )
  where
    one_or : (b : ℕ) → b < 2 → bit_or b 1 ≡ 1
    one_or zero h = refl
    one_or (suc zero) h = refl
    one_or (suc (suc b)) h = absurd (omega arith)

module _ (m : Machine) (v : IsValid m) (x : ℕ) (hx : x < 256) where
  started-IsValid :
      (src dst bytes : ℕ)
      → IsValid (record m { io = set_reg reg_hdma5 x (start_hdma src dst bytes m.io) })
  unfolding start_hdma set_reg
  started-IsValid src dst bytes = ground arith

  start_transfer-Keeps : Returns Keeps (start_transfer read8 inner_write8 x m)
  unfolding start_transfer
  start_transfer-Keeps =
      let from : ℕ = bit_or (reg reg_hdma1 m.io * 2 ^ 8) (reg reg_hdma2 m.io) in
      let to : ℕ = bit_or (reg reg_hdma3 m.io * 2 ^ 8) (reg reg_hdma4 m.io) in
      let src : ℕ = bit_and from 0xfff0 in
      let dst : ℕ = bit_or (bit_and to 0x9ff0) 0x8000 in
      let bytes : ℕ = (1 + bit_and x 0x7f) * 16 in
      elim (Bool-cases (bit_and x 0x80 == 0)) [
        | inr e ↦ rw e (started-IsValid src dst bytes)
        | inl e ↦ rw e (elim (Bool-cases (hdma_active m.io)) [
          | inl f ↦ rw f (started-IsValid 0 0 0)
          | inr f ↦ rw f (
              Keeps-then Keeps (copy_block read8 inner_write8 2048 src ((src + bytes) % 65536) dst)
                (modify_io (set_reg reg_hdma5 0xff)) m
                (copy_block-Keeps 2048 src ((src + bytes) % 65536) dst m v
                  (omega (arith, and-le from 0xfff0)) (omega (arith, hdma_target to)))
                (λ m' v'. set_reg-IsValid m' v' reg_hdma5 0xff (omega arith)))
        ])
      ]

  iowrite_hdma-Keeps : (addr : ℕ) → Returns Keeps (iowrite_hdma read8 inner_write8 addr x m)
  unfolding iowrite_hdma
  iowrite_hdma-Keeps addr = ground (
    arith,
    v,
    start_transfer-Keeps,
    set_reg-IsValid m v addr x hx,
    set_reg-IsValid m v addr (bit_and x 0xf0),
    and-le x 0xf0,
  )

  write_handler-Keeps : (addr : ℕ) → Returns Keeps (write_handler read8 inner_write8 addr x m)
  unfolding write_handler
  write_handler-Keeps addr = ground (
    arith,
    set_reg-IsValid m v addr x hx,
    iowrite_joyp-IsValid m v x hx,
    iowrite_stat-IsValid m v x hx addr,
    iowrite_audio-IsValid m v x hx addr,
    iowrite_key1-IsValid m v x hx addr,
    iowrite_lcdc-Keeps m v x hx addr,
    iowrite_vbk-Keeps m v x hx addr,
    iowrite_boot-Keeps m v x hx addr,
    iowrite_svbk-Keeps m v x hx addr,
    iowrite_palette-Keeps m v x hx 0 0xff68 (omega arith),
    iowrite_palette-Keeps m v x hx 64 0xff6a (omega arith),
    dma-IsValid m v x hx,
    divider-IsValid m v x hx,
    iowrite_hdma-Keeps addr,
  )

module _ (m : Machine) (v : IsValid m) (x : ℕ) (hx : x < 256) where
  write_io-Keeps : (addr : ℕ) → Returns Keeps (write_io read8 inner_write8 addr x m)
  unfolding write_io
  write_io-Keeps addr = ground (
    arith,
    write_handler-Keeps m v x hx addr,
    write_handler-Keeps (with_break true m) (with_break-IsValid true m v) x hx addr,
    with_break-IsValid true m v,
  )

  write_high-Keeps :
      (addr : ℕ)
      → addr < 65536
      → 0xf000 ≤ addr
      → Returns Keeps (write_high (write_io read8 inner_write8) addr x m)
  unfolding write_high
  write_high-Keeps addr h lo = ground (arith, mbc_write-Keeps m v addr x, write_io-Keeps addr)

  store8-Keeps :
      (addr : ℕ) → addr < 65536 → Returns Keeps (store8 (write_io read8 inner_write8) addr x m)
  unfolding store8
  store8-Keeps addr h = ground (
    arith,
    page_lem addr h,
    mbc_write-Keeps m v addr x,
    write_video-Keeps m v addr x,
    write_high-Keeps addr,
  )

-- In a valid machine, `Memory::write8` of a byte to a 16-bit address, its breakpoint functions
-- included, throws nothing, writes no array out of bounds and keeps the machine valid, also where
-- the write starts an HDMA transfer.
pub write8-IsValid :
    (m : Machine)
    → IsValid m
    → (x : ℕ) → x < 256
    → (addr : ℕ) → addr < 65536
    → Returns Keeps (write8 addr x m)
unfolding write8 write8_with
write8-IsValid m v x hx addr h =
    trapped-Keeps (store8 (write_io read8 inner_write8) addr x) addr m v h
      (λ m' v'. store8-Keeps m' v' x hx addr h)

-- In a valid machine, `Memory::read16` and `write16` of a word neither throw nor leave an array at
-- any 16-bit address; the word read has sixteen bits, and the machine stays valid.
pub read16-write16-IsValid :
    (m : Machine) (addr x : ℕ)
    → IsValid m
    → addr < 65536
    → x < 65536
    → Returns (λ out. (out.0 < 65536) × IsValid out.1) (read16 addr m)
      × Returns Keeps (write16 addr x m)
unfolding read16 write16
read16-write16-IsValid m addr x v h hx = (
  Keeps-bind (λ lo. lo < 256) (λ out. (out.0 < 65536) × IsValid out.1) (read8 addr)
      (λ lo. read8 ((addr + 1) % 65536) >>= λ hi. pure (bit_or lo (hi * 2 ^ 8))) m
      (read8-IsValid m addr v h)
      (λ lo m' hlo v'.
        Keeps-bind (λ hi. hi < 256) (λ out. (out.0 < 65536) × IsValid out.1)
          (read8 ((addr + 1) % 65536)) (λ hi. pure (bit_or lo (hi * 2 ^ 8))) m'
          (read8-IsValid m' ((addr + 1) % 65536) v' (omega arith))
          (λ hi m'' hhi v''. (or-lt 16 lo (hi * 2 ^ 8) (omega arith) (omega arith), v''))),
  Keeps-then Keeps (write8 addr (bit_and x 0xff)) (write8 ((addr + 1) % 65536) (x / 2 ^ 8)) m
      (write8-IsValid m v (bit_and x 0xff) (omega (arith, and-le x 0xff)) addr h)
      (λ m' v'. write8-IsValid m' v' (x / 2 ^ 8) (omega arith) ((addr + 1) % 65536) (omega arith)),
)
