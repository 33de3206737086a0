-- ===== src/Memory/Invariant.antt =====
-- The invariant of the machine that memory accesses rely on (libgbc/memory.cpp, io.cpp,
-- io_regs.cpp): every index they compute lies inside its array, and every stored byte is one.
use gamebro.Base.{
  List, [], ◌∷◌, refl, false, ◌==◌, ℕ, ◌+◌, ◌-◌, ◌/◌, ◌<◌, ◌≤◌, ◌≡◌, arith, bit_and, bit_or, Bool,
  true,
}
use gamebro.Base.{Returns, Returns-imp, and-le, or-lt, or_fields}
use gamebro.State.{Machine, reg}
use gamebro.State.Monad.{◌>>◌, when, break_now, then-Returns}
use gamebro.Mbc.Invariant
use gamebro.Mbc.Invariant.{page_lem}
use gamebro.Gpu.{getpal}
use gamebro.Io.{ioread_palette, read_io, read_handler, ioread_joyp, ioread_key1, ioread_hdma}
use gamebro.Memory.{
  fetch8, traps, write_traps, read_traps, read8, read_high, read_video, rom_at, mbc_read,
}

pub record IsValid (m : Machine) : Type 0 where
  pub mbc : Invariant.IsValid m.rom_size m.memory.mbc
  pub video_bank : m.gpu.video_offset ≤ 0x2000
  pub ioswitch : m.io.joypad.ioswitch < 2
  pub rom_bytes : (i : ℕ) → m.rom i < 256
  pub video_bytes : (i : ℕ) → m.memory.video_ram i < 256
  pub oam_bytes : (i : ℕ) → m.memory.oam_ram i < 256
  pub zram_bytes : (i : ℕ) → m.memory.zram i < 256
  pub port_bytes : (i : ℕ) → m.io.ioregs i < 256
  pub palette_bytes : (i : ℕ) → m.gpu.cgb_palette i < 256
  pub ie_byte : m.io.reg_ie < 256
  pub keypad_byte : m.io.joypad.keypad < 256
  pub buttons_byte : m.io.joypad.buttons < 256

-- What a read may change: the debugger's flag.
abbrev pub with_break : Bool → Machine → Machine
with_break b m = record m { cpu = let c = m.cpu in record c { m_break = b } }

pub with_break-IsValid : (b : Bool) (m : Machine) → IsValid m → IsValid (with_break b m)
with_break-IsValid b m v = record {
  mbc = v.mbc;
  video_bank = v.video_bank;
  ioswitch = v.ioswitch;
  rom_bytes = v.rom_bytes;
  video_bytes = v.video_bytes;
  oam_bytes = v.oam_bytes;
  zram_bytes = v.zram_bytes;
  port_bytes = v.port_bytes;
  palette_bytes = v.palette_bytes;
  ie_byte = v.ie_byte;
  keypad_byte = v.keypad_byte;
  buttons_byte = v.buttons_byte;
}

-- A read returns a byte and leaves everything but the debugger's flag.
abbrev pub Reads : Machine → ℕ × Machine → Type 0
Reads m out = (out.0 < 256) × (out.1 ≡ with_break out.1.cpu.m_break m)

module _ (m : Machine) (v : IsValid m) where
  read_handler-Reads : (addr : ℕ) → Returns (Reads m) (read_handler addr m)
  unfolding read_handler ioread_palette ioread_joyp ioread_key1 ioread_hdma getpal reg
  read_handler-Reads addr = ground (
    arith,
    v.port_bytes (bit_and addr 0x7f),
    v.port_bytes 0x4d,
    or-lt 8 0xd0 m.io.joypad.buttons,
    or-lt 8 0xe0 m.io.joypad.keypad,
    or-lt 8 (m.io.ioregs (bit_and addr 0x7f)) 0x80,
    or-lt 8 (m.io.ioregs (bit_and addr 0x7f)) 0xfe,
    or-lt 8 (bit_and (m.io.ioregs 0x4d) 0x81) 0x7e,
    and-le (m.io.ioregs 0x4d) 0x81,
    and-le (m.io.ioregs 0x68) 63,
    and-le (m.io.ioregs 0x6a) 63,
    v.palette_bytes (bit_and (m.io.ioregs 0x68) 63),
    v.palette_bytes (64 + bit_and (m.io.ioregs 0x6a) 63),
  )

module _ (m : Machine) (v : IsValid m) where
  pub read_io-Reads : (addr : ℕ) → Returns (Reads m) (read_io addr m)
  unfolding read_io
  read_io-Reads addr = ground (
    arith,
    v.ie_byte,
    read_handler-Reads m v addr,
    read_handler-Reads (with_break true m) (with_break-IsValid true m v) addr,
  )

  mbc_read-Reads : (addr : ℕ) → addr < 65536 → Returns (Reads m) (mbc_read addr m)
  mbc_read-Reads addr h = ground (arith, Invariant.read-byte m.rom_size m.memory.mbc v.mbc addr h)

  read_high-Reads : (addr : ℕ) → addr < 65536 → 0xf000 ≤ addr → Returns (Reads m) (read_high addr m)
  unfolding read_high
  read_high-Reads addr h lo = ground (
    arith,
    mbc_read-Reads addr h,
    read_io-Reads addr,
    v.oam_bytes (addr - 0xfe00),
    v.zram_bytes (addr - 0xff80),
  )

  read_video-Reads :
      (addr : ℕ) → 0x8000 ≤ addr → addr < 0xa000 → Returns (Reads m) (read_video addr m)
  unfolding read_video
  read_video-Reads addr lo hi =
      ground (arith, v.video_bank, v.video_bytes (m.gpu.video_offset + addr - 0x8000))

  rom_at-Reads : (i : ℕ) → i < m.rom_size → Returns (Reads m) (rom_at i m)
  unfolding rom_at
  rom_at-Reads i h = ground (arith, v.rom_bytes i)

  -- The bank's base has its fourteen low bits clear, so `|` adds the offset.
  bank_index :
      (addr : ℕ)
      → 0x4000 ≤ addr
      → addr < 0x8000
      → bit_or m.memory.mbc.rom_bank_offset (addr - 0x4000)
        ≡ m.memory.mbc.rom_bank_offset + (addr - 0x4000)
  bank_index addr lo hi =
      let base : ℕ = m.memory.mbc.rom_bank_offset in
      ground (arith, v.mbc.rom_aligned, or_fields 14 (base / 0x4000) (addr - 0x4000))

  pub fetch8-Reads : (addr : ℕ) → addr < 65536 → Returns (Reads m) (fetch8 addr m)
  unfolding fetch8
  fetch8-Reads addr h = ground (
    arith,
    page_lem addr h,
    v.mbc.rom_fits,
    bank_index addr,
    rom_at-Reads addr,
    rom_at-Reads (bit_or m.memory.mbc.rom_bank_offset (addr - 0x4000)),
    read_video-Reads addr,
    mbc_read-Reads addr h,
    read_high-Reads addr h,
  )

-- Only the debugger's flag has changed.
abbrev pub Looks {ℓ} : {A : Type ℓ} → Machine → A × Machine → Type 0
Looks m out = out.1 ≡ with_break out.1.cpu.m_break m

-- A breakpoint function that runs or not.
trap-Looks :
    (b : Bool) (addr : ℕ) (m : Machine)
    → IsValid m
    → addr < 65536
    → Returns (Looks m) (when b (fetch8 addr >> break_now) m)
trap-Looks false addr m v h = refl
trap-Looks true addr m v h =
    then-Returns (Reads m) (Looks m) (fetch8 addr) (λ x. break_now) m (fetch8-Reads m v addr h)
      (λ x m' r. rw r.1 refl)

traps-Looks :
    (locs : List ℕ) (addr : ℕ) (m : Machine)
    → IsValid m
    → addr < 65536
    → Returns (Looks m) (traps locs addr m)
unfolding traps
traps-Looks [] addr m v h = refl
traps-Looks (traploc ∷ locs) addr m v h =
    then-Returns (Looks m) (Looks m) (when (addr == traploc) (fetch8 addr >> break_now))
      (λ u. traps locs addr) m (trap-Looks (addr == traploc) addr m v h)
      (λ u m' r. rw r (
        traps-Looks locs addr (with_break m'.cpu.m_break m) (with_break-IsValid m'.cpu.m_break m v)
          h))

pub write_traps-Looks :
    (m : Machine) (addr : ℕ) → IsValid m → addr < 65536 → Returns (Looks m) (write_traps addr m)
unfolding write_traps
write_traps-Looks m addr v h = traps-Looks m.memory.write_breakpoints addr m v h

-- In a valid machine, `Memory::read8` of a 16-bit address, its breakpoint functions included,
-- throws nothing and reads no array out of bounds; it returns a byte and changes nothing but the
-- debugger's flag.
pub read8-Reads :
    (m : Machine) → IsValid m → (addr : ℕ) → addr < 65536 → Returns (Reads m) (read8 addr m)
unfolding read8 read_traps
read8-Reads m v addr h =
    then-Returns (Looks m) (Reads m) (traps m.memory.read_breakpoints addr) (λ u. fetch8 addr) m
      (traps-Looks m.memory.read_breakpoints addr m v h)
      (λ u m' r.
        rw r (
          fetch8-Reads (with_break m'.cpu.m_break m) (with_break-IsValid m'.cpu.m_break m v) addr
            h))

-- The same without the frame, for what goes on from the machine after the read.
pub read8-IsValid :
    (m : Machine) (addr : ℕ)
    → IsValid m
    → addr < 65536
    → Returns (λ out. (out.0 < 256) × IsValid out.1) (read8 addr m)
read8-IsValid m addr v h =
    Returns-imp (Reads m) (λ out. (out.0 < 256) × IsValid out.1) (read8 addr m)
      (λ out r. (r.0, rw r.1 (with_break-IsValid out.1.cpu.m_break m v))) (read8-Reads m v addr h)
