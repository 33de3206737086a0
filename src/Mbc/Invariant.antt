-- ===== src/Mbc/Invariant.antt =====
-- The bank controller's invariant: the selected banks lie inside the cartridge and the work RAM,
-- so no access of libgbc/mbc.cpp throws or fails its assertion.
use gamebro.Base.{
  ℕ, ◌+◌, ◌-◌, ◌*◌, ◌/◌, ◌%◌, ◌^◌, ◌<◌, ◌≤◌, ◌≡◌, ◌⊎◌, refl, arith, bit_and, bit_or, Bool, true,
  ◌||◌, ◌==◌,
}
use gamebro.Base.{Returns, and_mask, and_high, and-le, or-lt}
use gamebro.State.{Mbc}
use gamebro.Mbc.{
  set_rombank, set_rambank, set_wrambank, set_mode, write_mbc1m, write_mbc3, write_mbc5,
}
use gamebro.Mbc.{read_bank, read, write_bank, write, write_control, ram_index}

abbrev pub supported : ℕ → Bool
supported v = v == 0 || v == 1 || v == 3 || v == 5

pub record IsValid (rom_size : ℕ) (mbc : Mbc) : Type 0 where
  pub rom_aligned : mbc.rom_bank_offset % 0x4000 ≡ 0
  pub rom_fits : mbc.rom_bank_offset + 0x4000 ≤ rom_size
  pub ram_small : mbc.ram_bank_offset < 65536
  pub wram_fits : mbc.wram_offset + 0x1000 ≤ mbc.wram_size
  pub wram_small : mbc.wram_size ≤ 32768
  pub reg_small : mbc.rom_bank_reg < 512
  pub version_known : supported mbc.version ≡ true
  pub wram_bytes : (i : ℕ) → mbc.wram i < 256
  pub ram_bytes : (i : ℕ) → mbc.ram i < 256

-- The case that `switch (addr & 0xF000)` takes.
pub page_lem : (addr : ℕ) → addr < 65536 → bit_and addr 0xf000 ≡ addr / 4096 * 4096
page_lem addr h = ground (arith, and_high 12 addr 15, and_mask 4 (addr / 4096))

ram_index-lt :
    (addr : ℕ) (mbc : Mbc) → addr < 65536 → mbc.ram_bank_offset < 65536 → ram_index addr mbc < 65536
ram_index-lt addr mbc h k = or-lt 16 (addr - 0xa000) mbc.ram_bank_offset (omega arith) k

-- Taking a bank register that fits and selecting its ROM bank.
select-IsValid :
    (rom_size reg : ℕ) (mbc : Mbc)
    → IsValid rom_size mbc
    → reg < 512
    → IsValid rom_size (set_rombank rom_size reg (record mbc { rom_bank_reg = reg })).0
unfolding set_rombank
select-IsValid rom_size reg mbc v h = ground arith

reg_or-lt : (a m b n : ℕ) → m < 512 → n < 512 → bit_or (bit_and a m) (bit_and b n) < 512
reg_or-lt a m b n hm hn =
    or-lt 9 (bit_and a m) (bit_and b n) (omega (arith, and-le a m)) (omega (arith, and-le b n))

module _ (rom_size : ℕ) (mbc : Mbc) (v : IsValid rom_size mbc) where
  set_rambank-IsValid : (reg : ℕ) → IsValid rom_size (set_rambank reg mbc)
  unfolding set_rambank
  set_rambank-IsValid reg = ground arith

  -- A work RAM bank past the end is refused, so the bank in use stays inside.
  pub set_wrambank-IsValid : (reg : ℕ) → IsValid rom_size (set_wrambank reg mbc).0
  unfolding set_wrambank
  set_wrambank-IsValid reg = ground arith

  set_mode-IsValid : (mode : ℕ) → IsValid rom_size (set_mode rom_size mode mbc).0
  unfolding set_mode set_rombank
  set_mode-IsValid mode = ground (arith, and-le mbc.rom_bank_reg 0x1f)

module _ (rom_size : ℕ) (mbc : Mbc) (v : IsValid rom_size mbc) (addr value : ℕ)
    (hv : value < 256) where
  select_fields-IsValid :
      (x m n : ℕ)
      → m < 512
      → n < 512
      → let reg = bit_or (bit_and mbc.rom_bank_reg m) (bit_and x n) in
        IsValid rom_size (set_rombank rom_size reg (record mbc { rom_bank_reg = reg })).0
  select_fields-IsValid x m n hm hn =
      select-IsValid rom_size (bit_or (bit_and mbc.rom_bank_reg m) (bit_and x n)) mbc v
        (reg_or-lt mbc.rom_bank_reg m x n hm hn)

  write_mbc5-IsValid : IsValid rom_size (write_mbc5 rom_size addr value mbc).0
  unfolding write_mbc5
  write_mbc5-IsValid = ground (
    arith,
    select_fields-IsValid value 0x100 0xff,
    select_fields-IsValid value 0xff 0x100,
    set_rambank-IsValid rom_size mbc v (bit_and value 0xf),
  )

  write_mbc3-IsValid : IsValid rom_size (write_mbc3 rom_size addr value mbc).0
  unfolding write_mbc3 set_rambank
  write_mbc3-IsValid = ground (
    arith,
    and-le value 0x7f,
    select-IsValid rom_size 1 mbc v,
    select-IsValid rom_size (bit_and value 0x7f) mbc v,
  )

  low_bits-lt : bit_or (bit_and mbc.rom_bank_reg 0x60) (bit_and value 0x1f) < 128
  low_bits-lt =
      or-lt 7 (bit_and mbc.rom_bank_reg 0x60) (bit_and value 0x1f)
        (omega (arith, and-le mbc.rom_bank_reg 0x60)) (omega (arith, and-le value 0x1f))

  high_bits-lt : bit_or (bit_and mbc.rom_bank_reg 0x1f) (bit_and value 3 * 2 ^ 5) < 128
  high_bits-lt =
      or-lt 7 (bit_and mbc.rom_bank_reg 0x1f) (bit_and value 3 * 2 ^ 5)
        (omega (arith, and-le mbc.rom_bank_reg 0x1f)) (omega (arith, and-le value 3))

  rom_bank_reg-set_rambank : (reg : ℕ) → (set_rambank reg mbc).rom_bank_reg ≡ mbc.rom_bank_reg
  unfolding set_rambank
  rom_bank_reg-set_rambank reg = refl

  write_mbc1m-IsValid : IsValid rom_size (write_mbc1m rom_size addr value mbc).0
  unfolding write_mbc1m
  write_mbc1m-IsValid =
      let low : ℕ = bit_or (bit_and mbc.rom_bank_reg 0x60) (bit_and value 0x1f) in
      let high : ℕ = bit_or (bit_and mbc.rom_bank_reg 0x1f) (bit_and value 3 * 2 ^ 5) in
      let ram : Mbc = set_rambank (bit_and value 3) mbc in
      ground (
        arith,
        low_bits-lt,
        high_bits-lt,
        rom_bank_reg-set_rambank (bit_and value 3),
        set_rambank-IsValid rom_size mbc v (bit_and value 3),
        set_mode-IsValid rom_size mbc v (bit_and value 1),
        select-IsValid rom_size low mbc v,
        select-IsValid rom_size (low + 1) mbc v,
        select-IsValid rom_size high mbc v,
        select-IsValid rom_size high ram,
      )

  write_control-IsValid :
      Returns (λ out. IsValid rom_size out.0) (write_control rom_size addr value mbc)
  unfolding write_control
  write_control-IsValid =
      ground (arith, write_mbc5-IsValid, write_mbc3-IsValid, write_mbc1m-IsValid)

  -- Below the echo no write throws or fails an assertion, but one between 0x8000 and 0x9FFF.
  write_bank-IsValid :
      addr < 65536
      → (addr < 0x8000) ⊎ (0xa000 ≤ addr)
      → addr < 0xe000
      → Returns (λ out. IsValid rom_size out.0) (write_bank rom_size addr value mbc)
  unfolding write_bank
  write_bank-IsValid h region low =
      ground (arith, page_lem addr h, write_control-IsValid, ram_index-lt addr mbc h v.ram_small)

module _ (rom_size : ℕ) (mbc : Mbc) (v : IsValid rom_size mbc) where
  read_bank-byte : (addr : ℕ) → addr < 65536 → Returns (λ x. x < 256) (read_bank addr mbc)
  unfolding read_bank
  read_bank-byte addr h = ground (
    arith,
    page_lem addr h,
    ram_index-lt addr mbc h v.ram_small,
    v.ram_bytes (ram_index addr mbc),
    v.wram_bytes (addr - 0xc000),
    v.wram_bytes (mbc.wram_offset + addr - 0xd000),
  )

  -- `MBC::read` never throws and returns a byte.
  pub read-byte : (addr : ℕ) → addr < 65536 → Returns (λ x. x < 256) (read addr mbc)
  unfolding read
  read-byte addr h = ground (arith, read_bank-byte addr h, read_bank-byte (addr - 0x2000))

-- In a valid controller, `MBC::write` of a byte to a 16-bit address outside video RAM throws
-- nothing, fails no assertion and keeps the controller valid.
pub write-IsValid :
    (rom_size : ℕ) (mbc : Mbc) (addr value : ℕ)
    → IsValid rom_size mbc
    → addr < 65536
    → (addr < 0x8000) ⊎ (0xa000 ≤ addr)
    → value < 256
    → Returns (λ out. IsValid rom_size out.0) (write rom_size addr value mbc)
unfolding write
write-IsValid rom_size mbc addr value v h region hv = ground (
  arith,
  page_lem addr h,
  write_bank-IsValid rom_size mbc v addr value hv,
  write_bank-IsValid rom_size mbc v (addr - 0x2000) value hv,
)
