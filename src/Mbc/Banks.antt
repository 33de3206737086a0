-- ===== src/Mbc/Banks.antt =====
-- Which bank a write to the control ranges selects: libgbc/mbc.cpp and the three controllers.
use gamebro.Base.{
  ℕ, ◌+◌, ◌-◌, ◌*◌, ◌/◌, ◌%◌, ◌^◌, ◌<◌, ◌≤◌, ◌≡◌, refl, ap, ◌∙◌, arith, bit_and, bit_or, false,
  ◌==◌, if◌then◌else◌,
}
use gamebro.Base.{and_mask, and_high, and-le, or-lt, or_fields, or_fields_right, List, [], ◌∷◌}
use native.Mathlib.Nat.{one-le-pow}
use gamebro.State.{Mbc}
use gamebro.Mbc.Invariant.{page_lem}
use gamebro.Mbc.{set_rombank, set_rambank, write_mbc1m, write_mbc5}

-- On a cartridge of `2 ^ k` banks the register selects its bank modulo `2 ^ k`, and the debugger is not called.
pub set_rombank_wraps :
    (k reg : ℕ) (mbc : Mbc)
    → set_rombank (2 ^ k * 0x4000) reg mbc
      ≡ (record mbc { rom_bank_offset = reg % 2 ^ k * 0x4000 }, false)
unfolding set_rombank
set_rombank_wraps k reg mbc =
    rw (let e : 2 ^ k * 16384 / 16384 ≡ 2 ^ k = omega arith in e)
      (ground (arith, and_mask k reg, one-le-pow k 2))

offset-set_rombank :
    (k reg : ℕ) (mbc : Mbc)
    → (set_rombank (2 ^ k * 0x4000) reg mbc).0.rom_bank_offset ≡ reg % 2 ^ k * 0x4000
offset-set_rombank k reg mbc = ap (λ out. out.0.rom_bank_offset) (set_rombank_wraps k reg mbc)

reg-set_rambank : (reg : ℕ) (mbc : Mbc) → (set_rambank reg mbc).rom_bank_reg ≡ mbc.rom_bank_reg
unfolding set_rambank
reg-set_rambank reg mbc = refl

-- With sixteen RAM banks, the offset of banks 8 to 15 is cut to that of banks 0 to 7.
pub set_rambank_aliases :
    (reg : ℕ) (mbc : Mbc)
    → mbc.ram_banks ≡ 16
    → reg < 8
    → set_rambank (reg + 8) mbc ≡ set_rambank reg mbc
unfolding set_rambank
set_rambank_aliases reg mbc e h = ground (arith, and_mask 4 reg, and_mask 4 (reg + 8))

-- The five low bits of an MBC1 bank number, where 0 is read as 1.
abbrev pub low_bank : ℕ → ℕ
low_bank low = if low % 32 == 0 then 1 else low % 32

mbc1_low_reg :
    (rom_size addr low : ℕ) (mbc : Mbc)
    → 0x2000 ≤ addr
    → addr < 0x4000
    → bit_and (write_mbc1m rom_size addr low mbc).0.rom_bank_reg 0x1f ≡ low_bank low
unfolding write_mbc1m set_rombank
mbc1_low_reg rom_size addr low mbc lo hi =
    let hi2 : ℕ = bit_and (mbc.rom_bank_reg / 32) 3 in
    ground (
      arith,
      page_lem addr,
      and_mask 5 low,
      and_high 5 mbc.rom_bank_reg 3,
      or_fields 5 hi2 (low % 32),
      and_mask 5 (hi2 * 32 + low % 32),
      and_mask 5 (hi2 * 32 + 1),
    )

mbc1_high_bank :
    (k addr high : ℕ) (mbc : Mbc)
    → 0x4000 ≤ addr
    → addr < 0x6000
    → (write_mbc1m (2 ^ k * 0x4000) addr high mbc).0.rom_bank_offset
      ≡ (high % 4 * 32 + bit_and mbc.rom_bank_reg 0x1f) % 2 ^ k * 0x4000
unfolding write_mbc1m
mbc1_high_bank k addr high mbc lo hi =
    let kept : ℕ = bit_and mbc.rom_bank_reg 0x1f in
    let reg : ℕ = bit_or kept (bit_and high 3 * 2 ^ 5) in
    let ram : Mbc = set_rambank (bit_and high 3) mbc in
    ground (
      arith,
      page_lem addr,
      and_mask 2 high,
      and_mask 5 mbc.rom_bank_reg,
      or_fields_right 5 (high % 4) kept,
      offset-set_rombank k reg (record mbc { rom_bank_reg = reg }),
      offset-set_rombank k reg (record ram { rom_bank_reg = reg }),
      reg-set_rambank (bit_and high 3) mbc,
    )

-- On an MBC1 with `2 ^ k` ROM banks, a write of the low bits and then of the high bits selects
-- the bank with those bits, modulo the number of banks; low bits 0 are read as 1.
pub mbc1_selects :
    (k addr low addr' high : ℕ) (mbc : Mbc)
    → 0x2000 ≤ addr
    → addr < 0x4000
    → 0x4000 ≤ addr'
    → addr' < 0x6000
    → let mbc1 = (write_mbc1m (2 ^ k * 0x4000) addr low mbc).0 in
      let mbc2 = (write_mbc1m (2 ^ k * 0x4000) addr' high mbc1).0 in
      mbc2.rom_bank_offset ≡ (high % 4 * 32 + low_bank low) % 2 ^ k * 0x4000
mbc1_selects k addr low addr' high mbc lo hi lo' hi' =
    mbc1_high_bank k addr' high (write_mbc1m (2 ^ k * 0x4000) addr low mbc).0 lo' hi'
    ∙ ap (λ b. (high % 4 * 32 + b) % 2 ^ k * 0x4000)
        (mbc1_low_reg (2 ^ k * 0x4000) addr low mbc lo hi)

-- A sequence of writes to the control range of an MBC5.
abbrev pub run_mbc5 : ℕ → List (ℕ × ℕ) → Mbc → Mbc
run_mbc5 rom_size [] mbc = mbc
run_mbc5 rom_size ((addr, value) ∷ ws) mbc =
    run_mbc5 rom_size ws (write_mbc5 rom_size addr value mbc).0

abbrev pub AreBytes : List (ℕ × ℕ) → Type 0
AreBytes [] = Unit
AreBytes ((addr, value) ∷ ws) = (value < 256) × AreBytes ws

byte_and_256 : (x : ℕ) → x < 256 → bit_and x 0x100 ≡ 0
byte_and_256 x h = let e : x / 2 ^ 8 ≡ 0 = omega arith in and_high 8 x 1 ∙ rw e refl

select_low :
    (rom_size reg : ℕ) (mbc : Mbc)
    → reg < 256
    → mbc.rom_bank_offset < 256 * 0x4000
    → let mbc1 = (set_rombank rom_size reg (record mbc { rom_bank_reg = reg })).0 in
      (mbc1.rom_bank_reg < 256) × (mbc1.rom_bank_offset < 256 * 0x4000)
unfolding set_rombank
select_low rom_size reg mbc h o = ground (arith, and-le reg (rom_size / 16384 - 1))

write_mbc5_low :
    (rom_size addr value : ℕ) (mbc : Mbc)
    → value < 256
    → mbc.rom_bank_reg < 256
    → mbc.rom_bank_offset < 256 * 0x4000
    → let mbc1 = (write_mbc5 rom_size addr value mbc).0 in
      (mbc1.rom_bank_reg < 256) × (mbc1.rom_bank_offset < 256 * 0x4000)
unfolding write_mbc5 set_rambank
write_mbc5_low rom_size addr value mbc hv hr ho = ground (
  arith,
  page_lem addr,
  select_low rom_size (bit_or (bit_and mbc.rom_bank_reg 0x100) (bit_and value 0xff)) mbc,
  select_low rom_size (bit_or (bit_and mbc.rom_bank_reg 0xff) (bit_and value 0x100)) mbc,
  or-lt 8 (bit_and mbc.rom_bank_reg 0x100) (bit_and value 0xff),
  or-lt 8 (bit_and mbc.rom_bank_reg 0xff) (bit_and value 0x100),
  byte_and_256 mbc.rom_bank_reg hr,
  byte_and_256 value hv,
  and-le value 0xff,
  and-le mbc.rom_bank_reg 0xff,
)

-- Whatever bytes are written, an MBC5 whose register and bank are below 256 keeps them there: no
-- bank from 256 on is ever selected, as the ninth bit is taken from bit 8 of a byte.
pub mbc5_ninth_bit_lost :
    (rom_size : ℕ) (ws : List (ℕ × ℕ)) (mbc : Mbc)
    → AreBytes ws
    → mbc.rom_bank_reg < 256
    → mbc.rom_bank_offset < 256 * 0x4000
    → ((run_mbc5 rom_size ws mbc).rom_bank_reg < 256)
      × ((run_mbc5 rom_size ws mbc).rom_bank_offset < 256 * 0x4000)
mbc5_ninth_bit_lost rom_size [] mbc b r o = (r, o)
mbc5_ninth_bit_lost rom_size ((addr, value) ∷ ws) mbc b r o =
    let (r', o') = write_mbc5_low rom_size addr value mbc b.0 r o in
    mbc5_ninth_bit_lost rom_size ws (write_mbc5 rom_size addr value mbc).0 b.1 r' o'
