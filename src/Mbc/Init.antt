-- ===== src/Mbc/Init.antt =====
-- `MBC::init` of libgbc/mbc.cpp: the controller that the cartridge's header asks for.
use gamebro.Base.{
  ◌*◌, List, [], ◌∷◌, Option, none, some, refl, ◌⊎◌, ℕ, ◌≤◌, ◌≡◌, arith, true, false, ◌||◌, ◌&&◌,
  ltb, leb, ◌==◌, if◌then◌else◌, Outcome, ok, fault, assertion,
}
use gamebro.State.{Mbc, update}
use gamebro.Mbc.Invariant.{IsValid}

-- The five bytes that `init` writes to the cartridge RAM.
abbrev pub seed_ram : (ℕ → ℕ) → ℕ → ℕ
seed_ram ram =
    update (update (update (update (update ram 0x100 0x1) 0x101 0x3) 0x102 0x5) 0x103 0x7) 0x104 0x9

-- The switch on the header byte 0x147. A version 2 cartridge fails an assertion.
unfoldable pub choose_version : ℕ → Mbc → Outcome Mbc
choose_version kind mbc =
    if leb kind 0x3
    then ok (record mbc { version = 1 })
    else if kind == 0x5 || kind == 0x6
    then fault assertion
    else if kind == 0x0f || kind == 0x10 || kind == 0x12 || kind == 0x13
    then ok (record mbc { version = 3 })
    else if leb 0x19 kind && leb kind 0x1c
    then ok (record mbc { version = 5; rumble = false })
    else if kind == 0x1d || kind == 0x1e
    then ok (record mbc { version = 5; rumble = true })
    else fault assertion

-- The switch on the header byte 0x149.
unfoldable pub choose_ram : ℕ → Mbc → Mbc
choose_ram size mbc =
    if size == 0x0
    then record mbc { ram_banks = 0; ram_bank_size = 0 }
    else if size == 0x1
    then record mbc { ram_banks = 1; ram_bank_size = 2048 }
    else if size == 0x2
    then record mbc { ram_banks = 1; ram_bank_size = 8192 }
    else if size == 0x3
    then record mbc { ram_banks = 4; ram_bank_size = 32768 }
    else if size == 0x4
    then record mbc { ram_banks = 16; ram_bank_size = 0x20000 }
    else if size == 0x5
    then record mbc { ram_banks = 8; ram_bank_size = 0x10000 }
    else mbc

-- A ROM shorter than its header is a test ROM, which is not looked at.
unfoldable pub init : ℕ → (ℕ → ℕ) → Mbc → Outcome Mbc
init rom_size rom mbc =
    let seeded = record mbc { ram = seed_ram mbc.ram } in
    if ltb rom_size 0x150 then ok seeded else (elim (choose_version (rom 0x147) seeded) [
      | ok mbc1 ↦ ok (let mbc2 = choose_ram (rom 0x149) mbc1 in record mbc2 { wram_size = 0x8000 })
      | fault e ↦ fault e
    ])

-- The controllers of the cartridge types, as a table of what the type stands for.
abbrev pub controllers : List (ℕ × ℕ)
controllers =
    (0x00, 1)
    ∷ (0x01, 1)
    ∷ (0x02, 1)
    ∷ (0x03, 1)
    ∷ (0x0f, 3)
    ∷ (0x10, 3)
    ∷ (0x12, 3)
    ∷ (0x13, 3)
    ∷ (0x19, 5)
    ∷ (0x1a, 5)
    ∷ (0x1b, 5)
    ∷ (0x1c, 5)
    ∷ (0x1d, 5)
    ∷ (0x1e, 5)
    ∷ []

-- For a RAM size in the header: the banks, and the bytes of all of them.
abbrev pub ram_sizes : List (ℕ × (ℕ × ℕ))
ram_sizes =
    (0, (0, 0))
    ∷ (1, (1, 2048))
    ∷ (2, (1, 8192))
    ∷ (3, (4, 4 * 8192))
    ∷ (4, (16, 16 * 8192))
    ∷ (5, (8, 8 * 8192))
    ∷ []

abbrev pub lookup : {A : Type 0} → ℕ → List (ℕ × A) → Option A
lookup key [] = none
lookup key (entry ∷ entries) = if key == entry.0 then some entry.1 else lookup key entries

-- What a table has for a key, and otherwise a default.
abbrev pub lookup_or : {A : Type 0} → A → ℕ → List (ℕ × A) → A
lookup_or default key [] = default
lookup_or default key (entry ∷ entries) =
    if key == entry.0 then entry.1 else lookup_or default key entries

-- The controller that the header describes: only version 5 says anything of rumble.
abbrev pub described : ℕ → ℕ → ℕ → Mbc → Mbc
described version kind size mbc =
    let sizes = lookup_or (mbc.ram_banks, mbc.ram_bank_size) size ram_sizes in
    record mbc {
      version = version;
      rumble = if version == 5 then kind == 0x1d || kind == 0x1e else mbc.rumble;
      ram_banks = sizes.0;
      ram_bank_size = sizes.1;
      wram_size = 0x8000;
      ram = seed_ram mbc.ram;
    }

choose_version-lookup :
    (kind : ℕ) (mbc : Mbc)
    → choose_version kind mbc ≡ elim (lookup kind controllers) [
      | some version ↦ ok (record mbc {
        version = version;
        rumble = if version == 5 then kind == 0x1d || kind == 0x1e else mbc.rumble;
      })
      | none ↦ fault assertion
    ]
unfolding choose_version
choose_version-lookup kind mbc = ground arith

choose_ram-lookup_or :
    (size : ℕ) (mbc : Mbc)
    → let sizes = lookup_or (mbc.ram_banks, mbc.ram_bank_size) size ram_sizes in
      choose_ram size mbc ≡ record mbc { ram_banks = sizes.0; ram_bank_size = sizes.1 }
unfolding choose_ram
choose_ram-lookup_or size mbc = ground arith

known_version :
    (kind version : ℕ)
    → lookup kind controllers ≡ some version
    → (version ≡ 1) ⊎ ((version ≡ 3) ⊎ (version ≡ 5))
known_version kind version h = ground (arith, h)

-- What becomes of `init` with the version, if any, that the table has for the cartridge type.
abbrev pub Follows : ℕ → (ℕ → ℕ) → Mbc → Option ℕ → Type 0
Follows rom_size rom mbc none = init rom_size rom mbc ≡ fault assertion
Follows rom_size rom mbc (some version) =
    let mbc' = described version (rom 0x147) (rom 0x149) mbc in
    (init rom_size rom mbc ≡ ok mbc') × IsValid rom_size mbc'

-- For a valid controller and a ROM that reaches past the first bank, `init` fails an assertion where
-- the table of controllers does not have the cartridge type. Otherwise it sets the controller's
-- version, its number of RAM banks and their bytes as the tables say, rumble by the type for version
-- 5, eight banks of work RAM and the five bytes of RAM, leaves everything else, and the controller
-- stays valid.
pub init-IsValid :
    (rom_size : ℕ) (rom : ℕ → ℕ) (mbc : Mbc)
    → IsValid rom_size mbc
    → 0x8000 ≤ rom_size
    → Follows rom_size rom mbc (lookup (rom 0x147) controllers)
unfolding init
init-IsValid rom_size rom mbc v h = go (lookup (rom 0x147) controllers) refl
  where
    seeded : Mbc
    seeded = record mbc { ram = seed_ram mbc.ram }

    long : ltb rom_size 0x150 ≡ false
    long = ground (arith, h)

    go : (o : Option ℕ) → lookup (rom 0x147) controllers ≡ o → Follows rom_size rom mbc o
    go none e = rw (long, choose_version-lookup (rom 0x147) seeded, e) refl
    go (some version) e = (
      rw (long, choose_version-lookup (rom 0x147) seeded, e)
          (rw
            (choose_ram-lookup_or (rom 0x149) (record seeded {
              version = version;
              rumble = if version == 5 then rom 0x147 == 0x1d || rom 0x147 == 0x1e else mbc.rumble;
            }))
            refl),
      ground (arith, v, known_version (rom 0x147) version e),
    )
