-- ===== src/Video.antt =====
-- The pixels of a scanline: libgbc/tiledata.hpp, libgbc/sprite.hpp and `render_scanline` of
-- libgbc/gpu.cpp. A pointer into video RAM is its offset.
pub mod Render
pub mod Order
pub mod Dump
pub mod Pictures
pub mod Bounds
use gamebro.Base.{
  ℕ, zero, suc, ◌+◌, ◌-◌, ◌*◌, ◌/◌, ◌%◌, ◌^◌, bit_and, bit_or, Bool, true, false, not, ◌&&◌, ◌||◌,
}
use gamebro.Base.{
  ltb, leb, ◌==◌, ◌!=◌, if◌then◌else◌, to_ℕ, Outcome, ok, fault, out_of_bounds, ◌>>=◌, List, [],
  ◌∷◌, Option, none, some,
}

-- A read through a pointer into `video_ram`, which checks nothing.
abbrev pub vram_at : (ℕ → ℕ) → ℕ → Outcome ℕ
vram_at vram i = if ltb i 16384 then ok (vram i) else fault out_of_bounds

pub record TileConf : Type 0 where
  pub is_cgb : Bool
  pub dmg_pal : ℕ

-- `attr_base` is null outside CGB mode.
pub record TileData : Type 0 where
  pub tile_base : ℕ
  pub patt_base : ℕ
  pub attr_base : Option ℕ
  pub signed : Bool

-- 128 + (int8_t) b is b + 128 modulo 256.
unfoldable pub tile_id : (ℕ → ℕ) → TileData → ℕ → ℕ → Outcome ℕ
tile_id vram td x y = do
  b ← vram_at vram (td.tile_base + (y * 32 + x))
  ok (if td.signed then (b + 128) % 256 else b)

unfoldable pub tile_attr : (ℕ → ℕ) → TileData → ℕ → ℕ → Outcome ℕ
tile_attr vram td x y = elim td.attr_base [
  | none ↦ ok 0
  | some base ↦ vram_at vram (base + (y * 32 + x))
]

-- The two colour bits of a pixel in a line of a tile, from the right.
unfoldable pub combine : ℕ → ℕ → ℕ → ℕ
combine c0 c1 tx =
    let bit = 7 - tx in
    let v0 = bit_and (c0 / 2 ^ bit) 0x1 in
    let v1 = bit_and (c1 / 2 ^ bit) 0x1 in bit_or v0 (v1 * 2 ^ 1)

unfoldable pub pattern_at : (ℕ → ℕ) → TileData → ℕ → ℕ → ℕ → ℕ → Outcome ℕ
pattern_at vram td tid tattr x y = do
  let tx = if bit_and tattr 0x20 != 0 then 7 - x else x
  let ty = if bit_and tattr 0x40 != 0 then 7 - y else y
  let base = if bit_and tattr 0x08 != 0 then td.patt_base + 0x2000 else td.patt_base
  let offset = 16 * tid + ty * 2
  c0 ← vram_at vram (base + offset)
  c1 ← vram_at vram (base + (offset + 1))
  ok (combine c0 c1 tx)

unfoldable pub colorize_tile : TileConf → ℕ → ℕ → ℕ
colorize_tile conf attr idx =
    if conf.is_cgb then 4 * bit_and attr 0x7 + idx else bit_and (conf.dmg_pal / 2 ^ (idx * 2)) 0x3

pub record SpriteConfig : Type 0 where
  pub palette0 : ℕ
  pub palette1 : ℕ
  pub scan_x : ℕ
  pub scan_y : ℕ
  pub height : ℕ
  pub is_cgb : Bool

-- Four bytes of OAM RAM.
pub record Sprite : Type 0 where
  pub ypos : ℕ
  pub xpos : ℕ
  pub pattern : ℕ
  pub attr : ℕ

unfoldable pub hidden : Sprite → Bool
hidden s = s.ypos == 0 || leb 160 s.ypos || (s.xpos == 0 || leb 168 s.xpos)

abbrev pub behind : Sprite → Bool
behind s = bit_and s.attr 0x80 != 0

abbrev pub flipx : Sprite → Bool
flipx s = bit_and s.attr 0x20 != 0

abbrev pub flipy : Sprite → Bool
flipy s = bit_and s.attr 0x40 != 0

abbrev pub pal : Sprite → ℕ
pal s = bit_and s.attr 0x10 / 2 ^ 4

abbrev pub cgb_bank : Sprite → ℕ
cgb_bank s = bit_and s.attr 0x8 / 2 ^ 3

abbrev pub cgb_pal : Sprite → ℕ
cgb_pal s = bit_and s.attr 0x7

-- `start_y()` is `ypos - 16`, which may be negative: 16 is added on both sides.
unfoldable pub is_within_scanline : SpriteConfig → Sprite → Bool
is_within_scanline config s =
    leb s.ypos (config.scan_y + 16) && ltb (config.scan_y + 16) (s.ypos + config.height)

-- `tx` and `ty` are distances from `xpos - 8` and `ypos - 16`. The sprite is on the scanline, so
-- `ty` is not negative; `tx` is tested.
unfoldable pub sprite_pixel : (ℕ → ℕ) → SpriteConfig → Sprite → Outcome ℕ
sprite_pixel vram config s =
    if ltb (config.scan_x + 8) s.xpos || leb 8 (config.scan_x + 8 - s.xpos) then ok 0 else do
      let dx = config.scan_x + 8 - s.xpos
      let dy = config.scan_y + 16 - s.ypos
      let tx = if flipx s then 8 - 1 - dx else dx
      let ty = if flipy s then config.height - 1 - dy else dy
      let tile = s.pattern * 16 + ty * 2
      let offset = if config.is_cgb then tile + cgb_bank s * 0x2000 else tile
      c0 ← vram_at vram offset
      c1 ← vram_at vram (offset + 1)
      ok (combine c0 c1 tx)

unfoldable pub colorize_sprite : SpriteConfig → Sprite → ℕ → ℕ
colorize_sprite config s idx =
    if config.is_cgb
    then 32 + 4 * cgb_pal s + idx
    else (let palette = if pal s == 0 then config.palette0 else config.palette1 in
        bit_and (palette / 2 ^ (idx * 2)) 0x3)

abbrev pub sprite_at : (ℕ → ℕ) → ℕ → Sprite
sprite_at oam i = record {
  ypos = oam (4 * i);
  xpos = oam (4 * i + 1);
  pattern = oam (4 * i + 2);
  attr = oam (4 * i + 3);
}

-- `find_sprites` from sprite `n - 1` down to 0, with room for `room` more results.
unfoldable pub find_sprites : (ℕ → ℕ) → SpriteConfig → ℕ → ℕ → List Sprite
find_sprites oam config room zero = []
find_sprites oam config zero (suc n) = []
find_sprites oam config (suc room) (suc n) =
    let s = sprite_at oam n in
    let taken = s ∷ find_sprites oam config room n in
    let skipped = find_sprites oam config (suc room) n in
    if not (hidden s) && is_within_scanline config s then taken else skipped

-- The loop over the sprites at one pixel: each may draw over the colour so far.
unfoldable pub draw_sprites : (ℕ → ℕ) → SpriteConfig → ℕ → List Sprite → ℕ → Outcome ℕ
draw_sprites vram config tile_color [] color = ok color
draw_sprites vram config tile_color (s ∷ rest) color = sprite_pixel vram config s >>= λ idx.
    draw_sprites vram config tile_color rest (
      if idx != 0 && (not (behind s) || tile_color == 0)
      then colorize_sprite config s idx
      else color)
