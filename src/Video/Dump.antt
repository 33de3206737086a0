-- ===== src/Video/Dump.antt =====
-- The dumps of whole pictures and the colours shown for palette entries: libgbc/gpu.cpp and
-- libgbc/gpu.hpp.
use gamebro.Base.{
  ltb, ℕ, zero, suc, ◌+◌, ◌*◌, ◌/◌, ◌^◌, bit_and, bit_or, List, [], ◌∷◌, Outcome, ok, fault, throws,
  ◌==◌, if◌then◌else◌, ◌>>=◌,
}
use gamebro.State.{Machine, update}
use gamebro.State.Monad.{M}
use gamebro.Gpu.{bg_tiles, tile_data}
use gamebro.Video.{TileConf, pattern_at, colorize_tile}
use gamebro.Video.Render.{create_tiledata, tile_config, map_pixel}

-- A vector of a size that is fixed when it is allocated, with zeros.
pub record Vector : Type 0 where
  pub size : ℕ
  pub elements : ℕ → ℕ

abbrev pub allocate : ℕ → Vector
allocate size = record { size = size; elements = λ i. 0 }

-- `data.at(i) = value`.
unfoldable pub put_at : ℕ → ℕ → Vector → Outcome Vector
put_at i value v =
    if ltb i v.size then ok (record v { elements = update v.elements i value }) else fault throws

module _ (pixel : ℕ → ℕ → Outcome ℕ) (width : ℕ) where
  -- The loop at `x` in the row `y`, with `left` columns to go.
  unfoldable pub dump_row : ℕ → ℕ → ℕ → Vector → Outcome Vector
  dump_row y zero x v = ok v
  dump_row y (suc left) x v =
      pixel x y >>= λ color. put_at (y * width + x) color v >>= λ next. dump_row y left (x + 1) next

  -- The loop at `y`, with `left` rows to go.
  unfoldable pub dump_rows : ℕ → ℕ → Vector → Outcome Vector
  dump_rows zero y v = ok v
  dump_rows (suc left) y v = dump_row y width 0 v >>= λ next. dump_rows left (y + 1) next

abbrev pub background_pixel : Machine → TileConf → ℕ → ℕ → Outcome ℕ
background_pixel m tconf x y =
    let td = create_tiledata (bg_tiles m.io) (tile_data m.io) m in
    map_pixel m.memory.video_ram tconf td x y >>= λ shown. ok shown.2

-- A picture drawn from the machine with the tile configuration just read.
abbrev pub draw : (Machine → TileConf → Outcome Vector) → M Vector
draw picture m = tile_config m >>= λ out. picture out.1 out.0 >>= λ colors. ok (colors, out.1)

unfoldable pub dump_background : M Vector
dump_background =
    draw (λ m tconf. dump_rows (background_pixel m tconf) 256 256 0 (allocate (256 * 256)))

abbrev pub tile_pixel : Machine → TileConf → ℕ → ℕ → ℕ → Outcome ℕ
tile_pixel m tconf attr x y =
    let td = create_tiledata 0x8000 0x8000 m in
    let tile = y / 8 * 16 + x / 8 in
    pattern_at m.memory.video_ram td tile attr (bit_and x 7) (bit_and y 7) >>= λ idx.
    ok (colorize_tile tconf attr idx)

unfoldable pub dump_tiles : ℕ → M Vector
dump_tiles bank =
    let attr = if bank == 0 then 0x00 else 0x08 in
    draw
      (λ m tconf. dump_rows (tile_pixel m tconf attr) 128 (24 * 8) 0 (allocate (16 * 24 * 8 * 8)))

pub data DmgVariant : Type 0 where
  lighter_green darker_green grayscale : DmgVariant

-- `mRGB`.
abbrev pub rgb : ℕ → ℕ → ℕ → ℕ
rgb r g b = bit_or (bit_or r (g * 2 ^ 8)) (b * 2 ^ 16)

unfoldable pub dmg_colors : DmgVariant → List ℕ
dmg_colors DmgVariant.lighter_green =
    rgb 224 248 208 ∷ rgb 136 192 112 ∷ rgb 52 104 86 ∷ rgb 8 24 32 ∷ []
dmg_colors DmgVariant.darker_green =
    rgb 175 203 70 ∷ rgb 121 170 109 ∷ rgb 34 111 95 ∷ rgb 8 41 85 ∷ []
dmg_colors DmgVariant.grayscale =
    rgb 232 232 232 ∷ rgb 160 160 160 ∷ rgb 88 88 88 ∷ rgb 16 16 16 ∷ []

-- `array.at(i)` of the array with these elements.
abbrev pub element : List ℕ → ℕ → Outcome ℕ
element [] i = fault throws
element (x ∷ xs) zero = ok x
element (x ∷ xs) (suc i) = element xs i

-- `m_variant` is not part of the machine's state here, and is given.
unfoldable pub expand_dmg_color : DmgVariant → ℕ → Outcome ℕ
expand_dmg_color variant index = element (dmg_colors variant) index
