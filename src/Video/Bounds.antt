-- ===== src/Video/Bounds.antt =====
-- Rendering reads video RAM and writes the pixel buffer inside their bounds: libgbc/tiledata.hpp,
-- sprite.hpp and `GPU::render_scanline` of libgbc/gpu.cpp.
use gamebro.Base.{Outcome, ok, fault}
use gamebro.Base.{bit_and}
use gamebro.Video.{colorize_tile}
use gamebro.Base.{◌⊎◌, if◌then◌else◌, Bool, true, false, some, none, and-le, ◌-◌, ◌/◌, ◌≡◌}
use gamebro.State.{Machine}
use gamebro.Memory.Invariant.{IsValid}
use gamebro.Gpu.{bg_tiles, window_tiles, tile_data}
use gamebro.Video.Render.{map_pixel, create_tiledata}
use gamebro.Video.{TileConf}
use gamebro.Base.{ℕ, ◌+◌, ◌*◌, ◌<◌, ◌≤◌, arith, ok, Returns, Option, none, some}
use gamebro.Video.{TileData, tile_id, tile_attr, pattern_at, vram_at}

abbrev AttributesFit : Option ℕ → Type 0
AttributesFit none = Unit
AttributesFit (some base) = base + 0x400 ≤ 0x4000

-- A tile map and its patterns lie where `create_tiledata` puts them.
pub record InVram (td : TileData) : Type 0 where
  pub map_fits : td.tile_base + 0x400 ≤ 0x2000
  pub patterns_fit : td.patt_base ≤ 0x800
  pub attributes_fit : AttributesFit td.attr_base

module _ (vram : ℕ → ℕ) (bytes : (i : ℕ) → vram i < 256) (td : TileData) (v : InVram td) where
  tile_id-byte : (x y : ℕ) → x < 32 → y < 32 → Returns (λ t. t < 256) (tile_id vram td x y)
  unfolding tile_id
  tile_id-byte x y hx hy = ground (arith, v.map_fits, bytes (td.tile_base + (y * 32 + x)))

  tile_attr-Returns : (x y : ℕ) → x < 32 → y < 32 → Returns (λ t. t < 256) (tile_attr vram td x y)
  unfolding tile_attr
  tile_attr-Returns x y hx hy = go td.attr_base v.attributes_fit
    where
      go :
          (o : Option ℕ)
          → AttributesFit o
          → Returns
              (λ t. t < 256)
              (elim o [ none ↦ ok 0 | some base ↦ vram_at vram (base + (y * 32 + x)) ])
      go none h = omega arith
      go (some base) h = ground (arith, bytes (base + (y * 32 + x)))

  pattern_at-Returns :
      (tid attr x y : ℕ)
      → tid < 256
      → x < 8
      → y < 8
      → Returns (λ c. Unit) (pattern_at vram td tid attr x y)
  unfolding pattern_at
  pattern_at-Returns tid attr x y ht hx hy = ground (arith, v.patterns_fit)

  pub map_pixel-Returns :
      (conf : TileConf) (x y : ℕ)
      → x < 256
      → y < 256
      → Returns (λ c. Unit) (map_pixel vram conf td x y)
  unfolding map_pixel
  map_pixel-Returns conf x y hx hy =
      from_id (tile_id vram td (x / 8) (y / 8))
        (tile_id-byte (x / 8) (y / 8) (omega arith) (omega arith))
    where
      from_line :
          (attr : ℕ) (o : Outcome ℕ)
          → Returns (λ c. Unit) o
          → Returns {A = ℕ × ℕ × ℕ}
              (λ c. Unit)
              (elim o [ ok idx ↦ ok (idx, attr, colorize_tile conf attr idx) | fault e ↦ fault e ])
      from_line attr (ok idx) h = tt
      from_line attr (fault e) h = h

      from_attr :
          (tid : ℕ)
          → tid < 256
          → (o : Outcome ℕ) → Returns (λ t. t < 256) o
          → Returns {A = ℕ × ℕ × ℕ}
              (λ c. Unit)
              (elim o [
                | ok attr ↦ elim (pattern_at vram td tid attr (bit_and x 7) (bit_and y 7)) [
                  | ok idx ↦ ok (idx, attr, colorize_tile conf attr idx)
                  | fault e ↦ fault e
                ]
                | fault e ↦ fault e
              ])
      from_attr tid ht (ok attr) h =
          from_line attr (pattern_at vram td tid attr (bit_and x 7) (bit_and y 7)) (
            pattern_at-Returns tid attr (bit_and x 7) (bit_and y 7) ht (omega (arith, and-le x 7))
              (omega (arith, and-le y 7)))
      from_attr tid ht (fault e) h = h

      from_id :
          (o : Outcome ℕ)
          → Returns (λ t. t < 256) o
          → Returns {A = ℕ × ℕ × ℕ}
              (λ c. Unit)
              (elim o [
                | ok tid ↦ elim (tile_attr vram td (x / 8) (y / 8)) [
                  | ok attr ↦ elim (pattern_at vram td tid attr (bit_and x 7) (bit_and y 7)) [
                    | ok idx ↦ ok (idx, attr, colorize_tile conf attr idx)
                    | fault e ↦ fault e
                  ]
                  | fault e ↦ fault e
                ]
                | fault e ↦ fault e
              ])
      from_id (ok tid) h =
          from_attr tid h (tile_attr vram td (x / 8) (y / 8))
            (tile_attr-Returns (x / 8) (y / 8) (omega arith) (omega arith))
      from_id (fault e) h = h

pub create_tiledata-InVram :
    (m : Machine) (tiles patterns : ℕ)
    → (tiles ≡ 0x9800) ⊎ (tiles ≡ 0x9c00)
    → (patterns ≡ 0x8000) ⊎ (patterns ≡ 0x8800)
    → InVram (create_tiledata tiles patterns m)
unfolding create_tiledata
create_tiledata-InVram m tiles patterns ht hp = record {
  map_fits = omega arith;
  patterns_fit = omega arith;
  attributes_fit = attributes m.cgb_mode;
}
  where
    attributes : (b : Bool) → AttributesFit (if b then some (tiles - 0x8000 + 0x2000) else none)
    attributes true = omega arith
    attributes false = tt

-- In a valid machine, whatever the LCD control register selects, drawing any pixel of the
-- background's or the window's 256 by 256 map reads video RAM inside its bounds.
pub map_pixel-create_tiledata :
    (m : Machine) (conf : TileConf) (x y : ℕ)
    → IsValid m
    → x < 256
    → y < 256
    → let vram = m.memory.video_ram in
      let background = create_tiledata (bg_tiles m.io) (tile_data m.io) m in
      let window = create_tiledata (window_tiles m.io) (tile_data m.io) m in
      Returns (λ c. Unit) (map_pixel vram conf background x y)
      × Returns (λ c. Unit) (map_pixel vram conf window x y)
unfolding bg_tiles window_tiles tile_data
map_pixel-create_tiledata m conf x y v hx hy = (
  map_pixel-Returns m.memory.video_ram v.video_bytes
      (create_tiledata (bg_tiles m.io) (tile_data m.io) m)
      (create_tiledata-InVram m (bg_tiles m.io) (tile_data m.io) (ground arith) (ground arith)) conf
      x y hx hy,
  map_pixel-Returns m.memory.video_ram v.video_bytes
      (create_tiledata (window_tiles m.io) (tile_data m.io) m)
      (create_tiledata-InVram m (window_tiles m.io) (tile_data m.io) (ground arith) (ground arith))
      conf x y hx hy,
)
