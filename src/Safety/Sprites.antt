-- ===== src/Safety/Sprites.antt =====
-- Sprites read video RAM inside its bounds: libgbc/sprite.hpp and the loops over sprites of
-- libgbc/gpu.cpp.
use gamebro.Base.{
  ℕ, zero, suc, ◌+◌, ◌*◌, ◌/◌, ◌<◌, ◌≤◌, ◌≡◌, ◌⊎◌, arith, not, ◌==◌, ◌!=◌, ◌&&◌, ◌||◌,
  if◌then◌else◌, Returns, and_mask, and-le, List, [], ◌∷◌, Returns-bind,
}
use gamebro.Video.{
  Sprite, SpriteConfig, is_within_scanline, sprite_pixel, draw_sprites, find_sprites,
  colorize_sprite, behind,
}

-- A sprite of four bytes that the scanline crosses.
pub record IsOnLine (config : SpriteConfig) (s : Sprite) : Type 0 where
  pub pattern_byte : s.pattern < 256
  pub starts : s.ypos ≤ config.scan_y + 16
  pub ends : config.scan_y + 16 < s.ypos + config.height

abbrev pub AreOnLine : SpriteConfig → List Sprite → Type 0
AreOnLine config [] = Unit
AreOnLine config (s ∷ rest) = IsOnLine config s × AreOnLine config rest

pub find_sprites-AreOnLine :
    (oam : ℕ → ℕ)
    → ((i : ℕ) → oam i < 256)
    → (config : SpriteConfig) (room n : ℕ) → AreOnLine config (find_sprites oam config room n)
unfolding find_sprites is_within_scanline
find_sprites-AreOnLine oam bytes config room zero = tt
find_sprites-AreOnLine oam bytes config zero (suc n) = tt
find_sprites-AreOnLine oam bytes config (suc room) (suc n) = ground (
  arith,
  bytes (4 * n + 2),
  find_sprites-AreOnLine oam bytes config room n,
  find_sprites-AreOnLine oam bytes config (suc room) n,
)

module _ (vram : ℕ → ℕ) (config : SpriteConfig)
    (tall : (config.height ≡ 8) ⊎ (config.height ≡ 16)) where
  sprite_pixel-Returns :
      (s : Sprite) → IsOnLine config s → Returns (λ c. Unit) (sprite_pixel vram config s)
  unfolding sprite_pixel
  sprite_pixel-Returns s on = ground (arith, on, and_mask 1 (s.attr / 8), and-le s.attr 8)

  pub draw_sprites-Returns :
      (tile_color : ℕ) (sprites : List Sprite) (color : ℕ)
      → AreOnLine config sprites
      → Returns (λ c. Unit) (draw_sprites vram config tile_color sprites color)
  unfolding draw_sprites
  draw_sprites-Returns tile_color [] color on = tt
  draw_sprites-Returns tile_color (s ∷ rest) color on =
      Returns-bind (λ c. Unit) (λ c. Unit) (sprite_pixel vram config s)
        (λ idx. draw_sprites vram config tile_color rest (
          if idx != 0 && (not (behind s) || tile_color == 0)
          then colorize_sprite config s idx
          else color))
        (sprite_pixel-Returns s on.0)
        (λ idx h.
          draw_sprites-Returns tile_color rest
            (if idx != 0 && (not (behind s) || tile_color == 0)
              then colorize_sprite config s idx
              else color)
            on.1)
