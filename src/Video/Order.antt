-- ===== src/Video/Order.antt =====
-- `GPU::find_sprites` of libgbc/gpu.cpp against a definition that collects first and cuts off then.
use gamebro.Base.{
  ℕ, zero, suc, ◌≡◌, refl, ap, sym, List, [], ◌∷◌, Bool, not, ◌&&◌, Bool-cases, inl, inr, take,
  filter,
}
use gamebro.Video.{Sprite, SpriteConfig, sprite_at, hidden, is_within_scanline, find_sprites}

-- The sprites of the table from number n - 1 down to 0.
abbrev pub sprites_down : (ℕ → ℕ) → ℕ → List Sprite
sprites_down oam zero = []
sprites_down oam (suc n) = sprite_at oam n ∷ sprites_down oam n

abbrev pub is_drawn : SpriteConfig → Sprite → Bool
is_drawn config s = not (hidden s) && is_within_scanline config s

take-nil : (n : ℕ) → take {A = Sprite} n [] ≡ []
take-nil zero = refl
take-nil (suc n) = refl

-- Searching the sprite table backwards and stopping when there is no room finds the drawn sprites
-- of highest number, in descending order: as many as there is room for, and no other one.
pub find_sprites-filter :
    (oam : ℕ → ℕ) (config : SpriteConfig) (room n : ℕ)
    → find_sprites oam config room n ≡ take room (filter (is_drawn config) (sprites_down oam n))
unfolding find_sprites
find_sprites-filter oam config room zero = sym (take-nil room)
find_sprites-filter oam config zero (suc n) = refl
find_sprites-filter oam config (suc room) (suc n) =
    elim (Bool-cases (is_drawn config (sprite_at oam n))) [
      | inl e ↦ rw e (ap (◌∷◌ (sprite_at oam n)) (find_sprites-filter oam config room n))
      | inr e ↦ rw e (find_sprites-filter oam config (suc room) n)
    ]
