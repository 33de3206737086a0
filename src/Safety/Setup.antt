-- ===== src/Safety/Setup.antt =====
-- What a line is drawn with: the setup of `GPU::render_scanline` in libgbc/gpu.cpp.
use gamebro.Base.{ℕ, ◌<◌, ◌≤◌, ◌≡◌, ◌⊎◌, refl, arith, Bool, true, Outcome, ok, fault, Returns}
use gamebro.State.{Machine}
use gamebro.State.Monad.{M, ◌>>=◌, then-Returns}
use gamebro.State.Ports.{reg_scy, reg_scx, reg_bgp, reg_obp0, reg_obp1}
use gamebro.Gpu.{window_y, bg_tiles, window_tiles, tile_data}
use gamebro.Memory.{read8}
use gamebro.Memory.Invariant.{IsValid, with_break, Reads, read8-Reads, with_break-IsValid, Looks}
use gamebro.Video.{TileConf, SpriteConfig}
use gamebro.Video.Bounds.{InVram, create_tiledata-InVram}
use gamebro.Video.Render.{LineSetup, create_tiledata, tile_config, sprite_config, line_setup}
use gamebro.Safety.Sprites.{AreOnLine, find_sprites-AreOnLine}

-- The setup of a line that can be drawn.
pub record IsDrawable (m : Machine) (setup : LineSetup) : Type 0 where
  pub line : setup.sprconf.scan_y < 144
  pub row : setup.sy < 256
  pub background : InVram setup.td
  pub window_map : InVram setup.wtd
  pub window_above : setup.window ≡ true → window_y m.io ≤ setup.sprconf.scan_y
  pub on_line : AreOnLine setup.sprconf setup.sprites
  pub tall : (setup.sprconf.height ≡ 8) ⊎ (setup.sprconf.height ≡ 16)

-- A read of a valid machine, and what follows it.
pub read8-then :
    {B : Type 0} (Q : B × Machine → Type 0) (m : Machine) (addr : ℕ) (f : ℕ → M B)
    → IsValid m
    → addr < 65536
    → ((x : ℕ) (b : Bool) → x < 256 → Returns Q (f x (with_break b m)))
    → Returns Q ((read8 addr >>= f) m)
read8-then Q m addr f v h next = go (read8 addr m) (read8-Reads m v addr h)
  where
    go :
        (o : Outcome (ℕ × Machine))
        → Returns (Reads m) o
        → Returns Q (elim o [ ok (a, m') ↦ f a m' | fault e ↦ fault e ])
    go (ok (x, m')) r = rw (r.1) (next x m'.cpu.m_break r.0)
    go (fault e) r = r

abbrev HasLine : ℕ → SpriteConfig → Type 0
HasLine scan_y conf = (conf.scan_y ≡ scan_y) × ((conf.height ≡ 8) ⊎ (conf.height ≡ 16))

sprite_config-HasLine :
    (m : Machine) (scan_y : ℕ)
    → IsValid m
    → Returns (λ out. HasLine scan_y out.0 × Looks m out) (sprite_config scan_y m)
unfolding sprite_config
sprite_config-HasLine m scan_y v =
    let Q : SpriteConfig × Machine → Type 0 = λ out. HasLine scan_y out.0 × Looks m out in
    read8-then Q m reg_obp0 _ v (omega arith) (λ p0 b0 h0.
      read8-then Q (with_break b0 m) reg_obp1 _ (with_break-IsValid b0 m v) (omega arith)
        (λ p1 b1 h1. ground arith))

pub tile_config-Looks : (m : Machine) → IsValid m → Returns (Looks m) (tile_config m)
unfolding tile_config
tile_config-Looks m v =
    read8-then {B = TileConf} (Looks m) m reg_bgp _ v (omega arith) (λ pal b h. refl)

module _ (m : Machine) where
  background-InVram : InVram (create_tiledata (bg_tiles m.io) (tile_data m.io) m)
  unfolding bg_tiles tile_data
  background-InVram =
      create_tiledata-InVram m (bg_tiles m.io) (tile_data m.io) (ground arith) (ground arith)

  window-InVram : InVram (create_tiledata (window_tiles m.io) (tile_data m.io) m)
  unfolding window_tiles tile_data
  window-InVram =
      create_tiledata-InVram m (window_tiles m.io) (tile_data m.io) (ground arith) (ground arith)

pub line_setup-IsDrawable :
    (m : Machine) (scan_y : ℕ)
    → IsValid m
    → scan_y < 144
    → Returns (λ out. IsDrawable m out.0 × Looks m out) (line_setup scan_y m)
unfolding line_setup
line_setup-IsDrawable m scan_y v h =
    let Q : LineSetup × Machine → Type 0 = λ out. IsDrawable m out.0 × Looks m out in
    read8-then Q m reg_scy _ v (omega arith) (λ sy b1 h1.
      read8-then Q (with_break b1 m) reg_scx _ (with_break-IsValid b1 m v) (omega arith)
        (λ sx b2 h2.
          let m2 : Machine = with_break b2 m in
          let v2 : IsValid m2 = with_break-IsValid b2 m v in
          then-Returns (λ out. HasLine scan_y out.0 × Looks m2 out) Q (sprite_config scan_y) _ m2
            (sprite_config-HasLine m2 scan_y v2)
            (λ conf m3 p. rw (p.1) (
              let b3 : Bool = m3.cpu.m_break in
              then-Returns (Looks (with_break b3 m)) Q tile_config _ (with_break b3 m)
                (tile_config-Looks (with_break b3 m) (with_break-IsValid b3 m v))
                (λ tconf m4 q. rw (q) (
                  record {
                    line = omega arith;
                    row = omega arith;
                    background = background-InVram (with_break m4.cpu.m_break m);
                    window_map = window-InVram (with_break m4.cpu.m_break m);
                    window_above = λ e. ground (arith, e);
                    on_line = find_sprites-AreOnLine m.memory.oam_ram v.oam_bytes conf 10 40;
                    tall = p.0.1;
                  },
                  refl,
                ))))))
