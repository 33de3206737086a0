-- ===== src/Safety/Screen.antt =====
-- A scanline is drawn inside the bounds of video RAM and of the pixel buffer:
-- `GPU::render_scanline` of libgbc/gpu.cpp.
use gamebro.Base.{
  ℕ, zero, suc, ◌+◌, ◌-◌, ◌*◌, ◌%◌, ◌<◌, ◌≤◌, ◌≡◌, inl, inr, refl, arith, bit_and, Bool, true,
  false, not, leb, ◌==◌, ◌&&◌, ◌||◌, if◌then◌else◌, Outcome, ok, fault, Returns, Bool-cases, List,
  [], ◌∷◌, Returns-elim,
}
use gamebro.State.{Machine}
use gamebro.State.Monad.{then-Returns}
use gamebro.Gpu.{screen_w, window_x, window_y}
use gamebro.Memory.Invariant.{IsValid}
use gamebro.Video.{SpriteConfig, Sprite, draw_sprites}
use gamebro.Video.Bounds.{map_pixel-Returns}
use gamebro.Video.Render.{
  LineSetup, line_setup, map_pixel, window_pixel, pixel, put_pixel, render_pixels, render_scanline,
  lift,
}
use gamebro.Safety.Sprites.{AreOnLine, draw_sprites-Returns}
use gamebro.Memory.Invariant.{Looks}
use gamebro.Safety.Setup.{IsDrawable, line_setup-IsDrawable}

-- What drawing may change: the pixels, and the debugger's flag.
abbrev pub with_pixels : Bool → (ℕ → ℕ) → Machine → Machine
with_pixels b pixels m = record m {
  cpu = record m.cpu { m_break = b };
  gpu = record m.gpu { pixels = pixels };
}

abbrev pub Draws {ℓ} : {A : Type ℓ} → Machine → A × Machine → Type 0
Draws m out = out.1 ≡ with_pixels out.1.cpu.m_break out.1.gpu.pixels m

module _ (m : Machine) (v : IsValid m) (setup : LineSetup) (d : IsDrawable m setup) where
  window_pixel-Returns :
      (scan_x color : ℕ) → scan_x < 160 → Returns (λ c. Unit) (window_pixel setup scan_x color m)
  unfolding window_pixel
  window_pixel-Returns scan_x color h =
      elim (Bool-cases (setup.window && leb (window_x m.io) (scan_x + 7))) [
        | inr e ↦ rw e tt
        | inl e ↦ rw e (
            let above : window_y m.io ≤ setup.sprconf.scan_y = d.window_above (ground (arith, e)) in
            Returns-elim {A = ℕ × ℕ × ℕ} (λ c. Unit) (λ c. Unit)
              (map_pixel m.memory.video_ram setup.tileconf setup.wtd (scan_x + 7 - window_x m.io)
                (setup.sprconf.scan_y - window_y m.io))
              (λ t. ok t.2)
              (map_pixel-Returns m.memory.video_ram v.video_bytes setup.wtd d.window_map
                setup.tileconf (scan_x + 7 - window_x m.io) (setup.sprconf.scan_y - window_y m.io)
                (omega arith) (omega (arith, d.line)))
              (λ t u. tt))
      ]

  pixel-Returns : (scan_x : ℕ) → scan_x < 160 → Returns (λ c. Unit) (pixel setup scan_x m)
  unfolding pixel
  pixel-Returns scan_x h =
      let vram : ℕ → ℕ = m.memory.video_ram in
      let conf : SpriteConfig = (let c = setup.sprconf in record c { scan_x = scan_x }) in
      Returns-elim {A = ℕ × ℕ × ℕ} (λ c. Unit) (λ c. Unit)
        (map_pixel vram setup.tileconf setup.td ((scan_x + setup.scroll_x) % 256) setup.sy)
        (λ t.
          if bit_and t.1 0x80 == 0 || not m.cgb_mode
          then (elim (window_pixel setup scan_x t.2 m) [
            | ok c ↦ draw_sprites vram conf t.0 setup.sprites c
            | fault e ↦ fault e
          ])
          else ok t.2)
        (map_pixel-Returns vram v.video_bytes setup.td d.background setup.tileconf
          ((scan_x + setup.scroll_x) % 256) setup.sy (omega arith) d.row)
        (λ t u.
          elim (bit_and t.1 0x80 == 0 || not m.cgb_mode)
            as (λ b.
              Returns (λ c. Unit)
                (if b
                  then (elim (window_pixel setup scan_x t.2 m) [
                    | ok c ↦ draw_sprites vram conf t.0 setup.sprites c
                    | fault e ↦ fault e
                  ])
                  else ok t.2)) [
                    | false ↦ tt
                    | true ↦
                        Returns-elim {A = ℕ} (λ c. Unit) (λ c. Unit)
                          (window_pixel setup scan_x t.2 m)
                          (λ c. draw_sprites vram conf t.0 setup.sprites c)
                          (window_pixel-Returns scan_x t.2 h)
                          (λ c w.
                            draw_sprites-Returns vram conf d.tall t.0 setup.sprites c
                              (moved setup.sprites d.on_line))
                  ])
    where
      moved :
          (sprites : List Sprite)
          → AreOnLine setup.sprconf sprites
          → AreOnLine (let c = setup.sprconf in record c { scan_x = scan_x }) sprites
      moved [] on = tt
      moved (s ∷ rest) on = (
        record { pattern_byte = on.0.pattern_byte; starts = on.0.starts; ends = on.0.ends },
        moved rest on.1,
      )

pub drawn-IsValid :
    (m : Machine) (b : Bool) (pixels : ℕ → ℕ) → IsValid m → IsValid (with_pixels b pixels m)
drawn-IsValid m b pixels v = ground (arith, v)

module _ (m : Machine) (v : IsValid m) (setup : LineSetup) (d : IsDrawable m setup) where
  drawn-IsDrawable : (b : Bool) (pixels : ℕ → ℕ) → IsDrawable (with_pixels b pixels m) setup
  drawn-IsDrawable b pixels = record {
    line = d.line;
    row = d.row;
    background = d.background;
    window_map = d.window_map;
    window_above = d.window_above;
    on_line = d.on_line;
    tall = d.tall;
  }

  put_pixel-Draws :
      (scan_x color : ℕ)
      → scan_x < 160
      → Returns
          (λ out. out.1 ≡ with_pixels m.cpu.m_break out.1.gpu.pixels m)
          (put_pixel (setup.sprconf.scan_y * screen_w + scan_x) color m)
  unfolding put_pixel
  put_pixel-Draws scan_x color h = ground (arith, d.line)

-- Drawing changes neither the setup's conditions nor what the loop reads.
render_pixels-Draws :
    (m : Machine)
    → IsValid m
    → (setup : LineSetup) → IsDrawable m setup
    → (left scan_x : ℕ) → left + scan_x ≤ 160
    → Returns (Draws m) (render_pixels setup left scan_x m)
unfolding render_pixels
render_pixels-Draws m v setup d zero scan_x h = refl
render_pixels-Draws m v setup d (suc left) scan_x h =
    then-Returns (λ out. out.1 ≡ m) (Draws m) (lift (pixel setup scan_x m)) _ m
      (lifted (pixel setup scan_x m) (pixel-Returns m v setup d scan_x (omega arith)))
      (λ color m' e. rw e (
        then-Returns (λ out. out.1 ≡ with_pixels m.cpu.m_break out.1.gpu.pixels m) (Draws m)
          (put_pixel (setup.sprconf.scan_y * screen_w + scan_x) color)
          (λ u. render_pixels setup left (scan_x + 1)) m
          (put_pixel-Draws m v setup d scan_x color (omega arith))
          (λ u m1 e1. rw e1 (
            let px : ℕ → ℕ = m1.gpu.pixels in
            render_pixels-Draws (with_pixels m.cpu.m_break px m)
              (drawn-IsValid m m.cpu.m_break px v) setup
              (drawn-IsDrawable m v setup d m.cpu.m_break px) left (scan_x + 1) (omega arith)))))
  where
    lifted : (o : Outcome ℕ) → Returns (λ c. Unit) o → Returns (λ out. out.1 ≡ m) (lift o m)
    lifted (ok c) h = refl
    lifted (fault e) h = h

-- In a valid machine, drawing a line of the screen throws nothing, reads video RAM and writes the
-- pixel buffer inside their bounds, and changes only the pixels and the debugger's flag.
pub render_scanline-Draws :
    (m : Machine) (scan_y : ℕ)
    → IsValid m
    → scan_y < 144
    → Returns (Draws m) (render_scanline scan_y m)
unfolding render_scanline
render_scanline-Draws m scan_y v h =
    then-Returns (λ out. IsDrawable m out.0 × Looks m out) (Draws m) (line_setup scan_y)
      (λ setup. render_pixels setup screen_w 0) m (line_setup-IsDrawable m scan_y v h)
      (λ setup m' p. rw (p.1) (
        let b : Bool = m'.cpu.m_break in
        render_pixels-Draws (with_pixels b m.gpu.pixels m) (drawn-IsValid m b m.gpu.pixels v) setup
          (drawn-IsDrawable m v setup p.0 b m.gpu.pixels) 160 0 (omega arith)))
