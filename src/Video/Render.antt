-- ===== src/Video/Render.antt =====
-- `GPU::render_scanline` and `GPU::simulate` of libgbc/gpu.cpp over the whole machine.
use gamebro.Base.{ℕ, zero, suc, ◌+◌, ◌-◌, ◌*◌, ◌/◌, ◌%◌, bit_and, Bool, not, ◌&&◌, ◌||◌}
use gamebro.Base.{ltb, leb, ◌==◌, ◌!=◌, if◌then◌else◌, Outcome, ok, fault, throws, List, none, some}
use gamebro.State.{Machine, reg, update}
use gamebro.State.Monad.{M, Unit₀, pure, ◌>>◌, ◌>>=◌, when, gets, modify_gpu, stop_with}
use gamebro.State.Ports.{reg_lcdc, reg_scy, reg_scx, reg_bgp, reg_obp0, reg_obp1}
use gamebro.Gpu.{
  screen_w, window_x, window_y, window_visible, bg_tiles, window_tiles, tile_data, lcd_enabled,
  count_period, next_mode,
}
use gamebro.Memory.{read8}
use gamebro.Video.{
  TileConf, TileData, Sprite, SpriteConfig, tile_id, tile_attr, pattern_at, colorize_tile,
  find_sprites, draw_sprites,
}

-- A computation that does not change the machine.
abbrev pub lift : {A : Type 0} → Outcome A → M A
lift r m = elim r [ ok a ↦ ok (a, m) | fault e ↦ fault e ]

unfoldable pub create_tiledata : ℕ → ℕ → Machine → TileData
create_tiledata tiles patterns m = record {
  tile_base = tiles - 0x8000;
  patt_base = patterns - 0x8000;
  attr_base = if m.cgb_mode then some (tiles - 0x8000 + 0x2000) else none;
  signed = bit_and (reg reg_lcdc m.io) 0x10 == 0;
}

unfoldable pub tile_config : M TileConf
tile_config = do
  dmg_pal ← read8 reg_bgp
  gets (λ m. record { is_cgb = m.cgb_mode; dmg_pal = dmg_pal })

unfoldable pub sprite_config : ℕ → M SpriteConfig
sprite_config scan_y = do
  p0 ← read8 reg_obp0
  p1 ← read8 reg_obp1
  gets λ m. record {
    palette0 = p0;
    palette1 = p1;
    scan_x = 0;
    scan_y = scan_y;
    height = if bit_and (reg reg_lcdc m.io) 0x4 != 0 then 16 else 8;
    is_cgb = m.cgb_mode;
  }

-- What stays the same along a line.
pub record LineSetup : Type 0 where
  pub scroll_x : ℕ
  pub sy : ℕ
  pub td : TileData
  pub window : Bool
  pub wtd : TileData
  pub sprconf : SpriteConfig
  pub sprites : List Sprite
  pub tileconf : TileConf

unfoldable pub line_setup : ℕ → M LineSetup
line_setup scan_y = do
  scroll_y ← read8 reg_scy
  scroll_x ← read8 reg_scx
  sprconf ← sprite_config scan_y
  tileconf ← tile_config
  gets λ m. record {
    scroll_x = scroll_x;
    sy = (scan_y + scroll_y) % 256;
    td = create_tiledata (bg_tiles m.io) (tile_data m.io) m;
    window = window_visible m.io && leb (window_y m.io) scan_y;
    wtd = create_tiledata (window_tiles m.io) (tile_data m.io) m;
    sprconf = sprconf;
    sprites = find_sprites m.memory.oam_ram sprconf 10 40;
    tileconf = tileconf;
  }

-- The tile colour and the attribute under a pixel of a tile map, and the colour shown for it.
unfoldable pub map_pixel : (ℕ → ℕ) → TileConf → TileData → ℕ → ℕ → Outcome (ℕ × ℕ × ℕ)
map_pixel vram conf td x y = elim (tile_id vram td (x / 8) (y / 8)) [
  | ok tid ↦ elim (tile_attr vram td (x / 8) (y / 8)) [
    | ok attr ↦ elim (pattern_at vram td tid attr (bit_and x 7) (bit_and y 7)) [
      | ok idx ↦ ok (idx, attr, colorize_tile conf attr idx)
      | fault e ↦ fault e
    ]
    | fault e ↦ fault e
  ]
  | fault e ↦ fault e
]

-- The window's colour where it covers the pixel, else the background's.
-- `scan_x >= window_x() - 7` is a comparison of `int`s.
unfoldable pub window_pixel : LineSetup → ℕ → ℕ → Machine → Outcome ℕ
window_pixel setup scan_x color m =
    if setup.window && leb (window_x m.io) (scan_x + 7)
    then (elim (map_pixel m.memory.video_ram setup.tileconf setup.wtd (scan_x + 7 - window_x m.io)
        (setup.sprconf.scan_y - window_y m.io)) [ ok (idx, attr, c) ↦ ok c | fault e ↦ fault e ])
    else ok color

-- One round of the loop over `scan_x`.
unfoldable pub pixel : LineSetup → ℕ → Machine → Outcome ℕ
pixel setup scan_x m =
    let vram = m.memory.video_ram in
    elim (map_pixel vram setup.tileconf setup.td ((scan_x + setup.scroll_x) % 256) setup.sy) [
      | ok (tile_color, tattr, color) ↦
          if bit_and tattr 0x80 == 0 || not m.cgb_mode
          then (elim (window_pixel setup scan_x color m) [
            | ok c ↦
                draw_sprites vram (let conf = setup.sprconf in record conf { scan_x = scan_x })
                  tile_color setup.sprites c
            | fault e ↦ fault e
          ])
          else ok color
      | fault e ↦ fault e
    ]

unfoldable pub put_pixel : ℕ → ℕ → M Unit₀
put_pixel i color =
    if ltb i 23040
    then modify_gpu (λ g. record g { pixels = update g.pixels i color })
    else stop_with throws

-- The loop at `scan_x`, with `left` pixels to go.
unfoldable pub render_pixels : LineSetup → ℕ → ℕ → M Unit₀
render_pixels setup zero scan_x m = pure tt m
render_pixels setup (suc left) scan_x m =
    (lift (pixel setup scan_x m) >>= λ color.
    put_pixel (setup.sprconf.scan_y * screen_w + scan_x) color
    >> render_pixels setup left (scan_x + 1))
      m

unfoldable pub render_scanline : ℕ → M Unit₀
unfolding render_pixels
render_scanline scan_y = line_setup scan_y >>= λ setup. render_pixels setup screen_w 0

unfoldable pub simulate : M Unit₀
simulate m =
    if not (lcd_enabled m.io)
    then pure tt m
    else (let speed = m.memory.speed_factor in
        let (gpu, io, period, new_scanline) = count_period speed m.gpu m.io in
        let (io', drawing) = next_mode speed period new_scanline io in
        when (drawing && (not gpu.white_frame && gpu.render)) (render_scanline gpu.current_scanline)
          (record m { gpu = gpu; io = io' }))
