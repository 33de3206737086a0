-- ===== src/Gpu.antt =====
-- The scanline engine of libgbc/gpu.cpp: modes, lines, interrupts and the palette. `m_reg_lcdc`,
-- `m_reg_stat` and `m_reg_ly` are references into the I/O registers. The palette
-- callback, which can not reach the machine's state, is left out.
pub mod Schedule
pub mod Lines
pub mod Frames
use gamebro.Base.{ℕ, ◌+◌, ◌-◌, ◌*◌, ◌/◌, ◌%◌, ◌^◌, bit_and, bit_or, Bool, true, false, ◌&&◌}
use gamebro.Base.{
  ltb, leb, ◌==◌, ◌!=◌, if◌then◌else◌, assertion, out_of_bounds, Outcome, ok, fault, ◌>>=◌,
}
use gamebro.State.{Gpu, Io, reg, set_reg, update}
use gamebro.State.Monad.{M, Unit₀, at, modify_gpu, stop_with}
use gamebro.State.Ports.{reg_lcdc, reg_stat, reg_ly, reg_lyc, reg_wx, reg_wy}
use gamebro.State.Ports.{lcd_stat, vblank, trigger}

abbrev pub screen_w : ℕ
screen_w = 160

abbrev pub screen_h : ℕ
screen_h = 144

abbrev pub white_idx : ℕ
white_idx = 32

abbrev pub max_lines : ℕ
max_lines = 154

unfoldable pub oam_cycles : ℕ → ℕ
oam_cycles speed_factor = 83 * speed_factor

unfoldable pub vram_cycles : ℕ → ℕ
vram_cycles speed_factor = 175 * speed_factor

unfoldable pub hblank_cycles : ℕ → ℕ
hblank_cycles speed_factor = 207 * speed_factor

unfoldable pub scanline_cycles : ℕ → ℕ
scanline_cycles speed_factor =
    oam_cycles speed_factor + vram_cycles speed_factor + hblank_cycles speed_factor

unfoldable pub get_mode : Io → ℕ
get_mode io = bit_and (reg reg_stat io) 0x3

unfoldable pub set_mode : ℕ → Io → Io
set_mode mode io = set_reg reg_stat (bit_or (bit_and (reg reg_stat io) 0xfc) (bit_and mode 0x3)) io

abbrev pub is_vblank : Io → Bool
is_vblank io = get_mode io == 1

abbrev pub is_hblank : Io → Bool
is_hblank io = get_mode io == 0

unfoldable pub lcd_enabled : Io → Bool
lcd_enabled io = bit_and (reg reg_lcdc io) 0x80 != 0

unfoldable pub window_enabled : Io → Bool
window_enabled io = bit_and (reg reg_lcdc io) 0x20 != 0

abbrev pub window_x : Io → ℕ
window_x io = reg reg_wx io

abbrev pub window_y : Io → ℕ
window_y io = reg reg_wy io

unfoldable pub window_visible : Io → Bool
window_visible io = window_enabled io && ltb (window_x io) 166 && ltb (window_y io) 143

unfoldable pub bg_tiles : Io → ℕ
bg_tiles io = if bit_and (reg reg_lcdc io) 0x08 != 0 then 0x9c00 else 0x9800

unfoldable pub window_tiles : Io → ℕ
window_tiles io = if bit_and (reg reg_lcdc io) 0x40 != 0 then 0x9c00 else 0x9800

unfoldable pub tile_data : Io → ℕ
tile_data io = if bit_and (reg reg_lcdc io) 0x10 != 0 then 0x8000 else 0x8800

-- `setflag(equal, m_reg_stat, 0x4)`, then the interrupt.
unfoldable pub do_ly_comparison : Io → Io
do_ly_comparison io =
    let equal = reg reg_ly io == reg reg_lyc io in
    let stat = reg reg_stat io in
    let io1 = set_reg reg_stat (if equal then bit_or stat 0x4 else bit_and stat (255 - 0x4)) io in
    if equal && bit_and (reg reg_stat io1) 0x40 != 0 then trigger lcd_stat io1 else io1

-- Line 144: the white frame ends, and the V-blank and STAT interrupts are raised.
unfoldable pub enter_vblank : Gpu → Io → Gpu × Io
enter_vblank gpu io =
    let gpu1 =
      if gpu.white_frame
      then record gpu {
        white_frame = false;
        pixels = if gpu.render then (λ i. white_idx) else gpu.pixels;
      }
      else gpu in
    let io1 = set_mode 1 (trigger vblank (set_mode 1 io)) in
    (gpu1, if bit_and (reg reg_stat io1) 0x10 != 0 then trigger lcd_stat io1 else io1)

-- Line 1 in V-blank is turned into line 0 of a new frame.
unfoldable pub restart_frame : Gpu → Io → Gpu × Io
restart_frame gpu io = (
  record gpu { current_scanline = 0; frame_count = (gpu.frame_count + 1) % 2 ^ 64 },
  set_mode 0 (set_reg reg_ly 0 io),
)

-- What `simulate` does when a scanline is over.
unfoldable pub advance_scanline : Gpu → Io → Gpu × Io
advance_scanline gpu io =
    let line = (gpu.current_scanline + 1) % max_lines in
    let gpu1 = record gpu { period = 0; current_scanline = line } in
    let io1 = set_reg reg_ly line io in
    let (gpu2, io2) =
      if line == 144
      then enter_vblank gpu1 io1
      else if line == 1 && get_mode io1 == 1
      then restart_frame gpu1 io1
      else (gpu1, io1) in
    (gpu2, do_ly_comparison io2)

-- The counter and the line part of `simulate`: the new state, the period before the reset, and
-- whether a scanline ended.
unfoldable pub count_period : ℕ → Gpu → Io → Gpu × Io × ℕ × Bool
count_period speed_factor gpu io =
    let period = (gpu.period + 4) % 2 ^ 64 in
    let gpu1 = record gpu { period = period } in
    let new_scanline = leb (scanline_cycles speed_factor) period in
    let (gpu2, io2) = if new_scanline then advance_scanline gpu1 io else (gpu1, io) in
    (gpu2, io2, period, new_scanline)

-- The mode part of `simulate`, but for the rendering: the registers, and whether to render.
unfoldable pub next_mode : ℕ → ℕ → Bool → Io → Io × Bool
next_mode speed_factor period new_scanline io =
    if is_vblank io
    then (io, false)
    else if get_mode io == 0 && new_scanline
    then (let io1 = set_mode 2 io in
        (if bit_and (reg reg_stat io1) 0x20 != 0 then trigger lcd_stat io1 else io1, false))
    else if get_mode io == 2 && leb (oam_cycles speed_factor) period
    then (set_mode 3 io, true)
    else if get_mode io == 3 && leb (oam_cycles speed_factor + vram_cycles speed_factor) period
    then (let io1 = if bit_and (reg reg_stat io) 0x8 != 0 then trigger lcd_stat io else io in
        (set_mode 0 io1, false))
    else (io, false)

-- `assert(bank < 2)` stands before the write.
unfoldable pub set_video_bank : ℕ → M Unit₀
set_video_bank bank =
    if ltb bank 2
    then modify_gpu (λ g. record g { video_offset = bank * 0x2000 })
    else stop_with assertion

unfoldable pub lcd_power_changed : Bool → ℕ → Gpu → Io → Gpu × Io
lcd_power_changed online speed_factor gpu io =
    if online
    then (
      record gpu { period = scanline_cycles speed_factor; current_scanline = 153 },
      set_reg reg_ly 153 io,
    )
    else (
      record gpu { period = 0; current_scanline = 0; white_frame = true },
      set_mode 1 (set_reg reg_ly 0 io),
    )

-- `getpal` hands out a reference into the array of 128 bytes and checks no index: reading and
-- assigning through it are undefined from 128 on.
unfoldable pub getpal : ℕ → M ℕ
getpal index m = if ltb index 128 then ok (m.gpu.cgb_palette index, m) else fault out_of_bounds

-- The early return and the callback that follow the write do not change the machine.
unfoldable pub setpal : ℕ → ℕ → M Unit₀
setpal index value m =
    if ltb index 128
    then (let g = m.gpu in
        ok (tt, record m { gpu = record g { cgb_palette = update g.cgb_palette index value } }))
    else fault out_of_bounds

-- The bytes are read with `.at`, which throws for an index from 64 on.
unfoldable pub expand_cgb_color : ℕ → Gpu → Outcome ℕ
expand_cgb_color index gpu = do
  lo ← at 128 gpu.cgb_palette (index * 2)
  hi ← at 128 gpu.cgb_palette (index * 2 + 1)
  let color15 = bit_or lo (hi * 2 ^ 8)
  let r = bit_and color15 0x1f * 2 ^ 3
  let g = bit_and (color15 / 2 ^ 5) 0x1f * 2 ^ 3
  let b = bit_and (color15 / 2 ^ 10) 0x1f * 2 ^ 3
  ok (bit_or (bit_or r (g * 2 ^ 8)) (b * 2 ^ 16))

-- The pixel buffer keeps its size.
unfoldable pub reset : Gpu → Gpu
reset gpu = record gpu { video_offset = 0 }
