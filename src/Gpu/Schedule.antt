-- ===== src/Gpu/Schedule.antt =====
-- The timing of one line on the screen, from libgbc/gpu.cpp.
use gamebro.Base.{
  ℕ, zero, suc, ◌+◌, ◌*◌, ◌/◌, ◌%◌, ◌<◌, ◌≡◌, ◌⊎◌, refl, arith, bit_and, false, ltb, if◌then◌else◌,
  and_mask, and_high, or_fields,
}
use gamebro.State.{Gpu, Io, reg, set_reg}
use gamebro.State.Ports.{trigger, lcd_stat}
use gamebro.Gpu.{
  get_mode, set_mode, oam_cycles, vram_cycles, hblank_cycles, scanline_cycles, count_period,
  next_mode,
}

-- The registers' part of one call of `GPU::simulate` with the screen on.
unfoldable pub tick : ℕ → Gpu × Io → Gpu × Io
tick speed (gpu, io) =
    let (gpu', io', period, new_scanline) = count_period speed gpu io in
    (gpu', (next_mode speed period new_scanline io').0)

unfoldable pub ticks : ℕ → ℕ → Gpu × Io → Gpu × Io
ticks speed zero s = s
ticks speed (suc n) s = tick speed (ticks speed n s)

pub get_mode-set_mode : (mode : ℕ) (io : Io) → get_mode (set_mode mode io) ≡ mode % 4
unfolding get_mode set_mode reg set_reg
get_mode-set_mode mode io =
    let stat : ℕ = io.ioregs 0x41 in
    ground (
      arith,
      and_mask 2 mode,
      and_high 2 stat 0x3f,
      or_fields 2 (bit_and (stat / 4) 0x3f) (mode % 4),
      and_mask 2 (bit_and (stat / 4) 0x3f * 4 + mode % 4),
    )

get_mode-trigger : (io : Io) → get_mode (trigger lcd_stat io) ≡ get_mode io
unfolding get_mode trigger reg set_reg
get_mode-trigger io = refl

-- The mode of a line `4 * n` clocks after its start.
abbrev pub scheduled : ℕ → ℕ → ℕ
scheduled speed clocks =
    if ltb clocks (83 * speed) then 2 else if ltb clocks (258 * speed) then 3 else 0

next_mode-scheduled :
    (speed n : ℕ) (io : Io)
    → 0 < speed
    → get_mode io ≡ scheduled speed (4 * n)
    → get_mode (next_mode speed (4 * n + 4) false io).0 ≡ scheduled speed (4 * n + 4)
unfolding next_mode oam_cycles vram_cycles
next_mode-scheduled speed n io hs e = ground (
  arith,
  get_mode-set_mode 3 io,
  get_mode-set_mode 0 io,
  get_mode-set_mode 0 (trigger lcd_stat io),
)

-- At speed factor 1 or 2, from the start of a line in mode 2 and until the line is over, the mode is 2 for the first 83
-- clocks, 3 for the next 175 and 0 after them, each times the speed factor, as seen after whole
-- ticks; the line number does not change.
pub ticks-scheduled :
    (speed n : ℕ) (gpu : Gpu) (io : Io)
    → (speed ≡ 1) ⊎ (speed ≡ 2)
    → gpu.period ≡ 0
    → get_mode io ≡ 2
    → 4 * n < 465 * speed
    → let (gpu', io') = ticks speed n (gpu, io) in
      (get_mode io' ≡ scheduled speed (4 * n))
      × (gpu'.period ≡ 4 * n)
      × (gpu'.current_scanline ≡ gpu.current_scanline)
unfolding ticks tick count_period scanline_cycles oam_cycles vram_cycles hblank_cycles
ticks-scheduled speed zero gpu io hs p e h = ground arith
ticks-scheduled speed (suc n) gpu io hs p e h =
    let before : Gpu × Io = ticks speed n (gpu, io) in
    ground (
      arith,
      ticks-scheduled speed n gpu io hs p e (omega arith),
      next_mode-scheduled speed n before.1,
    )
