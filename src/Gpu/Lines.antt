-- ===== src/Gpu/Lines.antt =====
-- One line of the screen, to its end: the counters of `GPU::simulate` in libgbc/gpu.cpp.
use gamebro.Base.{
  ℕ, zero, suc, ◌+◌, ◌-◌, ◌*◌, ◌/◌, ◌%◌, ◌^◌, ◌<◌, ◌≤◌, ◌≡◌, ◌≢◌, ◌⊎◌, inl, inr, refl, arith,
  bit_and, bit_or, Bool, true, false, leb, and_mask, or_split, and_split, or_zero,
}
use gamebro.State.{Gpu, Io, reg, set_reg}
use gamebro.State.Ports.{trigger, lcd_stat, reg_ly}
use gamebro.Gpu.{
  get_mode, set_mode, scanline_cycles, oam_cycles, vram_cycles, hblank_cycles, do_ly_comparison,
  enter_vblank, restart_frame, advance_scanline, count_period, next_mode,
}
use gamebro.Gpu.Schedule.{tick, ticks, get_mode-set_mode}

get_mode-stat : (io : Io) → get_mode (trigger lcd_stat io) ≡ get_mode io
unfolding get_mode trigger reg set_reg
get_mode-stat io = refl

-- Bit 2 of STAT is not part of the mode.
coincidence :
    (a : ℕ) → (bit_and (bit_or a 4) 3 ≡ bit_and a 3) × (bit_and (bit_and a 251) 3 ≡ bit_and a 3)
coincidence a =
    let q : ℕ = a / 4 in
    ground (
      arith,
      or_split 2 q (a % 4) 1 0,
      or_zero (a % 4),
      and_split 2 q (a % 4) 62 3,
      and_mask 2 (a % 4),
      and_mask 2 a,
      and_mask 2 (bit_or a 4),
      and_mask 2 (bit_and a 251),
    )

pub get_mode-do_ly_comparison : (io : Io) → get_mode (do_ly_comparison io) ≡ get_mode io
unfolding do_ly_comparison get_mode set_reg reg trigger
get_mode-do_ly_comparison io = ground (arith, coincidence (io.ioregs 0x41))

-- The mode is left alone by the change of LY.
get_mode-ly : (line : ℕ) (io : Io) → get_mode (set_reg reg_ly line io) ≡ get_mode io
unfolding get_mode set_reg reg
get_mode-ly line io = refl

-- V-blank is entered by line 144 alone.
next_mode_dark :
    (speed period : ℕ) (new : Bool) (io : Io)
    → get_mode io ≢ 1
    → get_mode (next_mode speed period new io).0 ≢ 1
unfolding next_mode
next_mode_dark speed period new io h = ground (
  arith,
  h,
  get_mode-set_mode 2 io,
  get_mode-stat (set_mode 2 io),
  get_mode-set_mode 3 io,
  get_mode-set_mode 0 io,
  get_mode-set_mode 0 (trigger lcd_stat io),
)

-- The state of the screen one line later.
pub record IsNext (s s' : Gpu × Io) : Type 0 where
  pub period_reset : s'.0.period ≡ 0
  pub line_moved :
      (s'.0.current_scanline ≡ (s.0.current_scanline + 1) % 154)
      ⊎ ((s.0.current_scanline % 154 ≡ 0)
          × (s'.0.current_scanline ≡ 0)
          × (get_mode s.1 ≡ 1)
          × (get_mode s'.1 ≢ 1))

advance-IsNext : (gpu : Gpu) (io : Io) → IsNext (gpu, io) (advance_scanline gpu io)
unfolding advance_scanline enter_vblank restart_frame
advance-IsNext gpu io =
    let line : ℕ = (gpu.current_scanline + 1) % 154 in
    let io1 : Io = set_reg reg_ly line io in
    let fresh : Io = set_mode 0 (set_reg reg_ly 0 io1) in
    ground (
      arith,
      get_mode-ly line io,
      get_mode-set_mode 0 (set_reg reg_ly 0 io1),
      get_mode-do_ly_comparison fresh,
    )

same_line :
    (gpu : Gpu) (period : ℕ) (io : Io) (s' : Gpu × Io)
    → IsNext (record gpu { period = period }, io) s'
    → IsNext (gpu, io) s'
same_line gpu period io s' n = record { period_reset = n.period_reset; line_moved = n.line_moved }

with_mode :
    (speed period : ℕ) (new : Bool) (s s' : Gpu × Io)
    → IsNext s s'
    → IsNext s (s'.0, (next_mode speed period new s'.1).0)
with_mode speed period new s s' n = record {
  period_reset = n.period_reset;
  line_moved = elim n.line_moved [
    | inl e ↦ inl e
    | inr (a, b, c, d) ↦ inr (a, b, c, next_mode_dark speed period new s'.1 d)
  ];
}

module _ (speed : ℕ) (one_or_two : (speed ≡ 1) ⊎ (speed ≡ 2)) (gpu : Gpu) (io : Io)
    (small : gpu.period ≤ 930) where
  tick-still :
      gpu.period + 4 < 465 * speed
      → let s' = tick speed (gpu, io) in
        (s'.0.period ≡ gpu.period + 4)
        × (s'.0.current_scanline ≡ gpu.current_scanline)
        × (get_mode io ≢ 1 → get_mode s'.1 ≢ 1)
  unfolding tick count_period scanline_cycles oam_cycles vram_cycles hblank_cycles
  tick-still h =
      (ground arith, ground arith, ground (arith, next_mode_dark speed (gpu.period + 4) false io))

  tick-over : 465 * speed ≤ gpu.period + 4 → IsNext (gpu, io) (tick speed (gpu, io))
  unfolding tick count_period
  tick-over h =
      let period : ℕ = (gpu.period + 4) % 2 ^ 64 in
      let over : leb (scanline_cycles speed) period ≡ true =
        unfold scanline_cycles oam_cycles vram_cycles hblank_cycles in ground arith in
      let gpu1 : Gpu = record gpu { period = period } in
      let next : IsNext (gpu, io) (advance_scanline gpu1 io) =
        same_line gpu period io (advance_scanline gpu1 io) (advance-IsNext gpu1 io) in
      rw over (with_mode speed period true (gpu, io) (advance_scanline gpu1 io) next)

-- A number of ticks inside a line.
ticks-still :
    (speed : ℕ)
    → (speed ≡ 1) ⊎ (speed ≡ 2)
    → (gpu : Gpu) (io : Io) (n : ℕ) → (n ≡ 0) ⊎ (gpu.period + 4 * n < 465 * speed)
    → gpu.period ≤ 930
    → let s' = ticks speed n (gpu, io) in
      (s'.0.period ≡ gpu.period + 4 * n)
      × (s'.0.current_scanline ≡ gpu.current_scanline)
      × (get_mode io ≢ 1 → get_mode s'.1 ≢ 1)
unfolding ticks
ticks-still speed hs gpu io zero h small = (omega arith, refl, λ k. k)
ticks-still speed hs gpu io (suc n) h small =
    let before : Gpu × Io = ticks speed n (gpu, io) in
    let ih : _ = ticks-still speed hs gpu io n (inr (omega arith)) small in
    let step : _ =
      tick-still speed hs before.0 before.1 (omega (arith, ih.0)) (omega (arith, ih.0)) in
    (omega (arith, ih.0, step.0), omega (arith, ih.1, step.1), λ k. step.2 (ih.2 k))

-- The rest of a line, in at most 233 ticks.
pub line-IsNext :
    (speed : ℕ)
    → (speed ≡ 1) ⊎ (speed ≡ 2)
    → (gpu : Gpu) (io : Io) → gpu.period ≤ 930
    → let n = (465 * speed - 1 - gpu.period) / 4 in IsNext (gpu, io) (ticks speed (suc n) (gpu, io))
unfolding ticks
line-IsNext speed hs gpu io small =
    let n : ℕ = (465 * speed - 1 - gpu.period) / 4 in
    let before : Gpu × Io = ticks speed n (gpu, io) in
    let still : _ = ticks-still speed hs gpu io n (ground arith) small in
    let over : IsNext before (tick speed before) =
      tick-over speed hs before.0 before.1 (ground (arith, still.0)) (ground (arith, still.0)) in
    record {
      period_reset = over.period_reset;
      line_moved = ground (arith, over.line_moved, still.1, still.2);
    }
