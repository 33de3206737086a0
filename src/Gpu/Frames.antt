-- ===== src/Gpu/Frames.antt =====
-- The screen goes through its lines by itself: the counters of `GPU::simulate` in libgbc/gpu.cpp
-- reach V-blank from every state.
use gamebro.Base.{ℕ, zero, suc, ◌+◌, ◌-◌, ◌*◌, ◌/◌, ◌<◌, ◌≤◌, ◌≡◌, ◌≢◌, ◌⊎◌, inl, inr, refl, arith}
use gamebro.State.{Gpu, Io}
use gamebro.Gpu.{get_mode}
use gamebro.Gpu.Lines.{IsNext, line-IsNext}
use gamebro.Gpu.Schedule.{ticks}

ticks-plus :
    (speed a b : ℕ) (s : Gpu × Io) → ticks speed (a + b) s ≡ ticks speed a (ticks speed b s)
unfolding ticks
ticks-plus speed zero b s = let e : 0 + b ≡ b = omega arith in rw e refl
ticks-plus speed (suc a) b s =
    let e : suc a + b ≡ suc (a + b) = omega arith in rw (e, ticks-plus speed a b s) refl

-- Some number of ticks, at most `bound`, leads to line 144.
abbrev Reaches : ℕ → ℕ → Gpu × Io → Type 0
Reaches speed bound s = (n : ℕ) × (n ≤ bound) × ((ticks speed n s).0.current_scanline ≡ 144)

Reaches-next :
    (speed bound k : ℕ) (s : Gpu × Io)
    → k ≤ 233
    → Reaches speed bound (ticks speed k s)
    → Reaches speed (bound + 233) s
Reaches-next speed bound k s hk (n, le, e) = (n + k, omega arith, rw (ticks-plus speed n k s) e)

-- One line on, and what follows from each state it may lead to.
Reaches-line :
    (speed : ℕ)
    → (speed ≡ 1) ⊎ (speed ≡ 2)
    → (bound : ℕ) (gpu : Gpu) (io : Io) → gpu.period ≤ 930
    → ((s' : Gpu × Io) → IsNext (gpu, io) s' → Reaches speed bound s')
    → Reaches speed (bound + 233) (gpu, io)
Reaches-line speed hs bound gpu io small next =
    let n : ℕ = (465 * speed - 1 - gpu.period) / 4 in
    Reaches-next speed bound (suc n) (gpu, io) (ground arith)
      (next (ticks speed (suc n) (gpu, io)) (line-IsNext speed hs gpu io small))

module _ (speed : ℕ) (hs : (speed ≡ 1) ⊎ (speed ≡ 2)) where
  -- The lines of the screen after the first, in whatever mode.
  from_line :
      (left : ℕ) (gpu : Gpu) (io : Io)
      → gpu.period ≤ 930
      → 1 ≤ gpu.current_scanline
      → gpu.current_scanline + left ≡ 144
      → Reaches speed (left * 233) (gpu, io)
  unfolding ticks
  from_line zero gpu io small low e = (0, omega arith, omega arith)
  from_line (suc left) gpu io small low e =
      let r : _ = Reaches-line speed hs (left * 233) gpu io small (λ s' n.
        from_line left s'.0 s'.1 (omega (arith, n.period_reset)) (ground (arith, n.line_moved))
          (ground (arith, n.line_moved))) in
      (r.0, omega (arith, r.1), r.2)

  -- The first line, outside V-blank and in it: there it is started again.
  from_dark :
      (gpu : Gpu) (io : Io)
      → gpu.period ≤ 930
      → gpu.current_scanline ≡ 0
      → get_mode io ≢ 1
      → Reaches speed (144 * 233) (gpu, io)
  from_dark gpu io small e dark = Reaches-line speed hs (143 * 233) gpu io small (λ s' n.
      from_line 143 s'.0 s'.1 (omega (arith, n.period_reset)) (ground (arith, n.line_moved, dark))
        (ground (arith, n.line_moved, dark)))

  from_first :
      (gpu : Gpu) (io : Io)
      → gpu.period ≤ 930
      → gpu.current_scanline ≡ 0
      → Reaches speed (145 * 233) (gpu, io)
  from_first gpu io small e = Reaches-line speed hs (144 * 233) gpu io small (λ s' n.
      elim n.line_moved [
        | inl moved ↦
            let r : Reaches speed (143 * 233) s' =
              from_line 143 s'.0 s'.1 (omega (arith, n.period_reset)) (omega (arith, moved))
                (omega (arith, moved)) in
            (r.0, omega (arith, r.1), r.2)
        | inr (a, again, lit, dark) ↦ from_dark s'.0 s'.1 (omega (arith, n.period_reset)) again dark
      ])

  -- The lines of V-blank.
  from_below :
      (left : ℕ) (gpu : Gpu) (io : Io)
      → gpu.period ≤ 930
      → 1 ≤ gpu.current_scanline
      → gpu.current_scanline + suc left ≡ 154
      → Reaches speed ((146 + left) * 233) (gpu, io)
  from_below zero gpu io small low e =
      Reaches-line speed hs (145 * 233) gpu io small (λ s' n.
        from_first s'.0 s'.1 (omega (arith, n.period_reset)) (ground (arith, n.line_moved)))
  from_below (suc left) gpu io small low e =
      let r : _ = Reaches-line speed hs ((146 + left) * 233) gpu io small (λ s' n.
        from_below left s'.0 s'.1 (omega (arith, n.period_reset)) (ground (arith, n.line_moved))
          (ground (arith, n.line_moved))) in
      (r.0, omega (arith, r.1), r.2)

-- With the LCD on, at speed factor 1 or 2, from every mode, every line below 154 and every clock
-- of at most 930, the screen reaches line 144 within 35882 of its ticks.
pub ticks-line_144 :
    (speed : ℕ) (gpu : Gpu) (io : Io)
    → (speed ≡ 1) ⊎ (speed ≡ 2)
    → gpu.period ≤ 930
    → gpu.current_scanline < 154
    → (n : ℕ) × (n ≤ 35882) × ((ticks speed n (gpu, io)).0.current_scanline ≡ 144)
unfolding ticks
ticks-line_144 speed gpu io hs small h = elim (split gpu.current_scanline h) [
  | inl first ↦ let r : _ = from_first speed hs gpu io small first in (r.0, omega (arith, r.1), r.2)
  | inr (inl (low, up)) ↦
      let r : Reaches speed ((144 - gpu.current_scanline) * 233) (gpu, io) =
        from_line speed hs (144 - gpu.current_scanline) gpu io small low (omega arith) in
      (r.0, omega (arith, r.1), r.2)
  | inr (inr below) ↦
      let r : Reaches speed ((146 + (153 - gpu.current_scanline)) * 233) (gpu, io) =
        from_below speed hs (153 - gpu.current_scanline) gpu io small (omega arith) (omega arith) in
      (r.0, omega (arith, r.1), r.2)
]
  where
    split : (line : ℕ) → line < 154 → (line ≡ 0) ⊎ (((1 ≤ line) × (line ≤ 144)) ⊎ (144 < line))
    split line h = ground arith
