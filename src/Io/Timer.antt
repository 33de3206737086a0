-- ===== src/Io/Timer.antt =====
-- The divider and the timer of libgbc/io.cpp over many ticks.
use gamebro.Base.{inl, inr, sym, ◌∙◌}
use gamebro.Base.{
  ℕ, zero, suc, ◌+◌, ◌*◌, ◌/◌, ◌%◌, ◌<◌, ◌≡◌, ◌≢◌, ◌⊎◌, arith, bit_and, ◌==◌, if◌then◌else◌,
}
use gamebro.State.{Io, reg, set_reg}
use gamebro.State.Ports.{trigger, reg_div, reg_tima, reg_tac}
use gamebro.Io.Simulate.{count_divider, tima_cycles, count_tima, reload_tima, run_tima}

-- The timers' part of one call of `IO::simulate`.
unfoldable pub tick : Io → Io
tick io = run_tima (count_divider io)

unfoldable pub ticks : ℕ → Io → Io
ticks zero io = io
ticks (suc n) io = tick (ticks n io)

module _ (io : Io) where
  divider-tick : (tick io).divider ≡ (io.divider + 4) % 65536
  unfolding tick run_tima count_divider count_tima reload_tima trigger set_reg reg
  divider-tick = ground arith

  div-tick : reg reg_div (tick io) ≡ (io.divider + 4) % 65536 / 256
  unfolding tick run_tima count_divider count_tima reload_tima trigger set_reg reg
  div-tick = ground arith

-- After `n + 1` ticks from a 16-bit divider, whatever the timer does, the divider has counted four clocks a tick modulo
-- 2 ^ 16, and the register DIV holds its high byte.
pub ticks-divider :
    (n : ℕ) (io : Io)
    → io.divider < 65536
    → ((ticks (suc n) io).divider ≡ (io.divider + 4 * suc n) % 65536)
      × (reg reg_div (ticks (suc n) io) ≡ (io.divider + 4 * suc n) % 65536 / 256)
unfolding ticks
ticks-divider zero io h = ground (arith, divider-tick io, div-tick io)
ticks-divider (suc n) io h =
    ground
      (arith, ticks-divider n io h, divider-tick (ticks (suc n) io), div-tick (ticks (suc n) io))

-- The counter after the next tick, if it does not overflow.
abbrev next_tima : Io → ℕ
next_tima io =
    if (io.divider + 4) % 65536 % tima_cycles (bit_and (reg reg_tac io) 3) == 0
    then reg reg_tima io + 1
    else reg reg_tima io

-- What a tick does to the registers of a running timer that does not overflow.
count-tick :
    (io : Io)
    → bit_and (reg reg_tac io) 4 ≢ 0
    → io.timabug ≡ 0
    → next_tima io < 256
    → let io' = tick io in
      (reg reg_tac io' ≡ reg reg_tac io) × (io'.timabug ≡ 0) × (reg reg_tima io' ≡ next_tima io)
unfolding tick run_tima count_divider count_tima set_reg reg
count-tick io e b h = ground arith

IsPeriod : ℕ → Type 0
IsPeriod c = (c ≡ 16) ⊎ ((c ≡ 64) ⊎ ((c ≡ 256) ⊎ (c ≡ 1024)))

tima_cycles-IsPeriod : (speed : ℕ) → IsPeriod (tima_cycles speed)
unfolding tima_cycles IsPeriod
tima_cycles-IsPeriod speed = ground arith

-- The next tick passes a multiple of the period or not.
counted_suc :
    (c d n : ℕ)
    → IsPeriod c
    → d % 4 ≡ 0
    → (d % c + 4 * suc n) / c ≡ (
        if ((d + 4 * n) % 65536 + 4) % 65536 % c == 0
        then (d % c + 4 * n) / c + 1
        else (d % c + 4 * n) / c)
unfolding IsPeriod
counted_suc c d n (inl e) h = rw e (ground arith)
counted_suc c d n (inr (inl e)) h = rw e (ground arith)
counted_suc c d n (inr (inr (inl e))) h = rw e (ground arith)
counted_suc c d n (inr (inr (inr e))) h = rw e (ground arith)

-- A running timer whose counter does not overflow and has not just done so, with a 16-bit divider
-- that is a multiple of four, counts once for each 1024, 16, 64 or 256
-- clocks, by the two low bits of TAC: after `n` ticks TIMA has grown by the number of multiples of
-- that period that the divider has passed.
pub ticks-tima :
    (n : ℕ) (io : Io)
    → let period = tima_cycles (bit_and (reg reg_tac io) 3) in
      let counted = (io.divider % period + 4 * n) / period in
      bit_and (reg reg_tac io) 4 ≢ 0
      → io.timabug ≡ 0
      → io.divider % 4 ≡ 0
      → io.divider < 65536
      → reg reg_tima io + counted < 256
      → (reg reg_tima (ticks n io) ≡ reg reg_tima io + counted)
        × (reg reg_tac (ticks n io) ≡ reg reg_tac io)
        × ((ticks n io).timabug ≡ 0)
        × ((ticks n io).divider ≡ (io.divider + 4 * n) % 65536)
unfolding ticks
ticks-tima zero io e b d h c =
    let p : ℕ = tima_cycles (bit_and (reg reg_tac io) 3) in
    let none : (io.divider % p + 4 * 0) / p ≡ 0 =
      unfold IsPeriod in ground (arith, tima_cycles-IsPeriod (bit_and (reg reg_tac io) 3)) in
    ground (arith, none)
ticks-tima (suc n) io e b d h c =
    let speed : ℕ = bit_and (reg reg_tac io) 3 in
    let next : _ = counted_suc (tima_cycles speed) io.divider n (tima_cycles-IsPeriod speed) d in
    let (tima, tac, bug, div) = ticks-tima n io e b d h (ground (arith, next)) in
    let after : reg reg_tima io + (io.divider % tima_cycles speed + 4 * suc n) / tima_cycles speed
        ≡ next_tima (ticks n io) =
      rw (tac, div, next, tima) (ground arith) in
    let step : _ = count-tick (ticks n io) (rw tac e) bug (rw (← after) c) in
    (step.2 ∙ sym after, step.0 ∙ tac, step.1, divider-tick (ticks n io) ∙ rw div (omega arith))
