-- ===== src/Safety/Tick.antt =====
-- One tick of the hardware, `CPU::hardware_tick` of libgbc/cpu.cpp: from a machine that is valid and
-- in order it leads to a safe one, whatever the registers of the screen and the engines hold.
use gamebro.Base.{
  ℕ, ◌+◌, ◌%◌, ◌^◌, ◌<◌, ◌≡◌, inl, inr, refl, arith, Bool, true, false, not, ◌&&◌, Bool-cases,
  Returns, Returns-imp,
}
use gamebro.State.{Machine, Io, Gpu}
use gamebro.State.Monad.{Unit₀, ◌>>◌, when, modify_cpu, modify_io, then-Returns}
use gamebro.Gpu.{lcd_enabled, count_period, next_mode}
use gamebro.Video.Render
use gamebro.Video.Render.{render_scanline}
use gamebro.Io.Simulate as IoSimulate
use gamebro.Io.Simulate.{count_divider, run_tima, run_dma, run_hdma}
use gamebro.Cpu.{hardware_tick, incr_cycles}
use gamebro.Memory.Invariant.{IsValid}
use gamebro.Memory.Control.{Control, Control-Frame}
use gamebro.Safety.{IsSafe}
use gamebro.Safety.Clock.{count_period-IsSafe, next_mode-IsSafe}
use gamebro.Safety.Screen.{with_pixels, drawn-IsValid, Draws, render_scanline-Draws}
use gamebro.Safety.Timers.{timers-IsSafe}
use gamebro.Safety.OamDma.{run_dma-IsSafe}
use gamebro.Safety.Hdma.{run_hdma-IsSafe}

abbrev Safe : Unit₀ × Machine → Type 0
Safe out = IsSafe out.1

drawn-IsSafe :
    (m : Machine) (b : Bool) (pixels : ℕ → ℕ) → IsSafe m → IsSafe (with_pixels b pixels m)
drawn-IsSafe m b pixels s = record {
  valid = drawn-IsValid m b pixels s.valid;
  control = record {
    registers = s.control.registers;
    speed = s.control.speed;
    period_small = s.control.period_small;
    screen = s.control.screen;
    transfers = s.control.transfers;
  };
  settled = s.settled;
}

-- Drawing, if the line is to be drawn.
drawing-Safe :
    (m : Machine) (b : Bool)
    → IsSafe m
    → ((b ≡ true) → m.gpu.current_scanline < 144)
    → Returns Safe (when b (render_scanline m.gpu.current_scanline) m)
drawing-Safe m false s line = s
drawing-Safe m true s line =
    Returns-imp (Draws m) Safe (render_scanline m.gpu.current_scanline m)
      (λ out e. rw e (drawn-IsSafe m out.1.cpu.m_break out.1.gpu.pixels s))
      (render_scanline-Draws m m.gpu.current_scanline s.valid (line refl))

gpu-Safe : (m : Machine) → IsValid m → Control m → Returns Safe (Render.simulate m)
unfolding Render.simulate
gpu-Safe m v c =
    let speed : ℕ = m.memory.speed_factor in
    let counted : Gpu × Io × ℕ × Bool = count_period speed m.gpu m.io in
    let gpu : Gpu = counted.0 in
    let moded : Io × Bool = next_mode speed counted.2 counted.3 counted.1 in
    let m1 : Machine = record m { gpu = gpu; io = counted.1 } in
    let s1 : IsSafe m1 = count_period-IsSafe m v c in
    let s2 : _ = next_mode-IsSafe m1 s1 counted.2 counted.3 in
    elim (Bool-cases (lcd_enabled m.io)) [
      | inr e ↦ rw e (record { valid = v; control = c; settled = ground (arith, c.screen, e) })
      | inl e ↦ rw e (
          drawing-Safe (record m { gpu = gpu; io = moded.0 })
            (moded.1 && (not gpu.white_frame && gpu.render)) s2.0 (λ h. s2.1 (ground (arith, h))))
    ]

io-Safe : (m : Machine) → IsSafe m → Returns Safe (IoSimulate.simulate m)
unfolding IoSimulate.simulate
io-Safe m s =
    then-Returns {A = Unit₀} {B = Unit₀} Safe Safe
      (modify_io (λ io. run_tima (count_divider io)) >> run_dma) (λ u. run_hdma) m
      (run_dma-IsSafe (record m { io = run_tima (count_divider m.io) }) (timers-IsSafe m s))
      (λ u m' s'. run_hdma-IsSafe m' s')

pub hardware_tick-IsSafe :
    (m : Machine) → IsValid m → Control m → Returns (λ out. IsSafe out.1) (hardware_tick m)
unfolding hardware_tick incr_cycles
hardware_tick-IsSafe m v c =
    let m1 : Machine = record m {
      cpu = (let c = m.cpu in record c { cycles_total = (c.cycles_total + 4) % 2 ^ 64 });
    } in
    let v1 : IsValid m1 = ground (arith, v) in
    let c1 : Control m1 = Control-Frame m m1 (refl, refl, refl, refl) c in
    then-Returns {A = Unit₀} {B = Unit₀} Safe Safe (modify_cpu (incr_cycles 4) >> Render.simulate)
      (λ u. IoSimulate.simulate) m (gpu-Safe m1 v1 c1) (λ u m' s'. io-Safe m' s')
