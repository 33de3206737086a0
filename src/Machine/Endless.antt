-- ===== src/Machine/Endless.antt =====
-- `Machine::simulate_one_frame` of libgbc/machine.cpp waits for a line that a dark screen never
-- reaches.
use gamebro.Cpu.Execute.{Callbacks}
use gamebro.Base.{
  ◌||◌, [], ℕ, zero, suc, ◌≡◌, refl, ap, arith, Bool, true, false, fault, too_long, Returns,
  Outcome, ok, ◌==◌, ◌&&◌, if◌then◌else◌, not, and-le, ◌∙◌,
}
use gamebro.State.{Machine, Cpu, Io, reg, set_reg}
use gamebro.State.Monad.{bind-ok, M, Unit₀, ◌>>=◌, ◌>>◌, then-Returns, modify_io, modify_cpu}
use gamebro.State.Ports.{reg_if, trigger}
use gamebro.Gpu.{lcd_enabled}
use gamebro.Io.{interrupt_mask}
use gamebro.Io.Simulate.{count_divider, run_tima, count_tima, reload_tima, run_dma, run_hdma}
use gamebro.Io.Simulate as IoSimulate
use gamebro.Video.Render
use gamebro.Cpu.{hardware_tick, handle_speed_switch, incr_cycles}
use gamebro.Cpu.Execute.{
  break_time, count_break, is_empty, count_pending, handle_interrupts, run_step, simulate,
}
use gamebro.Machine.{until_line, simulate_one_frame}

-- The registers of a machine with the LCD off, no interrupt enabled and no transfer running.
record IsQuiet (io : Io) : Type 0 where
  lcd_off : lcd_enabled io ≡ false
  none_enabled : io.reg_ie ≡ 0
  dma_idle : io.dma.bytes_left ≡ 0
  hdma_idle : io.hdma.bytes_left ≡ 0

-- Such a machine on line 0 whose processor sleeps.
pub record IsDark (m : Machine) : Type 0 where
  pub lcd_off : lcd_enabled m.io ≡ false
  pub none_enabled : m.io.reg_ie ≡ 0
  pub dma_idle : m.io.dma.bytes_left ≡ 0
  pub hdma_idle : m.io.hdma.bytes_left ≡ 0
  pub first_line : m.gpu.current_scanline ≡ 0
  pub sleeping : m.cpu.asleep ≡ true
  pub no_break : m.cpu.m_break ≡ false
  pub no_switch : m.cpu.switch_cycles ≡ 0
  pub no_steps : m.cpu.break_steps_cnt ≡ 0
  pub no_breakpoint : m.cpu.breakpoints ≡ []

timer-IsQuiet : (io : Io) → IsQuiet io → IsQuiet (run_tima (count_divider io))
unfolding run_tima count_divider count_tima reload_tima trigger set_reg lcd_enabled reg
timer-IsQuiet io q = ground (arith, q)

-- The other branch is not taken.
else-Returns :
    (P : Unit₀ × Machine → Type 0) (b : Bool) (p q : M Unit₀) (m : Machine)
    → b ≡ false
    → Returns P (q m)
    → Returns P ((if b then p else q) m)
else-Returns P false p q m e h = h
else-Returns P true p q m e h = absurd (ground (arith, e))

gpu_dark : (m : Machine) → lcd_enabled m.io ≡ false → Render.simulate m ≡ ok (tt, m)
unfolding Render.simulate
gpu_dark m e = rw e refl

dma_dark : (m : Machine) → m.io.dma.bytes_left ≡ 0 → run_dma m ≡ ok (tt, m)
unfolding run_dma
dma_dark m e = ground (arith, e)

hdma_dark : (m : Machine) → m.io.hdma.bytes_left ≡ 0 → run_hdma m ≡ ok (tt, m)
unfolding run_hdma
hdma_dark m e = ground (arith, e)

-- A call with a known result.
known-Returns : {A : Type 0} (P : A → Type 0) (o : Outcome A) (a : A) → o ≡ ok a → P a → Returns P o
known-Returns P o a e h = rw e h

io-IsDark : (m : Machine) → IsDark m → Returns (λ out. IsDark out.1) (IoSimulate.simulate m)
unfolding IoSimulate.simulate
io-IsDark m d =
    let Dark : Unit₀ × Machine → Type 0 = λ out. IsDark out.1 in
    let q : IsQuiet (run_tima (count_divider m.io)) = timer-IsQuiet m.io (record {
      lcd_off = d.lcd_off;
      none_enabled = d.none_enabled;
      dma_idle = d.dma_idle;
      hdma_idle = d.hdma_idle;
    }) in
    let m2 : Machine = record m { io = run_tima (count_divider m.io) } in
    then-Returns {A = Unit₀} {B = Unit₀} Dark Dark
      (modify_io (λ io. run_tima (count_divider io)) >> run_dma) (λ u. run_hdma) m
      (known-Returns Dark (run_dma m2) (tt, m2) (dma_dark m2 q.dma_idle)
        (record {
          lcd_off = q.lcd_off;
          none_enabled = q.none_enabled;
          dma_idle = q.dma_idle;
          hdma_idle = q.hdma_idle;
          first_line = d.first_line;
          sleeping = d.sleeping;
          no_break = d.no_break;
          no_switch = d.no_switch;
          no_steps = d.no_steps;
          no_breakpoint = d.no_breakpoint;
        }))
      (λ u m' d'. known-Returns Dark (run_hdma m') (tt, m') (hdma_dark m' d'.hdma_idle) d')

tick-IsDark : (m : Machine) → IsDark m → Returns (λ out. IsDark out.1) (hardware_tick m)
unfolding hardware_tick incr_cycles
tick-IsDark m d =
    let Dark : Unit₀ × Machine → Type 0 = λ out. IsDark out.1 in
    let m1 : Machine = record m { cpu = incr_cycles 4 m.cpu } in
    then-Returns {A = Unit₀} {B = Unit₀} Dark Dark (modify_cpu (incr_cycles 4) >> Render.simulate)
      (λ u. IoSimulate.simulate) m
      (known-Returns Dark (Render.simulate m1) (tt, m1) (gpu_dark m1 d.lcd_off)
        (record {
          lcd_off = d.lcd_off;
          none_enabled = d.none_enabled;
          dma_idle = d.dma_idle;
          hdma_idle = d.hdma_idle;
          first_line = d.first_line;
          sleeping = d.sleeping;
          no_break = d.no_break;
          no_switch = d.no_switch;
          no_steps = d.no_steps;
          no_breakpoint = d.no_breakpoint;
        }))
      (λ u m' d'. io-IsDark m' d')

pending_dark :
    (c : Cpu)
    → ((count_pending c).asleep ≡ c.asleep)
      × ((count_pending c).m_break ≡ c.m_break)
      × ((count_pending c).switch_cycles ≡ c.switch_cycles)
      × ((count_pending c).break_steps_cnt ≡ c.break_steps_cnt)
      × ((count_pending c).breakpoints ≡ c.breakpoints)
unfolding count_pending
pending_dark c = ground arith

-- Without an enabled interrupt the processor goes on sleeping.
interrupts-IsDark :
    (callbacks : Callbacks) (m : Machine)
    → IsDark m
    → Returns (λ out. IsDark out.1) (handle_interrupts callbacks m)
unfolding handle_interrupts
interrupts-IsDark callbacks m d =
    let none : interrupt_mask m.io ≡ 0 =
      unfold interrupt_mask in
      omega (arith, and-le m.io.reg_ie (reg reg_if m.io), d.none_enabled) in
    let p : _ = pending_dark m.cpu in
    let d' : IsDark (record m { cpu = count_pending m.cpu }) = record {
      lcd_off = d.lcd_off;
      none_enabled = d.none_enabled;
      dma_idle = d.dma_idle;
      hdma_idle = d.hdma_idle;
      first_line = d.first_line;
      sleeping = p.0 ∙ d.sleeping;
      no_break = p.1 ∙ d.no_break;
      no_switch = p.2 ∙ d.no_switch;
      no_steps = p.3 ∙ d.no_steps;
      no_breakpoint = p.4 ∙ d.no_breakpoint;
    } in
    ground (arith, none, d')

switch-IsDark : (m : Machine) → IsDark m → Returns (λ out. IsDark out.1) (handle_speed_switch m)
unfolding handle_speed_switch
switch-IsDark m d = ground (arith, d)

fault_then :
    {A B : Type 0} (p : M A) (f : A → M B) (m : Machine)
    → p m ≡ fault too_long
    → (p >>= f) m ≡ fault too_long
fault_then {A} {B} p f m e =
    ap {B = Outcome (B × Machine)}
      (λ (o : Outcome (A × Machine)). elim o [ ok (a, m') ↦ f a m' | fault e ↦ fault e ]) e

-- No step is counted and nothing breaks.
break_time-IsDark :
    (m : Machine) → IsDark m → Returns (λ out. (out.0 ≡ false) × IsDark out.1) (break_time m)
unfolding break_time count_break
break_time-IsDark m d = ground (arith, d)

no_break_checks :
    (due : Bool) (m : Machine)
    → due ≡ false
    → IsDark m
    → (due || not (is_empty m.cpu.breakpoints)) ≡ false
no_break_checks due m e d = rw (e) (ap (λ bs. not (is_empty bs)) d.no_breakpoint)

module _ (callbacks : Callbacks) (print_and_pause : ℕ → M Unit₀) where
  run_step-IsDark :
      (m : Machine)
      → IsDark m
      → Returns (λ out. IsDark out.1) (run_step callbacks print_and_pause m)
  unfolding run_step
  run_step-IsDark m d =
      then-Returns (λ out. IsDark out.1) (λ out. IsDark out.1) (handle_interrupts callbacks) _ m
        (interrupts-IsDark callbacks m d)
        (λ u m' d'.
          let e : (not m'.cpu.asleep && not m'.cpu.stopped) ≡ false = ground (arith, d'.sleeping) in
          rw e (
            then-Returns (λ out. IsDark out.1) (λ out. IsDark out.1) hardware_tick
              (λ u. handle_speed_switch) m' (tick-IsDark m' d') (λ u m2 d2. switch-IsDark m2 d2)))

  simulate-IsDark :
      (m : Machine)
      → IsDark m
      → Returns (λ out. IsDark out.1) (simulate callbacks print_and_pause m)
  unfolding simulate
  simulate-IsDark m d =
      let Dark : Unit₀ × Machine → Type 0 = λ out. IsDark out.1 in
      then-Returns {A = Bool} (λ out. (out.0 ≡ false) × IsDark out.1) Dark break_time _ m
        (break_time-IsDark m d)
        (λ due m' r.
          else-Returns Dark (due || not (is_empty m'.cpu.breakpoints)) _ _ m'
            (no_break_checks due m' r.0 r.1) (run_step-IsDark m' r.1))

  until_line_dark :
      (fuel : ℕ) (m : Machine)
      → IsDark m
      → until_line callbacks print_and_pause 144 fuel m ≡ fault too_long
  unfolding until_line
  until_line_dark zero m d = ground (arith, d.first_line)
  until_line_dark (suc fuel) m d =
      let e : (m.gpu.current_scanline == 144) ≡ false = ground (arith, d.first_line) in
      rw e (
        go (simulate callbacks print_and_pause m) (simulate-IsDark m d)
          (λ m' d'. until_line_dark fuel m' d'))
    where
      go :
          (o : Outcome (Unit₀ × Machine))
          → Returns (λ out. IsDark out.1) o
          → ((m' : Machine)
              → IsDark m'
              → until_line callbacks print_and_pause 144 fuel m' ≡ fault too_long)
          → (elim o [
            | ok (a, m') ↦ until_line callbacks print_and_pause 144 fuel m'
            | fault e ↦ fault e
          ])
            ≡ fault too_long
      go (ok (a, m')) h next = next m' h
      go (fault e) h next = absurd h

  until_first :
      (fuel : ℕ) (m : Machine)
      → m.gpu.current_scanline ≡ 0
      → until_line callbacks print_and_pause 0 fuel m ≡ ok (tt, m)
  unfolding until_line
  until_first zero m e = ground (arith, e)
  until_first (suc fuel) m e =
      let first : (m.gpu.current_scanline == 0) ≡ true = ground (arith, e) in rw first refl

  -- While the LCD is off and line 0 is current, the processor sleeps with no interrupt enabled and
  -- no speed switch begun, no DMA runs and the debugger is not called, a frame never ends, whatever
  -- the fuel.
  pub simulate_one_frame_dark :
      (fuel : ℕ) (m : Machine)
      → IsDark m
      → simulate_one_frame callbacks print_and_pause fuel m ≡ fault too_long
  unfolding simulate_one_frame
  simulate_one_frame_dark fuel m d =
      bind-ok (until_line callbacks print_and_pause 0 fuel) _ m m tt
        (until_first fuel m d.first_line)
      ∙ (fault_then (until_line callbacks print_and_pause 144 fuel) _ m (until_line_dark fuel m d))
