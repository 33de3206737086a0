-- ===== src/FrontEnd/Driven.antt =====
-- The machine as it is driven from outside (libgbc/machine.cpp), with its debugger: steps, the joypad
-- and resets in any order.
use mathlib.Core.Path.{subst}
use gamebro.Base.{ℕ, ◌<◌, ◌≡◌, Outcome, ok}
use gamebro.State.{Machine}
use gamebro.Cpu.Execute.{Callbacks, simulate}
use gamebro.Machine.{reset, set_inputs}
use gamebro.Memory.Invariant.{IsValid}
use gamebro.Memory.Control.{Control}
use gamebro.Safety.Access.{Sound}
use gamebro.Safety.Rules.{Any}
use gamebro.Safety.Runs.{reset-IsSafe, set_inputs-Sound}
use gamebro.Debug.{print_and_pause}
use gamebro.Debug.Rules.{Grade, ending, Handles}
use gamebro.Debug.Answers.{AreSound}
use gamebro.Debug.Emulator.{simulate-May}
use gamebro.State.Monad.{Unit₀}

-- What may happen to a machine: a step of its own, keys pressed or released, a reset.
pub data Event (callbacks : Callbacks) : Machine → Machine → Type 0 where
  simulated :
      {m m' : Machine}
      → simulate callbacks (print_and_pause callbacks) m ≡ ok (tt, m')
      → Event callbacks m m'
  pressed : {m : Machine} (mask : ℕ) → mask < 256 → Event callbacks m (set_inputs mask m)
  restarted : {m : Machine} → Event callbacks m (reset m)

pub data Reachable (callbacks : Callbacks) (m : Machine) : Machine → Type 0 where
  here : Reachable callbacks m m
  after :
      {m' m'' : Machine}
      → Reachable callbacks m m'
      → Event callbacks m' m''
      → Reachable callbacks m m''

module _ (allowed : Grade) (callbacks : Callbacks) (sound : AreSound allowed callbacks) where
  same_outcome :
      (o : Outcome (Unit₀ × Machine)) (m' : Machine)
      → o ≡ ok (tt, m')
      → Handles (ending allowed) Any o
      → Sound (tt, m')
  same_outcome o m' e h =
      (subst {A = Outcome (Unit₀ × Machine)} (λ o. Handles (ending allowed) Any o) e h).1

  Event-Sound : (m m' : Machine) → Event callbacks m m' → Sound (tt, m) → Sound (tt, m')
  Event-Sound m m' (simulated e) s =
      same_outcome (simulate callbacks (print_and_pause callbacks) m) m' e
        ((simulate-May allowed callbacks sound).run m s)
  Event-Sound m _ (pressed mask h) s = set_inputs-Sound m mask h s
  Event-Sound m _ restarted s = let r : _ = reset-IsSafe m s.0 s.1 in (r.valid, r.control)

  Reachable-Sound : (m m' : Machine) → Reachable callbacks m m' → Sound (tt, m) → Sound (tt, m')
  Reachable-Sound m _ here s = s
  Reachable-Sound m m'' (after {m' = m'} r e) s = Event-Sound m' m'' e (Reachable-Sound m m' r s)

  -- With callbacks of which each keeps a machine valid and in order or ends as `allowed` says:
  -- after any steps of the emulator with its debugger, key presses and resets from a machine that is
  -- valid and in order, the next step leaves such a machine, or an exception or a failed assertion
  -- ends it, or a callback goes on without end where `allowed` lets it. It reads and writes outside
  -- no array.
  pub simulate-Reachable :
      (m m' : Machine)
      → IsValid m
      → Control m
      → Reachable callbacks m m'
      → Handles (ending allowed) Any (simulate callbacks (print_and_pause callbacks) m')
  simulate-Reachable m m' v c r =
      (simulate-May allowed callbacks sound).run m' (Reachable-Sound m m' r (v, c))
