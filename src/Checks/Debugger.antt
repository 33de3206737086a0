-- ===== src/Checks/Debugger.antt =====
-- The debugger (libgbc/debug.cpp) and the search for sprites (libgbc/gpu.cpp) at concrete inputs.
use gamebro.Base.{
  ◌≡◌, refl, arith, [], ◌∷◌, Bool, true, false, ok, fault, throws, Outcome, inr, negsuc,
}
use gamebro.State.{Machine}
use gamebro.State.Monad.{◌>>=◌, ◌>>◌, when, gets}
use gamebro.Memory.Control.{Control-Frame}
use gamebro.Cpu.{peekop8}
use gamebro.Cpu.Execute.{simulate, run_step}
use gamebro.Video.{SpriteConfig, find_sprites, sprite_at, hidden, is_within_scanline}
use gamebro.Video.Order.{find_sprites-filter}
use gamebro.Safety.{IsSafe}
use gamebro.Safety.Rules.{Any}
use gamebro.Debug.{execute_line, print_and_pause}
use gamebro.Debug.Parse.{codes, split, split_loop, strtoul, stoi, skip_spaces, digits}
use gamebro.Debug.Answers.{AreSound}
use gamebro.Debug.Commands.{step, break_on_steps, default_pausepoint, run_command}
use gamebro.Debug.Split.{join, Lack, split-pieces, join-split}
use gamebro.Debug.Steps.{IsStepping, with_steps, simulate-IsStepping}
use gamebro.Debug.Breakpoints.{simulate-default_pausepoint}
use gamebro.FrontEnd.Driven.{Event, Reachable, simulate-Reachable}
use gamebro.Machine.{set_inputs, reset}
use gamebro.Debug.Rules.{ending, Grade, Handles}
use gamebro.Checks.Machines.{machine, no_pause, no_callbacks}
use gamebro.Checks.Runs.{start-IsSafe}

split_spaces : split (codes "a  b") b' ' ≡ codes "a" ∷ [] ∷ codes "b" ∷ []
unfolding split split_loop
split_spaces = refl

hex_number : strtoul (codes " 0xfF40h") ≡ 0xff40
unfolding strtoul skip_spaces digits
hex_number = refl

negative_number : stoi (codes "-12 ") ≡ ok (negsuc 11)
unfolding stoi skip_spaces digits
negative_number = refl

too_large : stoi (codes "2147483648") ≡ fault throws
unfolding stoi skip_spaces digits
too_large = refl

-- Callbacks that always return.
abbrev silent : Grade
silent = record { ends = false; endless = false }

no_callbacks-AreSound : AreSound silent no_callbacks
no_callbacks-AreSound = record { each = λ f k. absurd (ground (arith, k)) }

abbrev fault_of : {A : Type 0} → Outcome A → Bool
fault_of (ok a) = false
fault_of (fault e) = true

-- A count that is no number ends the emulator, and so does a negative one.
step_word : fault_of (execute_line no_callbacks (codes "step x") (machine [])) ≡ true
unfolding execute_line split split_loop run_command step stoi skip_spaces digits
step_word = refl

step_negative : fault_of (execute_line no_callbacks (codes "step -1") (machine [])) ≡ true
unfolding execute_line split split_loop run_command step stoi skip_spaces digits break_on_steps
step_negative = refl

-- A person who sets a breakpoint, looks at two ports, and goes on.
abbrev typed : Machine
typed = record (machine []) { console = codes "break 150\nread ff40 2\n\n" }

typed-IsSafe : IsSafe typed
typed-IsSafe = record {
  valid = ground (arith, start-IsSafe.valid);
  control = Control-Frame (machine []) typed (refl, refl, refl, refl) start-IsSafe.control;
  settled = inr (omega arith);
}

-- The machine after `step 2` and one instruction.
abbrev stepping : Machine
stepping =
    let m = machine [] in record m { cpu = record m.cpu { break_steps = 1; break_steps_cnt = 2 } }

stepping-IsStepping : IsStepping 2 stepping
stepping-IsStepping = record {
  running = refl;
  no_break = refl;
  no_breakpoint = refl;
  count = refl;
  some_left = omega arith;
  left_fits = omega arith;
}

simulate-IsStepping_example :
    IsStepping 2 (with_steps 1 stepping)
    × (simulate no_callbacks no_pause stepping
        ≡ run_step no_callbacks no_pause (with_steps 1 stepping))
simulate-IsStepping_example =
    simulate-IsStepping no_callbacks no_pause 2 stepping (omega arith) (omega arith)
      stepping-IsStepping

simulate-default_pausepoint_example :
    let m = machine [] in
    let m' = record m { cpu = default_pausepoint 0 m.cpu } in
    simulate no_callbacks no_pause m'
    ≡ (when true (peekop8 0 >>= no_pause) >> gets (λ m. m.running) >>= λ running.
          when running (run_step no_callbacks no_pause))
        m'
simulate-default_pausepoint_example =
    simulate-default_pausepoint no_callbacks no_pause 0 (machine []) refl refl

split-pieces_example :
    split (codes "read ff40 2") b' ' ≡ codes "read" ∷ codes "ff40" ∷ codes "2" ∷ []
split-pieces_example = split-pieces (codes "read ff40 2") b' '

join-split_example :
    (join b' ' (split (codes "b 150") b' ') ≡ codes "b 150")
    × Lack b' ' (split (codes "b 150") b' ')
join-split_example = join-split (codes "b 150") b' '

-- Every sprite stands on lines 4 to 11, and there is room for two of three.
abbrev on_line_ten : SpriteConfig
on_line_ten = record {
  palette0 = 0;
  palette1 = 0;
  scan_x = 0;
  scan_y = 10;
  height = 8;
  is_cgb = false;
}

find_sprites-filter_example :
    find_sprites (λ i. 20) on_line_ten 2 3 ≡ sprite_at (λ i. 20) 2 ∷ sprite_at (λ i. 20) 1 ∷ []
unfolding hidden is_within_scanline sprite_at
find_sprites-filter_example = find_sprites-filter (λ i. 20) on_line_ten 2 3

-- A step after a reset and the A button.
simulate-Reachable_example :
    Handles
      (ending silent)
      Any
      (simulate no_callbacks (print_and_pause no_callbacks) (set_inputs 0x10 (reset typed)))
simulate-Reachable_example =
    simulate-Reachable silent no_callbacks no_callbacks-AreSound typed
      (set_inputs 0x10 (reset typed)) typed-IsSafe.valid typed-IsSafe.control
      (Reachable.after (Reachable.after Reachable.here Event.restarted)
        (Event.pressed 0x10 (omega arith)))
