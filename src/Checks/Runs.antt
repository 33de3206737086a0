-- ===== src/Checks/Runs.antt =====
-- The theorems on the machine as a whole (libgbc/machine.cpp, cpu.cpp, gpu.cpp, io.cpp) at concrete
-- inputs.
use gamebro.Base.{ℕ, ◌≡◌, refl, arith, inl, inr, [], Returns}
use gamebro.Gpu.{get_mode}
use gamebro.State.{Machine, reg}
use gamebro.Memory.{write8}
use gamebro.Memory.Control.{Control}
use gamebro.Safety.Access.{Sound, write8-Sound}
use gamebro.Gpu.Schedule.{ticks}
use gamebro.Gpu.Frames.{ticks-line_144}
use gamebro.Base.{◌≤◌}
use gamebro.Video.Render.{render_scanline}
use gamebro.Machine.Endless.{IsDark, simulate_one_frame_dark}
use gamebro.Gpu.{lcd_enabled}
use gamebro.State.{Machine, reg}
use gamebro.Base.{fault, too_long, ◌==◌, if◌then◌else◌, true}
use gamebro.Machine.{simulate_one_frame}
use gamebro.Safety.{IsSafe}
use gamebro.Safety.Screen.{Draws, render_scanline-Draws}
use gamebro.Checks.Machines.{machine, machine-IsValid, no_pause, no_callbacks}

start-Control : Control (machine [])
unfolding get_mode reg
start-Control = record {
  registers = record {
    flags_byte = omega arith;
    accum_byte = omega arith;
    c_byte = omega arith;
    b_byte = omega arith;
    e_byte = omega arith;
    d_byte = omega arith;
    l_byte = omega arith;
    h_byte = omega arith;
    sp_word = omega arith;
    pc_word = omega arith;
  };
  speed = inl refl;
  period_small = omega arith;
  screen = inl (inr (omega arith));
  transfers = record {
    dma_source = omega arith;
    dma_target = inl refl;
    hdma_source = omega arith;
    hdma_target = inl refl;
  };
}

pub start-IsSafe : IsSafe (machine [])
start-IsSafe = record {
  valid = machine-IsValid;
  control = start-Control;
  settled = inr (omega arith);
}

render_scanline-Draws_example : Returns (Draws (machine [])) (render_scanline 143 (machine []))
render_scanline-Draws_example = render_scanline-Draws (machine []) 143 machine-IsValid (omega arith)

-- Switching the LCD off.
write8-Sound_example : Returns Sound (write8 0xff40 0x11 (machine []))
write8-Sound_example =
    write8-Sound (machine []) 0xff40 0x11 machine-IsValid start-Control (omega arith) (omega arith)

-- From the middle of V-blank.
ticks-line_144_example :
    (n : ℕ) × (n ≤ 35882)
    × ((ticks 2 n (
      record (machine []).gpu { period = 900; current_scanline = 150 },
      (machine []).io,
    )).0.current_scanline
        ≡ 144)
ticks-line_144_example =
    ticks-line_144 2 (record (machine []).gpu { period = 900; current_scanline = 150 })
      (machine []).io (inr refl) (omega arith) (omega arith)

-- The machine asleep with its LCD off.
abbrev dark : Machine
dark =
    let m = machine [] in
    record m {
      cpu = record m.cpu { asleep = true };
      io = record m.io { ioregs = λ i. if i == 0x41 then 0x81 else 0 };
    }

dark-IsDark : IsDark dark
unfolding lcd_enabled reg
dark-IsDark = record {
  lcd_off = refl;
  none_enabled = refl;
  dma_idle = refl;
  hdma_idle = refl;
  first_line = refl;
  sleeping = refl;
  no_break = refl;
  no_switch = refl;
  no_steps = refl;
  no_breakpoint = refl;
}

simulate_one_frame_dark_example :
    simulate_one_frame no_callbacks no_pause 1000000 dark ≡ fault too_long
simulate_one_frame_dark_example =
    simulate_one_frame_dark no_callbacks no_pause 1000000 dark dark-IsDark
