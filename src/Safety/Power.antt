-- ===== src/Safety/Power.antt =====
-- STOP and the switch between the two speeds (libgbc/cpu.cpp, io.cpp, memory.cpp) keep the machine
-- safe, also where they switch the LCD off and on again.
use gamebro.Base.{
  ℕ, ◌-◌, ◌<◌, ◌≡◌, ◌⊎◌, inl, inr, refl, arith, Bool, true, false, ltb, ◌==◌, ◌!=◌, if◌then◌else◌,
  bit_and, and-le, or-lt, Bool-cases,
}
use gamebro.State.{Machine, Io, reg, set_reg}
use gamebro.State.Monad.{modify_io}
use gamebro.Gpu.{get_mode}
use gamebro.Io.{perform_stop, deactivate_stop}
use gamebro.Memory.{do_switch_speed}
use gamebro.Cpu.{stop, handle_speed_switch}
use gamebro.Safety.{IsSafe}
use gamebro.Safety.Clock.{clocked-IsSafe}
use gamebro.Safety.Rules.{Safely, Any, Safely-bind, Safely-then, Safely-when, Safely-gets}
use gamebro.Safety.Access.{modify_cpu-Safely}

-- A change of the registers that keeps the mode, the engines and the ranges.
record IsMild (io io' : Io) : Type 0 where
  mode_kept : get_mode io' ≡ get_mode io
  bytes_kept : ((i : ℕ) → io.ioregs i < 256) → (i : ℕ) → io'.ioregs i < 256
  ie_kept : io.reg_ie < 256 → io'.reg_ie < 256
  joypad_kept : io'.joypad ≡ io.joypad
  dma_kept : io'.dma ≡ io.dma
  hdma_kept : io'.hdma ≡ io.hdma

IsMild-IsSafe :
    (m : Machine) → IsSafe m → (io : Io) → IsMild m.io io → IsSafe (record m { io = io })
IsMild-IsSafe m s io q =
    clocked-IsSafe m m.gpu io s.control
      (record {
        mbc = s.valid.mbc;
        video_bank = s.valid.video_bank;
        ioswitch = rw (q.joypad_kept) s.valid.ioswitch;
        rom_bytes = s.valid.rom_bytes;
        video_bytes = s.valid.video_bytes;
        oam_bytes = s.valid.oam_bytes;
        zram_bytes = s.valid.zram_bytes;
        port_bytes = q.bytes_kept s.valid.port_bytes;
        palette_bytes = s.valid.palette_bytes;
        ie_byte = q.ie_kept s.valid.ie_byte;
        keypad_byte = rw (q.joypad_kept) s.valid.keypad_byte;
        buttons_byte = rw (q.joypad_kept) s.valid.buttons_byte;
      })
      (
        s.control.period_small,
        rw (q.mode_kept) s.settled,
        record {
          dma_source = rw (q.dma_kept) s.control.transfers.dma_source;
          dma_target = rw (q.dma_kept) s.control.transfers.dma_target;
          hdma_source = rw (q.hdma_kept) s.control.transfers.hdma_source;
          hdma_target = rw (q.hdma_kept) s.control.transfers.hdma_target;
        },
      )

perform_stop-IsMild : (io : Io) → IsMild io (perform_stop io)
unfolding perform_stop get_mode set_reg reg
perform_stop-IsMild io = record {
  mode_kept = refl;
  bytes_kept = λ h i. ground (arith, h i, and-le (io.ioregs 0x40) 127, h 0x40);
  ie_kept = λ h. or-lt 8 io.reg_ie 16 h (omega arith);
  joypad_kept = refl;
  dma_kept = refl;
  hdma_kept = refl;
}

deactivate_stop-IsMild : (b : Bool) (io : Io) → IsMild io (deactivate_stop b io)
unfolding deactivate_stop get_mode set_reg reg
deactivate_stop-IsMild b io = record {
  mode_kept = ground arith;
  bytes_kept = λ h i. ground (arith, h i, or-lt 8 (io.ioregs 0x40) 0x80 (h 0x40));
  ie_kept = λ h. ground arith;
  joypad_kept = ground arith;
  dma_kept = ground arith;
  hdma_kept = ground arith;
}

modify_io-Safely : (f : Io → Io) → ((io : Io) → IsMild io (f io)) → Safely Any (modify_io f)
modify_io-Safely f h = record { run = λ m s. (tt, IsMild-IsSafe m s (f m.io) (h m.io)) }

key1-IsMild : (x : ℕ) → x < 256 → (io : Io) → IsMild io (set_reg 0xff4d x io)
unfolding get_mode set_reg reg
key1-IsMild x hx io = record {
  mode_kept = refl;
  bytes_kept = λ h i. ground (arith, h i);
  ie_kept = λ h. h;
  joypad_kept = refl;
  dma_kept = refl;
  hdma_kept = refl;
}

with_speed-IsSafe :
    (m : Machine)
    → IsSafe m
    → (speed : ℕ) → (speed ≡ 1) ⊎ (speed ≡ 2)
    → IsSafe (record m { memory = record m.memory { speed_factor = speed } })
with_speed-IsSafe m s speed h = record {
  valid = ground (arith, s.valid);
  control = record {
    registers = s.control.registers;
    speed = h;
    period_small = s.control.period_small;
    screen = inl s.settled;
    transfers = s.control.transfers;
  };
  settled = s.settled;
}

do_switch_speed-Safely : Safely Any do_switch_speed
unfolding do_switch_speed
do_switch_speed-Safely = record {
  run = λ m s. ground (
    arith,
    IsMild-IsSafe _ (with_speed-IsSafe m s 1 (inl refl)) _ (key1-IsMild 0 (omega arith) m.io),
    IsMild-IsSafe _ (with_speed-IsSafe m s 2 (inr refl)) _ (key1-IsMild 0x80 (omega arith) m.io),
  );
}

pub stop-Safely : Safely Any stop
unfolding stop
stop-Safely = record {
  run = λ m s.
      (Safely-then
          (modify_cpu-Safely
            (λ c. record c {
              stopped = true;
              switch_cycles = if bit_and (reg 0xff4d m.io) 0x1 != 0 then 4 else c.switch_cycles;
            })
            (λ c r. r))
          (modify_io-Safely perform_stop perform_stop-IsMild)).run
        m s;
}

pub handle_speed_switch-Safely : Safely Any handle_speed_switch
unfolding handle_speed_switch
handle_speed_switch-Safely = record {
  run = λ m s.
      let left : ℕ = m.cpu.switch_cycles - 1 in
      elim (Bool-cases (ltb 0 m.cpu.switch_cycles)) [
        | inr e ↦ rw e (tt, s)
        | inl e ↦ rw e (
            (Safely-then (modify_cpu-Safely (λ c. record c { switch_cycles = left }) (λ c r. r)) (
                Safely-when (left == 0) (
                  Safely-bind {P = Any}
                    (Safely-then
                      (Safely-then
                        (modify_cpu-Safely (λ c. record c { stopped = false }) (λ c r. r))
                        do_switch_speed-Safely)
                      (Safely-gets (λ m s. tt)))
                    (λ fast u.
                      modify_io-Safely (deactivate_stop fast) (deactivate_stop-IsMild fast))))).run
              m s)
      ];
}
