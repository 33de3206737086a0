-- ===== src/Safety/Frames.antt =====
-- Changes of the machine that keep it safe: memory alone, single ports, the debugger's flag.
use gamebro.Base.{ℕ, ◌%◌, ◌<◌, ◌≢◌, arith}
use gamebro.State.{Machine, Io, Dma, reg, set_reg}
use gamebro.Gpu.{get_mode, lcd_enabled}
use gamebro.Memory.Invariant.{IsValid}
use gamebro.Memory.Ports.{set_reg-IsValid}
use gamebro.Memory.Kept.{set_reg-Control, get_mode-set_reg}
use gamebro.Memory.Control.{Frame, Control-Frame, AreTransfers}
use gamebro.Safety.{IsSafe}

pub Frame-IsSafe : (m m' : Machine) → Frame m m' → IsSafe m → IsValid m' → IsSafe m'
Frame-IsSafe m m' f s v = record {
  valid = v;
  control = Control-Frame m m' f s.control;
  settled = rw (f.0, f.1) s.settled;
}

-- Writing a byte to a port other than LCDC and STAT.
pub set_reg-IsSafe :
    (m : Machine)
    → IsSafe m
    → (addr x : ℕ) → addr % 128 ≢ 0x40
    → addr % 128 ≢ 0x41
    → x < 256
    → IsSafe (record m { io = set_reg addr x m.io })
set_reg-IsSafe m s addr x h k hx = record {
  valid = set_reg-IsValid m s.valid addr x hx;
  control = set_reg-Control m s.control addr x h k;
  settled = ground (arith, s.settled, get_mode-set_reg addr x m.io k);
}

-- The registers of the timers and of the DMA engines that no port shows.
abbrev pub with_engines : ℕ → ℕ → Dma → Dma → Io → Io
with_engines divider timabug dma hdma io = record io {
  divider = divider;
  timabug = timabug;
  dma = dma;
  hdma = hdma;
}

pub engines-IsValid :
    (m : Machine)
    → IsValid m
    → (divider timabug : ℕ) (dma hdma : Dma)
    → IsValid (record m { io = with_engines divider timabug dma hdma m.io })
engines-IsValid m v divider timabug dma hdma = ground (arith, v)

pub engines-IsSafe :
    (m : Machine)
    → IsSafe m
    → (divider timabug : ℕ) (dma hdma : Dma)
    → AreTransfers (with_engines divider timabug dma hdma m.io)
    → IsSafe (record m { io = with_engines divider timabug dma hdma m.io })
unfolding get_mode lcd_enabled reg
engines-IsSafe m s divider timabug dma hdma t = record {
  valid = engines-IsValid m s.valid divider timabug dma hdma;
  control = record {
    registers = s.control.registers;
    speed = s.control.speed;
    period_small = s.control.period_small;
    screen = s.control.screen;
    transfers = t;
  };
  settled = s.settled;
}

pub counters-IsSafe :
    (m : Machine)
    → IsSafe m
    → (divider timabug : ℕ)
    → IsSafe (record m { io = record m.io { divider = divider; timabug = timabug } })
counters-IsSafe m s divider timabug =
    let t : AreTransfers m.io = s.control.transfers in
    engines-IsSafe m s divider timabug m.io.dma m.io.hdma (record {
      dma_source = t.dma_source;
      dma_target = t.dma_target;
      hdma_source = t.hdma_source;
      hdma_target = t.hdma_target;
    })
