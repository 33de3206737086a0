-- ===== src/Safety/Access.antt =====
-- The memory accesses and operand fetches of libgbc/cpu.cpp and cpu.hpp, each with its ticks.
use gamebro.Base.{
  ℕ, ◌+◌, ◌*◌, ◌/◌, ◌%◌, ◌^◌, ◌<◌, ◌≢◌, refl, arith, Bool, ◌-◌, Returns, Returns-imp, Returns-elim,
  bit_and, or-lt, and-le,
}
use gamebro.Registers.{Regs, hl, getdest, setdest}
use gamebro.State.{Machine, Cpu}
use gamebro.State.Monad.{Unit₀, ◌>>◌, modify_cpu, then-Returns}
use gamebro.Memory.{read8, read16, write8, write16}
use gamebro.Memory.Invariant.{IsValid}
use gamebro.Memory.Ports.{Keeps}
use gamebro.Memory.Writes.{write8-IsValid}
use gamebro.Memory.Commands.{write8-Controls}
use gamebro.Memory.Control.{Control, IsRegs, Returns-Ends}
use gamebro.Memory.Invariant.{with_break, with_break-IsValid, read8-Reads, Reads}
use gamebro.Cpu.{
  regs, modify_regs, hardware_tick, peekop8, peekop16, advance_pc, readop8, readop16, mtread8,
  mtwrite8, mtread16, mtwrite16, read_hl, write_hl, dest, put_dest, jump, push_value, push_and_jump,
}
use gamebro.Safety.{IsSafe}
use gamebro.Safety.Rules.{Safely, Any, Safely-bind, Safely-then, Safely-pure, Safely-gets}
use gamebro.Safety.Tick.{hardware_tick-IsSafe}
use gamebro.Safety.Frames.{Frame-IsSafe}

abbrev pub Byte : ℕ → Type 0
Byte x = x < 256

abbrev pub Word : ℕ → Type 0
Word x = x < 65536

pub hardware_tick-Safely : Safely Any hardware_tick
hardware_tick-Safely = record {
  run = λ m s.
      Returns-imp (λ out. IsSafe out.1) (λ out. Any out.0 × IsSafe out.1) (hardware_tick m)
        (λ out s'. (tt, s')) (hardware_tick-IsSafe m s.valid s.control);
}

-- Changing the processor's own state, the registers in their ranges.
pub modify_cpu-Safely :
    (f : Cpu → Cpu)
    → ((c : Cpu) → IsRegs c.registers → IsRegs (f c).registers)
    → Safely Any (modify_cpu f)
modify_cpu-Safely f h = record {
  run = λ m s. (
    tt,
    record {
      valid = ground (arith, s.valid);
      control = record {
        registers = h m.cpu s.control.registers;
        speed = s.control.speed;
        period_small = s.control.period_small;
        screen = s.control.screen;
        transfers = s.control.transfers;
      };
      settled = s.settled;
    },
  );
}

pub modify_regs-Safely :
    (f : Regs → Regs) → ((r : Regs) → IsRegs r → IsRegs (f r)) → Safely Any (modify_regs f)
modify_regs-Safely f h =
    modify_cpu-Safely (λ c. record c { registers = f c.registers }) (λ c r. h c.registers r)

pub regs-Safely : Safely IsRegs regs
regs-Safely = Safely-gets (λ m s. s.control.registers)

read8-Safely : (addr : ℕ) → addr < 65536 → Safely Byte (read8 addr)
read8-Safely addr h = record {
  run = λ m s.
      Returns-imp (Reads m) (λ out. Byte out.0 × IsSafe out.1) (read8 addr m)
        (λ out r. (r.0, rw r.1 (broken m out.1.cpu.m_break s))) (read8-Reads m s.valid addr h);
}
  where
    broken : (m : Machine) (b : Bool) → IsSafe m → IsSafe (with_break b m)
    broken m b s =
        Frame-IsSafe m (with_break b m) (refl, refl, refl, refl) s (with_break-IsValid b m s.valid)

-- What a tick needs: between two ticks a write may have switched the LCD on.
abbrev pub Sound : Unit₀ × Machine → Type 0
Sound out = IsValid out.1 × Control out.1

-- In a valid machine whose control part is in order, a byte write to any 16-bit address throws
-- nothing, stays inside every array, and leaves the machine valid and its control part in order.
pub write8-Sound :
    (m : Machine) (addr x : ℕ)
    → IsValid m
    → Control m
    → addr < 65536
    → x < 256
    → Returns Sound (write8 addr x m)
write8-Sound m addr x v c h hx =
    Returns-Ends Keeps (λ out. Control out.1) (write8 addr x m) (write8-IsValid m v x hx addr h)
      (write8-Controls m c x hx addr)

pub read16-Safely : (addr : ℕ) → addr < 65536 → Safely Word (read16 addr)
unfolding read16
read16-Safely addr h = Safely-bind (read8-Safely addr h) (λ lo hlo.
    Safely-bind (read8-Safely ((addr + 1) % 65536) (omega arith))
      (λ hi hhi. Safely-pure (or-lt 16 lo (hi * 2 ^ 8) (omega arith) (omega arith))))

pub peekop8-Safely : (disp : ℕ) → Safely Byte (peekop8 disp)
unfolding peekop8
peekop8-Safely disp = record {
  run = λ m s. (read8-Safely ((m.cpu.registers.pc + disp) % 65536) (omega arith)).run m s;
}

pub peekop16-Safely : (disp : ℕ) → Safely Word (peekop16 disp)
unfolding peekop16
peekop16-Safely disp = record {
  run = λ m s. (read16-Safely ((m.cpu.registers.pc + disp) % 65536) (omega arith)).run m s;
}

pub advance_pc-Safely : (n : ℕ) → Safely Any (advance_pc n)
advance_pc-Safely n =
    modify_regs-Safely (λ r. record r { pc = (r.pc + n) % 65536 }) (λ r h. ground (arith, h))

pub readop8-Safely : Safely Byte readop8
unfolding readop8
readop8-Safely =
    Safely-bind (peekop8-Safely 0)
      (λ x h. Safely-then (advance_pc-Safely 1) (Safely-then hardware_tick-Safely (Safely-pure h)))

pub readop16-Safely : Safely Word readop16
unfolding readop16
readop16-Safely = Safely-bind (peekop16-Safely 0) (λ x h.
    Safely-then (advance_pc-Safely 2)
      (Safely-then hardware_tick-Safely (Safely-then hardware_tick-Safely (Safely-pure h))))

pub mtread8-Safely : (addr : ℕ) → addr < 65536 → Safely Byte (mtread8 addr)
unfolding mtread8
mtread8-Safely addr h =
    Safely-bind (read8-Safely addr h) (λ x hx. Safely-then hardware_tick-Safely (Safely-pure hx))

pub mtread16-Safely : (addr : ℕ) → addr < 65536 → Safely Word (mtread16 addr)
unfolding mtread16
mtread16-Safely addr h =
    Safely-bind (read16-Safely addr h)
      (λ x hx. Safely-then hardware_tick-Safely (Safely-then hardware_tick-Safely (Safely-pure hx)))

-- A tick after a write, which may have switched the LCD on.
settle : (m : Machine) → Sound (tt, m) → Returns (λ out. Any out.0 × IsSafe out.1) (hardware_tick m)
settle m h =
    Returns-imp (λ out. IsSafe out.1) (λ out. Any out.0 × IsSafe out.1) (hardware_tick m)
      (λ out s'. (tt, s')) (hardware_tick-IsSafe m h.0 h.1)

pub mtwrite8-Safely : (addr x : ℕ) → addr < 65536 → x < 256 → Safely Any (mtwrite8 addr x)
unfolding mtwrite8
mtwrite8-Safely addr x h hx = record {
  run = λ m s.
      then-Returns Sound (λ out. Any out.0 × IsSafe out.1) (write8 addr x) (λ u. hardware_tick) m
        (write8-Sound m addr x s.valid s.control h hx) (λ u m' r. settle m' r);
}

pub mtwrite16-Safely : (addr x : ℕ) → addr < 65536 → x < 65536 → Safely Any (mtwrite16 addr x)
unfolding mtwrite16 write16
mtwrite16-Safely addr x h hx = record {
  run = λ m s.
      then-Returns Sound (λ out. Any out.0 × IsSafe out.1) (write16 addr x)
        (λ u. hardware_tick >> hardware_tick) m
        (then-Returns Sound Sound (write8 addr (bit_and x 0xff))
          (λ u. write8 ((addr + 1) % 65536) (x / 2 ^ 8)) m
          (write8-Sound m addr (bit_and x 0xff) s.valid s.control h (omega (arith, and-le x 0xff)))
          (λ u m' r.
            write8-Sound m' ((addr + 1) % 65536) (x / 2 ^ 8) r.0 r.1 (omega arith) (omega arith)))
        (λ u m' r.
          then-Returns (λ out. Any out.0 × IsSafe out.1) (λ out. Any out.0 × IsSafe out.1)
            hardware_tick (λ u. hardware_tick) m' (settle m' r)
            (λ u m2 q. hardware_tick-Safely.run m2 q.1));
}

pub read_hl-Safely : Safely Byte read_hl
unfolding read_hl
read_hl-Safely = Safely-bind regs-Safely (λ r h. mtread8-Safely (hl r) (ground (arith, h)))

pub write_hl-Safely : (x : ℕ) → x < 256 → Safely Any (write_hl x)
unfolding write_hl
write_hl-Safely x hx =
    Safely-bind regs-Safely (λ r h. mtwrite8-Safely (hl r) x (ground (arith, h)) hx)

-- A register selected by a code other than that of (HL).
pub dest-Safely : (bf : ℕ) → bit_and bf 7 ≢ 6 → Safely Byte (dest bf)
unfolding dest getdest
dest-Safely bf h = record { run = λ m s. ground (arith, s) }

setdest-IsRegs :
    (bf x : ℕ) (r : Regs) → bit_and bf 7 ≢ 6 → x < 256 → IsRegs r → Returns IsRegs (setdest bf x r)
unfolding setdest
setdest-IsRegs bf x r h hx k = ground (arith, k)

pub put_dest-Safely : (bf x : ℕ) → bit_and bf 7 ≢ 6 → x < 256 → Safely Any (put_dest bf x)
unfolding put_dest
put_dest-Safely bf x h hx = record {
  run = λ m s.
      Returns-elim IsRegs (λ out. Any out.0 × IsSafe out.1) (setdest bf x m.cpu.registers)
        (λ r. modify_regs (λ old. r) m)
        (setdest-IsRegs bf x m.cpu.registers h hx s.control.registers)
        (λ r k. (modify_regs-Safely (λ old. r) (λ old q. k)).run m s);
}

pub jump-Safely : (target : ℕ) → Safely Any (jump target)
unfolding jump
jump-Safely target =
    modify_regs-Safely (λ r. record r { pc = target % 65536 }) (λ r h. ground (arith, h))

pub push_value-Safely : (x : ℕ) → x < 65536 → Safely Any (push_value x)
unfolding push_value
push_value-Safely x h = Safely-then hardware_tick-Safely (
    Safely-then
      (modify_regs-Safely (λ r. record r { sp = (r.sp + 65536 - 2) % 65536 })
        (λ r k. ground (arith, k)))
      (Safely-bind regs-Safely (λ r k. mtwrite16-Safely r.sp x k.sp_word h)))

pub push_and_jump-Safely : (target : ℕ) → Safely Any (push_and_jump target)
unfolding push_and_jump
push_and_jump-Safely target =
    Safely-bind regs-Safely
      (λ r k. Safely-then (push_value-Safely r.pc k.pc_word) (jump-Safely target))
