-- ===== src/Safety/Peeks.antt =====
-- Reads that only look at the machine, for what libgbc/instructions.cpp and debug.cpp print: they
-- change no more than the debugger's flag.
use gamebro.Base.{
  ℕ, ◌+◌, ◌*◌, ◌%◌, ◌^◌, ◌<◌, ◌≡◌, refl, arith, Bool, true, false, if◌then◌else◌, or-lt, Returns,
  Returns-imp,
}
use gamebro.State.{Machine}
use gamebro.State.Monad.{M, pure, ◌>>=◌, then-Returns}
use gamebro.Io.{read_io}
use gamebro.Memory.{read8, read16}
use gamebro.Memory.Invariant.{Looks, with_break, with_break-IsValid, read8-Reads, read_io-Reads}
use gamebro.Memory.Control.{IsRegs, Control-Frame}
use gamebro.Cpu.{regs, peekop8, peekop16}
use gamebro.Safety.{IsSafe}
use gamebro.Safety.Rules.{Safely}
use gamebro.Safety.Frames.{Frame-IsSafe}
use gamebro.Safety.Access.{Byte, Word, Sound}

with_break-IsSafe : (b : Bool) (m : Machine) → IsSafe m → IsSafe (with_break b m)
with_break-IsSafe b m s =
    Frame-IsSafe m (with_break b m) (refl, refl, refl, refl) s (with_break-IsValid b m s.valid)

pub with_break-Sound : (b : Bool) (m : Machine) → Sound (tt, m) → Sound (tt, with_break b m)
with_break-Sound b m s =
    (with_break-IsValid b m s.0, Control-Frame m (with_break b m) (refl, refl, refl, refl) s.1)

-- From a machine that is valid and in order the method returns a value with `P` and changes at most
-- the flag.
pub record Peeks {A : Type 0} (P : A → Type 0) (p : M A) : Type 0 where
  pub run : (m : Machine) → Sound (tt, m) → Returns (λ out. P out.0 × Looks m out) (p m)

pub Peeks-bind :
    {A B : Type 0} {P : A → Type 0} {Q : B → Type 0} {p : M A} {f : A → M B}
    → Peeks P p
    → ((a : A) → P a → Peeks Q (f a))
    → Peeks Q (p >>= f)
Peeks-bind {A} {B} {P} {Q} {p} {f} h next = record {
  run = λ m s.
      then-Returns (λ out. P out.0 × Looks m out) (λ out. Q out.0 × Looks m out) p f m (h.run m s)
        (λ a m' r.
          let b : Bool = m'.cpu.m_break in
          rw (r.1) ((next a r.0).run (with_break b m) (with_break-Sound b m s)));
}

pub Peeks-pure : {A : Type 0} {P : A → Type 0} (a : A) → P a → Peeks P (pure a)
Peeks-pure a h = record { run = λ m s. (h, refl) }

pub Peeks-if :
    {A : Type 0} {P : A → Type 0} {p q : M A} (b : Bool)
    → ((b ≡ true) → Peeks P p)
    → ((b ≡ false) → Peeks P q)
    → Peeks P (if b then p else q)
Peeks-if true h k = h refl
Peeks-if false h k = k refl

pub Peeks-Safely : {A : Type 0} {P : A → Type 0} {p : M A} → Peeks P p → Safely P p
Peeks-Safely {A} {P} {p} h = record {
  run = λ m s.
      Returns-imp (λ out. P out.0 × Looks m out) (λ out. P out.0 × IsSafe out.1) (p m)
        (λ out r. (r.0, rw (r.1) (with_break-IsSafe out.1.cpu.m_break m s)))
        (h.run m (s.valid, s.control));
}

pub regs-Peeks : Peeks IsRegs regs
regs-Peeks = record { run = λ m s. (s.1.registers, refl) }

read8-Peeks : (addr : ℕ) → addr < 65536 → Peeks Byte (read8 addr)
read8-Peeks addr h = record { run = λ m s. read8-Reads m s.0 addr h }

pub read16-Peeks : (addr : ℕ) → addr < 65536 → Peeks Word (read16 addr)
unfolding read16
read16-Peeks addr h = Peeks-bind (read8-Peeks addr h) (λ lo hlo.
    Peeks-bind (read8-Peeks ((addr + 1) % 65536) (omega arith))
      (λ hi hhi. Peeks-pure _ (or-lt 16 lo (hi * 2 ^ 8) (omega arith) (omega arith))))

pub peekop8-Peeks : (disp : ℕ) → Peeks Byte (peekop8 disp)
unfolding peekop8
peekop8-Peeks disp = record {
  run = λ m s. read8-Reads m s.0 ((m.cpu.registers.pc + disp) % 65536) (omega arith);
}

pub peekop16-Peeks : (disp : ℕ) → Peeks Word (peekop16 disp)
unfolding peekop16
peekop16-Peeks disp = record {
  run = λ m s. (read16-Peeks ((m.cpu.registers.pc + disp) % 65536) (omega arith)).run m s;
}

pub read_io-Peeks : (addr : ℕ) → Peeks Byte (read_io addr)
read_io-Peeks addr = record { run = λ m s. read_io-Reads m s.0 addr }
