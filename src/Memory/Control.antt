-- ===== src/Memory/Control.antt =====
-- What the hardware and the processor rely on besides memory: the registers, the clock of the
-- screen and the two DMA engines (libgbc/cpu.hpp, gpu.cpp, io.cpp). Writes through
-- libgbc/memory.cpp keep it.
use gamebro.Base.{ℕ, ◌+◌, ◌<◌, ◌≤◌, ◌≡◌, ◌⊎◌, true, Outcome, ok, fault, Returns}
use gamebro.Registers.{Regs}
use gamebro.State.{Machine, Io, Gpu}
use gamebro.State.Monad.{M, Unit₀, ◌>>=◌, ◌>>◌}
use gamebro.Gpu.{get_mode, lcd_enabled, scanline_cycles}

-- Every byte register holds a byte, every word register a word.
pub record IsRegs (r : Regs) : Type 0 where
  pub flags_byte : r.flags < 256
  pub accum_byte : r.accum < 256
  pub c_byte : r.c < 256
  pub b_byte : r.b < 256
  pub e_byte : r.e < 256
  pub d_byte : r.d < 256
  pub l_byte : r.l < 256
  pub h_byte : r.h < 256
  pub sp_word : r.sp < 65536
  pub pc_word : r.pc < 65536

-- Outside V-blank the line is on the screen.
abbrev pub IsSettled : Gpu → Io → Type 0
IsSettled gpu io = (get_mode io ≡ 1) ⊎ (gpu.current_scanline < 144)

-- Or the LCD has just been switched on, and the next tick starts line 0.
abbrev pub IsReady : ℕ → Gpu → Io → Type 0
IsReady speed gpu io =
    IsSettled gpu io
    ⊎ ((gpu.current_scanline ≡ 153)
        × (scanline_cycles speed ≤ gpu.period)
        × (lcd_enabled io ≡ true))

abbrev pub IsSpeed : ℕ → Type 0
IsSpeed speed = (speed ≡ 1) ⊎ (speed ≡ 2)

-- A running OAM transfer has its target in OAM, a running HDMA transfer below 0xA000.
pub record AreTransfers (io : Io) : Type 0 where
  pub dma_source : io.dma.src < 65536
  pub dma_target :
      (io.dma.bytes_left ≡ 0) ⊎ ((0xfe00 ≤ io.dma.dst) × (io.dma.dst + io.dma.bytes_left ≤ 0xfea0))
  pub hdma_source : io.hdma.src < 65536
  pub hdma_target : (io.hdma.bytes_left ≡ 0) ⊎ (io.hdma.dst < 0xa000)

pub record Control (m : Machine) : Type 0 where
  pub registers : IsRegs m.cpu.registers
  pub speed : IsSpeed m.memory.speed_factor
  pub period_small : m.gpu.period ≤ 930
  pub screen : IsReady m.memory.speed_factor m.gpu m.io
  pub transfers : AreTransfers m.io

-- The part of the machine that `Control` looks at is the same.
abbrev pub Frame : Machine → Machine → Type 0
Frame m m' =
    (m'.io ≡ m.io)
    × (m'.gpu ≡ m.gpu)
    × (m'.memory.speed_factor ≡ m.memory.speed_factor)
    × (m'.cpu.registers ≡ m.cpu.registers)

pub Control-Frame : (m m' : Machine) → Frame m m' → Control m → Control m'
Control-Frame m m' f c = record {
  registers = rw (f.3) c.registers;
  speed = rw (f.2) c.speed;
  period_small = rw (f.1) c.period_small;
  screen = rw (f.0, f.1, f.2) c.screen;
  transfers = rw (f.0) c.transfers;
}

-- The result of a call that returns satisfies `P`; nothing is said of one that does not.
abbrev pub Ends {ℓ} : {A : Type ℓ} → (A → Type 0) → Outcome A → Type 0
Ends P (ok a) = P a
Ends P (fault e) = Unit

pub Returns-Ends {ℓ} :
    {A : Type ℓ} (P Q : A → Type 0) (o : Outcome A)
    → Returns P o
    → Ends Q o
    → Returns (λ a. P a × Q a) o
Returns-Ends P Q (ok a) p q = (p, q)
Returns-Ends P Q (fault e) p q = p

pub Ends-then :
    {B : Type 0} (P : Machine → Type 0) (Q : B × Machine → Type 0) (p : M Unit₀) (k : M B)
    (m : Machine)
    → Ends (λ out. P out.1) (p m)
    → ((m' : Machine) → P m' → Ends Q (k m'))
    → Ends Q ((p >> k) m)
Ends-then {B} P Q p k m h next = go (p m) h
  where
    go :
        (o : Outcome (Unit₀ × Machine))
        → Ends (λ out. P out.1) o
        → Ends Q (elim o [ ok (a, m') ↦ k m' | fault e ↦ fault e ])
    go (ok (a, m')) h = next m' h
    go (fault e) h = tt

pub Ends-bind :
    {A B : Type 0} (P : Machine → Type 0) (Q : B × Machine → Type 0) (p : M A) (f : A → M B)
    (m : Machine)
    → Ends (λ out. P out.1) (p m)
    → ((a : A) (m' : Machine) → P m' → Ends Q (f a m'))
    → Ends Q ((p >>= f) m)
Ends-bind {A} P Q p f m h next = go (p m) h
  where
    go :
        (o : Outcome (A × Machine))
        → Ends (λ out. P out.1) o
        → Ends Q (elim o [ ok (a, m') ↦ f a m' | fault e ↦ fault e ])
    go (ok (a, m')) h = next a m' h
    go (fault e) h = tt

pub Ends-imp {ℓ} :
    {A : Type ℓ} (P Q : A → Type 0) (o : Outcome A) → ((a : A) → P a → Q a) → Ends P o → Ends Q o
Ends-imp P Q (ok a) f h = f a h
Ends-imp P Q (fault e) f h = tt

abbrev pub Controls : Unit₀ × Machine → Type 0
Controls out = Control out.1
