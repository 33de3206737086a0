-- ===== src/Debug/Steady.antt =====
-- How order passes through the steps of libgbc/cpu.cpp after the debugger, whose writes may have
-- switched the LCD on; the next tick of the hardware makes the machine safe.
use gamebro.Base.{
  ℕ, ◌-◌, arith, true, false, not, ◌&&◌, ◌!=◌, bit_and, and-le, Outcome, ok, fault, Returns,
}
use gamebro.Base.{Option, none, some, ◌≡◌, refl, inl, inr}
use gamebro.Cpu.{push_and_jump}
use gamebro.Cpu.Execute.{Callbacks, Sets, call_if_set}
use gamebro.State.{Machine, Cpu, reg, set_reg}
use gamebro.State.Monad.{M, Unit₀, ◌>>=◌, ◌>>◌, gets, modify_cpu, modify_io}
use gamebro.State.Ports.{reg_if, Interrupt, vblank, lcd_stat, timerint, serialint, joypadint}
use gamebro.Io.{interrupt_mask}
use gamebro.Memory.Ports.{set_reg-IsValid}
use gamebro.Memory.Kept.{set_reg-Control}
use gamebro.Memory.Control.{IsRegs}
use gamebro.Cpu.{hardware_tick}
use gamebro.Cpu.Execute.{
  count_pending, interrupt, dispatch, handle_interrupts, count_break, break_time,
}
use gamebro.Safety.{IsSafe}
use gamebro.Base.{Returns-imp}
use gamebro.State.Monad.{then-Returns}
use gamebro.Memory.Invariant.{IsValid, Looks}
use gamebro.Memory.Control.{Control}
use gamebro.Safety.Rules.{Safely, Any, Safely-gets}
use gamebro.Safety.Tick.{hardware_tick-IsSafe}
use gamebro.Safety.Peeks.{Peeks, with_break-Sound}
use gamebro.Safety.Access.{Sound, hardware_tick-Safely, push_and_jump-Safely}
use gamebro.Safety.Step.{pending-IsRegs, count_break-IsRegs}
use gamebro.Debug.Rules.{Grade, Handles, Soundly, Soundly-bind, Soundly-pure, Soundly-if}

pub Safely-May :
    (bad : Grade) {A : Type 0} {P : A → Type 0} {p : M A}
    → Safely P p
    → (m : Machine) → IsSafe m
    → Handles bad P (p m)
Safely-May bad {A} {P} {p} h m s = go (p m) (h.run m s)
  where
    go : (o : Outcome (A × Machine)) → Returns (λ out. P out.0 × IsSafe out.1) o → Handles bad P o
    go (ok out) r = (r.0, (r.1.valid, r.1.control))
    go (fault e) r = absurd r

pub Peeks-May : {bad : Grade} {A : Type 0} {P : A → Type 0} {p : M A} → Peeks P p → Soundly bad P p
Peeks-May {bad} {A} {P} {p} h = record { run = λ m s. go m s (p m) (h.run m s) }
  where
    go :
        (m : Machine)
        → Sound (tt, m)
        → (o : Outcome (A × Machine)) → Returns (λ out. P out.0 × Looks m out) o
        → Handles bad P o
    go m s (ok out) r = (r.0, rw (r.1) (with_break-Sound out.1.cpu.m_break m s))
    go m s (fault e) r = absurd r

-- After a tick the machine is safe again, and what follows may rely on it.
pub tick-then :
    {bad : Grade} {A : Type 0} (k : M A)
    → ((m : Machine) → IsSafe m → Handles bad Any (k m))
    → Soundly bad Any (hardware_tick >> k)
tick-then {bad} {A} k next = record {
  run = λ m s. go (hardware_tick m) (hardware_tick-IsSafe m s.0 s.1);
}
  where
    go :
        (o : Outcome (Unit₀ × Machine))
        → Returns (λ out. IsSafe out.1) o
        → Handles bad Any (elim o [ ok (a, m') ↦ k m' | fault e ↦ fault e ])
    go (ok out) r = next out.1 r
    go (fault e) r = absurd r

-- The registers change within their ranges.
pub registers-May :
    {bad : Grade} (f : Cpu → Cpu)
    → ((c : Cpu) → IsRegs c.registers → IsRegs (f c).registers)
    → Soundly bad Any (modify_cpu f)
registers-May f h = record {
  run = λ m s. (
    tt,
    (
      ground (arith, s.0),
      record {
        registers = h m.cpu s.1.registers;
        speed = s.1.speed;
        period_small = s.1.period_small;
        screen = s.1.screen;
        transfers = s.1.transfers;
      },
    ),
  );
}

pub gets-May : {bad : Grade} {A : Type 0} (f : Machine → A) → Soundly bad Any (gets f)
gets-May f = record { run = λ m s. (tt, s) }

-- From one kind of machine to another, with a value that has `P` and no fault.
record Leads {A : Type 0} (Pre Post : Machine → Type 0) (P : A → Type 0) (p : M A) : Type 0 where
  run : (m : Machine) → Pre m → Returns (λ out. P out.0 × Post out.1) (p m)

abbrev InOrder : Machine → Type 0
InOrder m = IsValid m × Control m

Leads-bind :
    {A B : Type 0} {Pre Mid Post : Machine → Type 0} {P : A → Type 0} {Q : B → Type 0} {p : M A}
    {f : A → M B}
    → Leads Pre Mid P p
    → ((a : A) → P a → Leads Mid Post Q (f a))
    → Leads Pre Post Q (p >>= f)
Leads-bind {A} {B} {Pre} {Mid} {Post} {P} {Q} {p} {f} h next = record {
  run = λ m s.
      then-Returns (λ out. P out.0 × Mid out.1) (λ out. Q out.0 × Post out.1) p f m (h.run m s)
        (λ a m' r. (next a r.0).run m' r.1);
}

Safely-Leads : {A : Type 0} {P : A → Type 0} {p : M A} → Safely P p → Leads IsSafe IsSafe P p
Safely-Leads h = record { run = λ m s. h.run m s }

-- A safe machine is in order.
relaxed :
    {A : Type 0} {Pre : Machine → Type 0} {P : A → Type 0} {p : M A}
    → Leads Pre IsSafe P p
    → Leads Pre InOrder P p
relaxed {A} {Pre} {P} {p} h = record {
  run = λ m s.
      Returns-imp (λ out. P out.0 × IsSafe out.1) (λ out. P out.0 × InOrder out.1) (p m)
        (λ out r. (r.0, (r.1.valid, r.1.control))) (h.run m s);
}

Leads-May :
    {bad : Grade} {A : Type 0} {P : A → Type 0} {p : M A}
    → Leads InOrder InOrder P p
    → Soundly bad P p
Leads-May {bad} {A} {P} {p} h = record { run = λ m s. go (p m) (h.run m s) }
  where
    go : (o : Outcome (A × Machine)) → Returns (λ out. P out.0 × InOrder out.1) o → Handles bad P o
    go (ok out) r = r
    go (fault e) r = absurd r

clear_request-Leads :
    (mask : ℕ)
    → Leads InOrder InOrder Any
        (modify_io (λ io. set_reg reg_if (bit_and (reg reg_if io) (255 - mask)) io))
clear_request-Leads mask = record {
  run = λ m s.
      let x : ℕ = bit_and (reg reg_if m.io) (255 - mask) in
      (
        tt,
        (
          set_reg-IsValid m s.0 reg_if x (omega (arith, and-le (reg reg_if m.io) (255 - mask))),
          set_reg-Control m s.1 reg_if x (omega arith) (omega arith),
        ),
      );
}

tick-Leads : Leads InOrder IsSafe Any hardware_tick
tick-Leads = record {
  run = λ m s.
      Returns-imp (λ out. IsSafe out.1) (λ out. Any out.0 × IsSafe out.1) (hardware_tick m)
        (λ out r. (tt, r)) (hardware_tick-IsSafe m s.0 s.1);
}

-- An interrupt up to its callback.
entered-Leads :
    (intr : Interrupt)
    → Leads InOrder IsSafe Any (
        modify_io (λ io. set_reg reg_if (bit_and (reg reg_if io) (255 - intr.mask)) io)
        >> hardware_tick
        >> hardware_tick
        >> push_and_jump intr.fixed_address
        >> gets (λ m. m.break_on_interrupts && not m.cpu.m_break))
entered-Leads intr =
    Leads-bind {P = Any}
      (Leads-bind {P = Any}
        (Leads-bind {P = Any}
          (Leads-bind {P = Any} (clear_request-Leads intr.mask) (λ u v. tick-Leads))
          (λ u v. Safely-Leads hardware_tick-Safely))
        (λ u v. Safely-Leads (push_and_jump-Safely intr.fixed_address)))
      (λ u v.
        Safely-Leads
          (Safely-gets {P = Any} {f = λ m. m.break_on_interrupts && not m.cpu.m_break} (λ m s. tt)))

call_if_set-May :
    {bad : Grade} (callback : Option (M Unit₀))
    → ((f : M Unit₀) → callback ≡ some f → Soundly bad Any f)
    → Soundly bad Any (call_if_set callback)
call_if_set-May none h = Soundly-pure tt
call_if_set-May (some f) h = h f refl

interrupt-May :
    {bad : Grade} (intr : Interrupt) (callback : Option (M Unit₀))
    → ((f : M Unit₀) → callback ≡ some f → Soundly bad Any f)
    → Soundly bad Any (interrupt intr callback)
unfolding interrupt
interrupt-May intr callback h =
    Soundly-bind {P = Any} (Leads-May (relaxed (entered-Leads intr))) (λ b u.
      Soundly-bind {P = Any}
        (Soundly-if b (λ e. registers-May (λ c. record c { m_break = true }) (λ c r. r))
          (λ e. Soundly-pure tt))
        (λ u v. call_if_set-May callback h))

-- Neither the LCD's interrupt nor the serial one can have a callback.
unset : {bad : Grade} (f : M Unit₀) → none ≡ some f → Soundly bad Any f
unset f e = absurd (ground (arith, e))

module _ {bad : Grade} (callbacks : Callbacks)
    (calling : (f : M Unit₀) → Sets callbacks f → Soundly bad Any f) where
  dispatch-May : (imask : ℕ) → Soundly bad Any (dispatch callbacks imask)
  unfolding dispatch
  dispatch-May imask =
      Soundly-if (bit_and imask 0x1 != 0)
        (λ e. interrupt-May vblank callbacks.vblank (λ f k. calling f (inl k)))
        (λ e.
          Soundly-if (bit_and imask 0x2 != 0) (λ e. interrupt-May lcd_stat none unset)
            (λ e.
              Soundly-if (bit_and imask 0x4 != 0)
                (λ e. interrupt-May timerint callbacks.timerint (λ f k. calling f (inr (inl k))))
                (λ e.
                  Soundly-if (bit_and imask 0x8 != 0) (λ e. interrupt-May serialint none unset)
                    (λ e.
                      Soundly-if (bit_and imask 0x10 != 0)
                        (λ e.
                          interrupt-May joypadint callbacks.joypadint
                            (λ f k. calling f (inr (inr (inl k)))))
                        (λ e. Soundly-pure tt)))))

  pub handle_interrupts-May : Soundly bad Any (handle_interrupts callbacks)
  unfolding handle_interrupts
  handle_interrupts-May =
      Soundly-bind {P = Any} (registers-May count_pending pending-IsRegs) (λ u v.
        Soundly-bind {P = Any} (gets-May (λ m. interrupt_mask m.io)) (λ imask v.
          Soundly-bind {P = Any} (gets-May (λ m. m.cpu)) (λ c v.
            Soundly-if (c.ime && imask != 0)
              (λ e.
                Soundly-bind {P = Any}
                  (registers-May (λ c. record c { ime = false; asleep = false }) (λ c r. r))
                  (λ u v. dispatch-May imask))
              (λ e.
                Soundly-if (c.haltbug && imask != 0)
                  (λ e.
                    registers-May (λ c. record c { asleep = false; haltbug = false }) (λ c r. r))
                  (λ e. Soundly-pure tt)))))

pub break_time-May : {bad : Grade} → Soundly bad Any break_time
unfolding break_time
break_time-May {bad} = record {
  run = λ m s. (registers-May {bad = bad} (λ c. (count_break c).1) count_break-IsRegs).run m s;
}
