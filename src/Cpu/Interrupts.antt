-- ===== src/Cpu/Interrupts.antt =====
-- `CPU::handle_interrupts` and the switch behind it: libgbc/cpu.cpp.
use gamebro.Base.{
  ℕ, ◌*◌, ◌/◌, ◌%◌, ◌^◌, ◌≡◌, ◌≢◌, arith, bit_and, true, false, and_mask, and_high, ok, pos,
  is_positive,
}
use gamebro.State.{Cpu, Machine}
use gamebro.State.Monad.{pure}
use gamebro.Io.{interrupt_mask}
use gamebro.Cpu.{enable_interrupts, disable_interrupts}
use gamebro.Cpu.Execute.{Callbacks, count_pending, dispatch, handle_interrupts}

-- When no EI is pending, EI takes effect at the second count after it and not at the first, a
-- second EI in between does not put it off, and the third count changes nothing; DI likewise turns
-- interrupts off at the second count.
pub count_pending-delay :
    (c : Cpu)
    → is_positive c.intr_pending ≡ false
    → let on = count_pending (enable_interrupts c) in
      let off = count_pending (disable_interrupts c) in
      (on.ime ≡ c.ime)
      × ((count_pending on).ime ≡ true)
      × ((count_pending (enable_interrupts on)).ime ≡ true)
      × (off.ime ≡ c.ime)
      × ((count_pending off).ime ≡ false)
      × ((count_pending (count_pending on)).ime ≡ true)
      × ((count_pending (count_pending off)).ime ≡ false)
unfolding count_pending enable_interrupts disable_interrupts
count_pending-delay c h = ground (arith, h)

bit_test : (k x : ℕ) → bit_and x (2 ^ k) ≡ x / 2 ^ k % 2 * 2 ^ k
bit_test k x = ground (arith, and_high k x 1, and_mask 1 (x / 2 ^ k))

dispatch_none :
    (callbacks : Callbacks) (imask : ℕ) → imask % 32 ≡ 0 → dispatch callbacks imask ≡ pure tt
unfolding dispatch
dispatch_none callbacks imask h = ground (
  arith,
  and_mask 1 imask,
  bit_test 1 imask,
  bit_test 2 imask,
  bit_test 3 imask,
  bit_test 4 imask,
)

-- With no change of the switch pending and the switch on, a request in none of the five bits but
-- in one above turns the switch off, and no interrupt is taken.
pub handle_interrupts-lost :
    (callbacks : Callbacks) (m : Machine)
    → m.cpu.intr_pending ≡ pos 0
    → m.cpu.ime ≡ true
    → interrupt_mask m.io % 32 ≡ 0
    → interrupt_mask m.io ≢ 0
    → handle_interrupts callbacks m
      ≡ ok (tt, record m { cpu = let c = m.cpu in record c { ime = false; asleep = false } })
unfolding handle_interrupts count_pending
handle_interrupts-lost callbacks m p i z h =
    rw (p, i) (ground (arith, dispatch_none callbacks (interrupt_mask m.io) z))
