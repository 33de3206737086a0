-- ===== src/Memory/Traps.antt =====
-- What the breakpoint functions of libgbc/debug.cpp come to in `Memory::read8` and `write8` of
-- libgbc/memory.cpp.
use gamebro.Base.{
  ℕ, ◌<◌, ◌≡◌, ◌∙◌, refl, ap, List, [], ◌∷◌, Bool, true, false, ◌||◌, ◌==◌, Bool-cases, inl, inr,
  if◌then◌else◌, Outcome, ok, fault, Returns,
}
use gamebro.State.{Machine}
use gamebro.State.Monad.{Unit₀, ◌>>◌, break_now, bind-ok}
use gamebro.Io.Write.{write_io}
use gamebro.Memory.{
  fetch8, store8, traps, read_traps, write_traps, read8, write8_with, inner_write8, write8,
}
use gamebro.Memory.Invariant.{IsValid, with_break, with_break-IsValid, fetch8-Reads, Reads}

abbrev pub is_listed : ℕ → List ℕ → Bool
is_listed addr [] = false
is_listed addr (traploc ∷ locs) = addr == traploc || is_listed addr locs

-- The debugger's flag is set where the address is one of the locations.
abbrev pub stopped_at : ℕ → List ℕ → Machine → Machine
stopped_at addr locs m = if is_listed addr locs then with_break true m else m

module _ (addr : ℕ) (h : addr < 65536) where
  trap-ok : (m : Machine) → IsValid m → (fetch8 addr >> break_now) m ≡ ok (tt, with_break true m)
  trap-ok m v = go (fetch8 addr m) (fetch8-Reads m v addr h)
    where
      go :
          (o : Outcome (ℕ × Machine))
          → Returns (Reads m) o
          → elim o as (λ o. Outcome (Unit₀ × Machine)) [
            | ok (a, m') ↦ break_now m'
            | fault e ↦ fault e
          ]
            ≡ ok (tt, with_break true m)
      go (ok out) r = rw (r.1) refl
      go (fault e) r = absurd r

  traps-stopped_at :
      (locs : List ℕ) (m : Machine)
      → IsValid m
      → traps locs addr m ≡ ok (tt, stopped_at addr locs m)
  unfolding traps
  traps-stopped_at [] m v = refl
  traps-stopped_at (traploc ∷ locs) m v = elim (Bool-cases (addr == traploc)) [
    | inl e ↦ rw e (
        bind-ok (fetch8 addr >> break_now) (λ u. traps locs addr) m (with_break true m) tt
          (trap-ok m v)
        ∙ traps-stopped_at locs (with_break true m) (with_break-IsValid true m v)
        ∙ ap (λ n. ok (tt, n)) (again (is_listed addr locs)))
    | inr e ↦ rw e (traps-stopped_at locs m v)
  ]
    where
      again :
          (b : Bool)
          → (if b then with_break true (with_break true m) else with_break true m)
            ≡ with_break true m
      again true = refl
      again false = refl

-- In a valid machine and at a 16-bit address, the functions that `rb` and `wb` have installed do
-- nothing but set the debugger's flag before the access, and only for an access to one of their
-- locations; then the read or the write goes on as without them.
pub read8-write8_stopped :
    (m : Machine) (addr x : ℕ)
    → IsValid m
    → addr < 65536
    → (read8 addr m ≡ fetch8 addr (stopped_at addr m.memory.read_breakpoints m))
      × (write8 addr x m
          ≡ store8
              (write_io read8 inner_write8)
              addr
              x
              (stopped_at addr m.memory.write_breakpoints m))
unfolding read8 read_traps write8 write8_with write_traps
read8-write8_stopped m addr x v h = (
  bind-ok (read_traps addr) (λ u. fetch8 addr) m (stopped_at addr m.memory.read_breakpoints m) tt
      (traps-stopped_at addr h m.memory.read_breakpoints m v),
  bind-ok (write_traps addr) (λ u. store8 (write_io read8 inner_write8) addr x) m
      (stopped_at addr m.memory.write_breakpoints m) tt
      (traps-stopped_at addr h m.memory.write_breakpoints m v),
)
