-- ===== src/Safety/OamDma.antt =====
-- OAM DMA of libgbc/io.cpp keeps the machine safe, and so does each byte that an engine stores.
use gamebro.Base.{ℕ, ◌+◌, ◌-◌, ◌%◌, ◌<◌, inl, inr, arith, ltb, Bool-cases, Returns, ap}
use gamebro.State.{Machine, Io, Dma}
use gamebro.State.Monad.{M, Unit₀, ◌>>=◌, ◌>>◌, modify_io, then-Returns}
use gamebro.Io.Simulate.{run_dma}
use gamebro.Memory.{read8, write8}
use gamebro.Memory.Invariant.{IsValid, with_break, with_break-IsValid}
use gamebro.Memory.Writes.{write8-IsValid}
use gamebro.Memory.Ports.{Keeps}
use gamebro.Memory.Commands.{write8_with-Frame}
use gamebro.Memory.Control.{Frame, AreTransfers, Returns-Ends}
use gamebro.Safety.{IsSafe}
use gamebro.Safety.Setup.{read8-then}
use gamebro.Safety.Frames.{engines-IsSafe, engines-IsValid, with_engines, Frame-IsSafe}

-- A write below the ports changes no more than memory, and leaves the machine valid.
abbrev pub Stores : Machine → Unit₀ × Machine → Type 0
Stores m out = IsValid out.1 × Frame m out.1

pub low_write-Stores :
    (m : Machine) (addr x : ℕ)
    → IsValid m
    → addr < 0xff00
    → x < 256
    → Returns (Stores m) (write8 addr x m)
unfolding write8
low_write-Stores m addr x v h hx =
    Returns-Ends Keeps (λ out. Frame m out.1) (write8 addr x m)
      (write8-IsValid m v x hx addr (omega arith)) (write8_with-Frame m _ addr x h)

-- One byte: the read and the write.
copied-Stores :
    {B : Type 0} (Q : B × Machine → Type 0) (m : Machine) (src dst : ℕ) (k : M B)
    → IsValid m
    → src < 65536
    → dst < 0xff00
    → ((m' : Machine) → IsValid m' → Frame m m' → Returns Q (k m'))
    → Returns Q ((read8 src >>= λ v. write8 dst v >> k) m)
copied-Stores Q m src dst k v hs hd next =
    read8-then Q m src (λ x. write8 dst x >> k) v hs
      (λ x b hx.
        then-Returns (Stores (with_break b m)) Q (write8 dst x) (λ u. k) (with_break b m)
          (low_write-Stores (with_break b m) dst x (with_break-IsValid b m v) hd hx)
          (λ u m' r. next m' r.0 r.1))

-- A byte of OAM DMA: the engine's registers count on, and nothing else that matters changes.
module _ (m : Machine) (s : IsSafe m) where
  dma_byte-IsSafe :
      0 < m.io.dma.bytes_left
      → let dma = m.io.dma in
        Returns
          (λ out. IsSafe out.1)
          ((read8 dma.src >>= λ v.
              write8 dma.dst v
              >> modify_io
                  (λ io. record io { dma = record io.dma { bytes_left = io.dma.bytes_left - 1 } }))
            (record m {
              io = record m.io {
                dma = record dma { src = (dma.src + 1) % 65536; dst = (dma.dst + 1) % 65536 };
              };
            }))
  dma_byte-IsSafe h =
      let t : AreTransfers m.io = s.control.transfers in
      let dma : Dma = m.io.dma in
      let moved : Dma = record dma { src = (dma.src + 1) % 65536; dst = (dma.dst + 1) % 65536 } in
      let counted : Dma = record moved { bytes_left = dma.bytes_left - 1 } in
      let io : Io = m.io in
      let m1 : Machine = record m { io = with_engines io.divider io.timabug moved io.hdma io } in
      let last : Machine = record m {
        io = with_engines io.divider io.timabug counted io.hdma io;
      } in
      let safe : IsSafe last = engines-IsSafe m s io.divider io.timabug counted io.hdma (record {
        dma_source = omega arith;
        dma_target = ground (arith, t.dma_target, h);
        hdma_source = t.hdma_source;
        hdma_target = t.hdma_target;
      }) in
      copied-Stores (λ out. IsSafe out.1) m1 dma.src dma.dst
        (modify_io (λ io. record io { dma = record io.dma { bytes_left = io.dma.bytes_left - 1 } }))
        (engines-IsValid m s.valid io.divider io.timabug moved io.hdma) t.dma_source
        (ground (arith, t.dma_target, h))
        (λ m' v f.
          Frame-IsSafe last
            (record m' {
              io = record m'.io {
                dma = record m'.io.dma { bytes_left = m'.io.dma.bytes_left - 1 };
              };
            })
            (
              ap {A = Io} {B = Io}
                  (λ io. record io { dma = record io.dma { bytes_left = io.dma.bytes_left - 1 } })
                  f.0,
              f.1,
              f.2,
              f.3,
            )
            safe
            (engines-IsValid m' v m'.io.divider m'.io.timabug
              (record m'.io.dma { bytes_left = m'.io.dma.bytes_left - 1 }) m'.io.hdma))

pub run_dma-IsSafe : (m : Machine) → IsSafe m → Returns (λ out. IsSafe out.1) (run_dma m)
unfolding run_dma
run_dma-IsSafe m s =
    let t : AreTransfers m.io = s.control.transfers in
    let dma : Dma = m.io.dma in
    elim (Bool-cases (ltb 0 dma.bytes_left)) [
      | inr e ↦ rw e s
      | inl e ↦ rw e (elim (Bool-cases (ltb 0 dma.slow_start)) [
        | inl f ↦ rw f (
            engines-IsSafe m s m.io.divider m.io.timabug
              (record dma { slow_start = dma.slow_start - 1 }) m.io.hdma
              (record {
                dma_source = t.dma_source;
                dma_target = t.dma_target;
                hdma_source = t.hdma_source;
                hdma_target = t.hdma_target;
              }))
        | inr f ↦ rw f (dma_byte-IsSafe m s (ground (arith, e)))
      ])
    ]
