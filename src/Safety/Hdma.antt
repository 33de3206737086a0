-- ===== src/Safety/Hdma.antt =====
-- HDMA of libgbc/io.cpp keeps the machine safe, whatever it copies.
use gamebro.Base.{
  ℕ, zero, suc, ◌+◌, ◌-◌, ◌%◌, ◌<◌, ◌≡◌, inl, inr, refl, arith, Bool, true, false, bit_and, min,
  ltb, ◌==◌, ◌!=◌, ◌&&◌, Bool-cases, Returns, ◌∙◌, ap, and-le,
}
use gamebro.State.{Machine, Io, Dma, reg, set_reg}
use gamebro.State.Monad.{Unit₀, ◌>>◌, when, gets, modify_io, then-Returns}
use gamebro.State.Ports.{reg_hdma5, reg_ly}
use gamebro.Gpu.{is_hblank}
use gamebro.Io.Simulate.{copy_hdma, run_hdma}
use gamebro.Memory.{write8}
use gamebro.Memory.Invariant.{IsValid, with_break, with_break-IsValid}
use gamebro.Memory.Control.{AreTransfers}
use gamebro.Safety.{IsSafe}
use gamebro.Safety.Setup.{read8-then}
use gamebro.Safety.Frames.{
  set_reg-IsSafe, engines-IsSafe, engines-IsValid, with_engines, Frame-IsSafe,
}
use gamebro.Safety.OamDma.{Stores, low_write-Stores}

-- In the middle of a block of HDMA `left` bytes are to go, and only the engine's two addresses have
-- moved.
record IsCopying (start m : Machine) (left : ℕ) : Type 0 where
  valid : IsValid m
  io_kept :
      m.io
      ≡ record start.io { hdma = record start.io.hdma { src = m.io.hdma.src; dst = m.io.hdma.dst } }
  gpu_kept : m.gpu ≡ start.gpu
  speed_kept : m.memory.speed_factor ≡ start.memory.speed_factor
  registers_kept : m.cpu.registers ≡ start.cpu.registers
  source : m.io.hdma.src < 65536
  target : m.io.hdma.dst + left < 0xff00

copy_hdma-IsCopying :
    (start : Machine) (n : ℕ) (m : Machine)
    → IsCopying start m n
    → Returns (λ out. IsCopying start out.1 0) (copy_hdma n m)
unfolding copy_hdma
copy_hdma-IsCopying start zero m c = c
copy_hdma-IsCopying start (suc n) m c =
    let io : Io = m.io in
    let src : ℕ = (io.hdma.src + 1) % 65536 in
    let dst : ℕ = (io.hdma.dst + 1) % 65536 in
    let m1 : Machine = record m { io = record io { hdma = record io.hdma { src = src } } } in
    let v1 : IsValid m1 =
      engines-IsValid m c.valid io.divider io.timabug io.dma (record io.hdma { src = src }) in
    read8-then (λ out. IsCopying start out.1 0) m1 io.hdma.src _ v1 c.source
      (λ x b hx.
        let m2 : Machine = record m {
          cpu = record m.cpu { m_break = b };
          io = record io { hdma = record io.hdma { src = src; dst = dst } };
        } in
        let v2 : IsValid m2 =
          engines-IsValid (with_break b m) (with_break-IsValid b m c.valid) io.divider io.timabug
            io.dma (record io.hdma { src = src; dst = dst }) in
        then-Returns (Stores m2) (λ out. IsCopying start out.1 0) (write8 io.hdma.dst x)
          (λ u. copy_hdma n) m2 (low_write-Stores m2 io.hdma.dst x v2 (omega (arith, c.target)) hx)
          (λ u m' r. copy_hdma-IsCopying start n m' (record {
            valid = r.0;
            io_kept = rw (r.1.0) (
                ap {A = Io} {B = Io}
                  (λ i. record i { hdma = record i.hdma { src = src; dst = dst } }) c.io_kept);
            gpu_kept = r.1.1 ∙ c.gpu_kept;
            speed_kept = r.1.2 ∙ c.speed_kept;
            registers_kept = r.1.3 ∙ c.registers_kept;
            source = rw (r.1.0) (omega arith);
            target = rw (r.1.0) (omega (arith, c.target));
          })))

-- After a block the target is wrapped into video RAM, and the block's bytes are counted off.
abbrev count_block : ℕ → Io → Io
count_block btw io = record io {
  hdma = record io.hdma { dst = bit_and io.hdma.dst 0x9fff; bytes_left = io.hdma.bytes_left - btw };
}

block-IsSafe :
    (m : Machine)
    → IsSafe m
    → (btw : ℕ) (m' : Machine)
    → IsCopying
        (record m { io = record m.io { hdma = record m.io.hdma { cur_line = reg reg_ly m.io } } })
        m'
        0
    → IsSafe (record m' { io = count_block btw m'.io })
block-IsSafe m s btw m' c =
    let io : Io = m.io in
    let t : AreTransfers io = s.control.transfers in
    let counted : Dma = record io.hdma {
      cur_line = reg reg_ly io;
      src = m'.io.hdma.src;
      dst = bit_and m'.io.hdma.dst 0x9fff;
      bytes_left = io.hdma.bytes_left - btw;
    } in
    let last : Machine = record m { io = with_engines io.divider io.timabug io.dma counted io } in
    let safe : IsSafe last = engines-IsSafe m s io.divider io.timabug io.dma counted (record {
      dma_source = t.dma_source;
      dma_target = t.dma_target;
      hdma_source = c.source;
      hdma_target = inr (omega (arith, and-le m'.io.hdma.dst 0x9fff));
    }) in
    Frame-IsSafe last (record m' { io = count_block btw m'.io })
      (ap {A = Io} {B = Io} (count_block btw) c.io_kept, c.gpu_kept, c.speed_kept, c.registers_kept)
      safe
      (engines-IsValid m' c.valid m'.io.divider m'.io.timabug m'.io.dma
        (count_block btw m'.io).hdma)

pub run_hdma-IsSafe : (m : Machine) → IsSafe m → Returns (λ out. IsSafe out.1) (run_hdma m)
unfolding run_hdma
run_hdma-IsSafe m s =
    let io : Io = m.io in
    let t : AreTransfers io = s.control.transfers in
    let btw : ℕ = min 16 io.hdma.bytes_left in
    let lined : Dma = record io.hdma { cur_line = reg reg_ly io } in
    let m0 : Machine = record m { io = record io { hdma = lined } } in
    elim (Bool-cases
      (ltb 0 io.hdma.bytes_left && (is_hblank io && io.hdma.cur_line != reg reg_ly io))) [
        | inr e ↦ rw e s
        | inl e ↦ rw e (
            let Safe : Unit₀ × Machine → Type 0 = λ out. IsSafe out.1 in
            then-Returns {A = Bool} {B = Unit₀} (λ out. IsSafe out.1) Safe
              (modify_io (λ io. record io { hdma = record io.hdma { cur_line = reg reg_ly io } })
                >> copy_hdma btw
                >> modify_io (count_block btw)
                >> gets (λ m. m.io.hdma.bytes_left == 0))
              (λ done. when done (modify_io (set_reg reg_hdma5 0xff))) m
              (then-Returns {A = Unit₀} {B = Bool} Safe (λ out. IsSafe out.1)
                (modify_io (λ io. record io { hdma = record io.hdma { cur_line = reg reg_ly io } })
                  >> copy_hdma btw
                  >> modify_io (count_block btw))
                (λ u. gets (λ m. m.io.hdma.bytes_left == 0)) m
                (then-Returns {A = Unit₀} {B = Unit₀} (λ out. IsCopying m0 out.1 0) Safe
                  (modify_io
                      (λ io. record io { hdma = record io.hdma { cur_line = reg reg_ly io } })
                    >> copy_hdma btw)
                  (λ u. modify_io (count_block btw)) m
                  (copy_hdma-IsCopying m0 btw m0 (record {
                    valid = engines-IsValid m s.valid io.divider io.timabug io.dma lined;
                    io_kept = refl;
                    gpu_kept = refl;
                    speed_kept = refl;
                    registers_kept = refl;
                    source = t.hdma_source;
                    target = ground (arith, e, t.hdma_target);
                  }))
                  (λ u m' c. block-IsSafe m s btw m' c))
                (λ u m' s'. s'))
              (λ done m' s'. finished done m' s'))
      ]
  where
    finished :
        (done : Bool) (m' : Machine)
        → IsSafe m'
        → Returns (λ out. IsSafe out.1) (when done (modify_io (set_reg reg_hdma5 0xff)) m')
    finished true m' s' =
        set_reg-IsSafe m' s' reg_hdma5 0xff (omega arith) (omega arith) (omega arith)
    finished false m' s' = s'
