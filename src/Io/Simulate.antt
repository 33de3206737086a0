-- ===== src/Io/Simulate.antt =====
-- `IO::simulate` of libgbc/io.cpp: the divider and the timer, and the two DMA engines.
use gamebro.Base.{ℕ, zero, suc, ◌+◌, ◌-◌, ◌/◌, ◌%◌, ◌^◌, min, bit_and}
use gamebro.Base.{◌&&◌, ltb, ◌==◌, ◌!=◌, if◌then◌else◌}
use gamebro.State.{Io, reg, set_reg}
use gamebro.State.Monad.{M, Unit₀, pure, ◌>>◌, ◌>>=◌, when, gets, modify_io}
use gamebro.State.Ports.{reg_div, reg_tima, reg_tma, reg_tac, reg_ly, reg_hdma5, timerint, trigger}
use gamebro.Gpu.{is_hblank}
use gamebro.Memory.{read8, write8}

unfoldable pub count_divider : Io → Io
count_divider io =
    let divider = (io.divider + 256 / 64) % 65536 in
    set_reg reg_div (divider / 2 ^ 8) (record io { divider = divider })

-- The array TIMA_CYCLES at `TAC & 3`.
unfoldable pub tima_cycles : ℕ → ℕ
tima_cycles speed =
    if speed == 0 then 1024 else if speed == 1 then 16 else if speed == 2 then 64 else 256

unfoldable pub count_tima : Io → Io
count_tima io =
    let tima = (reg reg_tima io + 1) % 256 in
    let io1 = set_reg reg_tima tima io in
    if tima == 0 then record (trigger timerint io1) { timabug = 4 } else io1

unfoldable pub reload_tima : Io → Io
reload_tima io =
    let io1 = record io { timabug = io.timabug - 1 } in
    if io1.timabug == 0 then set_reg reg_tima (reg reg_tma io1) io1 else io1

unfoldable pub run_tima : Io → Io
run_tima io =
    if bit_and (reg reg_tac io) 0x4 != 0
    then (if io.divider % tima_cycles (bit_and (reg reg_tac io) 0x3) == 0
        then count_tima io
        else if ltb 0 io.timabug
        then reload_tima io
        else io)
    else io

-- One byte of OAM DMA, after the slow start.
unfoldable pub run_dma : M Unit₀
run_dma m =
    let dma = m.io.dma in
    if ltb 0 dma.bytes_left
    then (if ltb 0 dma.slow_start
        then modify_io (λ io. record io { dma = record dma { slow_start = dma.slow_start - 1 } }) m
        else (modify_io (λ io. record io {
          dma = record dma { src = (dma.src + 1) % 65536; dst = (dma.dst + 1) % 65536 };
        })
              >> read8 dma.src
              >>= λ v.
                  write8 dma.dst v
                  >> modify_io (λ io. record io {
                    dma = record io.dma { bytes_left = io.dma.bytes_left - 1 };
                  }))
            m)
    else pure tt m

-- The copy loop of HDMA. The addresses are counted up before each access, as both are local to it.
unfoldable pub copy_hdma : ℕ → M Unit₀
copy_hdma zero m = pure tt m
copy_hdma (suc n) m =
    (modify_io (λ io. record io { hdma = record io.hdma { src = (io.hdma.src + 1) % 65536 } })
        >> read8 m.io.hdma.src
        >>= λ v.
            modify_io
              (λ io. record io { hdma = record io.hdma { dst = (io.hdma.dst + 1) % 65536 } })
            >> write8 m.io.hdma.dst v
            >> copy_hdma n)
      m

-- HDMA, once for each line in H-blank.
unfoldable pub run_hdma : M Unit₀
unfolding copy_hdma
run_hdma m =
    let hdma = m.io.hdma in
    if ltb 0 hdma.bytes_left && (is_hblank m.io && hdma.cur_line != reg reg_ly m.io)
    then (let btw = min 16 hdma.bytes_left in
          modify_io (λ io. record io { hdma = record io.hdma { cur_line = reg reg_ly io } })
          >> copy_hdma btw
          >> modify_io (λ io. record io {
            hdma = record io.hdma {
              dst = bit_and io.hdma.dst 0x9fff;
              bytes_left = io.hdma.bytes_left - btw;
            };
          })
          >> gets (λ m. m.io.hdma.bytes_left == 0)
          >>= λ done. when done (modify_io (set_reg reg_hdma5 0xff)))
        m
    else pure tt m

unfoldable pub simulate : M Unit₀
simulate = modify_io (λ io. run_tima (count_divider io)) >> run_dma >> run_hdma
