-- ===== src/FrontEnd.antt =====
-- The program around the library for the terminal: the main loop, the signal handler and the handler
-- of the command `debug` in src/main.cpp.
pub mod Session
pub mod Driven
use gamebro.Cpu.Execute.{Callbacks}
use gamebro.Base.{ℕ, zero, suc, if◌then◌else◌}
use gamebro.Base.{true, false, ◌+◌, ◌*◌, ltb, ◌==◌, ◌&&◌, none, some, throws, assertion, too_long}
use gamebro.Machine.{simulate_one_frame}
use gamebro.Debug.{print_and_pause}
use gamebro.Video.Dump.{Vector, dump_background, dump_tiles}
use gamebro.State.{Machine}
use gamebro.State.Monad.{M, Unit₀, pure, ◌>>=◌, ◌>>◌, when, gets, break_now, modify_gpu, stop_with}
use gamebro.Cpu
use gamebro.Cpu.Execute.{simulate}

-- `while (machine->is_running()) machine->simulate();`, for so many rounds at most.
module _ (callbacks : Callbacks) (print_and_pause : ℕ → M Unit₀) where
  unfoldable pub main_loop : ℕ → M Unit₀
  main_loop zero = pure tt
  main_loop (suc rounds) =
      let rest = main_loop rounds in
      gets (λ m. m.running) >>= λ running. when running (simulate callbacks print_and_pause >> rest)

-- The loops of `save_screenshot`: the index of a pixel is looked up in the vector, and its colour in
-- `palette`, which has 64 entries, both with `at`. What they set in the bitmap is left out.
module _ (pixels : Vector) (size_x : ℕ) where
  -- The loop at `x` in the row `y`, with `left` columns to go.
  unfoldable pub save_row : ℕ → ℕ → ℕ → M Unit₀
  save_row y zero x = pure tt
  save_row y (suc left) x =
      let rest = save_row y left (x + 1) in
      let i = y * size_x + x in
      if ltb i pixels.size && ltb (pixels.elements i) 64 then rest else stop_with throws

  -- The loop at `y`, with `left` rows to go.
  unfoldable pub save_rows : ℕ → ℕ → M Unit₀
  save_rows zero y = pure tt
  save_rows (suc left) y = save_row y size_x 0 >> save_rows left (y + 1)

unfoldable pub save_screenshot : Vector → M Unit₀
save_screenshot pixels =
    if pixels.size == 160 * 144
    then save_rows pixels 160 144 0
    else if pixels.size == 256 * 256
    then save_rows pixels 256 256 0
    else if pixels.size == 128 * 192
    then save_rows pixels 128 192 0
    else stop_with assertion

-- The handler of the command `debug`; the fuel is for the frame that it runs.
unfoldable pub screenshots : Callbacks → ℕ → M Unit₀
screenshots callbacks fuel = do
  modify_gpu (λ g. record g { render = true })
  simulate_one_frame callbacks (print_and_pause callbacks) fuel
  modify_gpu (λ g. record g { render = false })
  pixels ← gets (λ m. m.gpu.pixels)
  save_screenshot (record { size = 160 * 144; elements = pixels })
  background ← dump_background
  save_screenshot background
  tiles0 ← dump_tiles 0
  save_screenshot tiles0
  cgb ← gets (λ m. m.cgb_mode)
  if cgb then (dump_tiles 1 >>= λ tiles1. save_screenshot tiles1) else pure tt

-- What `main` sets: a frame that the handler runs may enter the debugger, where `debug` may be
-- typed again, so often at most.
unfoldable pub handlers : ℕ → ℕ → Callbacks
handlers zero fuel = record {
  vblank = none;
  timerint = none;
  joypadint = none;
  debugint = some (stop_with too_long);
}
handlers (suc depth) fuel = record {
  vblank = none;
  timerint = none;
  joypadint = none;
  debugint = some (screenshots (handlers depth fuel) fuel);
}

-- What Ctrl-C does: `cpu.stop()` is `CPU::stop`.
unfoldable pub int_handler : M Unit₀
int_handler m = if m.cpu.m_break then Cpu.stop m else break_now m
