-- ===== src/Debug/Commands.antt =====
-- The commands of `execute_commands` in libgbc/debug.cpp. Each returns whether the debugger asks for
-- another one. What they print is left out, but not what they read for it.
use gamebro.Base.{
  Option, none, some, ℕ, zero, suc, ◌+◌, ◌%◌, bit_and, List, [], ◌∷◌, ◌++◌, Bool, true, false, not,
  ◌||◌, ◌&&◌, ltb, if◌then◌else◌, ok, fault, Outcome, throws, assertion, out_of_bounds, ℤ, pos,
  negsuc,
}
use gamebro.State.{Cpu}
use gamebro.State.Monad.{
  when, M, Unit₀, pure, ◌>>=◌, ◌>>◌, modify, modify_cpu, modify_memory, modify_gpu, break_now,
  stop_with,
}
use gamebro.Gpu.{lcd_enabled}
use gamebro.Memory.{read8, write8}
use gamebro.Video.Render.{render_scanline}
use gamebro.Cpu.Execute.{Callbacks, is_breakpoint}
use gamebro.Machine.{reset}
use gamebro.Debug.Parse.{Text, codes, is, stoi, strtoul, low_byte}

abbrev pub lift : {A : Type 0} → Outcome A → M A
lift (ok a) = pure a
lift (fault e) = stop_with e

-- `CPU::break_on_steps`, with its assertion; the counters are `int16_t`.
unfoldable pub break_on_steps : ℤ → M Unit₀
break_on_steps (pos n) =
    modify_cpu (λ c. record c { break_steps = n % 65536; break_steps_cnt = n % 65536 })
break_on_steps (negsuc n) = stop_with assertion

-- `CPU::default_pausepoint`: the map holds an address once.
unfoldable pub default_pausepoint : ℕ → Cpu → Cpu
default_pausepoint addr c = record c {
  breakpoints = if is_breakpoint addr c.breakpoints then c.breakpoints else addr ∷ c.breakpoints;
}

unfoldable pub resume : M Bool
resume = break_on_steps (pos 0) >> pure false

unfoldable pub step : List Text → M Bool
step args =
    modify (λ m. record m { verbose_instructions = true })
    >> lift (elim args [ [] ↦ ok (pos 1) | arg ∷ _ ↦ stoi arg ])
    >>= λ steps. break_on_steps steps >> pure false

unfoldable pub break_at : List Text → M Bool
break_at [] = pure true
break_at (addr ∷ _) = modify_cpu (default_pausepoint (strtoul addr % 65536)) >> pure true

unfoldable pub clear : M Bool
clear = modify_cpu (λ c. record c { breakpoints = [] }) >> pure true

-- `rb` and `wb`.
unfoldable pub trap : Bool → List Text → M Bool
trap reading [] = pure true
trap reading (addr ∷ _) =
    let traploc = strtoul addr % 65536 in
    modify_memory (λ mem.
      if reading
      then record mem { read_breakpoints = mem.read_breakpoints ++ traploc ∷ [] }
      else record mem { write_breakpoints = mem.write_breakpoints ++ traploc ∷ [] })
    >> pure true

unfoldable pub verbose : M Bool
verbose = modify (λ m. record m { verbose_instructions = not m.verbose_instructions }) >> pure true

unfoldable pub run : M Bool
run =
    modify (λ m. record m { verbose_instructions = false }) >> break_on_steps (pos 0) >> pure false

-- `Machine::stop`.
unfoldable pub quit : M Bool
quit = modify (λ m. record m { running = false }) >> pure false

unfoldable pub restart : M Bool
restart = modify reset >> break_now >> pure false

-- The loop over `i`, from the address `hex + i`; `read8` takes a `uint16_t`.
unfoldable pub dump : ℕ → ℕ → M Unit₀
dump zero addr = pure tt
dump (suc left) addr = read8 (addr % 65536) >> dump left (addr + 1)

-- An `int` that is not positive gives no round of a loop.
abbrev pub rounds : ℤ → ℕ
rounds (pos n) = n
rounds (negsuc n) = 0

unfoldable pub read : List Text → M Bool
read [] = pure true
read (addr ∷ args) = lift (elim args [ [] ↦ ok (pos 1) | size ∷ _ ↦ stoi size ]) >>= λ bytes.
    dump (rounds bytes) (strtoul addr) >> pure true

unfoldable pub write : List Text → M Bool
write [] = pure true
write (addr ∷ []) = pure true
write (addr ∷ value ∷ _) =
    lift (stoi value) >>= λ v. write8 (strtoul addr % 65536) (low_byte v) >> pure true

-- `readv0` and `readv1`: `video_ram_ptr()[i]` checks nothing.
unfoldable pub read_vram : ℕ → List Text → M Bool
read_vram off [] = pure true
read_vram off (addr ∷ _) =
    if ltb (off + bit_and (strtoul addr) 0x1fff) 16384 then pure true else stop_with out_of_bounds

unfoldable pub render_lines : ℕ → ℕ → M Unit₀
render_lines zero y = pure tt
render_lines (suc left) y = render_scanline y >> render_lines left (y + 1)

-- `GPU::render_frame`.
unfoldable pub render_frame : M Unit₀
render_frame m =
    (if not m.gpu.white_frame && lcd_enabled m.io
        then render_lines 144 0
        else modify_gpu (λ g. record g { pixels = λ i. 32 }))
      m

-- A delegate: calling one that is not set throws.
abbrev pub call : Option (M Unit₀) → M Unit₀
call none = stop_with throws
call (some f) = f

abbrev pub is_set : Option (M Unit₀) → Bool
is_set none = false
is_set (some f) = true

-- `vblank` calls its callback if there is one.
unfoldable pub show_frame : Callbacks → M Bool
show_frame callbacks =
    render_frame >> when (is_set callbacks.vblank) (call callbacks.vblank) >> pure true

-- `debug` does not ask whether there is one.
unfoldable pub debug : Callbacks → M Bool
debug callbacks = call callbacks.debugint >> pure true

-- The second half of the chain of tests on `params[0]`, from `read` on; the last of them are `frame`,
-- `help` and unknown commands, which only print.
unfoldable pub look_command : Callbacks → Text → List Text → M Bool
look_command callbacks cmd args =
    if is cmd (codes "ld") || is cmd (codes "read")
    then read args
    else if is cmd (codes "write")
    then write args
    else if is cmd (codes "readv0") || is cmd (codes "readv1")
    then read_vram (if is cmd (codes "readv0") then 0 else 0x2000) args
    else if is cmd (codes "vblank") || is cmd (codes "vbl")
    then show_frame callbacks
    else if is cmd (codes "frame") || is cmd (codes "fr")
    then pure true
    else if is cmd (codes "debug")
    then debug callbacks
    else pure true

-- The chain of tests on `params[0]`.
unfoldable pub run_command : Callbacks → Text → List Text → M Bool
run_command callbacks cmd args =
    if is cmd (codes "c") || is cmd (codes "continue")
    then resume
    else if is cmd []
    then pure false
    else if is cmd (codes "s") || is cmd (codes "step")
    then step args
    else if is cmd (codes "b") || is cmd (codes "break")
    then break_at args
    else if is cmd (codes "clear")
    then clear
    else if is cmd (codes "rb") || is cmd (codes "wb")
    then trap (is cmd (codes "rb")) args
    else if is cmd (codes "v") || is cmd (codes "verbose")
    then verbose
    else if is cmd (codes "r") || is cmd (codes "run")
    then run
    else if is cmd (codes "q") || is cmd (codes "quit") || is cmd (codes "exit")
    then quit
    else if is cmd (codes "reset")
    then restart
    else look_command callbacks cmd args
