-- ===== src/Debug.antt =====
-- The interactive debugger of libgbc/debug.cpp: reading commands and pausing the emulator.
pub mod Parse
pub mod Commands
pub mod Split
pub mod Steps
pub mod Breakpoints
pub mod Rules
pub mod Refusal
pub mod Harmless
pub mod Answers
pub mod Pause
pub mod Steady
pub mod Emulator
use gamebro.Base.{
  ℕ, zero, suc, List, [], ◌∷◌, Bool, true, false, ◌==◌, if◌then◌else◌, ok, fault, Fault, throws,
  assertion, out_of_bounds, too_deep, too_long,
}
use gamebro.State.Monad.{M, Unit₀, pure, ◌>>=◌, ◌>>◌, gets, modify, stop_with}
use gamebro.State.Ports.{reg_if, reg_ie, reg_ly, reg_lcdc}
use gamebro.Registers.{hl}
use gamebro.Io.{read_io}
use gamebro.Memory.{read16}
use gamebro.Cpu.{regs}
use gamebro.Cpu.Decode.{decode}
use gamebro.Cpu.Printers.{printer}
use gamebro.Base.{length}
use gamebro.Debug.Parse.{Text, split}
use gamebro.Cpu.Execute.{Callbacks}
use gamebro.Debug.Commands.{run_command}

-- A line of the terminal, without its end, and what follows it.
unfoldable pub read_line : List ℕ → Text × List ℕ
read_line [] = ([], [])
read_line (c ∷ cs) =
    let later = read_line cs in if c == b'\n' then ([], cs) else (c ∷ later.0, later.1)

abbrev pub is_thrown : Fault → Bool
is_thrown throws = true
is_thrown _ = false

-- `try { ... } catch (...)`. A read that throws is taken to leave the machine as it was.
unfoldable pub attempt : M Unit₀ → M Unit₀
attempt p m = elim (p m) [
  | ok out ↦ ok out
  | fault e ↦ if is_thrown e then pure tt m else stop_with e m
]

module _ (callbacks : Callbacks) where
  -- `execute_commands` on a line that is not empty; `split` returns at least one text.
  unfoldable pub execute_line : Text → M Bool
  execute_line text = elim (split text b' ') [
    | [] ↦ pure false
    | cmd ∷ args ↦ run_command callbacks cmd args
  ]

  -- `while (execute_commands(cpu));`, on fuel, over what is typed at the terminal.
  unfoldable pub command_loop : ℕ → List ℕ → M Unit₀
  command_loop zero console = stop_with too_long
  command_loop (suc fuel) console =
      let line = read_line console in
      let rest = command_loop fuel line.1 in
      let leave = modify (λ m. record m { console = line.1 }) in
      elim line.0 [
        | [] ↦ leave
        | c ∷ cs ↦ execute_line (c ∷ cs) >>= λ again. if again then rest else leave
      ]

  -- `CPU::print_and_pause`: what is printed has to be read first. The loop needs no more rounds than
  -- there are characters left at the terminal, and one to see the end.
  unfoldable pub print_and_pause : ℕ → M Unit₀
  print_and_pause opcode = do
    printer (decode opcode) opcode
    read_io reg_if
    read_io reg_ie
    read_io reg_ly
    read_io reg_lcdc
    attempt (regs >>= λ r. read16 (hl r) >> read16 r.sp >> pure tt)
    console ← gets (λ m. m.console)
    command_loop (suc (length console)) console
