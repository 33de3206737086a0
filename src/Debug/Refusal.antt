-- ===== src/Debug/Refusal.antt =====
-- Which commands of the debugger (libgbc/debug.cpp) end the emulator, as a description of the typed
-- text alone.
use gamebro.Base.{
  ℕ, zero, suc, List, [], ◌∷◌, Bool, true, false, ◌&&◌, not, ◌||◌, ok, fault, ℤ, pos, negsuc,
}
use gamebro.Debug.Parse.{Text, codes, is, stoi, split}
use gamebro.Base.{length}
use gamebro.State.{Machine}
use gamebro.Debug.{read_line}
use gamebro.Cpu.Execute.{Callbacks}
use gamebro.Debug.Commands.{is_set}

-- A conversion that throws, or whose value the command does not take.
abbrev pub is_negative : ℤ → Bool
is_negative (pos n) = false
is_negative (negsuc n) = true

abbrev pub no_number : List Text → Bool
no_number [] = false
no_number (arg ∷ args) = elim (stoi arg) [ ok z ↦ false | fault e ↦ true ]

abbrev pub no_count : List Text → Bool
no_count [] = false
no_count (arg ∷ args) = elim (stoi arg) [ ok z ↦ is_negative z | fault e ↦ true ]

abbrev pub later : List Text → List Text
later [] = []
later (arg ∷ args) = args

module _ (callbacks : Callbacks) where
  -- The commands that end the emulator: a count of steps that is no number or negative, a size or a
  -- value that is no number, and `debug` where its callback is not set.
  unfoldable pub refuses : Text → List Text → Bool
  refuses cmd args =
      ((is cmd (codes "s") || is cmd (codes "step")) && no_count args)
      || (((is cmd (codes "ld") || is cmd (codes "read")) && no_number (later args))
          || ((is cmd (codes "write") && no_number (later args))
              || (is cmd (codes "debug") && not (is_set callbacks.debugint))))

  -- A line of the terminal that holds such a command.
  unfoldable pub refuses_line : Text → Bool
  refuses_line text = elim (split text b' ') [ [] ↦ false | cmd ∷ args ↦ refuses cmd args ]

  -- One of the lines typed, at most `fuel` of them and up to the first empty one, does.
  unfoldable pub some_refused : ℕ → List ℕ → Bool
  some_refused zero console = false
  some_refused (suc fuel) console =
      let line = read_line console in
      let rest = some_refused fuel line.1 in
      elim line.0 [ [] ↦ false | c ∷ cs ↦ refuses_line (c ∷ cs) || rest ]

  -- What is typed, as far as the debugger can read it, has a line that is refused.
  abbrev pub refused : Machine → Bool
  refused m = some_refused (suc (length m.console)) m.console
