-- ===== src/FrontEnd/Session.antt =====
-- Running the emulator with its debugger and the screenshots of src/main.cpp.
use gamebro.Base.{true}
use gamebro.State.{Machine}
use gamebro.Memory.Control.{Control}
use gamebro.Debug.Rules.{Grade}
use gamebro.Safety.Peeks.{Peeks}

-- What a call may do that may end in every way but by leaving an array.
abbrev any_way : Grade
any_way = record { ends = true; endless = true }
