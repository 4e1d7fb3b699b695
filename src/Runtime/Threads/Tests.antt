-- ===== src/Runtime/Threads/Tests.antt =====
-- Two threads that register a tool each, and two that share an object.
use par.Prelude.{ℕ, ◌≡◌, refl, true, false, String, some, List, [], ◌∷◌}
use par.Fixtures.{demo_lib, demo_py, quiet}
use par.Python.Json.{str, null}
use par.Python.Errors.{ok}
use par.Ffi.Calls.{
  Outcome, returns, raises, effect, status, tool_callback, par_shutdown, par_store_python_handler,
  par_register_tool_with_handler,
}
use par.Runtime.Base.{Runtime}
use par.Runtime.Object.{State, callback_at}
use par.Runtime.Handlers.{register_tool_with_handler}
use par.Runtime.Threads.{Tool, tool_entered, close_entered, returned}
use par.Runtime.Threads.Shared.{schedule, shared_close}
use par.Runtime.Threads.Owning.{Thread}
use par.Runtime.Threads.Interleave.{System, Move, MethodCall, call, go, IsSafe, interleave}
use par.Runtime.Threads.Safe.{interleave-IsSafe}

abbrev open_runtime : Runtime
open_runtime = record { handle = some 7; callback_ids = [] }

abbrev refuse : String → Outcome
refuse t = raises "no"

abbrev adder : Tool
adder = record { name = "add"; description = "adds"; input_schema = "{}"; handler = refuse }

abbrev echo : Tool
echo = record {
  name = "echo";
  description = "says";
  input_schema = "{}";
  handler = λ t. returns (str t);
}

abbrev opened : State
opened = record { self = open_runtime; process = quiet }

abbrev idle_thread : Thread
idle_thread = record { self = open_runtime; phase = returned (ok null) }

abbrev idle : System
idle = record { threads = idle_thread ∷ idle_thread ∷ []; process = quiet }

idle-IsSafe : IsSafe demo_lib demo_py idle
unfolding callback_at
idle-IsSafe = record {
  sound = (λ k h. cc, λ k h. cc, (λ k h. cc, λ k h. cc, tt));
  sets = ((refl, refl), ((refl, refl), tt));
  blank = λ k le. refl;
}

-- Both threads take an id before either writes the dict.
abbrev moves : List (ℕ × Move)
moves =
    (0, call (MethodCall.register_tool_with_handler adder))
    ∷ (1, call (MethodCall.register_tool_with_handler echo))
    ∷ (0, go)
    ∷ (1, go)
    ∷ (0, go)
    ∷ (1, go)
    ∷ (1, go)
    ∷ (0, go)
    ∷ (0, go)
    ∷ []

interleave-IsSafe_example : IsSafe demo_lib demo_py (interleave demo_lib demo_py moves idle)
interleave-IsSafe_example = interleave-IsSafe demo_lib demo_py moves idle idle-IsSafe

shared_close_example :
    ((schedule demo_lib demo_py (true ∷ false ∷ true ∷ false ∷ []) (record {
      first = close_entered;
      second = close_entered;
      state = opened;
    })).state.process.history
      ≡ effect (par_shutdown 7) ∷ effect (par_shutdown 7) ∷ [])
    × ((schedule demo_lib demo_py (true ∷ true ∷ true ∷ true ∷ false ∷ false ∷ true ∷ []) (record {
      first = tool_entered adder;
      second = close_entered;
      state = opened;
    })).state.process.history
        ≡ status (par_register_tool_with_handler 7 "add" "adds" "{}" 0)
          ∷ effect (par_shutdown 7)
          ∷ effect (par_store_python_handler 0 (tool_callback refuse))
          ∷ [])
shared_close_example = shared_close demo_lib demo_py opened 7 adder refl refl
