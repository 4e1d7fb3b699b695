-- ===== src/Runtime/Invoke/Tests.antt =====
-- A run that is started, polled and cancelled.
use par.Prelude.{String, ◌≡◌, refl, none, some, [], ◌∷◌}
use par.Fixtures.{demo_lib, demo_py, quiet}
use par.Python.Int.{pos}
use par.Python.Json.{str, null}
use par.Python.Errors.{ok}
use par.Ffi.Calls.{text, effect, par_invoke_poll, par_invoke_cancel}
use par.Runtime.Base.{Runtime}
use par.Runtime.Invoke.{invoke_start, invoke_poll, invoke_cancel}
use par.Runtime.Invoke.Async.{invoke_start-handle}

abbrev agent_runtime : Runtime
agent_runtime = record { handle = some 7; callback_ids = [] }

invoke_start-handle_example :
    (s : String) × ((invoke_start demo_lib demo_py agent_runtime "a" "hi" none none quiet).0
      ≡ ok (str s))
    × ((invoke_poll demo_lib demo_py agent_runtime s (pos 50) quiet).1.history
        ≡ text (par_invoke_poll (pos 0) (pos 50)) ∷ [])
    × ((invoke_cancel demo_lib demo_py agent_runtime s quiet).1.history
        ≡ effect (par_invoke_cancel (pos 0)) ∷ [])
    × ((invoke_cancel demo_lib demo_py agent_runtime s quiet).0 ≡ ok null)
invoke_start-handle_example =
    invoke_start-handle demo_lib demo_py agent_runtime 7 "a" "hi" none none (pos 50) (pos 0) quiet
      quiet refl refl refl refl
