-- ===== src/Runtime/World/Answers.antt =====
-- What the library gets when it calls back a callable that it was given, at any later time.
use mathlib.Core.Option as Option
use par.Prelude.{ℕ, zero, suc, String, Bool, false, Option, none, some, List, [], ◌∷◌}
use par.Python.Interpreter.{Interpreter}
use par.Ffi.Calls.{Bytes, Callback, tool_callback, approval_callback}
use par.Ffi.Process.{Process}
use par.Runtime.Base.{Runtime, is_open}
use par.Runtime.Object.{callback_at}
use par.Runtime.Handlers.{callable, tool_wrapper, approval_wrapper}
use par.Runtime.World.{World, Operation, tool_handler, approval_handler}

module _ (py : Interpreter) where
  -- A call of the wrapper that the callback was made of.
  abbrev pub answer : Callback → Bytes → String
  answer (tool_callback f) b = tool_wrapper py f b
  answer (approval_callback f) b = approval_wrapper py f b

  -- A call of the id by the library. Python keeps a callback alive as long as it stands in the shared
  -- dict: `none` is a call into memory that Python may have freed.
  abbrev pub respond : ℕ → Process → Bytes → Option String
  respond k p b = Option.map (λ c. answer c b) (callback_at k p.callbacks)

-- The object number `i` is there, and open.
abbrev pub open_at : ℕ → List Runtime → Bool
open_at i [] = false
open_at zero (r ∷ rs) = is_open r
open_at (suc i) (r ∷ rs) = open_at i rs

-- The callback that an operation hands to the library.
abbrev pub registers : Operation → Option Callback
registers (tool_handler n d i f) = some (tool_callback f)
registers (approval_handler (callable f) secret timeout) = some (approval_callback f)
registers op = none
