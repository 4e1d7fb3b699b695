-- ===== src/Runtime/Closed.antt =====
-- Every method of a `Runtime` that has been shut down.
use par.Prelude.{suc, ◌≡◌, false, arith}
use par.Python.Errors.{fails, par_error}
use par.Python.Interpreter.{Interpreter}
use par.Ffi.Calls.{Library}
use par.Ffi.Process.{Process, ◌>>=◌}
use par.Runtime.Base.{Runtime, is_open, check_handle}
use par.Runtime.Requests.{Request, perform, register_tool, cancel_stream}

-- Only the deprecated `cancel_stream` leaves a mark: it warns before it checks.
abbrev pub warned : Request → Process → Process
warned cancel_stream p = record p { warnings = suc p.warnings }
warned r p = p

module _ (lib : Library) (py : Interpreter) where
  pub perform-closed :
      (r : Request) (self : Runtime) (p : Process)
      → is_open self ≡ false
      → perform lib py r self p ≡ (fails par_error "Runtime has been shut down", warned r p)
  unfolding perform check_handle ◌>>=◌
  perform-closed (register_tool n d s) self p h = ground arith
  perform-closed _ self p h = ground arith
