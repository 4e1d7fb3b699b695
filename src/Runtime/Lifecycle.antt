-- ===== src/Runtime/Lifecycle.antt =====
-- The life of a `Runtime`: `__init__`, `close`, `__exit__` and `__del__`.
pub mod Shutdown
use par.Prelude.{ℕ, String, false, Option, none, some, [], eqb, if◌then◌else◌}
use par.Python.Json.{Json, null, bool}
use par.Python.Errors.{Result, ok, fails, init_error}
use par.Python.Interpreter.{Interpreter}
use par.Config.{normalize_config}
use par.Ffi.Calls.{Library, par_init, par_shutdown}
use par.Ffi.Process.{Process, Action, ◌>>=◌, lift, call_handle, call_effect}
use par.Ffi.Strings.{c_str}
use par.Runtime.Base.{Runtime}
use par.Runtime.Object.{State, Method, pop_all}

module _ (lib : Library) (py : Interpreter) where
  abbrev pub started : ℕ → Result Runtime
  started h =
      if eqb h 0
      then fails init_error "Failed to initialize PAR runtime"
      else ok (record { handle = some h; callback_ids = [] })

  -- `__init__`
  unfoldable pub init : String → Action Runtime
  unfolding normalize_config
  init config_json = do
    normalized ← lift (normalize_config py config_json)
    h ← call_handle lib (par_init (c_str normalized))
    lift (started h)

  -- `if self._handle: par_shutdown(self._handle); self._handle = None`
  abbrev shutdown : Option ℕ → State → State
  unfolding call_effect
  shutdown none s = s
  shutdown (some h) s = if eqb h 0 then s else record s {
    self = record s.self { handle = none };
    process = (call_effect lib (par_shutdown h) s.process).1;
  }

  -- The callbacks of the object are dropped from the class's dict, and its own set is cleared.
  abbrev release : State → State
  unfolding pop_all
  release s = record s {
    self = record s.self { callback_ids = [] };
    process = record s.process { callbacks = pop_all s.self.callback_ids s.process.callbacks };
  }

  unfoldable pub close : Method Json
  unfolding call_effect pop_all
  close s = (ok null, release (shutdown s.self.handle s))

  -- `__exit__` closes, and lets the exception of the block through.
  unfoldable pub exit : Method Json
  unfolding close
  exit s = (ok (bool false), (close s).1)

  -- `__del__`; `none` is an object whose `__init__` raised, which has no `_handle`.
  unfoldable pub delete : Option Runtime → Process → Process
  unfolding close
  delete none p = p
  delete (some r) p = (close (record { self = r; process = p })).1.process
