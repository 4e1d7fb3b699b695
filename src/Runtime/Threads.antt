-- ===== src/Runtime/Threads.antt =====
-- Several Python threads in one process, each in a method of a `Runtime` object: the registrations of
-- callables and `close` of bindings/python/par_runtime/runtime.py are cut into the steps between which
-- another thread may run. The dict of callbacks and the counter of ids are the process's, and all threads
-- share them.
pub mod Alone
pub mod Owning
pub mod Local
pub mod Shared
pub mod Interleave
pub mod Safe
mod Tests
use par.Prelude.{ℕ, String, ◌<>◌, none, some, List, [], ◌∷◌, if◌then◌else◌}
use par.Python.Int.{ℤ, is_zero}
use par.Python.Json.{Json, null}
use par.Python.Text.{int_str}
use par.Python.Errors.{Result, ok, raised, fails, par_error, tool_error}
use par.Python.Interpreter.{Interpreter}
use par.Ffi.Calls.{
  Library, Outcome, tool_callback, approval_callback, par_register_tool_with_handler,
  par_store_python_handler, par_register_approval_handler, par_shutdown,
}
use par.Ffi.Process.{Process, call_status, call_effect}
use par.Ffi.Strings.{c_str}
use par.Runtime.Base.{Runtime, check_handle, require_zero, is_open}
use par.Runtime.Object.{State, store, pop, next_id, set_callback, drop_callback, own_id}
use par.Runtime.Handlers.{sync_config}
use par.Runtime.Requests.{Request, perform}

-- The arguments of `register_tool_with_handler`.
pub record Tool : Type 0 where
  pub name : String
  pub description : String
  pub input_schema : String
  pub handler : String → Outcome

-- What a thread does next. The number is `handler_id`.
pub data Phase : Type 0 where
  -- `register_tool_with_handler`: check the handle, take an id, write the dict, give the callback to the
  -- library, register the tool, and look at the answer
  tool_entered tool_checked : Tool → Phase
  tool_numbered tool_stored tool_handed : Tool → ℕ → Phase
  tool_answered : Tool → ℕ → ℤ → Phase
  -- `register_approval_handler` with a callable: the same, but the object owns the id before the call
  approval_entered approval_checked : (Json → Outcome) → Phase
  approval_numbered approval_stored approval_handed : (Json → Outcome) → ℕ → Phase
  approval_owned : ℕ → Phase
  -- `close`: look at the handle, shut the runtime down, forget the handle, and drop the callbacks left
  close_entered close_open close_shut : Phase
  close_popping : List ℕ → Phase
  -- any method that leaves the object alone, in one step, since it makes one call of the library
  performing : Request → Phase
  returned : Result Json → Phase

-- `self._handle` as an argument of a C function: `None` is NULL.
abbrev pub pointer : Runtime → ℕ
pointer self = elim self.handle [ none ↦ 0 | some h ↦ h ]

module _ (lib : Library) (py : Interpreter) where
  abbrev checked : Phase → Result ℕ → Phase
  checked next (ok h) = next
  checked next (raised e) = returned (raised e)

  abbrev process_after : {A : Type 0} → (Process → Result A × Process) → State → State
  process_after m s = record s { process = (m s.process).1 }

  -- One step of a thread on its object and the process.
  unfoldable pub step : Phase → State → Phase × State
  unfolding check_handle call_status call_effect store pop int_str perform
  step (tool_entered t) s = (checked (tool_checked t) (check_handle s.self s.process).0, s)
  step (tool_checked t) s = (tool_numbered t s.process.counter, (next_id s).1)
  step (tool_numbered t k) s = (tool_stored t k, (set_callback k (tool_callback t.handler) s).1)
  step (tool_stored t k) s = (
    tool_handed t k,
    process_after (call_effect lib (par_store_python_handler k (tool_callback t.handler))) s,
  )
  step (tool_handed t k) s =
      let call =
        par_register_tool_with_handler (pointer s.self) (c_str t.name) (c_str t.description)
          (c_str t.input_schema) k in
      (
        tool_answered t k (lib.status_reply s.process.history call),
        process_after (call_status lib call) s,
      )
  step (tool_answered t k rc) s = if is_zero rc then (returned (ok null), (own_id k s).1) else (
    returned (fails tool_error ("Failed to register tool with handler: " <> t.name)),
    (drop_callback k s).1,
  )
  step (approval_entered f) s = (checked (approval_checked f) (check_handle s.self s.process).0, s)
  step (approval_checked f) s = (approval_numbered f s.process.counter, (next_id s).1)
  step (approval_numbered f k) s = (approval_stored f k, (set_callback k (approval_callback f) s).1)
  step (approval_stored f k) s = (
    approval_handed f k,
    process_after (call_effect lib (par_store_python_handler k (approval_callback f))) s,
  )
  step (approval_handed f k) s = (approval_owned k, (own_id k s).1)
  step (approval_owned k) s =
      let call =
        par_register_approval_handler (pointer s.self) (c_str (py.dumps (sync_config lib py k))) in
      let rc = lib.status_reply s.process.history call in
      (
        returned (
            require_zero par_error ("register_approval_handler failed (code " <> int_str rc <> ")")
              rc),
        process_after (call_status lib call) s,
      )
  step close_entered s =
      (if is_open s.self then close_open else close_popping s.self.callback_ids, s)
  step close_open s =
      (close_shut, process_after (call_effect lib (par_shutdown (pointer s.self))) s)
  step close_shut s =
      (close_popping s.self.callback_ids, record s { self = record s.self { handle = none } })
  step (close_popping []) s =
      (returned (ok null), record s { self = record s.self { callback_ids = [] } })
  step (close_popping (k ∷ ks)) s = (close_popping ks, (drop_callback k s).1)
  step (performing r) s =
      (returned (perform lib py r s.self s.process).0, process_after (perform lib py r s.self) s)
  step (returned r) s = (returned r, s)
