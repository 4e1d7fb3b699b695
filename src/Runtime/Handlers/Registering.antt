-- ===== src/Runtime/Handlers/Registering.antt =====
-- What a registration of a callable leaves behind, whether it succeeds or not.
use par.Prelude.{ℕ, String, ◌<>◌, ◌≡◌, false, some, ◌∷◌, arith, eqb, if◌then◌else◌}
use par.Python.Int.{ℤ, is_zero}
use par.Python.Json.{Json, null}
use par.Python.Errors.{ok, fails, tool_error}
use par.Python.Interpreter.{Interpreter}
use par.Ffi.Calls.{
  Library, Outcome, tool_callback, approval_callback, status, effect, par_store_python_handler,
  par_register_tool_with_handler, par_register_approval_handler,
}
use par.Ffi.Process.{call_status, call_effect, ◌>>=◌, lift}
use par.Runtime.Base.{check_handle}
use par.Runtime.Object.{State, store, pop, add}
use par.Runtime.Handlers.{
  callable, register_tool_with_handler, register_approval_handler, sync_config,
}

module _ (lib : Library) (py : Interpreter) where
  -- The answer of the library to the registration of a tool, whose callback it was given before.
  abbrev pub tool_answer : State → ℕ → String → String → String → (String → Outcome) → ℤ
  tool_answer s h name description input_schema handler =
      lib.status_reply
        (effect (par_store_python_handler s.process.counter (tool_callback handler))
          ∷ s.process.history)
        (par_register_tool_with_handler h name description input_schema s.process.counter)

  -- On an open runtime a tool's callback gets the next id of the process. If the library accepts the
  -- tool, the object owns the id and the callback is in the shared dict; if not, the method raises, the
  -- object is as before, and the callback is dropped from the dict again.
  pub register_tool_with_handler_lem :
      (s : State) (h : ℕ) (name description input_schema : String) (handler : String → Outcome)
      → s.self.handle ≡ some h
      → eqb h 0 ≡ false
      → ((register_tool_with_handler lib py name description input_schema handler s).0 ≡ (
          if is_zero (tool_answer s h name description input_schema handler)
          then ok null
          else fails tool_error ("Failed to register tool with handler: " <> name)))
        × ((register_tool_with_handler lib py name description input_schema handler
              s).1.self.callback_ids
            ≡ (if is_zero (tool_answer s h name description input_schema handler)
                then add s.process.counter s.self.callback_ids
                else s.self.callback_ids))
        × ((register_tool_with_handler lib py name description input_schema handler
              s).1.process.callbacks
            ≡ (if is_zero (tool_answer s h name description input_schema handler)
                then store s.process.counter (tool_callback handler) s.process.callbacks
                else pop s.process.counter
                    (store s.process.counter (tool_callback handler) s.process.callbacks)))
  unfolding register_tool_with_handler check_handle call_status call_effect ◌>>=◌ lift
  register_tool_with_handler_lem s h name description input_schema handler e nz = ground arith

  -- On an open runtime the callback of an approval handler gets the next id of the process; the
  -- object owns it and it is in the shared dict also if the library refuses the registration. The
  -- library is given the callback before the registration that names its id.
  pub register_approval_handler-callable :
      (s : State) (h : ℕ) (f : Json → Outcome) (secret : String) (timeout : Json)
      → s.self.handle ≡ some h
      → eqb h 0 ≡ false
      → ((register_approval_handler lib py (callable f) secret timeout s).1.self.callback_ids
          ≡ add s.process.counter s.self.callback_ids)
        × ((register_approval_handler lib py (callable f) secret timeout s).1.process.callbacks
            ≡ store s.process.counter (approval_callback f) s.process.callbacks)
        × ((register_approval_handler lib py (callable f) secret timeout s).1.process.history
            ≡ status
                (par_register_approval_handler h (py.dumps (sync_config lib py s.process.counter)))
              ∷ effect (par_store_python_handler s.process.counter (approval_callback f))
              ∷ s.process.history)
  unfolding register_approval_handler check_handle call_status call_effect ◌>>=◌ lift
  register_approval_handler-callable s h f secret timeout e nz = ground arith
