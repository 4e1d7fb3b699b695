-- ===== src/Runtime/Envelope.antt =====
-- How the answers of the library reach the caller: error envelopes become exceptions.
use par.Prelude.{ℕ, String, ◌≡◌, false, Option, none, some, ◌∷◌, arith, eqb, ◌==◌}
use par.Python.Json.{Json, Fields, obj, get}
use par.Python.Text.{int_str}
use par.Python.Errors.{
  ErrorKind, raised, exception, par_error, invoke_error, workflow_error, runtime_error,
}
use par.Python.Interpreter.{Interpreter, parsed}
use par.Ffi.Calls.{Library, TextCall, utf8, text}
use par.Ffi.Calls
use par.Ffi.Process.{Process, ◌>>=◌, call_text}
use par.Ffi.Strings.{fetch, py_str}
use par.Runtime.Base.{Runtime, check_handle, flag}
use par.Runtime.Invoke.{invoke_call, recover_call, generate_call}
use par.Runtime.Structured.{parallel_payload}
use par.Runtime.Documents.{loaders_json}
use par.Runtime.Requests.{Request, perform}

-- The exception class with which a method reports an error envelope.
abbrev pub error_kind : Request → Option ErrorKind
error_kind (Request.invoke a m s u d i) = some invoke_error
error_kind (Request.recover_invoke i s u) = some invoke_error
error_kind (Request.invoke_content a c s u) = some invoke_error
error_kind (Request.invoke_generate a m s u) = some invoke_error
error_kind (Request.invoke_structured a m s) = some invoke_error
error_kind (Request.invoke_parallel s l p) = some par_error
error_kind (Request.invoke_with_rag a m k) = some par_error
error_kind (Request.embed m) = some par_error
error_kind (Request.load_document p) = some runtime_error
error_kind (Request.load_directory p l) = some runtime_error
error_kind (Request.list_conversations s n) = some par_error
error_kind (Request.submit_workflow w) = some workflow_error
error_kind (Request.workflow_status r) = some par_error
error_kind Request.health = some par_error
error_kind Request.metrics = some par_error
error_kind (Request.mcp_server i) = some par_error
error_kind (Request.mcp_list_tools i) = some par_error
error_kind Request.mcp_tool_descriptors = some par_error
error_kind r = none

module _ (lib : Library) (py : Interpreter) where
  -- The call of each of these methods.
  abbrev pub text_call_of : Request → ℕ → Option TextCall
  text_call_of (Request.invoke a m s u d i) h = some (invoke_call h a m s u d i)
  text_call_of (Request.recover_invoke i s u) h = some (recover_call h i s u)
  text_call_of (Request.invoke_content a c s u) h =
      some (Calls.par_invoke_content h a (py.dumps c) (flag s) (flag u))
  text_call_of (Request.invoke_generate a m s u) h = some (generate_call h a m s u)
  text_call_of (Request.invoke_structured a m s) h =
      some (Calls.par_invoke_structured h a m (py.dumps s))
  text_call_of (Request.invoke_parallel s l p) h =
      some (Calls.par_invoke_parallel h (py.dumps (parallel_payload lib py s l p)))
  text_call_of (Request.invoke_with_rag a m k) h =
      some (Calls.par_invoke_with_rag h a m (int_str k))
  text_call_of (Request.embed m) h = some (Calls.par_embed h (py.dumps m))
  text_call_of (Request.load_document p) h = some (Calls.par_load_document h p)
  text_call_of (Request.load_directory p l) h =
      some (Calls.par_load_directory h p (loaders_json lib py l))
  text_call_of (Request.list_conversations s n) h = some (Calls.par_load_conversations h s n)
  text_call_of (Request.submit_workflow w) h = some (Calls.par_submit_workflow h w)
  text_call_of (Request.workflow_status r) h = some (Calls.par_workflow_status h r)
  text_call_of Request.health h = some (Calls.par_health h)
  text_call_of Request.metrics h = some (Calls.par_metrics h)
  text_call_of (Request.mcp_server i) h = some (Calls.par_mcp_server h i)
  text_call_of (Request.mcp_list_tools i) h = some (Calls.par_mcp_list_tools h i)
  text_call_of Request.mcp_tool_descriptors h = some (Calls.par_mcp_tool_descriptors h)
  text_call_of Request.list_orphaned_invokes h = some (Calls.par_list_orphaned_invokes h)
  text_call_of (Request.resume_workflow r) h = some (Calls.par_resume_workflow h r)
  text_call_of r h = none

  -- On an open runtime, where the library answers with an envelope that holds an error and no
  -- status, a method that returns an envelope or a JSON value (those with an `error_kind`) makes
  -- its one call and raises its own class of exception with that very error.
  pub perform-error :
      (r : Request) (self : Runtime) (p : Process) (h : ℕ) (c : TextCall) (k : ErrorKind)
      (s : String) (fs : Fields) (e : Json)
      → self.handle ≡ some h
      → eqb h 0 ≡ false
      → text_call_of r h ≡ some c
      → error_kind r ≡ some k
      → lib.text_reply p.history c ≡ some (utf8 s)
      → (s == "") ≡ false
      → py.loads s ≡ parsed (obj fs)
      → get "error" fs ≡ some e
      → get "status" fs ≡ none
      → ((perform lib py r self p).0 ≡ raised (exception k e))
        × ((perform lib py r self p).1.history ≡ text c ∷ p.history)
  unfolding perform ◌>>=◌ check_handle call_text fetch py_str
  perform-error (Request.invoke a m s' u d i) self p h c k s fs e eh ne ec ek er es el ee et =
      ground arith
  perform-error _ self p h c k s fs e eh ne ec ek er es el ee et = ground arith
