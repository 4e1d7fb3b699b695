-- ===== src/Runtime/Handlers.antt =====
-- `register_tool_with_handler` and `register_approval_handler` of `Runtime`, and the wrappers that the
-- library calls back.
pub mod Answers
pub mod Registering
use par.Prelude.{ℕ, String, ◌<>◌, if◌then◌else◌}
use par.Python.Int.{ℤ, pos, is_zero}
use par.Python.Json.{Json, null, int, str, obj, end, field}
use par.Python.Text.{int_str, type_name}
use par.Python.Errors.{
  Error, Result, ok, raised, fails, exception, par_error, tool_error, type_error, ◌▹◌,
}
use par.Python.Interpreter.{Interpreter, loads_or_raise}
use par.Ffi.Calls.{
  Library, Bytes, Outcome, returns, raises, tool_callback, approval_callback,
  par_register_tool_with_handler, par_store_python_handler, par_register_approval_handler,
}
use par.Ffi.Process.{call_status, call_effect}
use par.Ffi.Strings.{c_str, decode}
use par.Runtime.Base.{check_handle, require_zero}
use par.Runtime.Object.{
  Method, on_process, return, ◌>>=◌, ◌>>◌, next_id, set_callback, drop_callback, own_id, store, pop,
}

-- `handler` of `register_approval_handler`: `other` is a value that is neither, of that type name.
pub data ApprovalHandler : Type 0 where
  callable : (Json → Outcome) → ApprovalHandler
  url : String → ApprovalHandler
  other : String → ApprovalHandler

-- `str(e)`, for an exception that the binding's own code raised.
abbrev pub message_of : Error → String
message_of (exception k (str s)) = s
message_of (exception k v) = type_name v

module _ (py : Interpreter) where
  abbrev error_reply : String → String
  error_reply e = py.dumps (obj (field "error" (str e) end))

  abbrev encoded : Outcome → String
  encoded (returns (str s)) = s
  encoded (returns v) = error_reply ("'" <> type_name v <> "' object has no attribute 'encode'")
  encoded (raises e) = error_reply e

  abbrev with_text : (String → Outcome) → Result String → String
  with_text handler (ok s) = encoded (handler s)
  with_text handler (raised e) = error_reply (message_of e)

  -- `_wrapper` of `register_tool_with_handler`: every exception becomes a JSON error.
  unfoldable pub tool_wrapper : (String → Outcome) → Bytes → String
  tool_wrapper handler input_json = with_text handler (decode input_json)

  abbrev pub rejected : String → String
  rejected e = py.dumps (obj (field "tag" (str "Rejected") (field "reason" (str e) end)))

  abbrev pub verdict : Outcome → String
  verdict (returns (str s)) = s
  verdict (returns v) = py.dumps v
  verdict (raises e) = rejected e

  abbrev with_context : (Json → Outcome) → Result Json → String
  with_context handler (ok ctx) = verdict (handler ctx)
  with_context handler (raised e) = rejected (message_of e)

  -- `_wrapper` of `register_approval_handler`: every exception becomes a rejection.
  unfoldable pub approval_wrapper : (Json → Outcome) → Bytes → String
  approval_wrapper handler context_json =
      with_context handler (decode context_json ▹ loads_or_raise py)

module _ (lib : Library) (py : Interpreter) where
  -- After a failure the callback is dropped, and the object does not own the id.
  abbrev finish_tool : String → ℕ → ℤ → Method Json
  unfolding pop
  finish_tool name handler_id rc =
      if is_zero rc
      then (own_id handler_id >> return (ok null))
      else (drop_callback handler_id
          >> return (fails tool_error ("Failed to register tool with handler: " <> name)))

  unfoldable pub register_tool_with_handler :
      String → String → String → (String → Outcome) → Method Json
  unfolding check_handle call_status call_effect store pop
  register_tool_with_handler name description input_schema handler = do
    h ← on_process check_handle
    handler_id ← next_id
    set_callback handler_id (tool_callback handler)
    on_process (λ _. call_effect lib (par_store_python_handler handler_id (tool_callback handler)))
    rc ← on_process (λ _. call_status lib (
        par_register_tool_with_handler h (c_str name) (c_str description) (c_str input_schema)
          handler_id))
    finish_tool name handler_id rc

  abbrev pub sync_config : ℕ → Json
  sync_config handler_id =
      obj (field "mode" (str "sync_callback") (field "handler_id" (int (pos handler_id)) end))

  abbrev webhook_config : String → String → Json → Json
  webhook_config handler secret timeout = obj (
      field "mode" (str "webhook")
        (field "url" (str handler) (field "secret" (str secret) (field "timeout_sec" timeout end))))

  -- The configuration for the library; a callable is stored, and owned by the object, at once.
  abbrev approval_config : ApprovalHandler → String → Json → Method Json
  unfolding store call_effect
  approval_config (callable f) secret timeout = do
    handler_id ← next_id
    set_callback handler_id (approval_callback f)
    on_process (λ _. call_effect lib (par_store_python_handler handler_id (approval_callback f)))
    own_id handler_id
    return (ok (sync_config handler_id))
  approval_config (url u) secret timeout = return (ok (webhook_config u secret timeout))
  approval_config (other t) secret timeout =
      return (fails type_error ("handler must be a callable or URL string, got " <> t))

  unfoldable pub register_approval_handler : ApprovalHandler → String → Json → Method Json
  unfolding check_handle call_status call_effect store int_str
  register_approval_handler handler secret timeout = do
    h ← on_process check_handle
    config ← approval_config handler secret timeout
    rc ←
        on_process
          (λ _. call_status lib (par_register_approval_handler h (c_str (py.dumps config))))
    return
        (require_zero par_error ("register_approval_handler failed (code " <> int_str rc <> ")") rc)
