-- ===== src/Runtime/Structured.antt =====
-- `invoke_structured`, `invoke_parallel` and `cancel_stream` of `Runtime`.
use par.Prelude.{suc, String, ◌<>◌, Option, none, some, if◌then◌else◌, ◌==◌}
use par.Python.Int.{ℤ}
use par.Python.Json.{Json, Fields, null, int, str, obj, end, field, get}
use par.Python.Text.{type_name}
use par.Python.Convert.{item}
use par.Python.Errors.{
  Result, ok, raised, fails, exception, par_error, invoke_error, type_error, ◌▹◌,
}
use par.Python.Interpreter.{Interpreter, Parsed, parsed, malformed}
use par.Ffi.Calls.{Library, par_invoke_structured, par_invoke_parallel, par_cancel_stream}
use par.Ffi.Process.{Action, ◌>>=◌, ◌>>◌, pure, lift, call_effect}
use par.Ffi.Strings.{c_str, fetch}
use par.Runtime.Base.{Runtime, check_handle, check_error, require_text}

abbrev unexpected : String → Result Json
unexpected result = fails invoke_error ("Invoke_structured returned unexpected: " <> result)

module _ (lib : Library) (py : Interpreter) where
  -- `json.loads(value)` inside the `try`: a `JSONDecodeError` falls through to the last line.
  abbrev inner : String → Parsed → Result Json
  inner result (parsed v) = ok v
  inner result (malformed e) = unexpected result

  abbrev status_value : String → Json → Result Json
  status_value result (obj v) = ok (obj v)
  status_value result (str s) = inner result (py.loads s)
  status_value result v =
      fails type_error ("the JSON object must be str, bytes or bytearray, not " <> type_name v)

  -- The value of an envelope whose status is "ok".
  abbrev ok_value : String → Fields → Result Json
  ok_value result fs = item "value" fs ▹ status_value result

  -- An envelope with no status, or with another status and no message.
  abbrev error_or_unexpected : String → Fields → Result Json
  error_or_unexpected result fs = elim (get "error" fs) [
    | none ↦ unexpected result
    | some e ↦ raised (exception invoke_error e)
  ]

  abbrev failed_status : String → Fields → Result Json
  failed_status result fs = elim (get "message" fs) [
    | some m ↦ raised (exception invoke_error m)
    | none ↦ error_or_unexpected result fs
  ]

  abbrev by_status : String → Fields → Option Json → Result Json
  by_status result fs none = error_or_unexpected result fs
  by_status result fs (some (str s)) =
      if s == "ok" then ok_value result fs else failed_status result fs
  by_status result fs (some v) = failed_status result fs

  abbrev pub structured_result : String → Parsed → Result Json
  structured_result result (parsed (obj fs)) = by_status result fs (get "status" fs)
  structured_result result (parsed v) = unexpected result
  structured_result result (malformed e) = unexpected result

  unfoldable pub invoke_structured : Runtime → String → String → Json → Action Json
  invoke_structured self agent_id message response_schema = do
    h ← check_handle self
    result ← fetch lib (
        par_invoke_structured h (c_str agent_id) (c_str message) (c_str (py.dumps response_schema)))
    lift (
        require_text invoke_error ("Invoke_structured failed for agent: " <> agent_id) result ▹ λ r.
        structured_result r (py.loads r))

  -- `failure_policy or "Fail_fast"`
  abbrev pub policy : Option String → String
  policy none = "Fail_fast"
  policy (some p) = if p == "" then "Fail_fast" else p

  abbrev pub parallel_payload : Json → ℤ → Option String → Json
  parallel_payload specs parallel_limit failure_policy = obj (
      field "specs" specs (
        field "parallel_limit" (int parallel_limit)
          (field "failure_policy" (str (policy failure_policy)) end)))

  abbrev pub parallel_result : Parsed → Result Json
  parallel_result (parsed v) = check_error par_error v
  parallel_result (malformed e) = fails par_error ("invoke_parallel returned invalid JSON: " <> e)

  unfoldable pub invoke_parallel : Runtime → Json → ℤ → Option String → Action Json
  invoke_parallel self specs parallel_limit failure_policy = do
    h ← check_handle self
    result ← fetch lib (
        par_invoke_parallel h
          (c_str (py.dumps (parallel_payload specs parallel_limit failure_policy))))
    lift (
        require_text par_error "invoke_parallel returned empty result" result ▹ λ r.
        parallel_result (py.loads r))

  -- `warnings.warn(…, DeprecationWarning)`, under a filter that does not turn warnings into errors.
  abbrev pub warn : Action Unit
  warn p = (ok tt, record p { warnings = suc p.warnings })

  unfoldable pub cancel_stream : Runtime → Action Json
  cancel_stream self = do
    warn
    h ← check_handle self
    call_effect lib (par_cancel_stream h)
    pure null
