-- ===== src/Runtime/Invoke.antt =====
-- The methods of `Runtime` that run an agent and return its envelope, and the asynchronous trio.
pub mod Async
mod Tests
use par.Prelude.{
  ℕ, String, ◌<>◌, Bool, true, false, ◌&&◌, ◌||◌, not, Option, none, some, eqb, is_some,
  if◌then◌else◌, ◌==◌,
}
use par.Python.Int.{ℤ, is_negative}
use par.Python.Json.{Json, Fields, null, str, obj, end, field, contains, get}
use par.Python.Text.{int_str, take}
use par.Python.Convert.{int_of, item}
use par.Python.Errors.{Result, ok, fails, invoke_error, ◌▹◌}
use par.Python.Interpreter.{Interpreter, Parsed, parsed, malformed, loads_or_raise}
use par.Ffi.Calls.{
  Library, TextCall, par_invoke, par_invoke_ext, par_invoke_durable, par_invoke_durable_ext,
  par_recover_invoke, par_recover_invoke_ext, par_list_orphaned_invokes, par_invoke_content,
  par_invoke_start, par_invoke_poll, par_invoke_cancel, par_generate, par_generate_ext,
}
use par.Ffi.Process.{Action, ◌>>=◌, ◌>>◌, pure, lift, call_status, call_text, call_effect}
use par.Ffi.Strings.{c_str, fetch, py_str}
use par.Runtime.Base.{
  Runtime, check_handle, check_error, flag, given_true, or_default, require_text,
}

-- The C function that `invoke` calls, and its arguments.
unfoldable pub invoke_call :
    ℕ → String → String → Option Bool → Option Bool → Bool → Option String → TextCall
invoke_call h agent_id message save update_current durable invoke_id =
    let save_flag = or_default false save in
    let update_flag = or_default true update_current in
    let name : String = elim invoke_id [ none ↦ "" | some i ↦ i ] in
    if durable || is_some invoke_id
    then (if not (is_some save) && not (is_some update_current)
        then par_invoke_durable h (c_str agent_id) (c_str message) (c_str name)
        else par_invoke_durable_ext h (c_str agent_id) (c_str message) (c_str name) (flag save_flag)
            (flag update_flag))
    else if is_some save || is_some update_current
    then par_invoke_ext h (c_str agent_id) (c_str message) (flag save_flag) (flag update_flag)
    else par_invoke h (c_str agent_id) (c_str message)

abbrev pub recover_call : ℕ → String → Option Bool → Option Bool → TextCall
recover_call h invoke_id save update_current =
    if not (is_some save) && not (is_some update_current)
    then par_recover_invoke h (c_str invoke_id)
    else par_recover_invoke_ext h (c_str invoke_id) (flag (or_default false save))
        (flag (or_default true update_current))

unfoldable pub generate_call : ℕ → String → String → Option Bool → Option Bool → TextCall
generate_call h agent_id message save update_current =
    if is_some save || is_some update_current
    then par_generate_ext h (c_str agent_id) (c_str message) (flag (given_true save))
        (flag (given_true update_current))
    else par_generate h (c_str agent_id) (c_str message)

module _ (lib : Library) (py : Interpreter) where
  -- A text that is no JSON is returned as it is: the `JSONDecodeError` is caught.
  abbrev pub checked_envelope : String → Parsed → Result Json
  checked_envelope result (parsed v) = check_error invoke_error v ▹ λ _. ok (str result)
  checked_envelope result (malformed e) = ok (str result)

  -- A text that is no JSON lets the `JSONDecodeError` through.
  abbrev pub strict_envelope : String → Result Json
  strict_envelope result =
      loads_or_raise py result ▹ check_error invoke_error ▹ λ _. ok (str result)

  unfoldable pub invoke :
      Runtime → String → String → Option Bool → Option Bool → Bool → Option String → Action Json
  invoke self agent_id message save update_current durable invoke_id = do
    h ← check_handle self
    result ← fetch lib (invoke_call h agent_id message save update_current durable invoke_id)
    lift (
        require_text invoke_error ("Invoke failed for agent: " <> agent_id) result ▹ λ r.
        checked_envelope r (py.loads r))

  unfoldable pub recover_invoke : Runtime → String → Option Bool → Option Bool → Action Json
  recover_invoke self invoke_id save update_current = do
    h ← check_handle self
    result ← fetch lib (recover_call h invoke_id save update_current)
    lift (
        require_text invoke_error ("recover_invoke failed for id: " <> invoke_id) result
        ▹ strict_envelope)

  unfoldable pub list_orphaned_invokes : Runtime → Action Json
  list_orphaned_invokes self = do
    h ← check_handle self
    raw ← fetch lib (par_list_orphaned_invokes h)
    lift (require_text invoke_error "list_orphaned_invokes failed" raw ▹ loads_or_raise py)

  -- `content` is the list of blocks.
  unfoldable pub invoke_content : Runtime → String → Json → Bool → Bool → Action Json
  invoke_content self agent_id content save update_current = do
    h ← check_handle self
    result ← fetch lib (
        par_invoke_content h (c_str agent_id) (c_str (py.dumps content)) (flag save)
          (flag update_current))
    lift (
        require_text invoke_error ("invoke_content failed for agent: " <> agent_id) result
        ▹ strict_envelope)

  unfoldable pub invoke_start : Runtime → String → String → Option Bool → Option Bool → Action Json
  unfolding int_str
  invoke_start self agent_id message save update_current = do
    h ← check_handle self
    rc ← call_status lib (
        par_invoke_start h (c_str agent_id) (c_str message) (flag (given_true save))
          (flag (given_true update_current)))
    lift (
        if is_negative rc
        then fails invoke_error "invoke_start failed (handle registry full or OCaml error)"
        else ok (str (int_str rc)))

  -- `{"status": "error", "error": e}`
  abbrev pub error_status : Json → Json
  error_status e = obj (field "status" (str "error") (field "error" e end))

  abbrev has_bare_error : Json → Option Json
  has_bare_error (obj fs) = if contains "status" fs then none else get "error" fs
  has_bare_error v = none

  abbrev pub poll_result : String → Parsed → Json
  poll_result raw (parsed v) = elim (has_bare_error v) [ none ↦ v | some e ↦ error_status e ]
  poll_result raw (malformed e) = error_status (str ("invalid JSON from poll: " <> take 200 raw))

  abbrev pub poll_text : String → Json
  poll_text raw =
      if raw == "" then error_status (str "empty poll result") else poll_result raw (py.loads raw)

  -- What `invoke_poll` makes of the pointer that it is given.
  unfoldable pub read_poll : ℕ → Action Json
  unfolding py_str take
  read_poll ptr =
      if eqb ptr 0
      then pure (error_status (str "handle not found or already consumed"))
      else (py_str ptr >>= λ raw. pure (poll_text raw))

  unfoldable pub invoke_poll : Runtime → String → ℤ → Action Json
  unfolding int_of
  invoke_poll self handle_id timeout_ms = do
    check_handle self
    id ← lift (int_of (str handle_id))
    ptr ← call_text lib (par_invoke_poll id timeout_ms)
    read_poll ptr

  unfoldable pub invoke_cancel : Runtime → String → Action Json
  unfolding int_of
  invoke_cancel self handle_id = do
    check_handle self
    id ← lift (int_of (str handle_id))
    call_effect lib (par_invoke_cancel id)
    pure null

  -- `parsed.get("status") == "ok"`, for a dict
  abbrev pub status_is : String → Fields → Bool
  status_is s fs = elim (get "status" fs) [ some (str t) ↦ t == s | _ ↦ false ]

  abbrev pub generated : String → Json → Result Json
  generated result (obj fs) =
      if status_is "ok" fs
      then item "result" fs
      else fails invoke_error ("Unexpected generate response: " <> take 200 result)
  generated result v = fails invoke_error ("Unexpected generate response: " <> take 200 result)

  abbrev pub generate_result : String → Parsed → Result Json
  generate_result result (malformed e) =
      fails invoke_error ("Generate returned invalid JSON: " <> e)
  generate_result result (parsed v) = check_error invoke_error v ▹ generated result

  unfoldable pub invoke_generate :
      Runtime → String → String → Option Bool → Option Bool → Action Json
  unfolding take
  invoke_generate self agent_id message save update_current = do
    h ← check_handle self
    result ← fetch lib (generate_call h agent_id message save update_current)
    lift (
        require_text invoke_error ("Generate failed for agent: " <> agent_id) result ▹ λ r.
        generate_result r (py.loads r))
