-- ===== src/Runtime/Workflow.antt =====
-- The methods of `Runtime` on workflows, steering, health and MCP servers, and `version`.
use par.Prelude.{String, ◌<>◌}
use par.Python.Json.{Json, str, arr, nil}
use par.Python.Text.{int_str}
use par.Python.Errors.{Result, ok, fails, par_error, workflow_error, ◌▹◌}
use par.Python.Interpreter.{Interpreter, Parsed, parsed, malformed, loads_or_raise}
use par.Ffi.Calls.{
  Library, par_submit_workflow, par_approve_workflow, par_resume_workflow, par_workflow_status,
  par_workflow_cancel, par_health, par_metrics, par_steer, par_follow_up, par_mcp_server,
  par_mcp_list_tools, par_mcp_tool_descriptors, par_version,
}
use par.Ffi.Process.{Action, ◌>>=◌, pure, lift, call_status}
use par.Ffi.Strings.{c_str, fetch}
use par.Runtime.Base.{
  Runtime, check_handle, check_error, check_error_in, get_attribute, require_zero, require_text,
  is_open,
}
use par.Prelude.{if◌then◌else◌}

module _ (lib : Library) (py : Interpreter) where
  abbrev pub submitted : String → Parsed → Result Json
  submitted result (parsed v) = check_error workflow_error v ▹ λ _. ok (str result)
  submitted result (malformed e) = ok (str result)

  unfoldable pub submit_workflow : Runtime → String → Action Json
  submit_workflow self workflow_json = do
    h ← check_handle self
    result ← fetch lib (par_submit_workflow h (c_str workflow_json))
    lift (submitted result (py.loads result))

  unfoldable pub approve_workflow : Runtime → String → String → Action Json
  approve_workflow self run_id approver = do
    h ← check_handle self
    rc ← call_status lib (par_approve_workflow h (c_str run_id) (c_str approver))
    lift (require_zero workflow_error ("Failed to approve workflow: " <> run_id) rc)

  unfoldable pub resume_workflow : Runtime → String → Action Json
  resume_workflow self run_id = do
    h ← check_handle self
    result ← fetch lib (par_resume_workflow h (c_str run_id))
    pure (str result)

  abbrev pub health_result : Parsed → Result Json
  health_result (parsed v) = check_error_in par_error v
  health_result (malformed e) = fails par_error ("Invalid health JSON: " <> e)

  unfoldable pub health : Runtime → Action Json
  health self = do
    h ← check_handle self
    result ← fetch lib (par_health h)
    lift (require_text par_error "health() returned empty" result ▹ λ r. health_result (py.loads r))

  abbrev pub metrics_result : Parsed → Result Json
  metrics_result (parsed v) = check_error_in par_error v ▹ λ w. get_attribute "metrics" w w
  metrics_result (malformed e) = fails par_error ("Invalid metrics JSON: " <> e)

  unfoldable pub metrics : Runtime → Action Json
  metrics self = do
    h ← check_handle self
    result ← fetch lib (par_metrics h)
    lift (
        require_text par_error "metrics() returned empty" result ▹ λ r. metrics_result (py.loads r))

  unfoldable pub steer : Runtime → String → Action Json
  unfolding int_str
  steer self message = do
    h ← check_handle self
    rc ← call_status lib (par_steer h (c_str message))
    lift (require_zero par_error ("steer() failed with code " <> int_str rc) rc)

  unfoldable pub follow_up : Runtime → String → Action Json
  unfolding int_str
  follow_up self message = do
    h ← check_handle self
    rc ← call_status lib (par_follow_up h (c_str message))
    lift (require_zero par_error ("follow_up() failed with code " <> int_str rc) rc)

  -- The answer of a query: an envelope that may hold an error.
  abbrev pub queried : String → Result Json
  queried result = loads_or_raise py result ▹ check_error_in par_error

  -- `parsed.get("tools", [])` of the answer.
  abbrev pub tools_of : String → Result Json
  tools_of result = queried result ▹ get_attribute "tools" (arr nil)

  unfoldable pub mcp_server : Runtime → String → Action Json
  mcp_server self server_id = do
    h ← check_handle self
    result ← fetch lib (par_mcp_server h (c_str server_id))
    lift (queried result)

  unfoldable pub mcp_list_tools : Runtime → String → Action Json
  mcp_list_tools self server_id = do
    h ← check_handle self
    result ← fetch lib (par_mcp_list_tools h (c_str server_id))
    lift (tools_of result)

  unfoldable pub mcp_tool_descriptors : Runtime → Action Json
  mcp_tool_descriptors self = do
    h ← check_handle self
    result ← fetch lib (par_mcp_tool_descriptors h)
    lift (tools_of result)

  unfoldable pub workflow_status : Runtime → String → Action Json
  workflow_status self run_id = do
    h ← check_handle self
    result ← fetch lib (par_workflow_status h (c_str run_id))
    lift (queried result)

  unfoldable pub workflow_cancel : Runtime → String → Action Json
  workflow_cancel self run_id = do
    h ← check_handle self
    rc ← call_status lib (par_workflow_cancel h (c_str run_id))
    lift (require_zero workflow_error ("workflow_cancel(" <> run_id <> ") failed") rc)

  unfoldable pub version : Action Json
  version = do result ← fetch lib par_version; pure (str result)

-- `__repr__`
pub repr_of : Runtime → String
repr_of self = "<PAR Runtime " <> (if is_open self then "active" else "closed") <> ">"
