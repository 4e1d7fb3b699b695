-- ===== src/Runtime/Registration.antt =====
-- The methods of `Runtime` that register tools, agents and skills, and choose the provider.
use par.Prelude.{String, ◌<>◌, Bool, Option, none, some, List, [], ◌∷◌, eqb, if◌then◌else◌, ◌==◌}
use par.Python.Int.{ℤ}
use par.Python.Json.{Json, Items, Fields, bool, int, str, arr, obj, nil, cons, end, field, put}
use par.Python.Text.{int_str, repr_str}
use par.Python.Errors.{ok, par_error, tool_error}
use par.Python.Interpreter.{Interpreter, loads_or_raise}
use par.Ffi.Calls.{
  Library, TextCall, par_register_tool, par_set_tool_layer, par_register_agent,
  par_register_agent_as_tool, par_register_skill, par_list_skills, par_set_user_activated_skills,
  par_get_user_activated_skills, par_list_llm_providers, par_set_default_llm_provider,
}
use par.Ffi.Process.{Action, ◌>>=◌, pure, lift, call_status, call_text}
use par.Ffi.Strings.{c_str, raw_text, finally_free}
use par.Runtime.Base.{Runtime, check_handle, require_zero}

abbrev pub strings : List String → Items
strings [] = nil
strings (s ∷ ss) = cons (str s) (strings ss)

-- `payload[key] = value`, if a value is given.
abbrev pub put_given : String → Option String → Fields → Fields
unfolding put
put_given key none fs = fs
put_given key (some v) fs = put key (str v) fs

unfoldable pub agent_payload : String → Option String → Option String → ℤ → Bool → Fields
unfolding put
agent_payload agent_id tool_name description max_depth inherit_cancellation =
    put "inherit_cancellation" (bool inherit_cancellation) (
      put "max_depth" (int max_depth) (
        put_given "description" description
          (put_given "tool_name" tool_name (field "agent_id" (str agent_id) end))))

module _ (lib : Library) (py : Interpreter) where
  unfoldable pub register_tool : Runtime → String → String → String → Action Json
  register_tool self name description input_schema = do
    h ← check_handle self
    rc ← call_status lib (par_register_tool h (c_str name) (c_str description) (c_str input_schema))
    lift (require_zero tool_error ("Failed to register tool: " <> name) rc)

  unfoldable pub set_tool_layer : Runtime → String → String → Action Json
  set_tool_layer self name layer = do
    h ← check_handle self
    rc ← call_status lib (par_set_tool_layer h (c_str name) (c_str layer))
    lift (require_zero tool_error ("Failed to set layer for tool: " <> name) rc)

  unfoldable pub register_agent : Runtime → String → Action Json
  register_agent self config_json = do
    h ← check_handle self
    rc ← call_status lib (par_register_agent h (c_str config_json))
    lift (require_zero par_error "Failed to register agent" rc)

  unfoldable pub register_agent_as_tool :
      Runtime → String → Option String → Option String → ℤ → Bool → Action Json
  unfolding agent_payload
  register_agent_as_tool self agent_id tool_name description max_depth inherit_cancellation = do
    h ← check_handle self
    let payload = agent_payload agent_id tool_name description max_depth inherit_cancellation
    rc ← call_status lib (par_register_agent_as_tool h (c_str (py.dumps (obj payload))))
    lift (require_zero par_error ("Failed to register agent as tool: " <> agent_id) rc)

  unfoldable pub register_skill : Runtime → String → Action Json
  unfolding int_str
  register_skill self descriptor_json = do
    h ← check_handle self
    rc ← call_status lib (par_register_skill h (c_str descriptor_json))
    lift (require_zero par_error ("Failed to register skill (code " <> int_str rc <> ")") rc)

  -- `return json.loads(raw) if raw else []`
  abbrev loads_or_empty : String → Action Json
  loads_or_empty raw = lift (if raw == "" then ok (arr nil) else loads_or_raise py raw)

  -- The body that the three list methods share: NULL is the empty list, a string is read, parsed
  -- and freed in a `finally`.
  unfoldable pub read_list : TextCall → Action Json
  read_list c = do
    ptr ← call_text lib c
    if eqb ptr 0 then pure (arr nil) else finally_free ptr (raw_text ptr >>= loads_or_empty)

  unfoldable pub list_skills : Runtime → Action Json
  list_skills self = do h ← check_handle self; read_list (par_list_skills h)

  unfoldable pub set_user_activated_skills : Runtime → List String → Action Json
  unfolding int_str
  set_user_activated_skills self skills = do
    h ← check_handle self
    rc ← call_status lib (par_set_user_activated_skills h (py.dumps (arr (strings skills))))
    lift
        (require_zero par_error ("set_user_activated_skills failed (code " <> int_str rc <> ")") rc)

  unfoldable pub clear_user_activated_skills : Runtime → Action Json
  clear_user_activated_skills self = set_user_activated_skills self []

  unfoldable pub get_user_activated_skills : Runtime → Action Json
  get_user_activated_skills self = do
    h ← check_handle self
    read_list (par_get_user_activated_skills h)

  unfoldable pub list_llm_providers : Runtime → Action Json
  list_llm_providers self = do h ← check_handle self; read_list (par_list_llm_providers h)

  unfoldable pub set_default_llm_provider : Runtime → String → Action Json
  unfolding repr_str
  set_default_llm_provider self provider_id = do
    h ← check_handle self
    rc ← call_status lib (par_set_default_llm_provider h (c_str provider_id))
    lift (require_zero par_error ("set_default_llm_provider failed: " <> repr_str provider_id) rc)
