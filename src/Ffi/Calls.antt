-- ===== src/Ffi/Calls.antt =====
-- The C functions that `_ffi.py` declares, one constructor each, grouped by what they return
-- (their `restype`), with the arguments of their `argtypes`. A handle is a number, 0 is NULL. The package
-- never calls `par_invoke_stream`, `par_event_subscribe` and `par_set_request_timeout`.
use par.Prelude.{ℕ, String, Option, List}
use par.Python.Int.{ℤ}
use par.Python.Json.{Json}

-- What the user's callable does with its argument: it returns a value, or raises an exception that
-- prints as the text.
pub data Outcome : Type 0 where
  returns : Json → Outcome
  raises : String → Outcome

-- A `_PYTHON_TOOL_CALLBACK`: the wrapper of a tool's handler, or of an approval handler.
pub data Callback : Type 0 where
  tool_callback : (String → Outcome) → Callback
  approval_callback : (Json → Outcome) → Callback

-- `restype = c_int`
pub data StatusCall : Type 0 where
  par_register_tool : ℕ → String → String → String → StatusCall
  par_register_tool_with_handler : ℕ → String → String → String → ℕ → StatusCall
  par_set_tool_layer : ℕ → String → String → StatusCall
  par_invoke_start : ℕ → String → String → ℕ → ℕ → StatusCall
  par_register_agent par_register_agent_as_tool par_register_skill : ℕ → String → StatusCall
  par_set_user_activated_skills par_set_default_llm_provider : ℕ → String → StatusCall
  par_save_conversation : ℕ → Option String → StatusCall
  par_load_conversation par_add_documents par_steer par_follow_up : ℕ → String → StatusCall
  par_approve_workflow : ℕ → String → String → StatusCall
  par_workflow_cancel par_register_approval_handler : ℕ → String → StatusCall
  par_resume_approval : ℕ → String → String → StatusCall
  par_set_vec_extension_path : String → StatusCall
  -- the pointer of a callback
  par_event_subscribe : ℕ → ℕ → StatusCall
  -- a number of seconds, m / 10^k
  par_set_request_timeout : ℤ → ℕ → StatusCall

-- `restype = c_void_p`, a string that the caller frees, or NULL
pub data TextCall : Type 0 where
  par_invoke_poll : ℤ → ℤ → TextCall
  par_stream_take_final : ℕ → TextCall
  par_list_skills par_get_user_activated_skills par_list_llm_providers : ℕ → TextCall
  par_get_session_id : ℕ → TextCall
  par_load_conversations : ℕ → Option String → ℤ → TextCall
  par_invoke : ℕ → String → String → TextCall
  par_invoke_ext par_invoke_content par_generate_ext : ℕ → String → String → ℕ → ℕ → TextCall
  par_invoke_durable : ℕ → String → String → String → TextCall
  par_invoke_durable_ext : ℕ → String → String → String → ℕ → ℕ → TextCall
  par_recover_invoke : ℕ → String → TextCall
  par_recover_invoke_ext : ℕ → String → ℕ → ℕ → TextCall
  par_list_orphaned_invokes : ℕ → TextCall
  par_generate : ℕ → String → String → TextCall
  par_embed par_load_document : ℕ → String → TextCall
  par_load_directory : ℕ → String → String → TextCall
  par_invoke_with_rag par_invoke_structured : ℕ → String → String → String → TextCall
  par_submit_workflow par_resume_workflow par_invoke_parallel : ℕ → String → TextCall
  par_health par_metrics par_mcp_tool_descriptors : ℕ → TextCall
  par_mcp_server par_mcp_list_tools par_workflow_status : ℕ → String → TextCall
  par_version : TextCall
  -- the pointers of a callback and of its data
  par_invoke_stream : ℕ → String → String → ℕ → ℕ → TextCall

-- `restype = c_void_p`, an opaque handle, or NULL
pub data HandleCall : Type 0 where
  par_init : String → HandleCall
  par_stream_start : ℕ → String → String → HandleCall

-- `restype = None`
pub data EffectCall : Type 0 where
  par_shutdown : ℕ → EffectCall
  par_store_python_handler : ℕ → Callback → EffectCall
  par_set_session_id : ℕ → String → EffectCall
  par_cancel_stream par_stream_cancel par_stream_free : ℕ → EffectCall
  par_invoke_cancel : ℤ → EffectCall

pub data Call : Type 0 where
  status : StatusCall → Call
  text : TextCall → Call
  handle : HandleCall → Call
  effect : EffectCall → Call
  poll : ℕ → ℕ → Call

-- The bytes of a C string, as far as `decode("utf-8")` tells.
pub data Bytes : Type 0 where
  utf8 : String → Bytes
  invalid : Bytes

-- `par_stream_poll`: NULL on a timeout, the sentinel `_PAR_STREAM_DONE`, or a chunk to free.
pub data PollReply : Type 0 where
  idle done : PollReply
  chunk : Bytes → PollReply

-- The shared library. What it answers may depend on every call made before, newest first.
pub record Library : Type 0 where
  pub status_reply : List Call → StatusCall → ℤ
  pub text_reply : List Call → TextCall → Option Bytes
  pub handle_reply : List Call → HandleCall → ℕ
  pub poll_reply : List Call → ℕ → ℕ → PollReply
