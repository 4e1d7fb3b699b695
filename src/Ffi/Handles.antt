-- ===== src/Ffi/Handles.antt =====
-- Which calls of the library name a runtime, and which runtimes are alive after a sequence of calls:
-- what `par_init` gives out is alive until it is given to `par_shutdown`.
use par.Prelude.{
  ℕ, String, ◌≡◌, Bool, true, false, ◌&&◌, Option, none, some, List, [], ◌∷◌, eqb, elem,
  if◌then◌else◌,
}
use par.Ffi.Calls.{Library, Call, HandleCall, par_init, StatusCall, TextCall, EffectCall}
use par.Ffi.Calls

abbrev status_runtime : StatusCall → Option ℕ
status_runtime (Calls.par_register_tool h n d s) = some h
status_runtime (Calls.par_register_tool_with_handler h n d s i) = some h
status_runtime (Calls.par_set_tool_layer h n l) = some h
status_runtime (Calls.par_invoke_start h a m s u) = some h
status_runtime (Calls.par_register_agent h c) = some h
status_runtime (Calls.par_register_agent_as_tool h c) = some h
status_runtime (Calls.par_register_skill h d) = some h
status_runtime (Calls.par_set_user_activated_skills h s) = some h
status_runtime (Calls.par_set_default_llm_provider h s) = some h
status_runtime (Calls.par_save_conversation h s) = some h
status_runtime (Calls.par_load_conversation h s) = some h
status_runtime (Calls.par_add_documents h d) = some h
status_runtime (Calls.par_steer h m) = some h
status_runtime (Calls.par_follow_up h m) = some h
status_runtime (Calls.par_approve_workflow h r a) = some h
status_runtime (Calls.par_workflow_cancel h r) = some h
status_runtime (Calls.par_register_approval_handler h c) = some h
status_runtime (Calls.par_resume_approval h r o) = some h
status_runtime (Calls.par_event_subscribe h c) = some h
status_runtime (Calls.par_set_vec_extension_path p) = none
status_runtime (Calls.par_set_request_timeout m k) = none

-- A stream and an asynchronous invocation have handles of their own.
abbrev text_runtime : TextCall → Option ℕ
text_runtime (Calls.par_invoke_poll i t) = none
text_runtime (Calls.par_stream_take_final s) = none
text_runtime Calls.par_version = none
text_runtime (Calls.par_list_skills h) = some h
text_runtime (Calls.par_get_user_activated_skills h) = some h
text_runtime (Calls.par_list_llm_providers h) = some h
text_runtime (Calls.par_get_session_id h) = some h
text_runtime (Calls.par_load_conversations h s n) = some h
text_runtime (Calls.par_invoke h a m) = some h
text_runtime (Calls.par_invoke_ext h a m s u) = some h
text_runtime (Calls.par_invoke_content h a c s u) = some h
text_runtime (Calls.par_generate_ext h a m s u) = some h
text_runtime (Calls.par_invoke_durable h a m i) = some h
text_runtime (Calls.par_invoke_durable_ext h a m i s u) = some h
text_runtime (Calls.par_recover_invoke h i) = some h
text_runtime (Calls.par_recover_invoke_ext h i s u) = some h
text_runtime (Calls.par_list_orphaned_invokes h) = some h
text_runtime (Calls.par_generate h a m) = some h
text_runtime (Calls.par_embed h m) = some h
text_runtime (Calls.par_load_document h p) = some h
text_runtime (Calls.par_load_directory h p l) = some h
text_runtime (Calls.par_invoke_with_rag h a m k) = some h
text_runtime (Calls.par_invoke_structured h a m s) = some h
text_runtime (Calls.par_submit_workflow h w) = some h
text_runtime (Calls.par_resume_workflow h r) = some h
text_runtime (Calls.par_invoke_parallel h s) = some h
text_runtime (Calls.par_health h) = some h
text_runtime (Calls.par_metrics h) = some h
text_runtime (Calls.par_mcp_tool_descriptors h) = some h
text_runtime (Calls.par_mcp_server h i) = some h
text_runtime (Calls.par_mcp_list_tools h i) = some h
text_runtime (Calls.par_workflow_status h r) = some h
text_runtime (Calls.par_invoke_stream h a m c u) = some h

abbrev handle_runtime : HandleCall → Option ℕ
handle_runtime (par_init c) = none
handle_runtime (Calls.par_stream_start h a m) = some h

abbrev effect_runtime : EffectCall → Option ℕ
effect_runtime (Calls.par_shutdown h) = some h
effect_runtime (Calls.par_set_session_id h i) = some h
effect_runtime (Calls.par_cancel_stream h) = some h
effect_runtime (Calls.par_store_python_handler i c) = none
effect_runtime (Calls.par_stream_cancel s) = none
effect_runtime (Calls.par_stream_free s) = none
effect_runtime (Calls.par_invoke_cancel i) = none

-- The runtime that a call is given, if it is given one.
abbrev pub runtime_of : Call → Option ℕ
runtime_of (Calls.status c) = status_runtime c
runtime_of (Calls.text c) = text_runtime c
runtime_of (Calls.handle c) = handle_runtime c
runtime_of (Calls.effect c) = effect_runtime c
runtime_of (Calls.poll s t) = none

abbrev pub remove : ℕ → List ℕ → List ℕ
remove a [] = []
remove a (b ∷ bs) = let rest = remove a bs in if eqb a b then rest else b ∷ rest

abbrev given : ℕ → List ℕ → List ℕ
given a l = if eqb a 0 then l else a ∷ l

module _ (lib : Library) where
  abbrev pub after_call : Call → List Call → List ℕ → List ℕ
  after_call (Calls.handle (par_init c)) h l = given (lib.handle_reply h (par_init c)) l
  after_call (Calls.effect (Calls.par_shutdown a)) h l = remove a l
  after_call c h l = l

  -- The runtimes that are alive after the calls, which stand newest first.
  abbrev pub live : List Call → List ℕ
  live [] = []
  live (c ∷ h) = after_call c h (live h)

  abbrev pub names_live : Option ℕ → List ℕ → Bool
  names_live none l = true
  names_live (some a) l = elem a l

  -- Each call that names a runtime names one that is alive at that time.
  abbrev pub all_live : List Call → Bool
  all_live [] = true
  all_live (c ∷ h) = names_live (runtime_of c) (live h) && all_live h

  -- The library never gives a runtime the address of one that is alive.
  abbrev pub HasFreshHandles : Type 0
  HasFreshHandles =
      (h : List Call) (config : String)
      → elem (lib.handle_reply h (par_init config)) (live h) ≡ false
