-- ===== src/Runtime/Requests.antt =====
-- The methods of `Runtime` that leave the object itself alone, as one type of requests.
use par.Prelude.{String, Bool, Option, List}
use par.Python.Int.{ℤ}
use par.Python.Json.{Json, Fields}
use par.Python.Interpreter.{Interpreter}
use par.Ffi.Calls.{Library}
use par.Ffi.Process.{Action}
use par.Runtime.Base.{Runtime}
use par.Runtime.Registration
use par.Runtime.Session
use par.Runtime.Invoke
use par.Runtime.Documents
use par.Runtime.Structured
use par.Runtime.Workflow
use par.Runtime.Approval

pub data Request : Type 0 where
  register_tool : String → String → String → Request
  set_tool_layer : String → String → Request
  register_agent register_skill : String → Request
  register_agent_as_tool : String → Option String → Option String → ℤ → Bool → Request
  list_skills clear_user_activated_skills get_user_activated_skills list_llm_providers : Request
  set_user_activated_skills : List String → Request
  set_default_llm_provider set_session_id load_conversation : String → Request
  get_session_id : Request
  save_conversation : Option String → Request
  list_conversations : Option String → ℤ → Request
  invoke : String → String → Option Bool → Option Bool → Bool → Option String → Request
  recover_invoke : String → Option Bool → Option Bool → Request
  list_orphaned_invokes : Request
  invoke_content : String → Json → Bool → Bool → Request
  invoke_start invoke_generate : String → String → Option Bool → Option Bool → Request
  invoke_poll : String → ℤ → Request
  invoke_cancel : String → Request
  embed add_documents : Json → Request
  load_document : String → Request
  load_directory : String → Option Fields → Request
  invoke_with_rag : String → String → ℤ → Request
  invoke_structured : String → String → Json → Request
  invoke_parallel : Json → ℤ → Option String → Request
  cancel_stream : Request
  resume_approval : String → Json → String → Request
  submit_workflow resume_workflow workflow_status workflow_cancel : String → Request
  approve_workflow : String → String → Request
  health metrics mcp_tool_descriptors : Request
  steer follow_up mcp_server mcp_list_tools : String → Request

module _ (lib : Library) (py : Interpreter) where
  -- Opening this opens every method.
  unfoldable pub perform : Request → Runtime → Action Json
  unfolding Registration.register_tool Registration.set_tool_layer Registration.register_agent
      Registration.register_skill Registration.register_agent_as_tool Registration.list_skills
      Registration.clear_user_activated_skills Registration.get_user_activated_skills
      Registration.list_llm_providers Registration.set_default_llm_provider
      Registration.set_user_activated_skills Session.set_session_id Session.load_conversation
      Session.get_session_id Session.save_conversation Session.list_conversations Invoke.invoke
      Invoke.recover_invoke Invoke.list_orphaned_invokes Invoke.invoke_content Invoke.invoke_start
      Invoke.invoke_generate Invoke.invoke_poll Invoke.invoke_cancel Documents.embed
      Documents.add_documents Documents.load_document Documents.load_directory
      Documents.invoke_with_rag Structured.invoke_structured Structured.invoke_parallel
      Structured.cancel_stream Approval.resume_approval Workflow.submit_workflow
      Workflow.resume_workflow Workflow.workflow_status Workflow.workflow_cancel
      Workflow.approve_workflow Workflow.health Workflow.metrics Workflow.mcp_tool_descriptors
      Workflow.steer Workflow.follow_up Workflow.mcp_server Workflow.mcp_list_tools
  perform (register_tool n d s) self = Registration.register_tool lib py self n d s
  perform (set_tool_layer n l) self = Registration.set_tool_layer lib py self n l
  perform (register_agent c) self = Registration.register_agent lib py self c
  perform (register_skill d) self = Registration.register_skill lib py self d
  perform (register_agent_as_tool a t d m i) self =
      Registration.register_agent_as_tool lib py self a t d m i
  perform list_skills self = Registration.list_skills lib py self
  perform clear_user_activated_skills self = Registration.clear_user_activated_skills lib py self
  perform get_user_activated_skills self = Registration.get_user_activated_skills lib py self
  perform list_llm_providers self = Registration.list_llm_providers lib py self
  perform (set_user_activated_skills ss) self =
      Registration.set_user_activated_skills lib py self ss
  perform (set_default_llm_provider p) self = Registration.set_default_llm_provider lib py self p
  perform (set_session_id i) self = Session.set_session_id lib py self i
  perform (load_conversation i) self = Session.load_conversation lib py self i
  perform get_session_id self = Session.get_session_id lib py self
  perform (save_conversation s) self = Session.save_conversation lib py self s
  perform (list_conversations s n) self = Session.list_conversations lib py self s n
  perform (invoke a m s u d i) self = Invoke.invoke lib py self a m s u d i
  perform (recover_invoke i s u) self = Invoke.recover_invoke lib py self i s u
  perform list_orphaned_invokes self = Invoke.list_orphaned_invokes lib py self
  perform (invoke_content a c s u) self = Invoke.invoke_content lib py self a c s u
  perform (invoke_start a m s u) self = Invoke.invoke_start lib py self a m s u
  perform (invoke_generate a m s u) self = Invoke.invoke_generate lib py self a m s u
  perform (invoke_poll h t) self = Invoke.invoke_poll lib py self h t
  perform (invoke_cancel h) self = Invoke.invoke_cancel lib py self h
  perform (embed m) self = Documents.embed lib py self m
  perform (add_documents d) self = Documents.add_documents lib py self d
  perform (load_document p) self = Documents.load_document lib py self p
  perform (load_directory p l) self = Documents.load_directory lib py self p l
  perform (invoke_with_rag a m k) self = Documents.invoke_with_rag lib py self a m k
  perform (invoke_structured a m s) self = Structured.invoke_structured lib py self a m s
  perform (invoke_parallel s l p) self = Structured.invoke_parallel lib py self s l p
  perform cancel_stream self = Structured.cancel_stream lib py self
  perform (resume_approval r o a) self = Approval.resume_approval lib py self r o a
  perform (submit_workflow w) self = Workflow.submit_workflow lib py self w
  perform (resume_workflow r) self = Workflow.resume_workflow lib py self r
  perform (workflow_status r) self = Workflow.workflow_status lib py self r
  perform (workflow_cancel r) self = Workflow.workflow_cancel lib py self r
  perform (approve_workflow r a) self = Workflow.approve_workflow lib py self r a
  perform health self = Workflow.health lib py self
  perform metrics self = Workflow.metrics lib py self
  perform mcp_tool_descriptors self = Workflow.mcp_tool_descriptors lib py self
  perform (steer m) self = Workflow.steer lib py self m
  perform (follow_up m) self = Workflow.follow_up lib py self m
  perform (mcp_server i) self = Workflow.mcp_server lib py self i
  perform (mcp_list_tools i) self = Workflow.mcp_list_tools lib py self i
