-- ===== src/Runtime/Answers.antt =====
-- What the methods of `Runtime` return when the library answers with a dict and no error.
use par.Prelude.{String, Option, none, some, ◌==◌, if◌then◌else◌}
use par.Python.Json.{Json, Fields, str, obj, arr, nil, get, get_or}
use par.Python.Interpreter.{Interpreter}
use par.Ffi.Process.{Process}
use par.Runtime.Base.{Runtime}
use par.Runtime.Requests.{Request}

-- The field `key` of a dict that says that its status is ok.
abbrev ok_field : String → Fields → Option Json → Option Json
ok_field key fs (some (str t)) = if t == "ok" then get key fs else none
ok_field key fs _ = none

abbrev dict_only : Option Json → Option Json
dict_only (some (obj fs)) = some (obj fs)
dict_only v = none

-- The value that a caller gets for the answer `t`, which is the text of the dict `fs`: the text itself, the
-- dict, or a part of it. `embed`, which asks for a list, is left out.
abbrev pub value_of : Request → String → Fields → Option Json
value_of (Request.invoke a m s u d i) t fs = some (str t)
value_of (Request.recover_invoke i s u) t fs = some (str t)
value_of (Request.invoke_content a c s u) t fs = some (str t)
value_of (Request.invoke_with_rag a m k) t fs = some (str t)
value_of (Request.submit_workflow w) t fs = some (str t)
value_of (Request.resume_workflow r) t fs = some (str t)
value_of (Request.invoke_generate a m s u) t fs = ok_field "result" fs (get "status" fs)
value_of (Request.invoke_structured a m s) t fs = dict_only (ok_field "value" fs (get "status" fs))
value_of (Request.list_conversations s n) t fs = some (get_or "conversations" (arr nil) fs)
value_of (Request.mcp_list_tools i) t fs = some (get_or "tools" (arr nil) fs)
value_of Request.mcp_tool_descriptors t fs = some (get_or "tools" (arr nil) fs)
value_of Request.metrics t fs = some (get_or "metrics" (obj fs) fs)
value_of Request.list_orphaned_invokes t fs = some (obj fs)
value_of (Request.invoke_parallel s l p) t fs = some (obj fs)
value_of (Request.load_document p) t fs = some (obj fs)
value_of (Request.load_directory p l) t fs = some (obj fs)
value_of (Request.workflow_status r) t fs = some (obj fs)
value_of Request.health t fs = some (obj fs)
value_of (Request.mcp_server i) t fs = some (obj fs)
value_of r t fs = none
