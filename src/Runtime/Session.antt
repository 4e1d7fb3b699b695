-- ===== src/Runtime/Session.antt =====
-- The methods of `Runtime` on the session and its conversations.
use par.Prelude.{String, true, Option, none, some, eqb, if◌then◌else◌, ◌==◌}
use par.Python.Int.{ℤ, is_zero}
use par.Python.Json.{Json, null, bool, int, str, arr, nil}
use par.Python.Errors.{Result, ok, par_error, ◌▹◌}
use par.Python.Interpreter.{Interpreter, loads_or_raise}
use par.Ffi.Calls.{
  Library, TextCall, par_set_session_id, par_get_session_id, par_save_conversation,
  par_load_conversation, par_load_conversations,
}
use par.Ffi.Process.{Action, ◌>>=◌, ◌>>◌, pure, lift, call_status, call_text, call_effect}
use par.Ffi.Strings.{c_str, raw_text, finally_free, fetch}
use par.Runtime.Base.{Runtime, check_handle, check_error, get_attribute}

-- `_c_str(scope) if scope is not None else None`
abbrev scope_bytes : Option String → Option String
scope_bytes none = none
scope_bytes (some s) = some (c_str s)

module _ (lib : Library) (py : Interpreter) where
  unfoldable pub set_session_id : Runtime → String → Action Json
  set_session_id self session_id = do
    h ← check_handle self
    call_effect lib (par_set_session_id h (c_str session_id))
    pure null

  -- The string is read and freed in a `finally`.
  unfoldable pub read_text : TextCall → Action Json
  read_text c = do
    ptr ← call_text lib c
    if eqb ptr 0 then pure (str "") else finally_free ptr (raw_text ptr >>= λ s. pure (str s))

  unfoldable pub get_session_id : Runtime → Action Json
  get_session_id self = do h ← check_handle self; read_text (par_get_session_id h)

  unfoldable pub save_conversation : Runtime → Option String → Action Json
  save_conversation self scope = do
    h ← check_handle self
    rc ← call_status lib (par_save_conversation h (scope_bytes scope))
    pure (int rc)

  unfoldable pub load_conversation : Runtime → String → Action Json
  load_conversation self session_id = do
    h ← check_handle self
    rc ← call_status lib (par_load_conversation h (c_str session_id))
    pure (if is_zero rc then bool true else null)

  -- From the library's answer to the list of conversations.
  abbrev pub conversations_of : String → Result Json
  conversations_of raw =
      if raw == ""
      then ok (arr nil)
      else loads_or_raise py raw ▹ check_error par_error ▹ get_attribute "conversations" (arr nil)

  unfoldable pub list_conversations : Runtime → Option String → ℤ → Action Json
  list_conversations self scope limit = do
    h ← check_handle self
    raw ← fetch lib (par_load_conversations h (scope_bytes scope) limit)
    lift (conversations_of raw)
