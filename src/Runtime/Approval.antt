-- ===== src/Runtime/Approval.antt =====
-- `resume_approval` of `Runtime`: the answer to a suspended approval.
pub mod Outcomes
use par.Prelude.{String, ◌<>◌, Bool, false, eqb, if◌then◌else◌, ◌==◌}
use par.Python.Int.{ℤ, pos, negsuc}
use par.Python.Json.{Json, str, obj, end, field}
use par.Python.Text.{lower, repr_str, int_str, type_name}
use par.Python.Errors.{Result, ok, fails, par_error, value_error, type_error}
use par.Python.Interpreter.{Interpreter}
use par.Ffi.Calls.{Library, par_resume_approval}
use par.Ffi.Process.{Action, ◌>>=◌, lift, call_status}
use par.Ffi.Strings.{c_str}
use par.Runtime.Base.{Runtime, check_handle, require_zero}

abbrev pub tagged : String → String → Json → Json
tagged tag key v = obj (field "tag" (str tag) (field key v end))

module _ (py : Interpreter) where
  -- The word that the caller gave, in lower case.
  abbrev pub word_json : String → String → String → Result String
  word_json outcome tag approver =
      if tag == "approved"
      then ok "\"Approved\""
      else if tag == "rejected"
      then ok (py.dumps (tagged "Rejected" "reason" (str ("Rejected by " <> approver))))
      else if tag == "timeout"
      then ok "\"Timeout\""
      else if tag == "modified"
      then ok (py.dumps (tagged "Modified" "new_input" (obj end)))
      else if tag == "escalated"
      then ok (py.dumps (tagged "Escalated" "target" (str approver)))
      else fails value_error (
          "Unknown outcome string: "
          <> repr_str outcome
          <> ". Expected: approved|rejected|timeout|modified|escalated")

  unfoldable pub outcome_json : Json → String → Result String
  unfolding lower repr_str
  outcome_json (str s) approver = word_json s (lower s) approver
  outcome_json (obj fs) approver = ok (py.dumps (obj fs))
  outcome_json v approver = fails type_error ("outcome must be a dict or str, got " <> type_name v)

-- `rc == -2`
abbrev is_minus_two : ℤ → Bool
is_minus_two (pos n) = false
is_minus_two (negsuc n) = eqb n 1

abbrev resumed : String → ℤ → Result Json
resumed run_id rc =
    if is_minus_two rc
    then fails par_error ("resume_approval: invalid outcome JSON for run_id=" <> run_id)
    else require_zero par_error
        ("resume_approval failed for run_id=" <> run_id <> " (code " <> int_str rc <> ")") rc

module _ (lib : Library) (py : Interpreter) where
  unfoldable pub resume_approval : Runtime → String → Json → String → Action Json
  unfolding outcome_json int_str
  resume_approval self run_id outcome approver = do
    h ← check_handle self
    text ← lift (outcome_json py outcome approver)
    rc ← call_status lib (par_resume_approval h (c_str run_id) (c_str text))
    lift (resumed run_id rc)
