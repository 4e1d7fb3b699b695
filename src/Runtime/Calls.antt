-- ===== src/Runtime/Calls.antt =====
-- Which function of the library each method of `Runtime` calls, and how often.
use par.Prelude.{ℕ, ◌↔◌, ◌≡◌, true, false, Option, none, some, ◌∷◌, [], List, ◌⊎◌, arith, eqb}
use par.Python.Int.{is_zero}
use par.Python.Json.{null, obj, arr}
use par.Python.Errors.{ok}
use par.Python.Interpreter.{Interpreter}
use par.Ffi.Calls.{Library, StatusCall, Call, status}
use par.Ffi.Calls
use par.Ffi.Process.{Process, ◌>>=◌, call_status, call_text, call_effect}
use par.Ffi.Strings.{fetch, py_str, raw_text}
use par.Runtime.Base.{Runtime, check_handle}
use par.Runtime.Registration.{agent_payload, strings, read_list}
use par.Runtime.Session.{read_text}
use par.Runtime.Invoke.{read_poll}
use par.Runtime.Requests.{Request, perform, register_tool}

-- All calls but the newest.
abbrev pub older : List Call → List Call
older [] = []
older (c ∷ cs) = cs

module _ (lib : Library) (py : Interpreter) where
  -- The methods that ask for nothing but success, with the call that each makes.
  abbrev pub status_call_of : Request → ℕ → Option StatusCall
  status_call_of (register_tool n d s) h = some (Calls.par_register_tool h n d s)
  status_call_of (Request.set_tool_layer n l) h = some (Calls.par_set_tool_layer h n l)
  status_call_of (Request.register_agent c) h = some (Calls.par_register_agent h c)
  status_call_of (Request.register_skill d) h = some (Calls.par_register_skill h d)
  status_call_of (Request.register_agent_as_tool a t d m i) h =
      some (Calls.par_register_agent_as_tool h (py.dumps (obj (agent_payload a t d m i))))
  status_call_of (Request.set_user_activated_skills ss) h =
      some (Calls.par_set_user_activated_skills h (py.dumps (arr (strings ss))))
  status_call_of (Request.set_default_llm_provider i) h =
      some (Calls.par_set_default_llm_provider h i)
  status_call_of (Request.approve_workflow r a) h = some (Calls.par_approve_workflow h r a)
  status_call_of (Request.workflow_cancel r) h = some (Calls.par_workflow_cancel h r)
  status_call_of (Request.steer m) h = some (Calls.par_steer h m)
  status_call_of (Request.follow_up m) h = some (Calls.par_follow_up h m)
  status_call_of r h = none

  -- On an open runtime, a method that asks for nothing but success (those with a `status_call_of`)
  -- makes exactly its one call, and returns `None` if and only if the library answers 0.
  pub perform-status :
      (r : Request) (self : Runtime) (p : Process) (h : ℕ) (c : StatusCall)
      → self.handle ≡ some h
      → eqb h 0 ≡ false
      → status_call_of r h ≡ some c
      → ((perform lib py r self p).1.history ≡ status c ∷ p.history)
        × (((perform lib py r self p).0 ≡ ok null)
            ↔ (is_zero (lib.status_reply p.history c) ≡ true))
  unfolding perform ◌>>=◌ check_handle call_status
  perform-status (register_tool n d s) self p h c e ne t = ground arith
  perform-status _ self p h c e ne t = ground arith

  -- Every method makes at most one call of the library, whether it returns or raises.
  pub perform_calls_once :
      (r : Request) (self : Runtime) (p : Process)
      → ((perform lib py r self p).1.history ≡ p.history)
        ⊎ (older (perform lib py r self p).1.history ≡ p.history)
  unfolding perform ◌>>=◌ check_handle call_status call_text call_effect fetch py_str read_list
      read_text read_poll raw_text
  perform_calls_once (register_tool n d s) self p = ground arith
  perform_calls_once _ self p = ground arith
