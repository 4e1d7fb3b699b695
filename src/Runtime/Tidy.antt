-- ===== src/Runtime/Tidy.antt =====
-- Every method of `Runtime` gives back the memory that the library hands it.
use par.Prelude.{refl, arith}
use par.Python.Interpreter.{Interpreter}
use par.Ffi.Calls.{Library, TextCall}
use par.Ffi.Process.{◌>>=◌, call_text}
use par.Ffi.Strings.{py_str, raw_text, free}
use par.Ffi.Memory.{IsTidy, IsTidy-lift, tidy_rules}
use par.Runtime.Base.{Runtime, check_handle}
use par.Runtime.Registration
use par.Runtime.Session
use par.Runtime.Invoke
use par.Runtime.Structured
use par.Runtime.Requests.{Request, perform, register_tool}

module _ (lib : Library) (py : Interpreter) where
  check_handle-IsTidy : (self : Runtime) → IsTidy (check_handle self)
  unfolding check_handle
  check_handle-IsTidy self = IsTidy-lift _

  -- A string that is read under `try` and freed in the `finally`.
  read_list-IsTidy : (c : TextCall) → IsTidy (Registration.read_list lib py c)
  unfolding Registration.read_list call_text raw_text ◌>>=◌ free
  read_list-IsTidy c = record {
    blocks = λ p. ground arith;
    faults = λ p. ground arith;
    callbacks = λ p. ground arith;
    counter = λ p. ground arith;
  }

  read_text-IsTidy : (c : TextCall) → IsTidy (Session.read_text lib py c)
  unfolding Session.read_text call_text raw_text ◌>>=◌ free
  read_text-IsTidy c = record {
    blocks = λ p. ground arith;
    faults = λ p. ground arith;
    callbacks = λ p. ground arith;
    counter = λ p. ground arith;
  }

  -- `invoke_poll` tests the pointer before it reads the string.
  read_poll-IsTidy : (c : TextCall) → IsTidy (call_text lib c >>= Invoke.read_poll lib py)
  unfolding Invoke.read_poll call_text py_str ◌>>=◌
  read_poll-IsTidy c = record {
    blocks = λ p. ground arith;
    faults = λ p. ground arith;
    callbacks = λ p. ground arith;
    counter = λ p. ground arith;
  }

  warn-IsTidy : IsTidy (Structured.warn lib py)
  warn-IsTidy = record {
    blocks = λ p. refl;
    faults = λ p. refl;
    callbacks = λ p. refl;
    counter = λ p. refl;
  }

  ruleset tidy_methods = (
    tidy_rules, check_handle-IsTidy, read_list-IsTidy, read_text-IsTidy, read_poll-IsTidy,
    warn-IsTidy,
  )

  pub perform-IsTidy : (r : Request) (self : Runtime) → IsTidy (perform lib py r self)
  unfolding perform
  perform-IsTidy (register_tool n d s) self = search tidy_methods depth 12
  perform-IsTidy _ self = search tidy_methods depth 12
