-- ===== src/Runtime/Uses.antt =====
-- Which runtime the methods name to the library: that of their own object.
use par.Prelude.{ℕ, ◌≡◌, true, false, some, arith, eqb, elem}
use par.Python.Interpreter.{Interpreter}
use par.Ffi.Calls.{Library}
use par.Ffi.Handles.{live, all_live}
use par.Ffi.Process.{Process, ◌>>=◌, call_status, call_text, call_effect}
use par.Ffi.Strings.{fetch, py_str, raw_text}
use par.Runtime.Base.{Runtime, check_handle}
use par.Runtime.Registration.{read_list}
use par.Runtime.Session.{read_text}
use par.Runtime.Invoke.{read_poll, invoke_call, generate_call}
use par.Runtime.Requests.{Request, perform, register_tool}

module _ (lib : Library) (py : Interpreter) where
  -- A method of an open object gives the library no other runtime than the object's, and neither
  -- creates nor shuts down one.
  pub perform-live :
      (r : Request) (self : Runtime) (p : Process) (h : ℕ)
      → self.handle ≡ some h
      → eqb h 0 ≡ false
      → elem h (live lib p.history) ≡ true
      → all_live lib p.history ≡ true
      → (live lib (perform lib py r self p).1.history ≡ live lib p.history)
        × (all_live lib (perform lib py r self p).1.history ≡ true)
  unfolding perform ◌>>=◌ check_handle call_status call_text call_effect fetch py_str read_list
      read_text read_poll raw_text invoke_call generate_call
  perform-live (register_tool n d s) self p h e nz l a = ground arith
  perform-live _ self p h e nz l a = ground arith
