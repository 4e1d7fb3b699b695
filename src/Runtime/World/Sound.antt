-- ===== src/Runtime/World/Sound.antt =====
-- In every state that a program can reach, each object owns its callbacks: an object that is open never
-- loses one to another object.
use par.Prelude.{ℕ, zero, suc, String, ◌≡◌, refl, ap, Bool, List, [], ◌∷◌, arith}
use par.Python.Errors.{Result, ok, raised}
use par.Python.Interpreter.{Interpreter}
use par.Ffi.Calls.{Library}
use par.Ffi.Process.{Process, ◌>>=◌, call_handle}
use par.Runtime.Base.{Runtime}
use par.Runtime.Object.{State, callback_at}
use par.Runtime.Lifecycle.{init}
use par.Runtime.Sharing
use par.Runtime.Registry.{has_id, IsThere, Owns, IsLocal}
use par.Runtime.Registry.Local.{
  register_tool_with_handler-IsLocal, register_approval_handler-IsLocal, close-IsLocal,
  perform-IsLocal,
}
use par.Runtime.World.{
  World, Operation, Command, request, tool_handler, approval_handler, close_it, create, on, operate,
  operate_at, execute, run, created,
}

-- Some object of the list owns the id.
abbrev pub owned : ℕ → List Runtime → Bool
owned k rs = Sharing.owned has_id IsThere k rs

-- Each object owns its callbacks, and no id belongs to two objects.
abbrev pub IsSound : Process → List Runtime → Type 0
IsSound p rs = Sharing.IsSound has_id IsThere p rs

abbrev IsLocalAt : List Runtime → Process → List Runtime → Process → Type 0
IsLocalAt rs p rs' p' = Sharing.IsLocalAt has_id IsThere rs p rs' p'

operate-IsLocal :
    (lib : Library) (py : Interpreter) (op : Operation) (s : State)
    → Owns s.process s.self
    → IsLocal s.self s.process (operate lib py op s).self (operate lib py op s).process
unfolding operate
operate-IsLocal lib py (request r) s own = perform-IsLocal lib py s own r
operate-IsLocal lib py (tool_handler n d i f) s own =
    register_tool_with_handler-IsLocal lib py s own n d i f
operate-IsLocal lib py (approval_handler h secret timeout) s own =
    register_approval_handler-IsLocal lib py s own h secret timeout
operate-IsLocal lib py close_it s own = close-IsLocal lib py s own

module _ (lib : Library) (py : Interpreter) where
  pub operate_at-IsLocalAt :
      (i : ℕ) (op : Operation) (rs : List Runtime) (p : Process)
      → IsSound p rs
      → let w = operate_at lib py i op rs p in IsLocalAt rs p w.runtimes w.process
  unfolding operate_at
  operate_at-IsLocalAt i op [] p s = Sharing.nil_IsLocalAt has_id IsThere p
  operate_at-IsLocalAt zero op (r ∷ rs) p s =
      Sharing.here_IsLocalAt has_id IsThere r _ rs p _ s
        (operate-IsLocal lib py op (record { self = r; process = p }) s.0)
  operate_at-IsLocalAt (suc i) op (r ∷ rs) p s =
      Sharing.there_IsLocalAt has_id IsThere r rs _ p _ s (operate_at-IsLocalAt i op rs p s.2)

  -- `__init__` touches no callback, and a new object owns none.
  pub init_callbacks :
      (config_json : String) (p : Process)
      → ((init lib py config_json p).1.callbacks ≡ p.callbacks)
        × ((init lib py config_json p).1.counter ≡ p.counter)
  unfolding init ◌>>=◌ call_handle
  init_callbacks config_json p = ground arith

  pub init_ids :
      (config_json : String) (p : Process) (r : Runtime)
      → (init lib py config_json p).0 ≡ ok r
      → r.callback_ids ≡ []
  unfolding init ◌>>=◌ call_handle
  init_ids config_json p r e = ground arith

  created-IsSound :
      (new : Result Runtime) (p : Process) (rs : List Runtime)
      → ((r : Runtime) → new ≡ ok r → r.callback_ids ≡ [])
      → IsSound p rs
      → IsSound p (created lib py new rs)
  created-IsSound (raised e) p rs none_yet s = s
  created-IsSound (ok r) p rs none_yet s =
      let ids = none_yet r refl in (λ k h. ground arith, λ k h. ground arith, s)

  pub execute-IsSound :
      (c : Command) (w : World)
      → IsSound w.process w.runtimes
      → IsSound (execute lib py c w).process (execute lib py c w).runtimes
  unfolding execute
  execute-IsSound (create config_json) w s =
      let (same, counter) = init_callbacks config_json w.process in
      Sharing.IsSound-frame has_id IsThere
        (created lib py (init lib py config_json w.process).0 w.runtimes) w.process
        (init lib py config_json w.process).1
        (created-IsSound (init lib py config_json w.process).0 w.process w.runtimes
          (init_ids config_json w.process) s)
        (λ k h. ap (callback_at k) same) (omega arith)
  execute-IsSound (on i op) w s = (operate_at-IsLocalAt i op w.runtimes w.process s).sound

  -- From a sound state, any commands lead to a sound state, whatever the library answers: every
  -- callback that an object registered and has not released by `close` is still in the shared dict, and
  -- no two objects share an id.
  pub run-IsSound :
      (cs : List Command) (w : World)
      → IsSound w.process w.runtimes
      → IsSound (run lib py cs w).process (run lib py cs w).runtimes
  unfolding run
  run-IsSound [] w s = s
  run-IsSound (c ∷ cs) w s = run-IsSound cs (execute lib py c w) (execute-IsSound c w s)
