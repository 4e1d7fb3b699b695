-- ===== src/Runtime/World.antt =====
-- Several `Runtime` objects in one process, and what a program does with them.
pub mod Sound
pub mod Exact
pub mod Answers
pub mod Careful
pub mod Handles
mod Tests
use par.Prelude.{ℕ, zero, suc, String, List, [], ◌∷◌}
use par.Python.Json.{Json}
use par.Python.Errors.{Result, ok, raised}
use par.Python.Interpreter.{Interpreter}
use par.Ffi.Calls.{Library, Outcome}
use par.Ffi.Process.{Process}
use par.Runtime.Base.{Runtime}
use par.Runtime.Object.{State}
use par.Runtime.Handlers.{ApprovalHandler, register_tool_with_handler, register_approval_handler}
use par.Runtime.Lifecycle.{init, close}
use par.Runtime.Requests.{Request, perform}

pub record World : Type 0 where
  pub runtimes : List Runtime
  pub process : Process

-- What a program may do with one object.
pub data Operation : Type 0 where
  request : Request → Operation
  tool_handler : String → String → String → (String → Outcome) → Operation
  approval_handler : ApprovalHandler → String → Json → Operation
  close_it : Operation

-- `on i op`: an operation on the object number `i`.
pub data Command : Type 0 where
  create : String → Command
  on : ℕ → Operation → Command

module _ (lib : Library) (py : Interpreter) where
  unfoldable pub operate : Operation → State → State
  operate (request r) s = record s { process = (perform lib py r s.self s.process).1 }
  operate (tool_handler n d i f) s = (register_tool_with_handler lib py n d i f s).1
  operate (approval_handler h secret timeout) s =
      (register_approval_handler lib py h secret timeout s).1
  operate close_it s = (close lib py s).1

  abbrev push : Runtime → World → World
  push r w = record w { runtimes = r ∷ w.runtimes }

  -- Past the end of the list there is no such object, and nothing happens.
  unfoldable pub operate_at : ℕ → Operation → List Runtime → Process → World
  unfolding operate
  operate_at i op [] p = record { runtimes = []; process = p }
  operate_at zero op (r ∷ rs) p =
      let s = operate op (record { self = r; process = p }) in
      record { runtimes = s.self ∷ rs; process = s.process }
  operate_at (suc i) op (r ∷ rs) p = push r (operate_at i op rs p)

  abbrev created : Result Runtime → List Runtime → List Runtime
  created (ok r) rs = r ∷ rs
  created (raised e) rs = rs

  unfoldable pub execute : Command → World → World
  unfolding operate_at
  execute (create config_json) w = record {
    runtimes = created (init lib py config_json w.process).0 w.runtimes;
    process = (init lib py config_json w.process).1;
  }
  execute (on i op) w = operate_at i op w.runtimes w.process

  unfoldable pub run : List Command → World → World
  unfolding execute
  run [] w = w
  run (c ∷ cs) w = run cs (execute c w)
