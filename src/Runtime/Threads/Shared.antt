-- ===== src/Runtime/Threads/Shared.antt =====
-- Two threads on one `Runtime` object. `close` calls the library before it forgets the handle, and no lock
-- keeps another thread from reading the handle in between.
use par.Prelude.{ℕ, ◌≡◌, Bool, true, false, some, List, [], ◌∷◌, eqb, arith}
use par.Python.Interpreter.{Interpreter}
use par.Ffi.Calls.{
  Library, effect, status, tool_callback, par_shutdown, par_store_python_handler,
  par_register_tool_with_handler,
}
use par.Ffi.Process.{call_status, call_effect}
use par.Runtime.Base.{check_handle}
use par.Runtime.Object.{State, store, pop}
use par.Runtime.Threads.{Phase, Tool, tool_entered, close_entered, step}

pub record Pair : Type 0 where
  pub first : Phase
  pub second : Phase
  pub state : State

module _ (lib : Library) (py : Interpreter) where
  -- `true` is a step of the first thread.
  unfoldable pub advance : Bool → Pair → Pair
  unfolding step
  advance true w = let r = step lib py w.first w.state in record w { first = r.0; state = r.1 }
  advance false w = let r = step lib py w.second w.state in record w { second = r.0; state = r.1 }

  unfoldable pub schedule : List Bool → Pair → Pair
  unfolding advance
  schedule [] w = w
  schedule (b ∷ bs) w = schedule bs (advance b w)

  -- Two threads that close an open object at the same time can both see its handle: each then shuts
  -- the same runtime of the library down. A thread that registers a tool while another closes the object
  -- can pass the check of the handle and still name the runtime to the library after its shutdown.
  pub shared_close :
      (s : State) (h : ℕ) (t : Tool)
      → s.self.handle ≡ some h
      → eqb h 0 ≡ false
      → ((schedule (true ∷ false ∷ true ∷ false ∷ []) (record {
        first = close_entered;
        second = close_entered;
        state = s;
      })).state.process.history
          ≡ effect (par_shutdown h) ∷ effect (par_shutdown h) ∷ s.process.history)
        × ((schedule (true ∷ true ∷ true ∷ true ∷ false ∷ false ∷ true ∷ []) (record {
          first = tool_entered t;
          second = close_entered;
          state = s;
        })).state.process.history
            ≡ status (
                par_register_tool_with_handler h t.name t.description t.input_schema
                  s.process.counter)
              ∷ effect (par_shutdown h)
              ∷ effect (par_store_python_handler s.process.counter (tool_callback t.handler))
              ∷ s.process.history)
  unfolding schedule check_handle call_status call_effect store pop
  shared_close s h t e nz = (ground arith, ground arith)
