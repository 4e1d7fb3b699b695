-- ===== src/Stream/Iterate.antt =====
-- `Runtime.invoke_stream` of bindings/python/par_runtime/runtime.py, and a `for` loop over its iterator.
pub mod Delivers
pub mod Complete
pub mod Breaks
pub mod Broken
mod Tests
use par.Prelude.{ℕ, zero, suc, String, List, [], ◌∷◌}
use par.Python.Errors.{Error, Result, ok, raised}
use par.Python.Interpreter.{Interpreter}
use par.Ffi.Calls.{Library}
use par.Ffi.Process.{Process, Action, ◌>>=◌}
use par.Runtime.Base.{Runtime, check_handle}
use par.Stream.Event.{Event}
use par.Stream.Reader.{Reader, Step, yielded, stopped, starved, failed, start, next}

-- What a `for` loop over the iterator has seen, and how it ended: never with `yielded`.
pub record Seen : Type 0 where
  pub events : List Event
  pub ending : Step
  pub reader : Reader
  pub process : Process

abbrev saw : Event → Seen → Seen
saw e s = record s { events = e ∷ s.events }

module _ (lib : Library) (py : Interpreter) where
  unfoldable pub invoke_stream : Runtime → String → String → Action Reader
  unfolding check_handle ◌>>=◌ start
  invoke_stream self agent_id message = check_handle self >>= λ h. start lib py h agent_id message

  abbrev pub halt : Step → Reader → Process → Seen
  halt step r p = record { events = []; ending = step; reader = r; process = p }

  abbrev pub go_on : Step → Reader → Process → Seen → Seen
  go_on (yielded e) r p rest = saw e rest
  go_on step r p rest = halt step r p

  -- `for event in reader: …`, for `n` calls of `next` at most, each with `fuel` polls.
  unfoldable pub collect : ℕ → ℕ → Reader → Process → Seen
  unfolding next
  collect zero fuel r p = halt starved r p
  collect (suc n) fuel r p =
      let rest = collect n fuel (next lib py fuel r p).1 (next lib py fuel r p).2 in
      go_on (next lib py fuel r p).0 (next lib py fuel r p).1 (next lib py fuel r p).2 rest
