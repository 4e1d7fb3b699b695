-- ===== src/Runtime/Threads/Alone.antt =====
-- A thread that no other interrupts does what the method does.
use par.Prelude.{ℕ, zero, suc, length, if◌then◌else◌}
use par.Python.Json.{Json}
use par.Python.Interpreter.{Interpreter}
use par.Ffi.Calls.{Library}
use par.Runtime.Base.{is_open}
use par.Runtime.Object.{State}
use par.Runtime.Threads.{Phase, step}

module _ (lib : Library) (py : Interpreter) where
  pub steps : ℕ → Phase → State → Phase × State
  steps zero g s = (g, s)
  steps (suc n) g s = steps n (step lib py g s).0 (step lib py g s).1

  -- The steps that `close` takes.
  abbrev pub close_steps : State → ℕ
  close_steps s =
      let n = suc (length s.self.callback_ids) in
      if is_open s.self then suc (suc (suc n)) else suc n
