-- ===== src/Runtime/Invoke/Async.antt =====
-- The asynchronous trio of `Runtime`: `invoke_start`, `invoke_poll` and `invoke_cancel` talk about the same
-- handle, which travels through Python as a text.
use par.Prelude.{ℕ, String, ◌≡◌, refl, Bool, false, Option, some, ◌∷◌, arith, eqb}
use par.Python.Int.{ℤ, is_negative}
use par.Python.Json.{str, null}
use par.Python.Text.{int_str}
use par.Python.Convert.Printed.{int_of-int_str}
use par.Python.Errors.{ok}
use par.Python.Interpreter.{Interpreter}
use par.Ffi.Calls.{
  Library, TextCall, text, effect, par_invoke_start, par_invoke_poll, par_invoke_cancel,
}
use par.Ffi.Process.{Process, ◌>>=◌, call_status, call_text, call_effect, lift}
use par.Ffi.Strings.{py_str}
use par.Runtime.Base.{Runtime, check_handle, flag, given_true}
use par.Runtime.Invoke.{invoke_start, invoke_poll, invoke_cancel, read_poll}

module _ (lib : Library) (py : Interpreter) where
  polled-history :
      (c : TextCall) (p : Process)
      → ((call_text lib c >>= read_poll lib py) p).1.history ≡ text c ∷ p.history
  unfolding read_poll py_str call_text ◌>>=◌
  polled-history c p = ground arith

  -- On an open runtime, where the library accepts a run and gives it a number that is not negative,
  -- `invoke_start` returns the number as a text; `invoke_poll` and `invoke_cancel` with that text, at any
  -- later time, make one call, with the very number.
  pub invoke_start-handle :
      (self : Runtime) (h : ℕ) (agent_id message : String) (save update_current : Option Bool)
      (timeout_ms rc : ℤ) (p q : Process)
      → self.handle ≡ some h
      → eqb h 0 ≡ false
      → lib.status_reply p.history (
          par_invoke_start h agent_id message
            (flag (given_true save))
            (flag (given_true update_current)))
        ≡ rc
      → is_negative rc ≡ false
      → (s : String) × ((invoke_start lib py self agent_id message save update_current p).0
          ≡ ok (str s))
        × ((invoke_poll lib py self s timeout_ms q).1.history
            ≡ text (par_invoke_poll rc timeout_ms) ∷ q.history)
        × ((invoke_cancel lib py self s q).1.history ≡ effect (par_invoke_cancel rc) ∷ q.history)
        × ((invoke_cancel lib py self s q).0 ≡ ok null)
  unfolding invoke_start invoke_poll invoke_cancel check_handle ◌>>=◌ lift call_status call_effect
  invoke_start-handle self h agent_id message save update_current timeout_ms rc p q e nz a pos_ =
      let back = int_of-int_str rc pos_ in
      (
        int_str rc,
        simp (e, nz, a, pos_) refl,
        simp (e, nz, back) (polled-history (par_invoke_poll rc timeout_ms) q),
        simp (e, nz, back) refl,
        simp (e, nz, back) refl,
      )
