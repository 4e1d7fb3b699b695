-- ===== src/Runtime/Approval/Outcomes.antt =====
-- What `resume_approval` sends for the words that it knows, and how it fails.
use par.Prelude.{
  ℕ, String, ◌≡◌, ◌↔◌, ◌⊎◌, inl, inr, refl, Bool, true, false, some, arith, eqb, ◌==◌, ◌||◌,
}
use par.Python.Int.{ℤ, pos, negsuc, is_zero}
use par.Python.Json.{Json, str, null}
use par.Python.Text.{lower}
use par.Python.Errors.{Error, Result, ok, raised, Result-cases}
use par.Python.Interpreter.{Interpreter}
use par.Ffi.Calls.{Library, par_resume_approval, status}
use par.Ffi.Process.{Process, ◌>>=◌, lift, call_status, note}
use par.Runtime.Base.{Runtime, check_handle}
use par.Runtime.Approval.{outcome_json, word_json, resume_approval, resumed}

-- The words that a caller may write, in any case.
abbrev pub is_word : String → Bool
is_word s =
    s == "approved" || s == "rejected" || s == "timeout" || s == "modified" || s == "escalated"

abbrev pub is_ok : Result String → Bool
is_ok (ok t) = true
is_ok (raised e) = false

resumed_ok : (run_id : String) (z : ℤ) → (resumed run_id z ≡ ok null) ↔ (is_zero z ≡ true)
resumed_ok run_id (pos n) = ground arith
resumed_ok run_id (negsuc n) = ground arith

module _ (lib : Library) (py : Interpreter) where
  -- On an open runtime, an outcome that `outcome_json` refuses raises at once, and the library is
  -- not called; any other is sent in one call, and the method returns `None` exactly if the
  -- library answers 0.
  pub resume_approval_lem :
      (self : Runtime) (p : Process) (h : ℕ) (run_id : String) (outcome : Json) (approver : String)
      → self.handle ≡ some h
      → eqb h 0 ≡ false
      → ((e : Error) × (outcome_json py outcome approver ≡ raised e)
          × (resume_approval lib py self run_id outcome approver p ≡ (raised e, p)))
        ⊎ ((t : String) × (outcome_json py outcome approver ≡ ok t)
            × ((resume_approval lib py self run_id outcome approver p).1
                ≡ note (status (par_resume_approval h run_id t)) p)
            × (((resume_approval lib py self run_id outcome approver p).0 ≡ ok null)
                ↔ (is_zero (lib.status_reply p.history (par_resume_approval h run_id t)) ≡ true)))
  unfolding resume_approval ◌>>=◌ check_handle lift call_status
  resume_approval_lem self p h run_id outcome approver e nz =
      elim (Result-cases (outcome_json py outcome approver)) [
        | inr (x, o) ↦ inl (x, o, simp (e, nz, o) refl)
        | inl (t, o) ↦ inr (
          t,
          o,
          simp (e, nz, o) refl,
          simp (e, nz, o)
              (resumed_ok run_id (lib.status_reply p.history (par_resume_approval h run_id t))),
        )
      ]

module _ (py : Interpreter) where
  word_lem :
      (s t w approver : String)
      → is_word w ≡ true
      → (word_json py s w approver ≡ word_json py t w approver)
        × (is_ok (word_json py s w approver) ≡ true)
  word_lem s t w approver h = ground arith

  -- The words are read in any case: two texts with the same lower case, if that is one of the five
  -- words, are accepted and mean the same.
  pub outcome_json-lower :
      (s t approver : String)
      → lower s ≡ lower t
      → is_word (lower s) ≡ true
      → (outcome_json py (str s) approver ≡ outcome_json py (str t) approver)
        × (is_ok (outcome_json py (str s) approver) ≡ true)
  unfolding outcome_json
  outcome_json-lower s t approver e w = rw (← e) (word_lem s t (lower s) approver w)
