-- ===== src/Runtime/Threads/Local.antt =====
-- What one step of a thread does to the dict of callbacks that the threads share.
use par.Prelude.{ℕ, ◌≡◌, refl, sym, ap, subst, ◌∙◌, true, Option, List, ◌∷◌, arith}
use par.Python.Int.{ℤ}
use par.Python.Interpreter.{Interpreter}
use par.Python.Json.{Json}
use par.Ffi.Calls.{Library, Outcome, Callback, tool_callback, approval_callback}
use par.Ffi.Process.{Process, call_status, call_effect}
use par.Runtime.Base.{check_handle}
use par.Runtime.Object.{State, callback_at, add}
use par.Runtime.Registry.{callback_at-store, callback_at-pop, elem-add}
use par.Runtime.Tidy.{perform-IsTidy}
use par.Runtime.Sharing
use par.Runtime.Threads.Owning.{Thread, holds, Fits, distinct, HasSets, thread_of, IsLocal, IsBlank}
use par.Runtime.Threads.{
  Phase, Tool, tool_checked, tool_numbered, tool_answered, approval_checked, approval_numbered,
  approval_handed, close_popping, performing, step,
}

distinct-add : (k : ℕ) (ids : List ℕ) → distinct ids ≡ true → distinct (add k ids) ≡ true
distinct-add k ids d = ground arith

module _ (lib : Library) (py : Interpreter) where
  pub step-HasSets :
      (g : Phase) (s : State)
      → HasSets (record { self = s.self; phase = g })
      → HasSets (thread_of (step lib py g s))
  unfolding step check_handle
  step-HasSets (close_popping (k ∷ ks)) s d = ground arith
  step-HasSets (performing r) s d = d
  step-HasSets g s d = ground arith

  pub step-IsBlank :
      (g : Phase) (s : State)
      → IsBlank s.process
      → Sharing.Owns holds Fits s.process (record { self = s.self; phase = g })
      → IsBlank (step lib py g s).1.process
  unfolding step check_handle call_status call_effect
  step-IsBlank (tool_numbered t j) s b own = λ k le.
      ground
        (arith, b k, own j, callback_at-store j k (tool_callback t.handler) s.process.callbacks)
  step-IsBlank (tool_answered t j rc) s b own =
      λ k le. ground (arith, b k, callback_at-pop j k s.process.callbacks)
  step-IsBlank (approval_numbered f j) s b own = λ k le.
      ground (arith, b k, own j, callback_at-store j k (approval_callback f) s.process.callbacks)
  step-IsBlank (close_popping (j ∷ js)) s b own =
      λ k le. ground (arith, b k, callback_at-pop j k s.process.callbacks)
  step-IsBlank (performing r) s b own = λ k le.
      let tidy = perform-IsTidy lib py r s.self in
      ap (λ cs. callback_at k cs) (tidy.callbacks s.process)
      ∙ b k (omega (arith, tidy.counter s.process))
  step-IsBlank g s b own = λ k le. ground (arith, b k)

  -- A step that does not write the dict, and after which the thread has the same ids.
  pub quiet-IsLocal :
      (t t' : Thread) (p p' : Process)
      → Sharing.Owns holds Fits p t
      → p'.callbacks ≡ p.callbacks
      → p'.counter ≡ p.counter
      → ((k : ℕ) → holds k t' ≡ holds k t)
      → ((k : ℕ) (o : Option Callback) → Fits k t o → Fits k t' o)
      → IsLocal t p t' p'
  quiet-IsLocal t t' p p' own same n hs fs = record {
    owns = λ k h.
        let o = own k (sym (hs k) ∙ h) in
        (subst (λ cs. Fits k t' (callback_at k cs)) (sym same) (fs k _ o.0), omega (arith, n, o.1));
    others = λ k h b. ap (λ cs. callback_at k cs) same;
    kept = λ k h b e. ap (λ cs. callback_at k cs) same;
    fresh = λ k h n'. cc (hs k);
    counts = omega (arith, n);
  }

  module _ (s : State) (blank : IsBlank s.process) where
    abbrev pub LocalStep : Phase → Type 0
    LocalStep g =
        HasSets (record { self = s.self; phase = g })
        → Sharing.Owns holds Fits s.process (record { self = s.self; phase = g })
        → IsLocal (record { self = s.self; phase = g }) s.process (thread_of (step lib py g s))
            (step lib py g s).1.process

    tool_numbered-IsLocal : (t : Tool) (j : ℕ) → LocalStep (tool_numbered t j)
    unfolding step
    tool_numbered-IsLocal t j d own =
        let stored =
          λ (k : ℕ). callback_at-store j k (tool_callback t.handler) s.process.callbacks in
        record {
          owns = λ k h. ground (arith, own k, stored k);
          others = λ k h b. ground (arith, stored k);
          kept = λ k h b e. ground (arith, own k, stored k);
          fresh = λ k h n. ground arith;
          counts = ground arith;
        }

    approval_numbered-IsLocal : (f : Json → Outcome) (j : ℕ) → LocalStep (approval_numbered f j)
    unfolding step
    approval_numbered-IsLocal f j d own =
        let stored = λ (k : ℕ). callback_at-store j k (approval_callback f) s.process.callbacks in
        record {
          owns = λ k h. ground (arith, own k, stored k);
          others = λ k h b. ground (arith, stored k);
          kept = λ k h b e. ground (arith, own k, stored k);
          fresh = λ k h n. ground arith;
          counts = ground arith;
        }

    tool_answered-IsLocal : (t : Tool) (j : ℕ) (rc : ℤ) → LocalStep (tool_answered t j rc)
    unfolding step
    tool_answered-IsLocal t j rc d own =
        let dropped = λ (k : ℕ). callback_at-pop j k s.process.callbacks in
        let ids = λ (k : ℕ). elem-add k j s.self.callback_ids in
        record {
          owns = λ k h. ground (arith, own k, own j, dropped k, ids k);
          others = λ k h b. ground (arith, dropped k);
          kept = λ k h b e. ground (arith, own k, own j, dropped k);
          fresh = λ k h n. ground (arith, ids k);
          counts = ground arith;
        }

    close_popping-IsLocal : (j : ℕ) (js : List ℕ) → LocalStep (close_popping (j ∷ js))
    unfolding step
    close_popping-IsLocal j js d own =
        let dropped = λ (k : ℕ). callback_at-pop j k s.process.callbacks in
        record {
          owns = λ k h. ground (arith, own k, dropped k);
          others = λ k h b. ground (arith, dropped k);
          kept = λ k h b e. ground (arith, own k, dropped k);
          fresh = λ k h n. ground arith;
          counts = ground arith;
        }

    tool_checked-IsLocal : (t : Tool) → LocalStep (tool_checked t)
    unfolding step
    tool_checked-IsLocal t d own = record {
      owns = λ k h. ground (arith, own k, blank k);
      others = λ k h b. ground arith;
      kept = λ k h b e. ground arith;
      fresh = λ k h n. ground arith;
      counts = ground arith;
    }

    approval_checked-IsLocal : (f : Json → Outcome) → LocalStep (approval_checked f)
    unfolding step
    approval_checked-IsLocal f d own = record {
      owns = λ k h. ground (arith, own k, blank k);
      others = λ k h b. ground arith;
      kept = λ k h b e. ground arith;
      fresh = λ k h n. ground arith;
      counts = ground arith;
    }

    pub step-IsLocal : (g : Phase) → LocalStep g
    unfolding step check_handle call_status call_effect
    step-IsLocal (tool_checked t) d own = tool_checked-IsLocal t d own
    step-IsLocal (tool_numbered t j) d own = tool_numbered-IsLocal t j d own
    step-IsLocal (tool_answered t j rc) d own = tool_answered-IsLocal t j rc d own
    step-IsLocal (approval_checked f) d own = approval_checked-IsLocal f d own
    step-IsLocal (approval_numbered f j) d own = approval_numbered-IsLocal f j d own
    step-IsLocal (close_popping (j ∷ js)) d own = close_popping-IsLocal j js d own
    step-IsLocal (approval_handed f j) d own =
        quiet-IsLocal _ _ s.process _ own refl refl
          (λ k. ground (arith, elem-add k j s.self.callback_ids))
          (λ k o fit. ground (arith, elem-add k j s.self.callback_ids))
    step-IsLocal (performing r) d own =
        let tidy = perform-IsTidy lib py r s.self in
        quiet-IsLocal _ _ s.process _ own (tidy.callbacks s.process) (tidy.counter s.process)
          (λ k. refl) (λ k o fit. fit)
    step-IsLocal g d own =
        quiet-IsLocal _ _ s.process _ own (ground arith) (ground arith) (λ k. ground arith)
          (λ k o fit. ground arith)
