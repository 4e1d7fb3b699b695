-- ===== src/Stream/Reader/Closing.antt =====
-- The `finally` of `_StreamReader` when a stream is closed early: it ends if the library ends the stream.
use par.Prelude.{
  ℕ, zero, suc, ◌+◌, ◌≡◌, refl, ◌∙◌, ap, subst, sym, Bool, true, false, none, some, List, ◌∷◌,
  arith, eqb,
}
use par.Python.Interpreter.{Interpreter}
use par.Ffi.Calls.{
  Library, Call, PollReply, idle, done, chunk, poll, effect, par_stream_cancel, par_stream_free,
}
use par.Ffi.Process.{Process, allocate, note, call_effect}
use par.Stream.Reader.{
  Reader, Step, stopped, suspended, finished, drain, abandon, conclude, finally_block,
}
use par.Stream.Reader.Loop.{drain_round, drain-suc}
use par.Stream.Reader.Lifetime.{frees, drain-frees}

module _ (lib : Library) (py : Interpreter) where
  abbrev pub is_done : PollReply → Bool
  is_done done = true
  is_done reply = false

  -- The next `k` polls of the `finally` do not end the stream, and the one after them does.
  abbrev pub EndsAfter : ℕ → ℕ → List Call → Type 0
  EndsAfter h zero hist = lib.poll_reply hist h 1000 ≡ done
  EndsAfter h (suc k) hist =
      (is_done (lib.poll_reply hist h 1000) ≡ false) × EndsAfter h k (poll h 1000 ∷ hist)

  drain_round-ends :
      (reply : PollReply) (fuel h k : ℕ) (p : Process)
      → is_done reply ≡ false
      → ((q : Process) → q.history ≡ p.history → (p' : Process) × (drain lib py fuel h q ≡ some p'))
      → (p' : Process) × (drain_round lib py reply fuel h p ≡ some p')
  drain_round-ends idle fuel h k p busy again = again p refl
  drain_round-ends done fuel h k p busy again = absurd (ground arith)
  drain_round-ends (chunk b) fuel h k p busy again = again (allocate b p) refl

  pub drain-ends :
      (k fuel h : ℕ) (p : Process)
      → EndsAfter h k p.history
      → (p' : Process) × (drain lib py (k + suc fuel) h p ≡ some p')
  drain-ends zero fuel h p e = (
    note (poll h 1000) p,
    ap (λ n. drain lib py n h p) (omega arith)
        ∙ drain-suc lib py fuel h p
        ∙ ap (λ reply. drain_round lib py reply fuel h (note (poll h 1000) p)) e,
  )
  drain-ends (suc k) fuel h p e =
      let r =
        drain_round-ends (lib.poll_reply p.history h 1000) (k + suc fuel) h k (note (poll h 1000) p)
          e.0
          (λ q same. drain-ends k fuel h q (subst (λ hist. EndsAfter h k hist) (sym same) e.1)) in
      (r.0, ap (λ n. drain lib py n h p) (omega arith) ∙ drain-suc lib py (k + suc fuel) h p ∙ r.1)

  -- A generator that ends with its handle, once the stream is drained.
  pub conclude-drained :
      (fuel h : ℕ) (step : Step) (r : Reader) (p p' : Process)
      → r.completed ≡ false
      → r.handle ≡ some h
      → eqb h 0 ≡ false
      → drain lib py fuel h (note (effect (par_stream_cancel h)) p) ≡ some p'
      → conclude lib py fuel step r p ≡ (
        step,
        record r { handle = none; generator = finished },
        note (effect (par_stream_free h)) p',
      )
  unfolding conclude finally_block call_effect
  conclude-drained fuel h step r p p' c e nz d = simp (e, nz, c, d) refl

  abandon-drained :
      (fuel h : ℕ) (r : Reader) (p p' : Process)
      → r.generator ≡ suspended
      → r.completed ≡ false
      → r.handle ≡ some h
      → eqb h 0 ≡ false
      → drain lib py fuel h (note (effect (par_stream_cancel h)) p) ≡ some p'
      → abandon lib py fuel r p ≡ (
        stopped,
        record r { handle = none; generator = finished },
        note (effect (par_stream_free h)) p',
      )
  unfolding abandon
  abandon-drained fuel h r p p' g c e nz d =
      simp g (conclude-drained fuel h stopped r p p' c e nz d)

  -- A stream whose generator is closed at the `yield` ends without an exception, its handle freed
  -- once and given up, if the library, once asked to cancel, ends the stream after any number `k`
  -- of other answers; fuel for one poll more than that is enough.
  pub abandon-frees :
      (k fuel h : ℕ) (r : Reader) (p : Process)
      → r.generator ≡ suspended
      → r.completed ≡ false
      → r.handle ≡ some h
      → eqb h 0 ≡ false
      → EndsAfter h k (effect (par_stream_cancel h) ∷ p.history)
      → ((abandon lib py (k + suc fuel) r p).0 ≡ stopped)
        × ((abandon lib py (k + suc fuel) r p).1 ≡ record r { handle = none; generator = finished })
        × (frees h (abandon lib py (k + suc fuel) r p).2.history ≡ suc (frees h p.history))
  unfolding frees
  abandon-frees k fuel h r p g c e nz ends =
      let cancelled = note (effect (par_stream_cancel h)) p in
      let d = drain-ends k fuel h cancelled ends in
      let a = abandon-drained (k + suc fuel) h r p d.0 g c e nz d.1 in
      let same = drain-frees lib py (k + suc fuel) h h cancelled d.0 d.1 in
      rw a (refl, refl, ground (arith, same))
