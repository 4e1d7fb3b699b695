-- ===== src/Stream/Iterate/Complete.antt =====
-- A whole stream, from `invoke_stream` to the end of the loop, against what the library delivers.
use par.Prelude.{
  ℕ, zero, suc, ◌-◌, ◌<◌, ◌≡◌, refl, ◌∙◌, ap, sym, subst, true, false, none, some, List, [], ◌∷◌,
  arith, eqb, String, length,
}
use par.Python.Errors.{Result, ok, raised, ◌▹◌}
use par.Python.Interpreter.{Interpreter}
use par.Ffi.Calls.{
  Library, utf8, Call, done, chunk, poll, text, effect, par_stream_take_final, par_stream_free,
  par_stream_start, handle,
}
use par.Ffi.Process.{Process, note, ◌>>=◌, call_handle, lift}
use par.Stream.Event.{Event}
use par.Stream.Reader.{
  Reader, Step, yielded, fresh, suspended, finished, next, take_final, poll_timeout_ms, final_step,
  start,
}
use par.Stream.Reader.Progress.{is_finished, done_lem, take_final-history, waited_in}
use par.Stream.Reader.Loop.{loop_round}
use par.Runtime.Base.{Runtime, check_handle}
use par.Stream.Iterate.{invoke_stream, Seen, collect, halt, go_on}
use par.Stream.Iterate.Delivers.{
  Delivers, polled_all, event_of, with_event, events_of, final_answer, Patient, take_final_lem,
  chunk_lem, next_at,
}

module _ (lib : Library) (py : Interpreter) where
  -- What is left to show of a loop that has come to an end.
  record IsDelivered (h : ℕ) (r : Reader) (p : Process) (hist : List Call) (es : List Event)
      (s : Seen) : Type 0 where
    events : s.events ≡ es
    ending :
        s.ending
        ≡ final_step lib py (final_answer lib py (lib.text_reply hist (par_stream_take_final h)))
    reader : s.reader ≡ record r { handle = none; completed = true; generator = finished }
    history : s.process.history ≡ effect (par_stream_free h) ∷ text (par_stream_take_final h) ∷ hist
    blocks : s.process.blocks ≡ p.blocks
    faults : s.process.faults ≡ p.faults

  go_on_final :
      (x : Result (Unit {0})) (r : Reader) (p : Process) (rest : Seen)
      → go_on lib py (final_step lib py x) r p rest ≡ halt lib py (final_step lib py x) r p
  go_on_final (ok u) r p rest = refl
  go_on_final (raised e) r p rest = refl

  -- One call of `next`, and what comes of it.
  pub collect-suc :
      (n fuel : ℕ) (r : Reader) (p : Process) (t : Step × Reader × Process)
      → next lib py fuel r p ≡ t
      → collect lib py (suc n) fuel r p ≡ go_on lib py t.0 t.1 t.2 (collect lib py n fuel t.1 t.2)
  unfolding collect
  collect-suc n fuel r p t e = ap (λ t. go_on lib py t.0 t.1 t.2 (collect lib py n fuel t.1 t.2)) e

  halted_lem :
      (h : ℕ) (r : Reader) (p q : Process) (s : Seen)
      → q.blocks ≡ p.blocks
      → q.faults ≡ p.faults
      → s
        ≡ halt lib py
            (final_step lib py (take_final lib py h q).0)
            (record r { handle = none; completed = true; generator = finished })
            (note (effect (par_stream_free h)) (take_final lib py h q).1)
      → IsDelivered h r p q.history [] s
  halted_lem h r p q s b f e =
      let t = take_final_lem lib py h q in
      let calls = take_final-history lib py h q in
      record {
        events = cc e;
        ending = ap (λ s. s.ending) e ∙ ap (final_step lib py) t.0;
        reader = ap (λ s. s.reader) e;
        history = ap (λ s. s.process.history) e ∙ ap (λ c. effect (par_stream_free h) ∷ c) calls;
        blocks = ap (λ s. s.process.blocks) e ∙ t.1 ∙ b;
        faults = ap (λ s. s.process.faults) e ∙ t.2 ∙ f;
      }

  last_lem :
      (n k fuel h : ℕ) (r : Reader) (p : Process)
      → is_finished lib py r.generator ≡ false
      → r.handle ≡ some h
      → eqb h 0 ≡ false
      → Delivers lib py h [] k p.history
      → k < fuel
      → IsDelivered h r p (polled_all lib py h [] k p.history) [] (collect lib py (suc n) fuel r p)
  last_lem n k fuel h r p g e nz (i, a) b =
      let q = note (poll h poll_timeout_ms) (waited_in lib py h k p) in
      let t =
        next_at lib py k fuel h r p done b g e i a ∙ done_lem lib py (fuel - suc k) h r q nz e in
      halted_lem h r p q _ refl refl (collect-suc n fuel r p _ t ∙ go_on_final _ _ _ _)

  closed : Reader → Reader
  closed r = record r { handle = none; completed = true; generator = finished }

  yielded_lem :
      (h : ℕ) (r r' : Reader) (p p' : Process) (hist : List Call) (e : Event) (es : List Event)
      (s : Seen)
      → r' ≡ record r { generator = suspended }
      → p'.blocks ≡ p.blocks
      → p'.faults ≡ p.faults
      → IsDelivered h r' p' hist es s
      → IsDelivered h r p hist (e ∷ es) (go_on lib py (yielded e) r' p' s)
  unfolding closed
  yielded_lem h r r' p p' hist e es s er b f d = record {
    events = ap (λ es. e ∷ es) d.events;
    ending = d.ending;
    reader = d.reader ∙ ap closed er;
    history = d.history;
    blocks = d.blocks ∙ b;
    faults = d.faults ∙ f;
  }

  step_lem :
      (h : ℕ) (r : Reader) (p : Process) (hist : List Call) (x : Event) (xs es : List Event)
      (t : Step × Reader × Process) (s rest : Seen)
      → s ≡ go_on lib py t.0 t.1 t.2 rest
      → t.0 ≡ yielded x
      → t.1 ≡ record r { generator = suspended }
      → t.2.blocks ≡ p.blocks
      → t.2.faults ≡ p.faults
      → es ≡ x ∷ xs
      → IsDelivered h t.1 t.2 hist xs rest
      → IsDelivered h r p hist es s
  step_lem h r p hist x xs es t s rest es_ y er b f eq d =
      subst (λ s. IsDelivered h r p hist es s) (sym (es_ ∙ ap (λ a. go_on lib py a t.1 t.2 rest) y))
        (subst (λ es. IsDelivered h r p hist es (go_on lib py (yielded x) t.1 t.2 rest)) (sym eq)
          (yielded_lem h r t.1 p t.2 hist x xs rest er b f d))

  pub events_cases :
      (a : Result Event) (b : Result (List Event)) (es : List Event)
      → (a ▹ λ e. b ▹ with_event lib py e) ≡ ok es
      → (e : Event) × (fs : List Event) × (a ≡ ok e) × (b ≡ ok fs) × (es ≡ e ∷ fs)
  events_cases (ok e) (ok fs) es h = (e, fs, refl, refl, ground arith)
  events_cases (ok e) (raised x) es h = cc
  events_cases (raised x) b es h = cc

  collect-IsDelivered :
      (script : List (ℕ × String)) (n k fuel h : ℕ) (r : Reader) (p : Process) (es : List Event)
      → is_finished lib py r.generator ≡ false
      → r.handle ≡ some h
      → eqb h 0 ≡ false
      → Delivers lib py h script k p.history
      → Patient lib py fuel script k
      → events_of lib py script ≡ ok es
      → length script < n
      → IsDelivered h r p (polled_all lib py h script k p.history) es (collect lib py n fuel r p)
  collect-IsDelivered script zero k fuel h r p es g e nz d b ev l = absurd (omega arith)
  collect-IsDelivered [] (suc n) k fuel h r p es g e nz d b ev l =
      subst
        (λ es.
          IsDelivered h r p (polled_all lib py h [] k p.history) es
            (collect lib py (suc n) fuel r p))
        (ground arith) (last_lem n k fuel h r p g e nz d b)
  collect-IsDelivered ((j, s) ∷ script) (suc n) k fuel h r p es g e nz d b ev l =
      let (x, xs, ex, exs, eq) = events_cases (event_of lib py s) (events_of lib py script) es ev in
      let q = note (poll h poll_timeout_ms) (waited_in lib py h j p) in
      let t = loop_round lib py (chunk (utf8 s)) (fuel - suc j) h r q in
      let c = chunk_lem lib py (fuel - suc j) h r q s x ex in
      let step =
        collect-suc n fuel r p t (next_at lib py j fuel h r p (chunk (utf8 s)) b.0 g e d.0 d.1) in
      let rest =
        collect-IsDelivered script n k fuel h t.1 t.2 xs
          (ap (λ r. is_finished lib py r.generator) c.1) (ap (λ r. r.handle) c.1 ∙ e) nz
          (subst (λ hist. Delivers lib py h script k hist) (sym c.2) d.2) b.1 exs (omega arith) in
      subst (λ hist. IsDelivered h r p hist es (collect lib py (suc n) fuel r p))
        (ap (λ hist. polled_all lib py h script k hist) c.2)
        (step_lem h r p (polled_all lib py h script k t.2.history) x xs es t _ _ step c.0 c.1 c.3
          c.4 eq rest)

  pub started_lem :
      (self : Runtime) (p : Process) (rt h : ℕ) (agent_id message : String)
      → self.handle ≡ some rt
      → eqb rt 0 ≡ false
      → lib.handle_reply p.history (par_stream_start rt agent_id message) ≡ h
      → eqb h 0 ≡ false
      → invoke_stream lib py self agent_id message p ≡ (
        ok (record {
          handle = some h;
          cancel_called = false;
          completed = false;
          generator = fresh;
        }),
        note (handle (par_stream_start rt agent_id message)) p,
      )
  unfolding invoke_stream ◌>>=◌ check_handle start call_handle lift
  started_lem self p rt h agent_id message e nz a nh = simp (e, nz, a, nh) refl

  -- A loop over the iterator of `invoke_stream`, on an open runtime, sees exactly the events that the
  -- library's chunks encode, in their order, whatever timeouts come between them. Then it ends as the final
  -- envelope says: normally if there is none or its status is "ok" or "cancelled", otherwise with the
  -- exception for it. Every string is freed, and the last call frees the stream. Enough calls of `next` are
  -- one more than the chunks, with enough fuel if it is above the number of timeouts in a row.
  pub invoke_stream-collect :
      (self : Runtime) (p : Process) (rt h k n fuel : ℕ) (agent_id message : String)
      (script : List (ℕ × String)) (es : List Event)
      → self.handle ≡ some rt
      → eqb rt 0 ≡ false
      → lib.handle_reply p.history (par_stream_start rt agent_id message) ≡ h
      → eqb h 0 ≡ false
      → Delivers lib py h script k (handle (par_stream_start rt agent_id message) ∷ p.history)
      → Patient lib py fuel script k
      → events_of lib py script ≡ ok es
      → length script < n
      → let hist =
          polled_all lib py h script k
            (handle (par_stream_start rt agent_id message) ∷ p.history) in
        (r : Reader) × ((invoke_stream lib py self agent_id message p).0 ≡ ok r)
        × (let s = collect lib py n fuel r (invoke_stream lib py self agent_id message p).1 in
            (s.events ≡ es)
            × (s.ending
                ≡ final_step lib py
                    (final_answer lib py (lib.text_reply hist (par_stream_take_final h))))
            × (s.process.history
                ≡ effect (par_stream_free h) ∷ text (par_stream_take_final h) ∷ hist)
            × (s.process.blocks ≡ p.blocks)
            × (s.process.faults ≡ p.faults))
  invoke_stream-collect self p rt h k n fuel agent_id message script es e nz a nh d b ev l =
      let s = started_lem self p rt h agent_id message e nz a nh in
      let c = collect-IsDelivered script n k fuel h _ _ es refl refl nh d b ev l in
      (_, ap (λ t. t.0) s, rw s (c.events, c.ending, c.history, c.blocks, c.faults))
