-- ===== src/Stream/Reader/Progress.antt =====
-- What `_StreamReader` does with what the library answers: it waits, yields, and ends.
use par.Prelude.{
  ℕ, zero, suc, ◌+◌, ◌≡◌, refl, ◌∙◌, Bool, true, false, none, some, List, ◌∷◌, arith, eqb, String,
  ap,
}
use par.Python.Json.{Json, Fields, obj, get}
use par.Python.Errors.{ok}
use par.Python.Interpreter.{Interpreter, parsed}
use par.Ffi.Calls.{
  Library, utf8, Call, PollReply, idle, done, chunk, poll, text, effect, par_stream_take_final,
  par_stream_free,
}
use par.Ffi.Process.{Process, fresh as fresh_pointer, allocate, note, ◌>>=◌, call_text, call_effect}
use par.Ffi.Strings.{py_str}
use par.Stream.Event.{Event, decode_event}
use par.Stream.Reader.{
  Reader, Step, Generator, yielded, stopped, suspended, finished, conclude, finally_block, on_done,
  on_chunk, loop, next, take_final, read_final, read_chunk, resume, next_from, poll_timeout_ms,
  chunk_of, status_ok, final_step,
}
use par.Stream.Reader.Loop.{loop_round, loop-suc}

module _ (lib : Library) (py : Interpreter) where
  -- The history after `k` more polls of `h`.
  abbrev pub waited : ℕ → ℕ → List Call → List Call
  waited h zero hist = hist
  waited h (suc k) hist = waited h k (poll h poll_timeout_ms ∷ hist)

  -- The next `k` polls of `h` time out.
  abbrev pub IdleFor : ℕ → ℕ → List Call → Type 0
  IdleFor h zero hist = Unit
  IdleFor h (suc k) hist =
      (lib.poll_reply hist h poll_timeout_ms ≡ idle) × IdleFor h k (poll h poll_timeout_ms ∷ hist)

  abbrev pub waited_in : ℕ → ℕ → Process → Process
  waited_in h k p = record p { history = waited h k p.history }

  loop-wait :
      (k fuel h : ℕ) (r : Reader) (p : Process)
      → IdleFor h k p.history
      → loop lib py (k + suc fuel) h r p ≡ loop lib py (suc fuel) h r (waited_in h k p)
  loop-wait zero fuel h r p i = ap (λ n. loop lib py n h r p) (omega arith)
  loop-wait (suc k) fuel h r p i =
      ap (λ n. loop lib py n h r p) (omega arith)
      ∙ loop-suc lib py (k + suc fuel) h r p
      ∙ ap (λ reply. loop_round lib py reply (k + suc fuel) h r (note (poll h poll_timeout_ms) p))
          i.0
      ∙ loop-wait k fuel h r (note (poll h poll_timeout_ms) p) i.1

  abbrev pub is_finished : Generator → Bool
  is_finished finished = true
  is_finished g = false

  next_from-loop :
      (fuel h : ℕ) (r : Reader) (p : Process) (g : Generator)
      → is_finished g ≡ false
      → r.handle ≡ some h
      → next_from lib py fuel r p g ≡ loop lib py fuel h r p
  next_from-loop fuel h r p finished g e = cc
  next_from-loop fuel h r p g_ g e = ap (resume lib py fuel r p) e

  -- After `k` timeouts, `next` does what the next answer of the library makes of it.
  pub next-round :
      (k fuel h : ℕ) (r : Reader) (p : Process) (reply : PollReply)
      → is_finished r.generator ≡ false
      → r.handle ≡ some h
      → IdleFor h k p.history
      → lib.poll_reply (waited h k p.history) h poll_timeout_ms ≡ reply
      → next lib py (k + suc fuel) r p
        ≡ loop_round lib py reply fuel h r (note (poll h poll_timeout_ms) (waited_in h k p))
  unfolding next
  next-round k fuel h r p reply g e i a =
      next_from-loop (k + suc fuel) h r p r.generator g e
      ∙ loop-wait k fuel h r p i
      ∙ loop-suc lib py fuel h r (waited_in h k p)
      ∙ ap (λ t. loop_round lib py t fuel h r (note (poll h poll_timeout_ms) (waited_in h k p))) a

  read_chunk_lem :
      (p : Process) (s : String) (v : Json) (e : Event)
      → py.loads s ≡ parsed v
      → decode_event (chunk_of lib py v) ≡ ok e
      → (read_chunk lib py (fresh_pointer p) (allocate (utf8 s) p)).0 ≡ ok e
  unfolding read_chunk ◌>>=◌ py_str
  read_chunk_lem p s v e l d = ground arith

  yields_at :
      (fuel h : ℕ) (r : Reader) (p : Process) (t : Step × Reader × Process) (s : String) (v : Json)
      (e : Event)
      → py.loads s ≡ parsed v
      → decode_event (chunk_of lib py v) ≡ ok e
      → t ≡ loop_round lib py (chunk (utf8 s)) fuel h r p
      → (t.0 ≡ yielded e) × (t.1 ≡ record r { generator = suspended })
  unfolding on_chunk
  yields_at fuel h r p t s v e l d eq =
      let ev = read_chunk_lem p s v e l d in rw (eq, ev) (refl, refl)

  -- `next` yields the event that the first chunk encodes, however often the poll times out before it,
  -- given fuel for one round more than that, and the generator is suspended at the `yield`.
  pub next-yields :
      (k fuel h : ℕ) (r : Reader) (p : Process) (s : String) (v : Json) (e : Event)
      → is_finished r.generator ≡ false
      → r.handle ≡ some h
      → IdleFor h k p.history
      → lib.poll_reply (waited h k p.history) h poll_timeout_ms ≡ chunk (utf8 s)
      → py.loads s ≡ parsed v
      → decode_event (chunk_of lib py v) ≡ ok e
      → ((next lib py (k + suc fuel) r p).0 ≡ yielded e)
        × ((next lib py (k + suc fuel) r p).1 ≡ record r { generator = suspended })
  next-yields k fuel h r p s v e g held i answer l decoded =
      yields_at fuel h r _ _ s v e l decoded
        (next-round k fuel h r p (chunk (utf8 s)) g held i answer)

  take_final_lem :
      (h : ℕ) (p : Process) (s : String) (fs : Fields)
      → lib.text_reply p.history (par_stream_take_final h) ≡ some (utf8 s)
      → py.loads s ≡ parsed (obj fs)
      → status_ok lib py (get "status" fs) ≡ true
      → (take_final lib py h p).0 ≡ ok tt
  unfolding take_final read_final ◌>>=◌ call_text py_str
  take_final_lem h p s fs a l o = ground arith

  pub take_final-history :
      (h : ℕ) (p : Process)
      → (take_final lib py h p).1.history ≡ text (par_stream_take_final h) ∷ p.history
  unfolding take_final read_final ◌>>=◌ call_text py_str
  take_final-history h p = ground arith

  pub done_lem :
      (fuel h : ℕ) (r : Reader) (p : Process)
      → eqb h 0 ≡ false
      → r.handle ≡ some h
      → on_done lib py fuel h r p ≡ (
        final_step lib py (take_final lib py h p).0,
        record r { handle = none; completed = true; generator = finished },
        note (effect (par_stream_free h)) (take_final lib py h p).1,
      )
  unfolding on_done conclude finally_block call_effect
  done_lem fuel h r p nz e = simp (e, nz) refl

  -- When the library says, after any number `k` of timeouts, that the stream is done, and the
  -- status of its final envelope is "ok" or "cancelled", `next` ends with `StopIteration`: it has
  -- taken the envelope and freed the handle as its last call, and the generator is finished. Fuel
  -- for one round more than the timeouts is enough.
  pub next-stops :
      (k fuel h : ℕ) (r : Reader) (p : Process) (s : String) (fs : Fields)
      → is_finished r.generator ≡ false
      → r.handle ≡ some h
      → eqb h 0 ≡ false
      → IdleFor h k p.history
      → lib.poll_reply (waited h k p.history) h poll_timeout_ms ≡ done
      → lib.text_reply (poll h poll_timeout_ms ∷ waited h k p.history) (par_stream_take_final h)
        ≡ some (utf8 s)
      → py.loads s ≡ parsed (obj fs)
      → status_ok lib py (get "status" fs) ≡ true
      → ((next lib py (k + suc fuel) r p).0 ≡ stopped)
        × ((next lib py (k + suc fuel) r p).1
            ≡ record r { handle = none; completed = true; generator = finished })
        × ((next lib py (k + suc fuel) r p).2.history
            ≡ effect (par_stream_free h)
              ∷ text (par_stream_take_final h)
              ∷ poll h poll_timeout_ms
              ∷ waited h k p.history)
  next-stops k fuel h r p s fs g held nz i answer final l o =
      let t = next-round k fuel h r p done g held i answer in
      let d = done_lem fuel h r (note (poll h poll_timeout_ms) (waited_in h k p)) nz held in
      let ok_ = take_final_lem h (note (poll h poll_timeout_ms) (waited_in h k p)) s fs final l o in
      let calls = take_final-history h (note (poll h poll_timeout_ms) (waited_in h k p)) in
      rw (t, d, ok_, calls) (refl, refl, refl)
