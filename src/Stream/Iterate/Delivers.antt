-- ===== src/Stream/Iterate/Delivers.antt =====
-- What the library delivers on a stream, and what one call of `next` makes of each answer.
use par.Prelude.{
  ℕ, suc, ◌-◌, ◌<◌, ◌≡◌, ◌∙◌, ap, false, Option, none, some, List, [], ◌∷◌, arith, String,
}
use par.Python.Errors.{Result, ok, ◌▹◌}
use par.Python.Interpreter.{Interpreter, loads_or_raise}
use par.Ffi.Calls.{Library, Bytes, utf8, Call, PollReply, done, chunk, poll, par_stream_take_final}
use par.Ffi.Process.{Process, note, ◌>>=◌, call_text}
use par.Ffi.Strings.{py_str, decode}
use par.Stream.Event.{Event, decode_event}
use par.Stream.Reader.{
  Reader, yielded, suspended, on_chunk, next, take_final, read_final, read_chunk, poll_timeout_ms,
  chunk_of, final_status,
}
use par.Stream.Reader.Progress.{IdleFor, waited, is_finished, next-round, waited_in}
use par.Stream.Reader.Loop.{loop_round}

module _ (lib : Library) (py : Interpreter) where
  -- What the library delivers on `h`: chunks, each after a number of timeouts, and the end after `k` more.
  abbrev pub Delivers : ℕ → List (ℕ × String) → ℕ → List Call → Type 0
  Delivers h [] k hist =
      IdleFor lib py h k hist × (lib.poll_reply (waited lib py h k hist) h poll_timeout_ms ≡ done)
  Delivers h ((j, s) ∷ script) k hist =
      IdleFor lib py h j hist
      × (lib.poll_reply (waited lib py h j hist) h poll_timeout_ms ≡ chunk (utf8 s))
      × Delivers h script k (poll h poll_timeout_ms ∷ waited lib py h j hist)

  -- The history at the end of the polls.
  abbrev pub polled_all : ℕ → List (ℕ × String) → ℕ → List Call → List Call
  polled_all h [] k hist = poll h poll_timeout_ms ∷ waited lib py h k hist
  polled_all h ((j, s) ∷ script) k hist =
      polled_all h script k (poll h poll_timeout_ms ∷ waited lib py h j hist)

  -- The events that the chunks encode, if all of them do.
  abbrev pub event_of : String → Result Event
  event_of s = loads_or_raise py s ▹ λ v. decode_event (chunk_of lib py v)

  abbrev pub with_event : Event → List Event → Result (List Event)
  with_event e es = ok (e ∷ es)

  abbrev pub events_of : List (ℕ × String) → Result (List Event)
  events_of [] = ok []
  events_of ((j, s) ∷ script) = event_of s ▹ λ e. events_of script ▹ with_event e

  -- How the final envelope ends the loop.
  abbrev pub final_answer : Option Bytes → Result (Unit {0})
  final_answer none = ok tt
  final_answer (some b) = decode b ▹ λ raw. loads_or_raise py raw ▹ final_status lib py

  -- The time-outs that come in one call of `next`.
  abbrev pub Patient : ℕ → List (ℕ × String) → ℕ → Type 0
  Patient fuel [] k = k < fuel
  Patient fuel ((j, s) ∷ script) k = (j < fuel) × Patient fuel script k

  pub take_final_lem :
      (h : ℕ) (p : Process)
      → ((take_final lib py h p).0
          ≡ final_answer (lib.text_reply p.history (par_stream_take_final h)))
        × ((take_final lib py h p).1.blocks ≡ p.blocks)
        × ((take_final lib py h p).1.faults ≡ p.faults)
  unfolding take_final read_final ◌>>=◌ call_text py_str
  take_final_lem h p = ground arith

  -- A chunk that encodes an event is read, freed and yielded.
  pub chunk_lem :
      (fuel h : ℕ) (r : Reader) (p : Process) (s : String) (e : Event)
      → event_of s ≡ ok e
      → let t = loop_round lib py (chunk (utf8 s)) fuel h r p in
        (t.0 ≡ yielded e)
        × (t.1 ≡ record r { generator = suspended })
        × (t.2.history ≡ p.history)
        × (t.2.blocks ≡ p.blocks)
        × (t.2.faults ≡ p.faults)
  unfolding on_chunk read_chunk ◌>>=◌ py_str
  chunk_lem fuel h r p s e d = ground arith

  pub next_at :
      (k fuel h : ℕ) (r : Reader) (p : Process) (reply : PollReply)
      → k < fuel
      → is_finished lib py r.generator ≡ false
      → r.handle ≡ some h
      → IdleFor lib py h k p.history
      → lib.poll_reply (waited lib py h k p.history) h poll_timeout_ms ≡ reply
      → next lib py fuel r p
        ≡ loop_round lib py reply
            (fuel - suc k)
            h
            r
            (note (poll h poll_timeout_ms) (waited_in lib py h k p))
  next_at k fuel h r p reply b g e i a =
      ap (λ n. next lib py n r p) (omega arith)
      ∙ next-round lib py k (fuel - suc k) h r p reply g e i a
