-- ===== src/Stream/Reader/Loop.antt =====
-- One round of each polling loop of `_StreamReader`, by what the library answers.
use par.Prelude.{ℕ, suc, ◌≡◌, arith, Option, some}
use par.Python.Interpreter.{Interpreter}
use par.Ffi.Calls.{Library, PollReply, idle, done, chunk, poll}
use par.Ffi.Process.{Process, fresh, allocate, note, call_poll}
use par.Stream.Reader.{Reader, Step, loop, on_done, on_chunk, drain, poll_timeout_ms}

module _ (lib : Library) (py : Interpreter) where
  -- A round of the generator's loop: wait again, finish, or take a chunk, in a state that has recorded
  -- the poll.
  abbrev pub loop_round : PollReply → ℕ → ℕ → Reader → Process → Step × Reader × Process
  loop_round idle fuel h r p = loop lib py fuel h r p
  loop_round done fuel h r p = on_done lib py fuel h r p
  loop_round (chunk b) fuel h r p = on_chunk lib py fuel (fresh p) r (allocate b p)

  pub loop-suc :
      (fuel h : ℕ) (r : Reader) (p : Process)
      → loop lib py (suc fuel) h r p
        ≡ loop_round
            (lib.poll_reply p.history h poll_timeout_ms)
            fuel
            h
            r
            (note (poll h poll_timeout_ms) p)
  unfolding loop call_poll
  loop-suc fuel h r p = ground arith

  -- A round of the `finally`'s loop: a chunk is taken, and not looked at.
  abbrev pub drain_round : PollReply → ℕ → ℕ → Process → Option Process
  drain_round idle fuel h p = drain lib py fuel h p
  drain_round done fuel h p = some p
  drain_round (chunk b) fuel h p = drain lib py fuel h (allocate b p)

  pub drain-suc :
      (fuel h : ℕ) (p : Process)
      → drain lib py (suc fuel) h p
        ≡ drain_round (lib.poll_reply p.history h 1000) fuel h (note (poll h 1000) p)
  unfolding drain call_poll
  drain-suc fuel h p = ground arith
