-- ===== src/Stream/Reader/Memory.antt =====
-- The chunks of a stream: which ones `_StreamReader` frees.
use par.Prelude.{
  ℕ, zero, suc, ◌+◌, ◌≡◌, refl, ◌∙◌, Bool, true, false, Option, none, some, arith, eqb, length,
  subst,
}
use par.Python.Errors.{Error, Result, ok, raised}
use par.Python.Interpreter.{Interpreter}
use par.Ffi.Calls.{Library, Bytes, PollReply, idle, done, chunk, poll, effect, par_stream_cancel}
use par.Ffi.Process.{Process, fresh as fresh_pointer, allocate, note, ◌>>=◌, call_text, call_effect}
use par.Ffi.Strings.{py_str}
use par.Stream.Event.{Event}
use par.Stream.Reader.{
  Reader, Step, Generator, yielded, stopped, starved, failed, suspended, finished, drain, conclude,
  finally_block, on_done, on_chunk, loop, next, take_final, read_final, read_chunk, abandon,
  chunk_step, resume, next_from, ended, drained, freed, poll_timeout_ms,
}
use par.Stream.Reader.Loop.{loop_round, loop-suc, drain_round, drain-suc}

-- No block was added, none freed out of turn.
record SameBlocks (p p' : Process) : Type 0 where
  blocks : p'.blocks ≡ p.blocks
  faults : p'.faults ≡ p.faults

module _ (lib : Library) (py : Interpreter) where
  -- The final envelope is freed.
  take_final-SameBlocks : (h : ℕ) (p : Process) → SameBlocks p (take_final lib py h p).1
  unfolding take_final read_final ◌>>=◌ call_text py_str
  take_final-SameBlocks h p = record { blocks = ground arith; faults = ground arith }

  -- A completed stream is not drained.
  conclude-completed :
      (fuel : ℕ) (step : Step) (r : Reader) (p : Process)
      → r.completed ≡ true
      → SameBlocks p (conclude lib py fuel step r p).2
  unfolding conclude finally_block call_effect
  conclude-completed fuel step r p c = record { blocks = ground arith; faults = ground arith }

  SameBlocks-trans : {p q s : Process} → SameBlocks p q → SameBlocks q s → SameBlocks p s
  SameBlocks-trans a b = record { blocks = b.blocks ∙ a.blocks; faults = b.faults ∙ a.faults }

  on_done-SameBlocks :
      (fuel h : ℕ) (r : Reader) (p : Process) → SameBlocks p (on_done lib py fuel h r p).2
  unfolding on_done
  on_done-SameBlocks fuel h r p =
      SameBlocks-trans (take_final-SameBlocks h p) (conclude-completed fuel _ _ _ refl)

  -- A call of `next` that yields an event, or ends the iteration.
  abbrev pub is_smooth : Step → Bool
  is_smooth (yielded e) = true
  is_smooth stopped = true
  is_smooth starved = false
  is_smooth (failed e) = false

  abbrev Tidied : Process → Step × Reader × Process → Type 0
  Tidied p s = is_smooth s.0 ≡ true → SameBlocks p s.2

  Tidied-conclude_failed :
      (fuel : ℕ) (e : Error) (r : Reader) (p q : Process)
      → Tidied q (conclude lib py fuel (failed e) r p)
  unfolding conclude
  Tidied-conclude_failed fuel e r p q h = ground arith

  read_chunk-SameBlocks :
      (b : Bytes) (p : Process)
      → SameBlocks p (read_chunk lib py (fresh_pointer p) (allocate b p)).1
  unfolding read_chunk ◌>>=◌ py_str
  read_chunk-SameBlocks b p = record { blocks = ground arith; faults = ground arith }

  chunk_step-Tidied :
      (fuel : ℕ) (r : Reader) (p q : Process) (result : Result Event)
      → SameBlocks p q
      → Tidied p (chunk_step lib py fuel r q result)
  chunk_step-Tidied fuel r p q (ok e) same = λ h. same
  chunk_step-Tidied fuel r p q (raised e) same = Tidied-conclude_failed fuel e r q p

  round-Tidied :
      (reply : PollReply) (fuel h : ℕ) (r : Reader) (p : Process)
      → ((q : Process) → Tidied q (loop lib py fuel h r q))
      → Tidied p (loop_round lib py reply fuel h r p)
  unfolding on_chunk
  round-Tidied idle fuel h r p again = again p
  round-Tidied done fuel h r p again = λ s. on_done-SameBlocks fuel h r p
  round-Tidied (chunk b) fuel h r p again =
      chunk_step-Tidied fuel r p _ _ (read_chunk-SameBlocks b p)

  loop-Tidied : (fuel h : ℕ) (r : Reader) (p : Process) → Tidied p (loop lib py fuel h r p)
  loop-Tidied zero h r p = unfold loop in (λ s. cc)
  loop-Tidied (suc fuel) h r p = rw (loop-suc lib py fuel h r p) (λ s.
      let same =
        round-Tidied (lib.poll_reply p.history h poll_timeout_ms) fuel h r
          (note (poll h poll_timeout_ms) p) (λ q. loop-Tidied fuel h r q) s in
      record { blocks = same.blocks; faults = same.faults })

  resume-Tidied :
      (fuel : ℕ) (r : Reader) (p : Process) (o : Option ℕ) → Tidied p (resume lib py fuel r p o)
  resume-Tidied fuel r p none = λ s. cc
  resume-Tidied fuel r p (some h) = loop-Tidied fuel h r p

  next_from-Tidied :
      (fuel : ℕ) (r : Reader) (p : Process) (g : Generator) → Tidied p (next_from lib py fuel r p g)
  next_from-Tidied fuel r p finished = λ s. record { blocks = refl; faults = refl }
  next_from-Tidied fuel r p g = resume-Tidied fuel r p r.handle

  -- A call of `next` that yields an event, or that ends the iteration, has freed every string that the
  -- library allocated for it, the final envelope included, and no other.
  pub next-blocks :
      (fuel : ℕ) (r : Reader) (p : Process)
      → is_smooth (next lib py fuel r p).0 ≡ true
      → ((next lib py fuel r p).2.blocks ≡ p.blocks) × ((next lib py fuel r p).2.faults ≡ p.faults)
  unfolding next
  next-blocks fuel r p h =
      let same = next_from-Tidied fuel r p r.generator h in (same.blocks, same.faults)

  round-blocks :
      (reply : PollReply) (fuel h : ℕ) (p p' : Process)
      → ((q : Process)
          → drain lib py fuel h q ≡ some p'
          → length p'.blocks + q.next_block ≡ length q.blocks + p'.next_block)
      → drain_round lib py reply fuel h p ≡ some p'
      → length p'.blocks + p.next_block ≡ length p.blocks + p'.next_block
  round-blocks idle fuel h p p' again d = again p d
  round-blocks done fuel h p p' again d = ground arith
  round-blocks (chunk b) fuel h p p' again d = omega (arith, again (allocate b p) d)

  -- Of the strings that the `finally` polls, none is freed: each one that was allocated is still there.
  drain-blocks :
      (fuel h : ℕ) (p p' : Process)
      → drain lib py fuel h p ≡ some p'
      → length p'.blocks + p.next_block ≡ length p.blocks + p'.next_block
  drain-blocks zero h p p' e = unfold drain in cc
  drain-blocks (suc fuel) h p p' e =
      round-blocks (lib.poll_reply p.history h 1000) fuel h (note (poll h 1000) p) p'
        (λ q. drain-blocks fuel h q p') (rw drain-suc at e)

  abbrev Balance : Process → Step × Reader × Process → Type 0
  Balance p s = length s.2.blocks + p.next_block ≡ length p.blocks + s.2.next_block

  freed-Balance :
      (h : ℕ) (r : Reader) (p : Process) (o : Option Process)
      → ((p' : Process)
          → o ≡ some p'
          → length p'.blocks + p.next_block ≡ length p.blocks + p'.next_block)
      → (ended lib py stopped r p (freed lib py h r o)).0 ≡ stopped
      → Balance p (ended lib py stopped r p (freed lib py h r o))
  unfolding call_effect
  freed-Balance h r p none bal s = cc
  freed-Balance h r p (some p') bal s = bal p' refl

  suspended_lem :
      (fuel h : ℕ) (r : Reader) (p : Process)
      → r.generator ≡ suspended
      → r.completed ≡ false
      → r.handle ≡ some h
      → eqb h 0 ≡ false
      → abandon lib py fuel r p
        ≡ ended lib py stopped r p (freed lib py h r (drained lib py fuel h false p))
  unfolding abandon conclude finally_block
  suspended_lem fuel h r p g c hh nz = simp (g, hh, nz, c) refl

  -- Closing the generator at the `yield`, by a `break` from the loop for instance, of a stream
  -- that has not completed leaves every string that the `finally` polled allocated, once the
  -- `finally` ends.
  pub abandon-blocks :
      (fuel h : ℕ) (r : Reader) (p : Process)
      → r.generator ≡ suspended
      → r.completed ≡ false
      → r.handle ≡ some h
      → eqb h 0 ≡ false
      → (abandon lib py fuel r p).0 ≡ stopped
      → length (abandon lib py fuel r p).2.blocks + p.next_block
        ≡ length p.blocks + (abandon lib py fuel r p).2.next_block
  unfolding abandon conclude finally_block call_effect
  abandon-blocks fuel h r p g c hh nz s = cc (
    suspended_lem fuel h r p g c hh nz,
    freed-Balance h r p (drained lib py fuel h false p)
        (λ p'. drain-blocks fuel h (note (effect (par_stream_cancel h)) p) p')
        (subst (λ t. t.0 ≡ stopped) (suspended_lem fuel h r p g c hh nz) s),
  )
