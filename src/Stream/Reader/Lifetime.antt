-- ===== src/Stream/Reader/Lifetime.antt =====
-- The native handle of a `_StreamReader`: when it is freed, and by whom.
use par.Prelude.{
  ℕ, zero, suc, ◌≡◌, refl, ◌∙◌, Bool, true, false, Option, none, some, List, [], ◌∷◌, arith, eqb,
  if◌then◌else◌,
}
use par.Python.Errors.{Result, ok, raised}
use par.Python.Interpreter.{Interpreter}
use par.Ffi.Calls.{
  Library, Call, PollReply, idle, done, chunk, poll, effect, par_stream_free, par_stream_cancel,
}
use par.Ffi.Process.{Process, fresh as fresh_pointer, allocate, note, ◌>>=◌, call_text, call_effect}
use par.Ffi.Strings.{py_str}
use par.Stream.Event.{Event}
use par.Stream.Reader.{
  Reader, Step, Generator, stopped, failed, fresh, suspended, finished, drain, conclude,
  finally_block, on_done, on_chunk, loop, take_final, read_final, read_chunk, chunk_step, resume,
  next_from, abandon_from, ended, drained, freed, poll_timeout_ms,
}
use par.Stream.Reader.Loop.{loop_round, loop-suc, drain_round, drain-suc}

-- How often `par_stream_free` was called on a handle.
unfoldable pub frees : ℕ → List Call → ℕ
frees h [] = 0
frees h (effect (par_stream_free k) ∷ cs) = if eqb k h then suc (frees h cs) else frees h cs
frees h (c ∷ cs) = frees h cs

-- The reader holds `h`, which was freed `n` times, or it has freed it once more and has finished.
pub data Life (h n : ℕ) (r : Reader) (p : Process) : Type 0 where
  held : r.handle ≡ some h → frees h p.history ≡ n → Life h n r p
  released : r.handle ≡ none → r.generator ≡ finished → frees h p.history ≡ suc n → Life h n r p

module _ (lib : Library) (py : Interpreter) where
  drain_round-frees :
      (reply : PollReply) (fuel h k : ℕ) (p p' : Process)
      → ((q : Process) → drain lib py fuel h q ≡ some p' → frees k p'.history ≡ frees k q.history)
      → drain_round lib py reply fuel h p ≡ some p'
      → frees k p'.history ≡ frees k p.history
  drain_round-frees idle fuel h k p p' again d = again p d
  drain_round-frees done fuel h k p p' again d = ground arith
  drain_round-frees (chunk b) fuel h k p p' again d = again (allocate b p) d

  pub drain-frees :
      (fuel h k : ℕ) (p p' : Process)
      → drain lib py fuel h p ≡ some p'
      → frees k p'.history ≡ frees k p.history
  unfolding frees
  drain-frees zero h k p p' e = unfold drain in cc
  drain-frees (suc fuel) h k p p' e =
      drain_round-frees (lib.poll_reply p.history h 1000) fuel h k (note (poll h 1000) p) p'
        (λ q. drain-frees fuel h k q p') (rw drain-suc at e)

  take_final-frees :
      (h k : ℕ) (p : Process) → frees k (take_final lib py h p).1.history ≡ frees k p.history
  unfolding take_final read_final ◌>>=◌ call_text py_str frees
  take_final-frees h k p = ground arith

  read_chunk-history : (ptr : ℕ) (p : Process) → (read_chunk lib py ptr p).1.history ≡ p.history
  unfolding read_chunk ◌>>=◌ py_str
  read_chunk-history ptr p = ground arith

  ended-Life :
      (h n : ℕ) (step : Step) (r : Reader) (p : Process) (o : Option Process)
      → r.handle ≡ some h
      → frees h p.history ≡ n
      → ((p' : Process) → o ≡ some p' → frees h p'.history ≡ n)
      → Life h n
          (ended lib py step r p (freed lib py h r o)).1
          (ended lib py step r p (freed lib py h r o)).2
  unfolding call_effect frees
  ended-Life h n step r p none e f d = held e f
  ended-Life h n step r p (some p') e f d = released refl refl (ground (arith, d p' refl))

  drained-frees :
      (fuel h : ℕ) (completed : Bool) (p p' : Process)
      → drained lib py fuel h completed p ≡ some p'
      → frees h p'.history ≡ frees h p.history
  unfolding call_effect frees drain drained
  drained-frees fuel h true p p' e = ground arith
  drained-frees fuel h false p p' e =
      drain-frees fuel h h (note (effect (par_stream_cancel h)) p) p' e

  finally_block_lem :
      (fuel h : ℕ) (r : Reader) (p : Process)
      → eqb h 0 ≡ false
      → r.handle ≡ some h
      → finally_block lib py fuel r p ≡ freed lib py h r (drained lib py fuel h r.completed p)
  unfolding finally_block
  finally_block_lem fuel h r p nz e = simp (e, nz) refl

  conclude-Life :
      (fuel h n : ℕ) (step : Step) (r : Reader) (p : Process)
      → eqb h 0 ≡ false
      → r.handle ≡ some h
      → frees h p.history ≡ n
      → Life h n (conclude lib py fuel step r p).1 (conclude lib py fuel step r p).2
  unfolding conclude
  conclude-Life fuel h n step r p nz e f = rw (finally_block_lem fuel h r p nz e) (
      ended-Life h n step r p (drained lib py fuel h r.completed p) e f
        (λ p' d. drained-frees fuel h r.completed p p' d ∙ f))

  abbrev pub Alive : ℕ → ℕ → Step × Reader × Process → Type 0
  Alive h n s = Life h n s.1 s.2

  chunk_step-Alive :
      (fuel h n : ℕ) (r : Reader) (p : Process) (result : Result Event)
      → eqb h 0 ≡ false
      → r.handle ≡ some h
      → frees h p.history ≡ n
      → Alive h n (chunk_step lib py fuel r p result)
  chunk_step-Alive fuel h n r p (ok e) nz held_ f = held held_ f
  chunk_step-Alive fuel h n r p (raised e) nz held_ f =
      conclude-Life fuel h n (failed e) r p nz held_ f

  round-Alive :
      (reply : PollReply) (fuel h n : ℕ) (r : Reader) (p : Process)
      → eqb h 0 ≡ false
      → r.handle ≡ some h
      → frees h p.history ≡ n
      → ((q : Process) → frees h q.history ≡ n → Alive h n (loop lib py fuel h r q))
      → Alive h n (loop_round lib py reply fuel h r p)
  unfolding on_chunk on_done
  round-Alive idle fuel h n r p nz e f again = again p f
  round-Alive done fuel h n r p nz e f again =
      conclude-Life fuel h n _ _ _ nz e (take_final-frees h h p ∙ f)
  round-Alive (chunk b) fuel h n r p nz e f again =
      chunk_step-Alive fuel h n r _ _ nz e
        (cc (read_chunk-history (fresh_pointer p) (allocate b p), f))

  loop-Alive :
      (fuel h n : ℕ) (r : Reader) (p : Process)
      → eqb h 0 ≡ false
      → r.handle ≡ some h
      → frees h p.history ≡ n
      → Alive h n (loop lib py fuel h r p)
  unfolding frees
  loop-Alive zero h n r p nz e f = unfold loop in held e f
  loop-Alive (suc fuel) h n r p nz e f = rw (loop-suc lib py fuel h r p) (
      round-Alive (lib.poll_reply p.history h poll_timeout_ms) fuel h n r
        (note (poll h poll_timeout_ms) p) nz e f (λ q. loop-Alive fuel h n r q nz e))

  resume-Life :
      (fuel h n : ℕ) (r : Reader) (p : Process) (o : Option ℕ)
      → eqb h 0 ≡ false
      → r.handle ≡ some h
      → frees h p.history ≡ n
      → o ≡ some h
      → Alive h n (resume lib py fuel r p o)
  resume-Life fuel h n r p o nz e f oh = rw oh (loop-Alive fuel h n r p nz e f)

  pub next_from-Life :
      (fuel h n : ℕ) (r : Reader) (p : Process) (g : Generator)
      → eqb h 0 ≡ false
      → r.handle ≡ some h
      → frees h p.history ≡ n
      → Alive h n (next_from lib py fuel r p g)
  next_from-Life fuel h n r p finished nz e f = held e f
  next_from-Life fuel h n r p g nz e f = resume-Life fuel h n r p r.handle nz e f e

  pub abandon_from-Life :
      (fuel h n : ℕ) (r : Reader) (p : Process) (g : Generator)
      → eqb h 0 ≡ false
      → r.handle ≡ some h
      → frees h p.history ≡ n
      → Alive h n (abandon_from lib py fuel r p g)
  abandon_from-Life fuel h n r p fresh nz e f = held e f
  abandon_from-Life fuel h n r p suspended nz e f = conclude-Life fuel h n stopped r p nz e f
  abandon_from-Life fuel h n r p finished nz e f = held e f
