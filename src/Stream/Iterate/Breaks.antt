-- ===== src/Stream/Iterate/Breaks.antt =====
-- A stream with a chunk that is no event: the loop over it ends with the exception, and the handle is freed.
use par.Prelude.{
  ℕ, zero, suc, ◌+◌, ◌-◌, ◌<◌, ◌≡◌, refl, ◌∙◌, ap, sym, subst, false, none, some, List, [], ◌∷◌,
  arith, eqb, String,
}
use par.Python.Errors.{Error, raised}
use par.Python.Interpreter.{Interpreter}
use par.Ffi.Calls.{Library, utf8, Call, chunk, poll, effect, par_stream_cancel}
use par.Ffi.Process.{Process, allocate, fresh as fresh_pointer, note, ◌>>=◌}
use par.Ffi.Strings.{py_str}
use par.Stream.Event.{Event}
use par.Stream.Reader.{
  Reader, Step, failed, finished, poll_timeout_ms, on_chunk, read_chunk, conclude,
}
use par.Stream.Reader.Lifetime.{frees, drain-frees}
use par.Stream.Reader.Closing.{EndsAfter, drain-ends, conclude-drained}
use par.Stream.Reader.Progress.{is_finished, IdleFor, waited, waited_in}
use par.Stream.Reader.Loop.{loop_round}
use par.Stream.Iterate.{Seen, collect, go_on}
use par.Stream.Iterate.Complete.{collect-suc}
use par.Stream.Iterate.Delivers.{event_of, next_at}

module _ (lib : Library) (py : Interpreter) where
  -- The next chunks on `h`, each after a number of timeouts.
  abbrev pub Chunks : ℕ → List (ℕ × String) → List Call → Type 0
  Chunks h [] hist = Unit
  Chunks h ((j, s) ∷ script) hist =
      IdleFor lib py h j hist
      × (lib.poll_reply (waited lib py h j hist) h poll_timeout_ms ≡ chunk (utf8 s))
      × Chunks h script (poll h poll_timeout_ms ∷ waited lib py h j hist)

  abbrev pub after_chunks : ℕ → List (ℕ × String) → List Call → List Call
  after_chunks h [] hist = hist
  after_chunks h ((j, s) ∷ script) hist =
      after_chunks h script (poll h poll_timeout_ms ∷ waited lib py h j hist)

  abbrev pub Swift : ℕ → List (ℕ × String) → Type 0
  Swift fuel [] = Unit
  Swift fuel ((j, s) ∷ script) = (j < fuel) × Swift fuel script

  broken_chunk :
      (p : Process) (s : String) (x : Error)
      → event_of lib py s ≡ raised x
      → ((read_chunk lib py (fresh_pointer p) (allocate (utf8 s) p)).0 ≡ raised x)
        × ((read_chunk lib py (fresh_pointer p) (allocate (utf8 s) p)).1.history ≡ p.history)
  unfolding read_chunk ◌>>=◌ py_str
  broken_chunk p s x h = ground arith

  on_chunk-raised :
      (fuel ptr : ℕ) (r : Reader) (p : Process) (x : Error)
      → (read_chunk lib py ptr p).0 ≡ raised x
      → on_chunk lib py fuel ptr r p ≡ conclude lib py fuel (failed x) r (read_chunk lib py ptr p).1
  unfolding on_chunk
  on_chunk-raised fuel ptr r p x e = simp e refl

  -- One call of `next` that meets the chunk.
  Breaks : ℕ → Error → Reader → List Call → Step × Reader × Process → Type 0
  Breaks h x r hist t =
      (t.0 ≡ failed x)
      × (t.1 ≡ record r { handle = none; generator = finished })
      × (frees h t.2.history ≡ suc (frees h hist))

  round-Breaks :
      (k fuel h : ℕ) (r : Reader) (p : Process) (s : String) (x : Error)
      → r.completed ≡ false
      → r.handle ≡ some h
      → eqb h 0 ≡ false
      → event_of lib py s ≡ raised x
      → EndsAfter lib py h k (effect (par_stream_cancel h) ∷ p.history)
      → Breaks h x r p.history (loop_round lib py (chunk (utf8 s)) (k + suc fuel) h r p)
  unfolding Breaks frees
  round-Breaks k fuel h r p s x c e nz b ends =
      let q = (read_chunk lib py (fresh_pointer p) (allocate (utf8 s) p)).1 in
      let (raises, same) = broken_chunk p s x b in
      let cancelled = note (effect (par_stream_cancel h)) q in
      let (p', d) = drain-ends lib py k fuel h cancelled (
        subst (λ hist. EndsAfter lib py h k (effect (par_stream_cancel h) ∷ hist)) (sym same)
          ends) in
      let count = drain-frees lib py (k + suc fuel) h h cancelled p' d in
      rw
        (
          on_chunk-raised (k + suc fuel) (fresh_pointer p) r (allocate (utf8 s) p) x raises,
          conclude-drained lib py (k + suc fuel) h (failed x) r q p' c e nz d,
        )
        (refl, refl, ground (arith, count, ap (λ hist. frees h hist) same))

  -- Polls free nothing.
  waited-frees : (h j : ℕ) (hist : List Call) → frees h (waited lib py h j hist) ≡ frees h hist
  unfolding frees
  waited-frees h zero hist = refl
  waited-frees h (suc j) hist = waited-frees h j (poll h poll_timeout_ms ∷ hist)

  pub waited_lem :
      (h j : ℕ) (hist : List Call)
      → frees h (poll h poll_timeout_ms ∷ waited lib py h j hist) ≡ frees h hist
  unfolding frees
  waited_lem h j hist = waited-frees h j hist

  -- A loop that has met the chunk after the events `es`.
  pub record IsBroken (h : ℕ) (x : Error) (hist : List Call) (es : List Event) (s : Seen)
      : Type 0 where
    pub events : s.events ≡ es
    pub ending : s.ending ≡ failed x
    pub handle : s.reader.handle ≡ none
    pub generator : s.reader.generator ≡ finished
    pub freed : frees h s.process.history ≡ suc (frees h hist)

  halted-IsBroken :
      (h : ℕ) (x : Error) (r r' : Reader) (hist hist' : List Call) (t : Step × Reader × Process)
      (s rest : Seen)
      → s ≡ go_on lib py t.0 t.1 t.2 rest
      → Breaks h x r hist t
      → frees h hist ≡ frees h hist'
      → IsBroken h x hist' [] s
  unfolding Breaks
  halted-IsBroken h x r r' hist hist' t s rest e (a, b, c) same =
      let s' = e ∙ ap (λ u. go_on lib py u t.1 t.2 rest) a in
      record {
        events = ap (λ s. s.events) s';
        ending = ap (λ s. s.ending) s';
        handle = ap (λ s. s.reader.handle) s' ∙ ap (λ r. r.handle) b;
        generator = ap (λ s. s.reader.generator) s' ∙ ap (λ r. r.generator) b;
        freed = ap (λ s. frees h s.process.history) s' ∙ c ∙ ap suc same;
      }

  pub break_lem :
      (n j k fuel h : ℕ) (r : Reader) (p : Process) (s : String) (x : Error)
      → is_finished lib py r.generator ≡ false
      → r.completed ≡ false
      → r.handle ≡ some h
      → eqb h 0 ≡ false
      → IdleFor lib py h j p.history
      → lib.poll_reply (waited lib py h j p.history) h poll_timeout_ms ≡ chunk (utf8 s)
      → event_of lib py s ≡ raised x
      → EndsAfter lib py h k
          (effect (par_stream_cancel h) ∷ poll h poll_timeout_ms ∷ waited lib py h j p.history)
      → j + suc k < fuel
      → IsBroken h x p.history [] (collect lib py (suc n) fuel r p)
  unfolding frees
  break_lem n j k fuel h r p s x g c e nz i a b ends l =
      let q = note (poll h poll_timeout_ms) (waited_in lib py h j p) in
      let f = fuel - suc (suc (j + k)) in
      let t =
        next_at lib py j fuel h r p (chunk (utf8 s)) (omega arith) g e i a
        ∙ ap (λ m. loop_round lib py (chunk (utf8 s)) m h r q) (omega arith) in
      halted-IsBroken h x r r q.history p.history _ _
        (collect lib py n fuel (loop_round lib py (chunk (utf8 s)) (k + suc f) h r q).1
          (loop_round lib py (chunk (utf8 s)) (k + suc f) h r q).2)
        (collect-suc lib py n fuel r p (loop_round lib py (chunk (utf8 s)) (k + suc f) h r q) t)
        (round-Breaks k f h r q s x c e nz b ends) (waited-frees h j p.history)
