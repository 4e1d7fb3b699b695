-- ===== src/Runtime/World/Handles.antt =====
-- The runtimes of the library behind the objects of a process: none is used after its shutdown, and none
-- is left alive without an object that is open.
use par.Prelude.{
  ℕ, zero, suc, String, ◌≡◌, ◌∙◌, refl, Bool, true, false, not, ◌&&◌, ◌||◌, Option, none, some,
  List, [], ◌∷◌, eqb, elem, arith, Bool-cases, inl, inr,
}
use par.Python.Errors.{Error, ok, raised, Result-cases}
use par.Python.Interpreter.{Interpreter}
use par.Config.{normalize_config}
use par.Ffi.Calls.{Library, par_init, handle}
use par.Ffi.Process.{Process, ◌>>=◌, lift, call_handle, note}
use par.Ffi.Handles.{live, all_live, HasFreshHandles}
use par.Runtime.Base.{Runtime}
use par.Runtime.Lifecycle.{init, started}
use par.Runtime.World.{World, Operation, Command, create, on, operate_at, execute, run, created}
use par.Runtime.World.Careful.{holds, holds_handle, backed, operate-IsCareful}

-- Some object of the list is open on it.
abbrev pub held : ℕ → List Runtime → Bool
held a [] = false
held a (r ∷ rs) = holds a r || held a rs

-- No runtime of the library belongs to two objects.
abbrev pub IsDistinct : List Runtime → Type 0
IsDistinct [] = Unit
IsDistinct (r ∷ rs) = ((a : ℕ) → holds a r ≡ true → held a rs ≡ false) × IsDistinct rs

module _ (lib : Library) (py : Interpreter) where
  -- Every call so far has named a runtime that was alive; the runtimes that are alive are exactly those
  -- that an open object stands for.
  pub record OwnsHandles (p : Process) (rs : List Runtime) : Type 0 where
    pub used : all_live lib p.history ≡ true
    pub distinct : IsDistinct rs
    pub alive : (a : ℕ) → elem a (live lib p.history) ≡ held a rs

  -- `IsCareful`, for an operation on some object of a list.
  record IsCarefulAt (rs : List Runtime) (p : Process) (rs' : List Runtime) (p' : Process)
      : Type 0 where
    used : all_live lib p'.history ≡ true
    shrinks : (a : ℕ) → held a rs' ≡ true → held a rs ≡ true
    distinct : IsDistinct rs'
    alive :
        (a : ℕ)
        → elem a (live lib p'.history)
          ≡ (held a rs' || (elem a (live lib p.history) && not (held a rs)))

  -- The objects of the list that are open are open on live runtimes.
  abbrev Backed : Process → List Runtime → Type 0
  Backed p rs = (a : ℕ) → held a rs ≡ true → elem a (live lib p.history) ≡ true

  backed_of :
      (o : Option ℕ) (l : List ℕ)
      → ((a : ℕ) → holds_handle a o ≡ true → elem a l ≡ true)
      → backed lib py o l ≡ true
  backed_of none l b = refl
  backed_of (some h) l b = ground (arith, b h)

  backed-head :
      (r : Runtime) (rs : List Runtime) (p : Process)
      → Backed p (r ∷ rs)
      → backed lib py r.handle (live lib p.history) ≡ true
  backed-head r rs p b = backed_of r.handle (live lib p.history) (λ a h. b a (ground arith))

  operate_at-IsCarefulAt :
      (i : ℕ) (op : Operation) (rs : List Runtime) (p : Process)
      → all_live lib p.history ≡ true
      → IsDistinct rs
      → Backed p rs
      → let w = operate_at lib py i op rs p in IsCarefulAt rs p w.runtimes w.process
  unfolding operate_at
  operate_at-IsCarefulAt i op [] p used d b = record {
    used = used;
    shrinks = λ a h. h;
    distinct = tt;
    alive = λ a. ground arith;
  }
  operate_at-IsCarefulAt zero op (r ∷ rs) p used d b =
      let c =
        operate-IsCareful lib py op (record { self = r; process = p }) used
          (backed-head r rs p b) in
      record {
        used = c.used;
        shrinks = λ a h. ground (arith, c.shrinks a);
        distinct = (λ a h. d.0 a (c.shrinks a h), d.1);
        alive = λ a. ground (arith, c.alive a, c.shrinks a, d.0 a, b a);
      }
  operate_at-IsCarefulAt (suc i) op (r ∷ rs) p used d b =
      let c = operate_at-IsCarefulAt i op rs p used d.1 (λ a h. b a (ground arith)) in
      record {
        used = c.used;
        shrinks = λ a h. ground (arith, c.shrinks a);
        distinct = (λ a h. ground (arith, d.0 a h, c.shrinks a), c.distinct);
        alive = λ a. ground (arith, c.alive a, c.shrinks a, d.0 a, b a);
      }

  operate_at-OwnsHandles :
      (i : ℕ) (op : Operation) (rs : List Runtime) (p : Process)
      → OwnsHandles p rs
      → let w = operate_at lib py i op rs p in OwnsHandles w.process w.runtimes
  operate_at-OwnsHandles i op rs p o =
      let c = operate_at-IsCarefulAt i op rs p o.used o.distinct (λ a h. o.alive a ∙ h) in
      record {
        used = c.used;
        distinct = c.distinct;
        alive = λ a. ground (arith, c.alive a, o.alive a, Bool-cases (held a rs));
      }

  -- A new runtime is alive, and no object has it yet.
  started-OwnsHandles :
      (n : String) (rs : List Runtime) (p : Process)
      → elem (lib.handle_reply p.history (par_init n)) (live lib p.history) ≡ false
      → OwnsHandles p rs
      → OwnsHandles
          (note (handle (par_init n)) p)
          (created lib py (started lib py (lib.handle_reply p.history (par_init n))) rs)
  started-OwnsHandles n rs p new o =
      let h = lib.handle_reply p.history (par_init n) in
      elim (Bool-cases (eqb h 0)) [
        | inl z ↦
            rw z record { used = o.used; distinct = o.distinct; alive = λ a. rw z (o.alive a) }
        | inr nz ↦ rw nz record {
          used = o.used;
          distinct = (λ a e. ground (arith, o.alive a), o.distinct);
          alive = λ a. ground (arith, o.alive a);
        }
      ]

  init-OwnsHandles :
      (config_json n : String) (rs : List Runtime) (p : Process)
      → HasFreshHandles lib
      → OwnsHandles p rs
      → normalize_config py config_json ≡ ok n
      → OwnsHandles (init lib py config_json p).1 (created lib py (init lib py config_json p).0 rs)
  unfolding init ◌>>=◌ lift call_handle
  init-OwnsHandles config_json n rs p fresh o e =
      rw e (started-OwnsHandles n rs p (fresh p.history n) o)

  refused-OwnsHandles :
      (config_json : String) (err : Error) (rs : List Runtime) (p : Process)
      → OwnsHandles p rs
      → normalize_config py config_json ≡ raised err
      → OwnsHandles (init lib py config_json p).1 (created lib py (init lib py config_json p).0 rs)
  unfolding init ◌>>=◌ lift call_handle
  refused-OwnsHandles config_json err rs p o e = rw e o

  execute-OwnsHandles :
      (c : Command) (w : World)
      → HasFreshHandles lib
      → OwnsHandles w.process w.runtimes
      → OwnsHandles (execute lib py c w).process (execute lib py c w).runtimes
  unfolding execute
  execute-OwnsHandles (create config_json) w fresh o =
      elim (Result-cases (normalize_config py config_json)) [
        | inl (n, e) ↦ init-OwnsHandles config_json n w.runtimes w.process fresh o e
        | inr (err, e) ↦ refused-OwnsHandles config_json err w.runtimes w.process o e
      ]
  execute-OwnsHandles (on i op) w fresh o = operate_at-OwnsHandles i op w.runtimes w.process o

  -- If the library never hands out the address of a runtime that is alive, then from a state in
  -- which the runtimes that are alive are exactly those of the open objects, no two objects share
  -- one, and every call so far has named a live one, any sequence of creations, calls,
  -- registrations and closes leads to such a state: no call names a runtime that was shut down
  -- before, and no runtime stays alive that no object is open on.
  pub run-OwnsHandles :
      (cs : List Command) (w : World)
      → HasFreshHandles lib
      → OwnsHandles w.process w.runtimes
      → OwnsHandles (run lib py cs w).process (run lib py cs w).runtimes
  unfolding run
  run-OwnsHandles [] w fresh o = o
  run-OwnsHandles (c ∷ cs) w fresh o =
      run-OwnsHandles cs (execute lib py c w) fresh (execute-OwnsHandles c w fresh o)
