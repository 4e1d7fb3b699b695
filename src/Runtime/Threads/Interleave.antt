-- ===== src/Runtime/Threads/Interleave.antt =====
-- The steps of several threads in any order.
use par.Prelude.{ℕ, zero, suc, refl, List, [], ◌∷◌, arith}
use par.Python.Json.{Json}
use par.Python.Interpreter.{Interpreter}
use par.Ffi.Calls.{Library, Outcome}
use par.Ffi.Process.{Process}
use par.Runtime.Requests.{Request}
use par.Runtime.Sharing
use par.Runtime.Threads.{
  Phase, Tool, tool_entered, approval_entered, close_entered, performing, returned, step,
}
use par.Runtime.Threads.Owning.{Thread, holds, Fits, HasSets, thread_of, IsLocal, IsBlank}
use par.Runtime.Threads.Local.{step-HasSets, step-IsBlank, step-IsLocal, quiet-IsLocal}

-- The methods that a thread may call.
pub data MethodCall : Type 0 where
  register_tool_with_handler : Tool → MethodCall
  register_approval_handler : (Json → Outcome) → MethodCall
  close : MethodCall
  request : Request → MethodCall

abbrev begin : MethodCall → Phase
begin (register_tool_with_handler t) = tool_entered t
begin (register_approval_handler f) = approval_entered f
begin close = close_entered
begin (request r) = performing r

-- A thread calls a method if the one before has returned.
abbrev called : MethodCall → Phase → Phase
called c (returned r) = begin c
called c g = g

pub data Move : Type 0 where
  call : MethodCall → Move
  go : Move

pub record System : Type 0 where
  pub threads : List Thread
  pub process : Process

module _ (lib : Library) (py : Interpreter) where
  unfoldable pub move : Move → Thread → Process → Thread × Process
  unfolding step
  move (call c) t p = (record t { phase = called c t.phase }, p)
  move go t p =
      let r = step lib py t.phase (record { self = t.self; process = p }) in
      (thread_of r, r.1.process)

  -- `m` is the move of thread number `i`; without that thread nothing happens.
  unfoldable pub move_at : ℕ → Move → List Thread → Process → System
  unfolding move
  move_at i m [] p = record { threads = []; process = p }
  move_at zero m (t ∷ ts) p = record { threads = (move m t p).0 ∷ ts; process = (move m t p).1 }
  move_at (suc i) m (t ∷ ts) p =
      let w = move_at i m ts p in record { threads = t ∷ w.threads; process = w.process }

  unfoldable pub interleave : List (ℕ × Move) → System → System
  unfolding move_at
  interleave [] w = w
  interleave ((i, m) ∷ ms) w = interleave ms (move_at i m w.threads w.process)

  abbrev pub AllHaveSets : List Thread → Type 0
  AllHaveSets [] = Unit
  AllHaveSets (t ∷ ts) = HasSets t × AllHaveSets ts

  -- Each thread holds its ids alone, and the dict holds under them what it should.
  pub record IsSafe (w : System) : Type 0 where
    pub sound : Sharing.IsSound holds Fits w.process w.threads
    pub sets : AllHaveSets w.threads
    pub blank : IsBlank w.process

  move-HasSets : (m : Move) (t : Thread) (p : Process) → HasSets t → HasSets (move m t p).0
  unfolding move
  move-HasSets go t p d = step-HasSets lib py t.phase (record { self = t.self; process = p }) d
  move-HasSets (call c) t p d = ground arith

  move-IsBlank :
      (m : Move) (t : Thread) (p : Process)
      → IsBlank p
      → Sharing.Owns holds Fits p t
      → IsBlank (move m t p).1
  unfolding move
  move-IsBlank go t p b own =
      step-IsBlank lib py t.phase (record { self = t.self; process = p }) b own
  move-IsBlank (call c) t p b own = b

  move-IsLocal :
      (m : Move) (t : Thread) (p : Process)
      → IsBlank p
      → HasSets t
      → Sharing.Owns holds Fits p t
      → IsLocal t p (move m t p).0 (move m t p).1
  unfolding move
  move-IsLocal go t p b d own =
      step-IsLocal lib py (record { self = t.self; process = p }) b t.phase d own
  move-IsLocal (call c) t p b d own =
      quiet-IsLocal lib py t _ p p own refl refl (λ k. ground arith) (λ k o fit. ground arith)

  pub move_at-IsLocalAt :
      (i : ℕ) (m : Move) (ts : List Thread) (p : Process)
      → IsBlank p
      → AllHaveSets ts
      → Sharing.IsSound holds Fits p ts
      → let w = move_at i m ts p in Sharing.IsLocalAt holds Fits ts p w.threads w.process
  unfolding move_at
  move_at-IsLocalAt i m [] p b d s = Sharing.nil_IsLocalAt holds Fits p
  move_at-IsLocalAt zero m (t ∷ ts) p b d s =
      Sharing.here_IsLocalAt holds Fits t _ ts p _ s (move-IsLocal m t p b d.0 s.0)
  move_at-IsLocalAt (suc i) m (t ∷ ts) p b d s =
      Sharing.there_IsLocalAt holds Fits t ts _ p _ s (move_at-IsLocalAt i m ts p b d.1 s.2)

  pub move_at-sets :
      (i : ℕ) (m : Move) (ts : List Thread) (p : Process)
      → AllHaveSets ts
      → AllHaveSets (move_at i m ts p).threads
  unfolding move_at
  move_at-sets i m [] p d = tt
  move_at-sets zero m (t ∷ ts) p d = (move-HasSets m t p d.0, d.1)
  move_at-sets (suc i) m (t ∷ ts) p d = (d.0, move_at-sets i m ts p d.1)

  pub move_at-IsBlank :
      (i : ℕ) (m : Move) (ts : List Thread) (p : Process)
      → IsBlank p
      → Sharing.IsSound holds Fits p ts
      → IsBlank (move_at i m ts p).process
  unfolding move_at
  move_at-IsBlank i m [] p b s = b
  move_at-IsBlank zero m (t ∷ ts) p b s = move-IsBlank m t p b s.0
  move_at-IsBlank (suc i) m (t ∷ ts) p b s = move_at-IsBlank i m ts p b s.2
