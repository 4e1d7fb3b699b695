-- ===== src/Runtime/Threads/Safe.antt =====
-- What no order of the threads' steps can spoil.
use mathlib.Core.Option as Option
use par.Prelude.{ℕ, zero, suc, Bool, Option, none, some, List, [], ◌∷◌, eqb, if◌then◌else◌}
use par.Python.Interpreter.{Interpreter}
use par.Ffi.Calls.{Library, Callback, tool_callback, approval_callback}
use par.Runtime.Base.{Runtime}
use par.Runtime.Sharing
use par.Runtime.Threads.{
  Phase, tool_stored, tool_handed, tool_answered, approval_stored, approval_handed,
}
use par.Runtime.Threads.Owning.{Thread, holds, Fits}
use par.Runtime.Threads.Interleave.{
  System, Move, IsSafe, move_at, interleave, move_at-IsLocalAt, move_at-sets, move_at-IsBlank,
}

-- Some thread holds the id.
abbrev pub held : ℕ → List Thread → Bool
held k ts = Sharing.owned holds Fits k ts

-- The callback that thread number `i` has stored under the id `k`, and is registering.
abbrev pub registering : Phase → ℕ → Option Callback
registering (tool_stored t j) k = if eqb j k then some (tool_callback t.handler) else none
registering (tool_handed t j) k = if eqb j k then some (tool_callback t.handler) else none
registering (tool_answered t j rc) k = if eqb j k then some (tool_callback t.handler) else none
registering (approval_stored f j) k = if eqb j k then some (approval_callback f) else none
registering (approval_handed f j) k = if eqb j k then some (approval_callback f) else none
registering g k = none

abbrev pub registering_at : ℕ → List Thread → ℕ → Option Callback
registering_at i [] k = none
registering_at zero (t ∷ ts) k = registering t.phase k
registering_at (suc i) (t ∷ ts) k = registering_at i ts k

module _ (lib : Library) (py : Interpreter) where
  move_at-IsSafe :
      (i : ℕ) (m : Move) (w : System)
      → IsSafe lib py w
      → IsSafe lib py (move_at lib py i m w.threads w.process)
  move_at-IsSafe i m w s = record {
    sound = (move_at-IsLocalAt lib py i m w.threads w.process s.blank s.sets s.sound).sound;
    sets = move_at-sets lib py i m w.threads w.process s.sets;
    blank = move_at-IsBlank lib py i m w.threads w.process s.blank s.sound;
  }

  -- From a safe state, whatever the order in which the threads take their steps and whatever the
  -- library answers, the state is safe: no two threads hold the same id; under an id that a thread
  -- is registering stands its own callable once it is stored, and nothing before; under an id that
  -- its object owns stands a callable until the object is closed; no object's set holds an id
  -- twice; nothing stands under an id that was not handed out.
  pub interleave-IsSafe :
      (ms : List (ℕ × Move)) (w : System) → IsSafe lib py w → IsSafe lib py (interleave lib py ms w)
  unfolding interleave
  interleave-IsSafe [] w s = s
  interleave-IsSafe ((i, m) ∷ ms) w s =
      interleave-IsSafe ms (move_at lib py i m w.threads w.process) (move_at-IsSafe i m w s)
