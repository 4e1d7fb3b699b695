-- ===== src/Runtime/Threads/Owning.antt =====
-- Which ids a thread holds in the middle of a method, and what should stand in the dict under them.
use par.Prelude.{
  ℕ, ◌≤◌, ◌≡◌, Bool, true, false, not, ◌&&◌, ◌||◌, Option, none, some, List, [], ◌∷◌, eqb, elem,
  is_some,
}
use par.Ffi.Calls.{Callback, tool_callback, approval_callback}
use par.Ffi.Process.{Process}
use par.Runtime.Base.{Runtime}
use par.Runtime.Object.{State, callback_at}
use par.Runtime.Sharing
use par.Runtime.Threads.{
  Phase, tool_numbered, tool_stored, tool_handed, tool_answered, approval_numbered, approval_stored,
  approval_handed, close_popping,
}

pub record Thread : Type 0 where
  pub self : Runtime
  pub phase : Phase

-- The id that the thread has taken for its registration and that its object does not own yet.
abbrev pub takes : ℕ → Phase → Bool
takes k (tool_numbered t j) = eqb k j
takes k (tool_stored t j) = eqb k j
takes k (tool_handed t j) = eqb k j
takes k (tool_answered t j rc) = eqb k j
takes k (approval_numbered f j) = eqb k j
takes k (approval_stored f j) = eqb k j
takes k (approval_handed f j) = eqb k j
takes k g = false

-- What the dict should hold under the id that the thread has taken.
abbrev pub Taken : Phase → Option Callback → Type 0
Taken (tool_numbered t j) o = o ≡ none
Taken (tool_stored t j) o = o ≡ some (tool_callback t.handler)
Taken (tool_handed t j) o = o ≡ some (tool_callback t.handler)
Taken (tool_answered t j rc) o = o ≡ some (tool_callback t.handler)
Taken (approval_numbered f j) o = o ≡ none
Taken (approval_stored f j) o = o ≡ some (approval_callback f)
Taken (approval_handed f j) o = o ≡ some (approval_callback f)
Taken g o = Unit

-- While the object is being closed, it still owns the callbacks that are left to drop.
abbrev pub ids_of : Runtime → Phase → List ℕ
ids_of r (close_popping ks) = ks
ids_of r g = r.callback_ids

abbrev pub holds : ℕ → Thread → Bool
holds k t = takes k t.phase || elem k (ids_of t.self t.phase)

-- An id that the thread has taken is no id of its object, and leads to the callable that is being
-- registered once it is stored, and to nothing before; an id of the object leads to some callable.
abbrev pub Fits : ℕ → Thread → Option Callback → Type 0
Fits k t o =
    (takes k t.phase ≡ true → Taken t.phase o × (elem k (ids_of t.self t.phase) ≡ false))
    × (takes k t.phase ≡ false → is_some o ≡ true)

abbrev pub distinct : List ℕ → Bool
distinct [] = true
distinct (k ∷ ks) = not (elem k ks) && distinct ks

-- A set holds an id once.
abbrev pub HasSets : Thread → Type 0
HasSets t = (distinct t.self.callback_ids ≡ true) × (distinct (ids_of t.self t.phase) ≡ true)

abbrev pub thread_of : Phase × State → Thread
thread_of r = record { self = r.1.self; phase = r.0 }

abbrev pub IsLocal : Thread → Process → Thread → Process → Type 0
IsLocal t p t' p' = Sharing.IsLocal holds Fits t p t' p'

-- No callback stands under an id that was not handed out.
abbrev pub IsBlank : Process → Type 0
IsBlank p = (k : ℕ) → p.counter ≤ k → callback_at k p.callbacks ≡ none
