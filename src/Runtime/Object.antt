-- ===== src/Runtime/Object.antt =====
-- Methods that change the `Runtime` object itself, as well as the process: a method call gives back
-- the object also when it raises.
use par.Prelude.{ℕ, suc, Option, none, some, List, [], ◌∷◌, elem, eqb, if◌then◌else◌}
use par.Python.Errors.{Result, ok, raised}
use par.Ffi.Calls.{Callback}
use par.Ffi.Process.{Process, Action}
use par.Runtime.Base.{Runtime}

pub record State : Type 0 where
  pub self : Runtime
  pub process : Process

abbrev pub Method : Type 0 → Type 0
Method A = State → Result A × State

module _ {A : Type 0} where
  -- A call that does not touch the object.
  abbrev pub on_process : (Runtime → Action A) → Method A
  on_process m s = ((m s.self s.process).0, record s { process = (m s.self s.process).1 })

  abbrev pub return : Result A → Method A
  return r s = (r, s)

module _ {A B : Type 0} where
  abbrev pub continue : (A → Method B) → Result A → Method B
  continue f (ok a) s = f a s
  continue f (raised e) s = (raised e, s)

  infixl 5 ◌>>=◌ ◌>>◌
  abbrev pub ◌>>=◌ : Method A → (A → Method B) → Method B
  ◌>>=◌ m f s = continue f (m s).0 (m s).1

  abbrev pub ◌>>◌ : Method A → Method B → Method B
  m >> k = m >>= λ _. k

-- The dict `Runtime._callbacks`.
abbrev pub Callbacks : Type 0
Callbacks = List (ℕ × Callback)

unfoldable pub callback_at : ℕ → Callbacks → Option Callback
callback_at k [] = none
callback_at k ((j, c) ∷ cs) = if eqb j k then some c else callback_at k cs

-- `_callbacks[k] = c`
unfoldable pub store : ℕ → Callback → Callbacks → Callbacks
store k c [] = (k, c) ∷ []
store k c ((j, d) ∷ cs) = if eqb j k then (j, c) ∷ cs else (j, d) ∷ store k c cs

-- `_callbacks.pop(k, None)`
unfoldable pub pop : ℕ → Callbacks → Callbacks
pop k [] = []
pop k ((j, d) ∷ cs) = let rest = pop k cs in if eqb j k then rest else (j, d) ∷ rest

-- `for k in ids: _callbacks.pop(k, None)`
unfoldable pub pop_all : List ℕ → Callbacks → Callbacks
unfolding pop
pop_all [] cs = cs
pop_all (k ∷ ks) cs = pop_all ks (pop k cs)

-- `ids.add(k)`
abbrev pub add : ℕ → List ℕ → List ℕ
add k ids = if elem k ids then ids else k ∷ ids

-- `next(Runtime._callback_counter)`
abbrev pub next_id : Method ℕ
next_id s = (
  ok s.process.counter,
  record s { process = record s.process { counter = suc s.process.counter } },
)

abbrev pub set_callback : ℕ → Callback → Method Unit
unfolding store
set_callback k c s =
    (ok tt, record s { process = record s.process { callbacks = store k c s.process.callbacks } })

abbrev pub drop_callback : ℕ → Method Unit
unfolding pop
drop_callback k s =
    (ok tt, record s { process = record s.process { callbacks = pop k s.process.callbacks } })

abbrev pub own_id : ℕ → Method Unit
own_id k s = (ok tt, record s { self = record s.self { callback_ids = add k s.self.callback_ids } })
