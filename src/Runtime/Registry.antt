-- ===== src/Runtime/Registry.antt =====
-- The dict of callbacks that all `Runtime` objects of a process share: an object owns the callbacks that
-- it registered, and no other object's `close` drops them.
pub mod Local
use par.Prelude.{
  ℕ, Bool, Option, ◌≡◌, refl, true, ◌||◌, none, some, List, [], ◌∷◌, arith, eqb, elem, is_some,
  if◌then◌else◌,
}
use par.Ffi.Calls.{Callback}
use par.Ffi.Process.{Process}
use par.Runtime.Base.{Runtime}
use par.Runtime.Object.{Callbacks, callback_at, store, pop, pop_all, add}
use par.Runtime.Sharing

pub callback_at-store :
    (k j : ℕ) (c : Callback) (cs : Callbacks)
    → callback_at j (store k c cs) ≡ (if eqb k j then some c else callback_at j cs)
unfolding callback_at store
callback_at-store k j c [] = refl
callback_at-store k j c ((i, d) ∷ cs) = ground (arith, callback_at-store k j c cs)

pub callback_at-pop :
    (k j : ℕ) (cs : Callbacks)
    → callback_at j (pop k cs) ≡ (if eqb k j then none else callback_at j cs)
unfolding callback_at pop
callback_at-pop k j [] = ground arith
callback_at-pop k j ((i, d) ∷ cs) = ground (arith, callback_at-pop k j cs)

pub callback_at-pop_all :
    (ks : List ℕ) (j : ℕ) (cs : Callbacks)
    → callback_at j (pop_all ks cs) ≡ (if elem j ks then none else callback_at j cs)
unfolding pop_all
callback_at-pop_all [] j cs = refl
callback_at-pop_all (k ∷ ks) j cs =
    ground (arith, callback_at-pop_all ks j (pop k cs), callback_at-pop k j cs)

pub elem-add : (j k : ℕ) (ids : List ℕ) → elem j (add k ids) ≡ (eqb j k || elem j ids)
elem-add j k ids = ground arith

-- The id is one of the object's.
abbrev pub has_id : ℕ → Runtime → Bool
has_id k r = elem k r.callback_ids

-- Python keeps the callable alive while the library may call it.
abbrev pub IsThere : ℕ → Runtime → Option Callback → Type 0
IsThere k r o = is_some o ≡ true

abbrev pub Owns : Process → Runtime → Type 0
Owns p r = Sharing.Owns has_id IsThere p r

abbrev pub IsLocal : Runtime → Process → Runtime → Process → Type 0
IsLocal r p r' p' = Sharing.IsLocal has_id IsThere r p r' p'
