-- ===== src/Runtime/Sharing.antt =====
-- Who owns which entry of the dict of callbacks that all `Runtime` objects of a process share. The owners
-- stand in a list; an owner may be an object, or a thread in the middle of a method.
use par.Prelude.{
  ℕ, ◌≤◌, ◌<◌, ◌≡◌, refl, sym, subst, Bool, true, false, ◌||◌, Option, List, [], ◌∷◌, is_some,
  arith, Bool-cases, inl, inr,
}
use par.Ffi.Calls.{Callback}
use par.Ffi.Process.{Process}
use par.Runtime.Object.{callback_at}

-- `Fits k x o`: `o` is what should stand in the dict under the id `k` that `x` holds.
module _ {X : Type 0} (holds : ℕ → X → Bool) (Fits : ℕ → X → Option Callback → Type 0) where
  -- Every id of the owner stands in the dict, so Python keeps the callable alive while the library may
  -- call it; and it was handed out by the counter.
  abbrev pub Owns : Process → X → Type 0
  Owns p r = (k : ℕ) → holds k r ≡ true → Fits k r (callback_at k p.callbacks) × (k < p.counter)

  -- What an operation on one object may do to the others: it drops no callback but its own and replaces
  -- none, hands out only new ids, and leaves its own object sound.
  pub record IsLocal (r : X) (p : Process) (r' : X) (p' : Process) : Type 0 where
    pub owns : Owns p' r'
    pub others :
        (k : ℕ)
        → holds k r ≡ false
        → k < p.counter
        → callback_at k p'.callbacks ≡ callback_at k p.callbacks
    pub kept :
        (k : ℕ)
        → holds k r ≡ true
        → holds k r' ≡ true
        → is_some (callback_at k p.callbacks) ≡ true
        → callback_at k p'.callbacks ≡ callback_at k p.callbacks
    pub fresh : (k : ℕ) → holds k r' ≡ true → holds k r ≡ false → p.counter ≤ k
    pub counts : p.counter ≤ p'.counter

  -- Some object of the list owns the id.
  abbrev pub owned : ℕ → List X → Bool
  owned k [] = false
  owned k (r ∷ rs) = holds k r || owned k rs

  -- Each object owns its callbacks, and no id belongs to two objects.
  abbrev pub IsSound : Process → List X → Type 0
  IsSound p [] = Unit
  IsSound p (r ∷ rs) = Owns p r × ((k : ℕ) → holds k r ≡ true → owned k rs ≡ false) × IsSound p rs

  -- `IsLocal`, for an operation on some object of a list.
  pub record IsLocalAt (rs : List X) (p : Process) (rs' : List X) (p' : Process) : Type 0 where
    pub sound : IsSound p' rs'
    pub others :
        (k : ℕ)
        → owned k rs ≡ false
        → k < p.counter
        → callback_at k p'.callbacks ≡ callback_at k p.callbacks
    pub kept :
        (k : ℕ)
        → owned k rs ≡ true
        → owned k rs' ≡ true
        → is_some (callback_at k p.callbacks) ≡ true
        → callback_at k p'.callbacks ≡ callback_at k p.callbacks
    pub fresh : (k : ℕ) → owned k rs' ≡ true → owned k rs ≡ false → p.counter ≤ k
    pub counts : p.counter ≤ p'.counter

  pub owned_below :
      (k : ℕ) (rs : List X) (p : Process) → IsSound p rs → owned k rs ≡ true → k < p.counter
  owned_below k [] p s h = cc
  owned_below k (r ∷ rs) p s h = elim (Bool-cases (holds k r)) [
    | inl e ↦ (s.0 k e).1
    | inr e ↦ owned_below k rs p s.2 (ground arith)
  ]

  Owns-frame :
      (r : X) (p p' : Process)
      → Owns p r
      → ((k : ℕ) → holds k r ≡ true → callback_at k p'.callbacks ≡ callback_at k p.callbacks)
      → p.counter ≤ p'.counter
      → Owns p' r
  Owns-frame r p p' own same le k h =
      (subst (λ o. Fits k r o) (sym (same k h)) (own k h).0, omega (arith, (own k h).1, le))

  -- What leaves the callbacks of a list alone keeps the list sound.
  pub IsSound-frame :
      (rs : List X) (p p' : Process)
      → IsSound p rs
      → ((k : ℕ) → owned k rs ≡ true → callback_at k p'.callbacks ≡ callback_at k p.callbacks)
      → p.counter ≤ p'.counter
      → IsSound p' rs
  IsSound-frame [] p p' s same le = tt
  IsSound-frame (r ∷ rs) p p' s same le = (
    Owns-frame r p p' s.0 (λ k h. same k (ground arith)) le,
    s.1,
    IsSound-frame rs p p' s.2 (λ k h. same k (ground arith)) le,
  )

  pub nil_IsLocalAt : (p : Process) → IsLocalAt [] p [] p
  nil_IsLocalAt p = record {
    sound = tt;
    others = λ k h b. refl;
    kept = λ k h b e. refl;
    fresh = λ k h n. cc;
    counts = omega arith;
  }

  -- The first owner of a list.
  pub here_IsLocalAt :
      (r r' : X) (rs : List X) (p p' : Process)
      → IsSound p (r ∷ rs)
      → IsLocal r p r' p'
      → IsLocalAt (r ∷ rs) p (r' ∷ rs) p'
  here_IsLocalAt r r' rs p p' s local =
      let below = λ (k : ℕ). owned_below k rs p s.2 in
      record {
        sound = (
          local.owns,
          (λ k h. ground (arith, s.1 k, local.fresh k, below k)),
          IsSound-frame rs p p' s.2 (λ k h. ground (arith, s.1 k, local.others k, below k))
              local.counts,
        );
        others = λ k h b. ground (arith, local.others k);
        kept = λ k h b e. ground (
          arith,
          local.others k,
          local.kept k,
          s.1 k,
          local.fresh k,
          below k,
          Bool-cases (holds k r),
        );
        fresh = λ k h n. ground (arith, local.fresh k);
        counts = local.counts;
      }

  -- An owner behind the first.
  pub there_IsLocalAt :
      (r : X) (rs rs' : List X) (p p' : Process)
      → IsSound p (r ∷ rs)
      → IsLocalAt rs p rs' p'
      → IsLocalAt (r ∷ rs) p (r ∷ rs') p'
  there_IsLocalAt r rs rs' p p' s local =
      let below = λ (k : ℕ) (h : holds k r ≡ true). (s.0 k h).1 in
      let same = λ (k : ℕ) (h : holds k r ≡ true). local.others k (s.1 k h) (below k h) in
      record {
        sound = (
          Owns-frame r p p' s.0 same local.counts,
          (λ k h. ground (arith, below k, s.1 k, local.fresh k, Bool-cases (owned k rs'))),
          local.sound,
        );
        others = λ k h b. ground (arith, local.others k);
        kept = λ k h b e. ground (
          arith,
          same k,
          below k,
          local.kept k,
          s.1 k,
          Bool-cases (owned k rs),
          Bool-cases (owned k rs'),
          local.fresh k,
          Bool-cases (holds k r),
        );
        fresh = λ k h n. ground (arith, local.fresh k);
        counts = local.counts;
      }
