-- ===== src/Stream/Reader/Uses.antt =====
-- The uses of an iterator, one after another: its handle is freed at most once, and never touched again.
use par.Prelude.{
  ℕ, suc, ◌≡◌, refl, ◌∙◌, false, Option, none, some, List, [], ◌∷◌, arith, eqb, subst, sym,
  Bool-cases, inl, inr, ◌||◌, ◌≤◌,
}
use par.Python.Interpreter.{Interpreter}
use par.Ffi.Calls.{Library}
use par.Ffi.Process.{Process, call_effect}
use par.Stream.Reader.{Reader, finished, next, abandon, cancel, cancel_handle, no_handle}
use par.Stream.Reader.Lifetime.{frees, Life, held, released, next_from-Life, abandon_from-Life}

-- What is done with an iterator: a call of `next`, of `cancel`, or the close of its generator.
pub data Use : Type 0 where
  advance stop close : Use

module _ (lib : Library) (py : Interpreter) where
  unfoldable pub after : ℕ → Use → Reader → Process → Reader × Process
  unfolding next cancel abandon
  after fuel advance r p = let s = next lib py fuel r p in (s.1, s.2)
  after fuel stop r p = cancel lib py r p
  after fuel close r p = let s = abandon lib py fuel r p in (s.1, s.2)

  unfoldable pub after_all : ℕ → List Use → Reader → Process → Reader × Process
  unfolding after
  after_all fuel [] r p = (r, p)
  after_all fuel (u ∷ us) r p = after_all fuel us (after fuel u r p).0 (after fuel u r p).1

  -- Once the handle is gone, nothing that is done with the iterator reaches the library.
  after-released :
      (fuel : ℕ) (u : Use) (r : Reader) (p : Process)
      → r.handle ≡ none
      → r.generator ≡ finished
      → after fuel u r p ≡ (r, p)
  unfolding after next abandon cancel
  after-released fuel advance r p e g = simp g refl
  after-released fuel stop r p e g = ground arith
  after-released fuel close r p e g = simp g refl

  cancel_handle-frees :
      (h : ℕ) (o : Option ℕ) (p : Process)
      → frees h (cancel_handle lib py o p).history ≡ frees h p.history
  unfolding call_effect frees cancel_handle
  cancel_handle-frees h none p = refl
  cancel_handle-frees h (some k) p = refl

  after-held :
      (fuel h n : ℕ) (u : Use) (r : Reader) (p : Process)
      → eqb h 0 ≡ false
      → r.handle ≡ some h
      → frees h p.history ≡ n
      → Life h n (after fuel u r p).0 (after fuel u r p).1
  unfolding after next abandon cancel call_effect frees
  after-held fuel h n advance r p nz e f = next_from-Life lib py fuel h n r p r.generator nz e f
  after-held fuel h n stop r p nz e f =
      elim (Bool-cases (r.cancel_called || r.completed || no_handle lib py r.handle)) [
        | inl t ↦ simp t (held e f)
        | inr u ↦ simp u (held e (cancel_handle-frees h r.handle p ∙ f))
      ]
  after-held fuel h n close r p nz e f = abandon_from-Life lib py fuel h n r p r.generator nz e f

  after-Life :
      (fuel h n : ℕ) (u : Use) (r : Reader) (p : Process)
      → eqb h 0 ≡ false
      → Life h n r p
      → Life h n (after fuel u r p).0 (after fuel u r p).1
  after-Life fuel h n u r p nz (held e f) = after-held fuel h n u r p nz e f
  after-Life fuel h n u r p nz (released e g f) =
      subst (λ s. Life h n s.0 s.1) (sym (after-released fuel u r p e g)) (released e g f)

  after_all-Life :
      (fuel h n : ℕ) (us : List Use) (r : Reader) (p : Process)
      → eqb h 0 ≡ false
      → Life h n r p
      → Life h n (after_all fuel us r p).0 (after_all fuel us r p).1
  unfolding after_all
  after_all-Life fuel h n [] r p nz l = l
  after_all-Life fuel h n (u ∷ us) r p nz l =
      after_all-Life fuel h n us _ _ nz (after-Life fuel h n u r p nz l)

  Life-frees : (h n : ℕ) (r : Reader) (p : Process) → Life h n r p → frees h p.history ≤ suc n
  Life-frees h n r p (held e f) = omega arith
  Life-frees h n r p (released e g f) = omega arith

  -- However an iterator that holds a handle is used, by calls of `next`, `cancel` and closes of
  -- its generator in any order, that handle is freed at most once.
  pub after_all-frees :
      (fuel h : ℕ) (us : List Use) (r : Reader) (p : Process)
      → eqb h 0 ≡ false
      → r.handle ≡ some h
      → frees h (after_all fuel us r p).1.history ≤ suc (frees h p.history)
  after_all-frees fuel h us r p nz e =
      Life-frees h (frees h p.history) _ _
        (after_all-Life fuel h (frees h p.history) us r p nz (held e refl))

  after_all-released :
      (fuel : ℕ) (us : List Use) (r : Reader) (p : Process)
      → r.handle ≡ none
      → r.generator ≡ finished
      → after_all fuel us r p ≡ (r, p)
  unfolding after_all
  after_all-released fuel [] r p e g = refl
  after_all-released fuel (u ∷ us) r p e g =
      rw (after-released fuel u r p e g) (after_all-released fuel us r p e g)

  -- Uses of an iterator whose handle was freed once leave the iterator and the process as they are.
  Life-frozen :
      (fuel h n : ℕ) (vs : List Use) (r : Reader) (p : Process)
      → Life h n r p
      → frees h p.history ≡ suc n
      → after_all fuel vs r p ≡ (r, p)
  Life-frozen fuel h n vs r p (held e f) s = ground arith
  Life-frozen fuel h n vs r p (released e g f) s = after_all-released fuel vs r p e g

  -- An iterator that has freed its handle, by whatever uses, never reaches the library again: all
  -- further uses leave it and the process as they are.
  pub after_all-frozen :
      (fuel h : ℕ) (us vs : List Use) (r : Reader) (p : Process)
      → eqb h 0 ≡ false
      → r.handle ≡ some h
      → frees h (after_all fuel us r p).1.history ≡ suc (frees h p.history)
      → after_all fuel vs (after_all fuel us r p).0 (after_all fuel us r p).1
        ≡ after_all fuel us r p
  after_all-frozen fuel h us vs r p nz e s =
      Life-frozen fuel h (frees h p.history) vs _ _
        (after_all-Life fuel h (frees h p.history) us r p nz (held e refl)) s
