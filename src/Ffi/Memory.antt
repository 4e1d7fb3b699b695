-- ===== src/Ffi/Memory.antt =====
-- Who owns the strings that the library returns (`_py_str` and its callers): an action is tidy if it
-- frees exactly what it was given, whether it returns or raises.
use par.Prelude.{
  ◌≡◌, refl, ◌∙◌, String, Bool, true, false, Option, none, some, ◌∷◌, arith, if◌then◌else◌,
}
use par.Python.Errors.{Error, Result, ok, raised}
use par.Ffi.Calls.{Bytes, Library, StatusCall, TextCall, EffectCall, HandleCall, text}
use par.Ffi.Process.{
  Process, Action, ◌>>=◌, pure, raise, lift, continue, call_status, call_text, call_handle,
  call_effect,
}
use par.Ffi.Strings.{py_str, decode, fetch}

-- The blocks after `m` are those before it, and no pointer was freed or read out of turn. Nor does `m`
-- touch the callbacks.
pub record IsTidy {A : Type 0} (m : Action A) : Type 0 where
  pub blocks : (p : Process) → (m p).1.blocks ≡ p.blocks
  pub faults : (p : Process) → (m p).1.faults ≡ p.faults
  pub callbacks : (p : Process) → (m p).1.callbacks ≡ p.callbacks
  pub counter : (p : Process) → (m p).1.counter ≡ p.counter

module _ {A : Type 0} where
  pub IsTidy-lift : (r : Result A) → IsTidy (lift r)
  unfolding lift
  IsTidy-lift r = record {
    blocks = λ p. refl;
    faults = λ p. refl;
    callbacks = λ p. refl;
    counter = λ p. refl;
  }

  pub IsTidy-pure : (a : A) → IsTidy (pure a)
  unfolding pure
  IsTidy-pure a = record {
    blocks = λ p. refl;
    faults = λ p. refl;
    callbacks = λ p. refl;
    counter = λ p. refl;
  }

  pub IsTidy-raise : (e : Error) → IsTidy (raise {A = A} e)
  unfolding raise
  IsTidy-raise e = record {
    blocks = λ p. refl;
    faults = λ p. refl;
    callbacks = λ p. refl;
    counter = λ p. refl;
  }

  pub IsTidy-if : (b : Bool) (m n : Action A) → IsTidy m → IsTidy n → IsTidy (if b then m else n)
  IsTidy-if true m n tm tn = tm
  IsTidy-if false m n tm tn = tn

module _ {A B : Type 0} where
  IsTidy-continue :
      (f : A → Action B) (r : Result A) → ((a : A) → IsTidy (f a)) → IsTidy (continue f r)
  IsTidy-continue f (ok a) tf = tf a
  IsTidy-continue f (raised e) tf = record {
    blocks = λ p. refl;
    faults = λ p. refl;
    callbacks = λ p. refl;
    counter = λ p. refl;
  }

  pub IsTidy-bind :
      (m : Action A) (f : A → Action B) → IsTidy m → ((a : A) → IsTidy (f a)) → IsTidy (m >>= f)
  unfolding ◌>>=◌
  IsTidy-bind m f tm tf = record {
    blocks = λ p. (IsTidy-continue f (m p).0 tf).blocks (m p).1 ∙ tm.blocks p;
    faults = λ p. (IsTidy-continue f (m p).0 tf).faults (m p).1 ∙ tm.faults p;
    callbacks = λ p. (IsTidy-continue f (m p).0 tf).callbacks (m p).1 ∙ tm.callbacks p;
    counter = λ p. (IsTidy-continue f (m p).0 tf).counter (m p).1 ∙ tm.counter p;
  }

module _ (lib : Library) where
  pub call_status-IsTidy : (c : StatusCall) → IsTidy (call_status lib c)
  unfolding call_status
  call_status-IsTidy c = record {
    blocks = λ p. refl;
    faults = λ p. refl;
    callbacks = λ p. refl;
    counter = λ p. refl;
  }

  pub call_handle-IsTidy : (c : HandleCall) → IsTidy (call_handle lib c)
  unfolding call_handle
  call_handle-IsTidy c = record {
    blocks = λ p. refl;
    faults = λ p. refl;
    callbacks = λ p. refl;
    counter = λ p. refl;
  }

  pub call_effect-IsTidy : (c : EffectCall) → IsTidy (call_effect lib c)
  unfolding call_effect
  call_effect-IsTidy c = record {
    blocks = λ p. refl;
    faults = λ p. refl;
    callbacks = λ p. refl;
    counter = λ p. refl;
  }

  -- What `_py_str` makes of the answer: the empty text for NULL.
  abbrev pub fetched : Option Bytes → Result String
  fetched none = ok ""
  fetched (some b) = decode b

  -- Reading a string that the library returned gives its text, or raises if the bytes are not UTF-8;
  -- either way it leaves no block behind, and records the one call.
  pub fetch_lem :
      (c : TextCall) (p : Process)
      → ((fetch lib c p).0 ≡ fetched (lib.text_reply p.history c))
        × ((fetch lib c p).1.blocks ≡ p.blocks)
        × ((fetch lib c p).1.faults ≡ p.faults)
        × ((fetch lib c p).1.history ≡ text c ∷ p.history)
  unfolding fetch py_str call_text
  fetch_lem c p = ground arith

  pub fetch-IsTidy : (c : TextCall) → IsTidy (fetch lib c)
  unfolding fetch py_str call_text
  fetch-IsTidy c = record {
    blocks = λ p. (fetch_lem c p).1;
    faults = λ p. (fetch_lem c p).2;
    callbacks = λ p. ground arith;
    counter = λ p. ground arith;
  }

-- The string of a call that is read and freed in a `finally`, NULL apart.
pub ruleset tidy_rules = (
  IsTidy-lift, IsTidy-pure, IsTidy-raise, IsTidy-if, IsTidy-bind, call_status-IsTidy,
  call_handle-IsTidy, call_effect-IsTidy, fetch-IsTidy,
)
