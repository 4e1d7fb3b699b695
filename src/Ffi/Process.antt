-- ===== src/Ffi/Process.antt =====
-- The state that Python code shares with the library in one process, and the actions on it.
use par.Prelude.{ℕ, suc, Option, none, some, List, ◌∷◌}
use par.Python.Int.{ℤ}
use par.Python.Errors.{Error, Result, ok, raised}
use par.Ffi.Calls.{
  StatusCall, TextCall, HandleCall, EffectCall, Call, Callback, Bytes, PollReply, Library, status,
  text, handle, effect, poll, idle, done, chunk,
}

-- `blocks` are the strings that the library has allocated and nobody has freed; `faults` counts
-- frees and reads of a pointer that is not among them. `callbacks` and `counter` are the class
-- attributes `Runtime._callbacks` and `Runtime._callback_counter`; `warnings` counts warnings issued.
pub record Process : Type 0 where
  pub history : List Call
  pub blocks : List (ℕ × Bytes)
  pub next_block : ℕ
  pub faults : ℕ
  pub callbacks : List (ℕ × Callback)
  pub counter : ℕ
  pub warnings : ℕ

-- An action leaves its writes behind also when it raises.
abbrev pub Action : Type 0 → Type 0
Action A = Process → Result A × Process

module _ {A : Type 0} where
  unfoldable pub pure : A → Action A
  pure a p = (ok a, p)

  unfoldable pub raise : Error → Action A
  raise e p = (raised e, p)

  unfoldable pub lift : Result A → Action A
  lift r p = (r, p)

module _ {A B : Type 0} where
  abbrev pub continue : (A → Action B) → Result A → Action B
  continue f (ok a) p = f a p
  continue f (raised e) p = (raised e, p)

  infixl 5 ◌>>=◌ ◌>>◌
  -- Opening this opens `pure`, `raise` and `lift` too.
  unfoldable pub ◌>>=◌ : Action A → (A → Action B) → Action B
  unfolding pure raise lift
  ◌>>=◌ m f p = continue f (m p).0 (m p).1

  abbrev pub ◌>>◌ : Action A → Action B → Action B
  m >> k = m >>= λ _. k

-- The pointer of the next allocation: never NULL, and never the sentinel 1 of `par_stream_poll`.
abbrev pub fresh : Process → ℕ
fresh p = suc (suc p.next_block)

abbrev pub note : Call → Process → Process
note c p = record p { history = c ∷ p.history }

abbrev pub allocate : Bytes → Process → Process
allocate b p = record p { blocks = (fresh p, b) ∷ p.blocks; next_block = suc p.next_block }

module _ (lib : Library) where
  -- An `int` result.
  unfoldable pub call_status : StatusCall → Action ℤ
  call_status c p = (ok (lib.status_reply p.history c), note (status c) p)

  unfoldable pub call_handle : HandleCall → Action ℕ
  call_handle c p = (ok (lib.handle_reply p.history c), note (handle c) p)

  unfoldable pub call_effect : EffectCall → Action Unit
  call_effect c p = (ok tt, note (effect c) p)

  abbrev returns : Option Bytes → Process → Result ℕ × Process
  returns none p = (ok 0, p)
  returns (some b) p = (ok (fresh p), allocate b p)

  -- A `char*` result: 0, or the pointer of a new block.
  unfoldable pub call_text : TextCall → Action ℕ
  call_text c p = returns (lib.text_reply p.history c) (note (text c) p)

  abbrev polled : PollReply → Process → Result ℕ × Process
  polled idle p = (ok 0, p)
  polled done p = (ok 1, p)
  polled (chunk b) p = (ok (fresh p), allocate b p)

  unfoldable pub call_poll : ℕ → ℕ → Action ℕ
  call_poll h timeout_ms p =
      polled (lib.poll_reply p.history h timeout_ms) (note (poll h timeout_ms) p)
