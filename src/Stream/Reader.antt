-- ===== src/Stream/Reader.antt =====
-- The iterator `_StreamReader` of bindings/python/par_runtime/runtime.py. Its generator is a state
-- machine: not started, suspended at the `yield`, or finished. The loops that poll take fuel: `starved`
-- means that it ran out, which a stream that never answers makes happen at any amount.
pub mod Loop
pub mod Memory
pub mod Lifetime
pub mod Uses
pub mod Closing
pub mod Progress
use par.Prelude.{
  ℕ, zero, suc, String, ◌<>◌, Bool, true, false, ◌||◌, Option, none, some, eqb, if◌then◌else◌, ◌==◌,
}
use par.Python.Json.{Json, str, obj, get, get_or}
use par.Python.Text.{str_of, type_name}
use par.Python.Errors.{Error, Result, ok, raised, fails, invoke_error, attribute_error, ◌▹◌}
use par.Python.Interpreter.{Interpreter, loads_or_raise}
use par.Ffi.Calls.{
  Library, par_stream_start, par_stream_take_final, par_stream_cancel, par_stream_free,
}
use par.Ffi.Process.{
  Process, Action, ◌>>=◌, ◌>>◌, pure, lift, call_handle, call_text, call_effect, call_poll,
}
use par.Ffi.Strings.{c_str, py_str}
use par.Stream.Event.{Event, decode_event}

pub data Generator : Type 0 where
  fresh suspended finished : Generator

pub record Reader : Type 0 where
  pub handle : Option ℕ
  pub cancel_called : Bool
  pub completed : Bool
  pub generator : Generator

-- How a call of `next` ends.
pub data Step : Type 0 where
  yielded : Event → Step
  stopped starved : Step
  failed : Error → Step

-- `_POLL_TIMEOUT_MS`
abbrev pub poll_timeout_ms : ℕ
poll_timeout_ms = 100

module _ (lib : Library) (py : Interpreter) where
  abbrev opened : ℕ → Result Reader
  opened h =
      if eqb h 0
      then fails invoke_error "par_stream_start returned NULL"
      else ok
          (record { handle = some h; cancel_called = false; completed = false; generator = fresh })

  -- `__init__`, with the handle of the runtime
  unfoldable pub start : ℕ → String → String → Action Reader
  start rt agent_id message = do
    h ← call_handle lib (par_stream_start rt (c_str agent_id) (c_str message))
    lift (opened h)

  abbrev cancel_handle : Option ℕ → Process → Process
  unfolding call_effect
  cancel_handle none p = p
  cancel_handle (some h) p = (call_effect lib (par_stream_cancel h) p).1

  abbrev no_handle : Option ℕ → Bool
  no_handle none = true
  no_handle (some h) = eqb h 0

  -- `cancel`
  unfoldable pub cancel : Reader → Process → Reader × Process
  unfolding call_effect
  cancel r p =
      if r.cancel_called || r.completed || no_handle r.handle
      then (r, p)
      else (record r { cancel_called = true }, cancel_handle r.handle p)

  -- The status of the final envelope: `True` if there is nothing to report.
  abbrev status_ok : Option Json → Bool
  status_ok (some (str s)) = s == "cancelled" || s == "ok"
  status_ok o = false

  abbrev pub final_status : Json → Result (Unit {0})
  unfolding str_of
  final_status (obj fs) =
      if status_ok (get "status" fs)
      then ok tt
      else fails invoke_error
          ("invoke_stream failed: " <> str_of (get_or "error" (str "stream failed") fs))
  final_status v = fails attribute_error ("'" <> type_name v <> "' object has no attribute 'get'")

  -- What follows the sentinel of `par_stream_poll`.
  unfoldable pub read_final : ℕ → Action (Unit {0})
  unfolding str_of
  read_final ptr =
      if eqb ptr 0
      then pure tt
      else (py_str ptr >>= λ raw. lift (loads_or_raise py raw ▹ final_status))

  unfoldable pub take_final : ℕ → Action (Unit {0})
  take_final h = call_text lib (par_stream_take_final h) >>= read_final

  -- `payload["chunk"] if isinstance(payload, dict) and "chunk" in payload else payload`
  abbrev pub chunk_of : Json → Json
  chunk_of (obj fs) = get_or "chunk" (obj fs) fs
  chunk_of v = v

  -- What follows the pointer of a chunk.
  unfoldable pub read_chunk : ℕ → Action Event
  read_chunk ptr =
      py_str ptr >>= λ raw. lift (loads_or_raise py raw ▹ λ v. decode_event (chunk_of v))

  abbrev pointer : Result ℕ → ℕ
  pointer (ok ptr) = ptr
  pointer (raised e) = 0

  -- The `while` of the `finally`: poll until the sentinel; `none` if the fuel runs out.
  unfoldable pub drain : ℕ → ℕ → Process → Option Process
  unfolding call_poll
  drain zero h p = none
  drain (suc fuel) h p =
      let (reply, p') = call_poll lib h 1000 p in
      let rest = drain fuel h p' in if eqb (pointer reply) 1 then some p' else rest

  abbrev drained : ℕ → ℕ → Bool → Process → Option Process
  unfolding drain call_effect
  drained fuel h true p = some p
  drained fuel h false p = drain fuel h (call_effect lib (par_stream_cancel h) p).1

  abbrev freed : ℕ → Reader → Option Process → Option (Reader × Process)
  unfolding call_effect
  freed h r none = none
  freed h r (some p) = some (record r { handle = none }, (call_effect lib (par_stream_free h) p).1)

  abbrev close_handle : ℕ → Reader → Process → Option ℕ → Option (Reader × Process)
  unfolding drain call_effect
  close_handle fuel r p none = some (r, p)
  close_handle fuel r p (some h) =
      if eqb h 0 then some (r, p) else freed h r (drained fuel h r.completed p)

  -- The `finally` block of the generator.
  unfoldable pub finally_block : ℕ → Reader → Process → Option (Reader × Process)
  unfolding drain call_effect
  finally_block fuel r p = close_handle fuel r p r.handle

  -- The end of the generator, by a return or an exception.
  abbrev ended : Step → Reader → Process → Option (Reader × Process) → Step × Reader × Process
  ended step r p none = (starved, r, p)
  ended step r p (some (r', p')) = (step, record r' { generator = finished }, p')

  unfoldable pub conclude : ℕ → Step → Reader → Process → Step × Reader × Process
  conclude fuel step r p = ended step r p (finally_block fuel r p)

  abbrev pub final_step : Result (Unit {0}) → Step
  final_step (ok _) = stopped
  final_step (raised e) = failed e

  -- The sentinel: the stream has completed.
  unfoldable pub on_done : ℕ → ℕ → Reader → Process → Step × Reader × Process
  on_done fuel h r p =
      conclude fuel (final_step (take_final h p).0) (record r { completed = true })
        (take_final h p).1

  abbrev chunk_step : ℕ → Reader → Process → Result Event → Step × Reader × Process
  chunk_step fuel r p (ok e) = (yielded e, record r { generator = suspended }, p)
  chunk_step fuel r p (raised e) = conclude fuel (failed e) r p

  unfoldable pub on_chunk : ℕ → ℕ → Reader → Process → Step × Reader × Process
  on_chunk fuel ptr r p = chunk_step fuel r (read_chunk ptr p).1 (read_chunk ptr p).0

  -- The `while True` of the generator; a timeout polls again.
  unfoldable pub loop : ℕ → ℕ → Reader → Process → Step × Reader × Process
  loop zero h r p = (starved, r, p)
  loop (suc fuel) h r p =
      let (reply, p') = call_poll lib h poll_timeout_ms p in
      let again = loop fuel h r p' in
      let ptr = pointer reply in
      if eqb ptr 1 then on_done fuel h r p' else if eqb ptr 0 then again else on_chunk fuel ptr r p'

  -- A generator that polls without a handle waits for ever.
  abbrev resume : ℕ → Reader → Process → Option ℕ → Step × Reader × Process
  resume fuel r p none = (starved, r, p)
  resume fuel r p (some h) = loop fuel h r p

  abbrev next_from : ℕ → Reader → Process → Generator → Step × Reader × Process
  next_from fuel r p finished = (stopped, r, p)
  next_from fuel r p g = resume fuel r p r.handle

  -- `__next__`
  unfoldable pub next : ℕ → Reader → Process → Step × Reader × Process
  next fuel r p = next_from fuel r p r.generator

  abbrev abandon_from : ℕ → Reader → Process → Generator → Step × Reader × Process
  abandon_from fuel r p fresh = (stopped, record r { generator = finished }, p)
  abandon_from fuel r p suspended = conclude fuel stopped r p
  abandon_from fuel r p finished = (stopped, r, p)

  -- The generator is closed, by its `close` or with the iterator's last reference: at the `yield` its
  -- `finally` runs; a generator that was never started has no `finally` to run.
  unfoldable pub abandon : ℕ → Reader → Process → Step × Reader × Process
  abandon fuel r p = abandon_from fuel r p r.generator
