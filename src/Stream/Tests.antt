-- ===== src/Stream/Tests.antt =====
-- A run of `_StreamReader`: one timeout, one chunk, and the end.
use par.Prelude.{ℕ, ◌≡◌, ◌≤◌, ◌+◌, refl, suc, false, none, some, List, [], ◌∷◌, length}
use par.Fixtures.{demo_lib, demo_py, quiet, greeting}
use par.Python.Json.{str, obj, field, end}
use par.Python.Errors.{ok}
use par.Ffi.Calls.{Library, Call, PollReply, utf8, poll, chunk}
use par.Ffi.Process.{Process, ◌>>=◌, call_text, call_poll, call_effect}
use par.Ffi.Strings.{py_str, free, value_at}
use par.Stream.Event.{Event, decode_event}
use par.Stream.Encoding.{as_pair, as_dict, lowered, decode_event-encoded}
use par.Stream.Reader.{
  Reader, yielded, chunk_of, stopped, suspended, finished, fresh, next, abandon, drain, conclude,
  loop, on_done, on_chunk, finally_block, take_final, read_final, read_chunk, cancel,
}
use par.Stream.Reader.Memory.{abandon-blocks}
use par.Stream.Reader.Progress.{next-yields}
use par.Stream.Reader.Closing.{abandon-frees}
use par.Stream.Reader.Uses.{
  Use, advance, stop, close, after, after_all, after_all-frees, after_all-frozen,
}
use par.Stream.Reader.Lifetime.{frees}

decode_event-encoded_example :
    (decode_event (as_pair (Event.done "STOP")) ≡ ok (lowered (Event.done "STOP")))
    × (decode_event (as_dict "tag" (Event.done "STOP")) ≡ ok (lowered (Event.done "STOP")))
    × (decode_event (as_dict "constructor" (Event.done "STOP")) ≡ ok (lowered (Event.done "STOP")))
decode_event-encoded_example = decode_event-encoded (Event.done "STOP")

abbrev started : Reader
started = record { handle = some 9; cancel_called = false; completed = false; generator = fresh }

abbrev paused : Reader
paused = record started { generator = suspended }

hello : Event
hello = Event.text_delta (str "Hi")

greeting_decoded :
    decode_event (chunk_of demo_lib demo_py (obj (field "chunk" greeting end)))
    ≡ ok (Event.text_delta (str "Hi"))
unfolding decode_event
greeting_decoded = refl

-- The library times out once, then sends the chunk.
next-yields_example :
    ((next demo_lib demo_py (1 + suc 3) started quiet).0 ≡ yielded (Event.text_delta (str "Hi")))
    × ((next demo_lib demo_py (1 + suc 3) started quiet).1 ≡ paused)
next-yields_example =
    next-yields demo_lib demo_py 1 3 9 started quiet "GREETING" (obj (field "chunk" greeting end))
      (Event.text_delta (str "Hi")) refl refl (refl, tt) refl refl greeting_decoded

abbrev twice_polled : Process
twice_polled = record quiet { history = poll 9 100 ∷ poll 9 100 ∷ [] }

-- One poll was made; the `finally` gets a chunk, then the end.
abbrev busy_poll : List Call → ℕ → ℕ → PollReply
busy_poll (poll a b ∷ poll c d ∷ h) s t = PollReply.done
busy_poll h s t = chunk (utf8 "GREETING")

abbrev busy_lib : Library
busy_lib = record demo_lib { poll_reply = busy_poll }

abbrev once_polled : Process
once_polled = record quiet { history = poll 9 100 ∷ [] }

closed : (abandon busy_lib demo_py 5 paused once_polled).0 ≡ stopped
unfolding next loop on_done on_chunk conclude finally_block take_final read_final read_chunk drain
    ◌>>=◌ call_text call_poll call_effect py_str free value_at decode_event abandon cancel after
    after_all frees
closed = refl

abandon-blocks_example :
    length (abandon busy_lib demo_py 5 paused once_polled).2.blocks + 0
    ≡ 0 + (abandon busy_lib demo_py 5 paused once_polled).2.next_block
abandon-blocks_example =
    abandon-blocks busy_lib demo_py 5 9 paused once_polled refl refl refl refl closed

abbrev uses : List Use
uses = advance ∷ advance ∷ advance ∷ stop ∷ close ∷ []

after_all-frees_example :
    frees 9 (after_all demo_lib demo_py 5 uses started quiet).1.history ≤ suc (frees 9 [])
after_all-frees_example = after_all-frees demo_lib demo_py 5 9 uses started quiet refl refl

freed_once : frees 9 (after_all demo_lib demo_py 5 uses started quiet).1.history ≡ suc (frees 9 [])
unfolding next loop on_done on_chunk conclude finally_block take_final read_final read_chunk drain
    ◌>>=◌ call_text call_poll call_effect py_str free value_at decode_event abandon cancel after
    after_all frees
freed_once = refl

after_all-frozen_example :
    after_all demo_lib demo_py 5
      (stop ∷ advance ∷ [])
      (after_all demo_lib demo_py 5 uses started quiet).0
      (after_all demo_lib demo_py 5 uses started quiet).1
    ≡ after_all demo_lib demo_py 5 uses started quiet
after_all-frozen_example =
    after_all-frozen demo_lib demo_py 5 9 uses (stop ∷ advance ∷ []) started quiet refl refl
      freed_once

abandon-frees_example :
    ((abandon busy_lib demo_py (2 + suc 3) paused once_polled).0 ≡ stopped)
    × ((abandon busy_lib demo_py (2 + suc 3) paused once_polled).1
        ≡ record { handle = none; cancel_called = false; completed = false; generator = finished })
    × (frees 9 (abandon busy_lib demo_py (2 + suc 3) paused once_polled).2.history
        ≡ suc (frees 9 once_polled.history))
abandon-frees_example =
    abandon-frees busy_lib demo_py 2 3 9 paused once_polled refl refl refl refl (refl, (refl, refl))
