-- ===== src/Stream/Iterate/Tests.antt =====
-- A loop over `invoke_stream`: one timeout, one chunk, and the end.
use par.Prelude.{arith, ◌≡◌, refl, some, List, [], ◌∷◌, ℕ, String}
use par.Fixtures.{demo_lib, demo_py, quiet}
use par.Python.Json.{str}
use par.Python.Errors.{Error, exception, json_decode, ok}
use par.Ffi.Calls.{
  Library, Call, PollReply, chunk, done, utf8, text, effect, handle, par_stream_start,
  par_stream_free, par_stream_take_final,
}
use par.Runtime.Base.{Runtime}
use par.Stream.Event.{Event, decode_event}
use par.Stream.Reader.{Reader, final_step}
use par.Stream.Iterate.{invoke_stream, collect}
use par.Stream.Iterate.Delivers.{polled_all, events_of, final_answer}
use par.Stream.Iterate.Complete.{invoke_stream-collect}

abbrev agent_runtime : Runtime
agent_runtime = record { handle = some 7; callback_ids = [] }

abbrev one_chunk : List (ℕ × String)
one_chunk = (1, "GREETING") ∷ []

one_event : events_of demo_lib demo_py one_chunk ≡ ok (Event.text_delta (str "Hi") ∷ [])
unfolding decode_event
one_event = refl

invoke_stream-collect_example :
    let hist =
      polled_all demo_lib demo_py 9 one_chunk 0 (handle (par_stream_start 7 "a" "hi") ∷ []) in
    (r : Reader) × ((invoke_stream demo_lib demo_py agent_runtime "a" "hi" quiet).0 ≡ ok r)
    × (let s =
          collect demo_lib demo_py 2 5 r
            (invoke_stream demo_lib demo_py agent_runtime "a" "hi" quiet).1 in
        (s.events ≡ Event.text_delta (str "Hi") ∷ [])
        × (s.ending
            ≡ final_step demo_lib demo_py (
                final_answer demo_lib demo_py (demo_lib.text_reply hist (par_stream_take_final 9))))
        × (s.process.history ≡ effect (par_stream_free 9) ∷ text (par_stream_take_final 9) ∷ hist)
        × (s.process.blocks ≡ [])
        × (s.process.faults ≡ 0))
invoke_stream-collect_example =
    invoke_stream-collect demo_lib demo_py agent_runtime quiet 7 9 0 2 5 "a" "hi" one_chunk
      (Event.text_delta (str "Hi") ∷ []) refl refl refl refl ((refl, tt), refl, (tt, refl))
      (omega arith, omega arith) one_event (omega arith)

-- A greeting, and then a text that is no JSON; once cancelled, the stream ends.
abbrev broken_poll : List Call → ℕ → ℕ → PollReply
broken_poll (handle c ∷ hist) h timeout_ms = chunk (utf8 "GREETING")
broken_poll (effect c ∷ hist) h timeout_ms = done
broken_poll hist h timeout_ms = chunk (utf8 "NONSENSE")

abbrev broken_lib : Library
broken_lib = record demo_lib { poll_reply = broken_poll }

abbrev greeting_only : List (ℕ × String)
greeting_only = (0, "GREETING") ∷ []

abbrev decode_failure : Error
decode_failure = exception json_decode (str "Expecting value: line 1 column 1 (char 0)")
