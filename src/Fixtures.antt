-- ===== src/Fixtures.antt =====
-- An interpreter and a library to run the examples on.
use par.Prelude.{ℕ, String, ◌<>◌, Option, none, some, List, [], ◌∷◌, if◌then◌else◌, ◌==◌}
use par.Python.Int.{ℤ, pos, negsuc}
use par.Python.Json.{Json, Fields, str, arr, obj, nil, cons, end, field, get}
use par.Python.Interpreter.{Interpreter, Parsed, parsed, malformed}
use par.Ffi.Calls
use par.Ffi.Calls.{
  Library, Call, StatusCall, TextCall, HandleCall, Bytes, PollReply, utf8, idle, done, chunk, poll,
  text,
}
use par.Ffi.Process.{Process}

-- Texts that the example library sends, and their values.
abbrev pub boom : Fields
boom = field "error" (str "boom") end

abbrev pub greeting : Json
greeting = arr (cons (str "Text_delta") (cons (obj (field "text" (str "Hi") end)) nil))

abbrev pub finished_ok : Fields
finished_ok = field "status" (str "ok") end

abbrev pub demo_loads : String → Parsed
demo_loads s =
    if s == "BOOM"
    then parsed (obj boom)
    else if s == "GREETING"
    then parsed (obj (field "chunk" greeting end))
    else if s == "OK"
    then parsed (obj finished_ok)
    else if s == "EMPTY"
    then parsed (obj end)
    else malformed "Expecting value: line 1 column 1 (char 0)"

-- A text for each value that is an error, a rejection, or neither.
abbrev labelled : Option Json → Option Json → String
labelled (some (str e)) r = "error: " <> e
labelled o (some (str e)) = "rejected: " <> e
labelled o r = "JSON"

abbrev pub demo_dumps : Json → String
demo_dumps (obj fs) = labelled (get "error" fs) (get "reason" fs)
demo_dumps v = "JSON"

abbrev pub demo_py : Interpreter
demo_py = record { loads = demo_loads; dumps = demo_dumps; float_text = λ s. none }

-- A registration that fails, and others that succeed.
abbrev demo_status : List Call → StatusCall → ℤ
demo_status h (Calls.par_register_agent r c) = negsuc 0
demo_status h c = pos 0

abbrev demo_text : List Call → TextCall → Option Bytes
demo_text h (Calls.par_health r) = some (utf8 "BOOM")
demo_text h (Calls.par_stream_take_final s) = some (utf8 "OK")
demo_text h c = none

-- The first poll times out, the second brings a chunk, and later ones the end.
abbrev demo_poll : List Call → ℕ → ℕ → PollReply
demo_poll (poll a b ∷ poll c d ∷ h) s t = done
demo_poll (text c ∷ h) s t = done
demo_poll (poll a b ∷ h) s t = chunk (utf8 "GREETING")
demo_poll h s t = idle

abbrev demo_handle : List Call → HandleCall → ℕ
demo_handle h (Calls.par_init c) = 7
demo_handle h (Calls.par_stream_start r a m) = 9

abbrev pub demo_lib : Library
demo_lib = record {
  status_reply = demo_status;
  text_reply = demo_text;
  handle_reply = demo_handle;
  poll_reply = demo_poll;
}

abbrev pub quiet : Process
quiet = record {
  history = [];
  blocks = [];
  next_block = 0;
  faults = 0;
  callbacks = [];
  counter = 0;
  warnings = 0;
}
