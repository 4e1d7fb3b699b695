-- ===== src/Stream/Iterate/Broken.antt =====
-- A loop over a stream that breaks off: the events before the broken chunk, then the exception.
use par.Prelude.{ℕ, ◌≡◌, List, ◌∷◌, String}
use par.Python.Interpreter.{Interpreter}
use par.Ffi.Calls.{Library, utf8, Call, chunk, poll, effect, par_stream_cancel}
use par.Ffi.Process.{Process}
use par.Stream.Event.{Event}
use par.Stream.Reader.{Reader, poll_timeout_ms}
use par.Stream.Reader.Closing.{EndsAfter}
use par.Stream.Reader.Progress.{IdleFor, waited}
use par.Runtime.Base.{Runtime}

module _ (lib : Library) (py : Interpreter) where
  -- After `j` timeouts the library delivers `s`, and once asked to cancel it ends the stream after `k` other
  -- answers.
  abbrev pub BreaksOff : ℕ → ℕ → String → ℕ → List Call → Type 0
  BreaksOff h j s k hist =
      IdleFor lib py h j hist
      × (lib.poll_reply (waited lib py h j hist) h poll_timeout_ms ≡ chunk (utf8 s))
      × EndsAfter lib py h k
          (effect (par_stream_cancel h) ∷ poll h poll_timeout_ms ∷ waited lib py h j hist)
