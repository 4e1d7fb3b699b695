-- ===== src/Python/Interpreter.antt =====
-- What the binding takes from Python's `json` module and `float`, as parameters: the text format of
-- a JSON value is not read by the binding itself.
use par.Prelude.{ℕ, String, Option}
use par.Python.Int.{ℤ}
use par.Python.Json.{Json}
use par.Python.Errors.{Result, ok, raised, exception, json_decode}
use par.Python.Json.{str}

-- `malformed e`: `json.loads` raises a `JSONDecodeError` that prints as `e`.
pub data Parsed : Type 0 where
  parsed : Json → Parsed
  malformed : String → Parsed

-- `float_text` is `float(s)` on a text, if it is a finite number.
pub record Interpreter : Type 0 where
  pub loads : String → Parsed
  pub dumps : Json → String
  pub float_text : String → Option (ℤ × ℕ)

abbrev pub parsed_or_raise : Parsed → Result Json
parsed_or_raise (parsed v) = ok v
parsed_or_raise (malformed e) = raised (exception json_decode (str e))

-- `json.loads(s)` where nothing catches the exception.
abbrev pub loads_or_raise : Interpreter → String → Result Json
loads_or_raise py s = parsed_or_raise (py.loads s)
