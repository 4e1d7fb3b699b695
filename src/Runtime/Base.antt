-- ===== src/Runtime/Base.antt =====
-- The object `Runtime` of bindings/python/par_runtime/runtime.py, the guard of its methods, and the
-- checks on the library's answers that the methods share.
use par.Prelude.{
  ℕ, String, ◌<>◌, Bool, true, false, not, Option, none, some, List, eqb, is_some, if◌then◌else◌,
  ◌==◌, ◌||◌,
}
use text.Mathlib.Text.{find?}
use par.Python.Int.{ℤ, is_zero}
use par.Python.Json.{Json, Items, null, str, arr, obj, nil, cons, get, get_or}
use par.Python.Text.{type_name}
use par.Python.Errors.{
  ErrorKind, Result, ok, raised, fails, exception, par_error, type_error, attribute_error,
}
use par.Ffi.Process.{Action, lift}

-- The slots `_handle` and `_callback_ids`.
pub record Runtime : Type 0 where
  pub handle : Option ℕ
  pub callback_ids : List ℕ

-- A handle as a truth value: neither `None` nor NULL.
abbrev pub is_open : Runtime → Bool
is_open self = elim self.handle [ none ↦ false | some h ↦ not (eqb h 0) ]

abbrev pub shut_down : Result ℕ
shut_down = fails par_error "Runtime has been shut down"

-- `_check_handle`, and the handle that the method then passes on.
unfoldable pub check_handle : Runtime → Action ℕ
unfolding lift
check_handle self =
    lift (elim self.handle [ none ↦ shut_down | some h ↦ if eqb h 0 then shut_down else ok h ])

-- `ctypes.c_int(1 if b else 0)`, `int(b)`
abbrev pub flag : Bool → ℕ
flag true = 1
flag false = 0

-- An optional argument as a truth value: `None` is false.
abbrev pub given_true : Option Bool → Bool
given_true none = false
given_true (some b) = b

-- `bool(x) if x is not None else default`
abbrev pub or_default : Bool → Option Bool → Bool
or_default d none = d
or_default d (some b) = b

-- `if rc != 0: raise Kind(message)`
abbrev pub require_zero : ErrorKind → String → ℤ → Result Json
require_zero k message rc = if is_zero rc then ok null else fails k message

-- `if not result: raise Kind(message)`
abbrev pub require_text : ErrorKind → String → String → Result String
require_text k message s = if s == "" then fails k message else ok s

-- `if isinstance(parsed, dict) and "error" in parsed: raise Kind(parsed["error"])`
abbrev pub check_error : ErrorKind → Json → Result Json
check_error k (obj fs) = elim (get "error" fs) [
  | none ↦ ok (obj fs)
  | some e ↦ raised (exception k e)
]
check_error k x = ok x

abbrev is_text : String → Json → Bool
is_text s (str t) = s == t
is_text s _ = false

-- `"error" in xs` on a list
abbrev has_text : String → Items → Bool
has_text s nil = false
has_text s (cons x xs) = is_text s x || has_text s xs

-- `if "error" in parsed: raise Kind(parsed["error"])`, with no test that `parsed` is a dict.
abbrev pub check_error_in : ErrorKind → Json → Result Json
check_error_in k (obj fs) = elim (get "error" fs) [
  | none ↦ ok (obj fs)
  | some e ↦ raised (exception k e)
]
check_error_in k (arr xs) =
    if has_text "error" xs
    then fails type_error "list indices must be integers or slices, not str"
    else ok (arr xs)
check_error_in k (str s) =
    if is_some (find? s "error")
    then fails type_error "string indices must be integers, not 'str'"
    else ok (str s)
check_error_in k x = fails type_error ("argument of type '" <> type_name x <> "' is not iterable")

-- `x.get(key, default)`
abbrev pub get_attribute : String → Json → Json → Result Json
get_attribute key d (obj fs) = ok (get_or key d fs)
get_attribute key d x =
    fails attribute_error ("'" <> type_name x <> "' object has no attribute 'get'")
