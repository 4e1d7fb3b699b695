-- ===== src/Ffi/Strings.antt =====
-- `_c_str`, `_py_str` and `_free` of `_ffi.py`, and the two ways in which the binding reads a string
-- that the library returns.
use par.Prelude.{ℕ, ◌+◌, String, Option, none, some, List, [], ◌∷◌, eqb, if◌then◌else◌, is_some}
use par.Python.Errors.{Result, ok, fails, unicode_decode, attribute_error}
use par.Ffi.Calls.{Bytes, Library, TextCall, utf8, invalid}
use par.Ffi.Process.{Process, Action, ◌>>=◌, pure, call_text}

-- `s.encode("utf-8")`: a C string holds the text itself.
abbrev pub c_str : String → String
c_str s = s

abbrev pub block_at : ℕ → List (ℕ × Bytes) → Option Bytes
block_at ptr [] = none
block_at ptr ((q, b) ∷ bs) = if eqb q ptr then some b else block_at ptr bs

abbrev pub without_block : ℕ → List (ℕ × Bytes) → List (ℕ × Bytes)
without_block ptr [] = []
without_block ptr ((q, b) ∷ bs) = if eqb q ptr then bs else (q, b) ∷ without_block ptr bs

-- libc's `free`; of a pointer that is not allocated, a fault.
unfoldable pub free : ℕ → Process → Process
free ptr p =
    if is_some (block_at ptr p.blocks)
    then record p { blocks = without_block ptr p.blocks }
    else record p { faults = p.faults + 1 }

-- `ctypes.cast(ptr, ctypes.c_char_p).value`
unfoldable pub value_at : ℕ → Action (Option Bytes)
value_at ptr p =
    if eqb ptr 0
    then (ok none, p)
    else if is_some (block_at ptr p.blocks)
    then (ok (block_at ptr p.blocks), p)
    else (ok none, record p { faults = p.faults + 1 })

-- `.decode("utf-8")`
abbrev pub decode : Bytes → Result String
decode (utf8 s) = ok s
decode invalid = fails unicode_decode "'utf-8' codec can't decode byte"

abbrev decode_value : Option Bytes → Action String
decode_value none p = (ok "", p)
decode_value (some b) p = (decode b, p)

-- `try: m finally: _free(ptr)`
abbrev pub finally_free : {A : Type 0} → ℕ → Action A → Action A
unfolding free
finally_free ptr m p = ((m p).0, free ptr (m p).1)

unfoldable pub py_str : ℕ → Action String
unfolding free value_at ◌>>=◌
py_str ptr = if eqb ptr 0 then pure "" else finally_free ptr (value_at ptr >>= decode_value)

-- `None.decode` raises.
abbrev decode_raw : Option Bytes → Action String
decode_raw none p = (fails attribute_error "'NoneType' object has no attribute 'decode'", p)
decode_raw (some b) p = (decode b, p)

-- `ctypes.cast(ptr, ctypes.c_char_p).value.decode("utf-8")`
unfoldable pub raw_text : ℕ → Action String
unfolding value_at ◌>>=◌
raw_text ptr = value_at ptr >>= decode_raw

-- `_py_str(_lib.f(…))`
unfoldable pub fetch : Library → TextCall → Action String
unfolding call_text py_str ◌>>=◌
fetch lib c = call_text lib c >>= py_str
