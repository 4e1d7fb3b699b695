-- ===== src/Python/Convert.antt =====
-- Python's `int(x)` and `json.loads(s)["k"]` on dynamic values: what they return and raise.
pub mod Printed
use Prim.Native.Char.{code}
use par.Prelude.{
  ℕ, ◌+◌, ◌-◌, ◌*◌, ◌≡◌, refl, String, ◌<>◌, Bool, true, false, ◌&&◌, ◌||◌, Option, none, some, eqb,
  leb, if◌then◌else◌,
}
use Prim.Native.Nat.{◌^◌}
use par.Python.Int.{ℤ, pos, negsuc, opposite, truncate}
use par.Python.Json.{Json, Fields, bool, int, dec, str, get}
use par.Python.Text.{repr_str, type_name}
use par.Python.Errors.{Result, ok, fails, value_error, type_error, key_error}

abbrev pub is_space : ℕ → Bool
is_space c = (leb 9 c && leb c 13) || (leb 28 c && leb c 32)

abbrev is_digit : ℕ → Bool
is_digit c = leb b'0' c && leb c b'9'

-- What `int` still accepts: `more` after a digit, `digit` where one must follow, `trailing` spaces.
pub data Place : Type 0 where
  more digit trailing : Place

-- The digits of a number read so far are `n`; an underscore stands between two digits.
read_digits : Place → ℕ → String → Option ℕ
read_digits more n String.[] = some n
read_digits digit n String.[] = none
read_digits trailing n String.[] = some n
read_digits more n (String.◌∷◌ c s) =
    let d = code c in
    let next = read_digits more (n * 10 + (d - b'0')) s in
    let under = read_digits digit n s in
    let spaces = read_digits trailing n s in
    if is_digit d then next else if eqb d b'_' then under else if is_space d then spaces else none
read_digits digit n (String.◌∷◌ c s) =
    let d = code c in
    let next = read_digits more (n * 10 + (d - b'0')) s in if is_digit d then next else none
read_digits trailing n (String.◌∷◌ c s) =
    let rest = read_digits trailing n s in if is_space (code c) then rest else none

abbrev sign : Bool → Option ℕ → Option ℤ
sign negative none = none
sign false (some n) = some (pos n)
sign true (some n) = some (opposite n)

read_int : String → Option ℤ
unfolding read_digits
read_int String.[] = none
read_int (String.◌∷◌ c s) =
    let d = code c in
    let skipped = read_int s in
    if is_space d
    then skipped
    else if eqb d b'-'
    then sign true (read_digits digit 0 s)
    else if eqb d b'+'
    then sign false (read_digits digit 0 s)
    else sign false (read_digits digit 0 (String.◌∷◌ c s))

abbrev or_value_error : String → Option ℤ → Result ℤ
or_value_error s none = fails value_error ("invalid literal for int() with base 10: " <> repr_str s)
or_value_error s (some z) = ok z

-- `int(x)`
unfoldable pub int_of : Json → Result ℤ
unfolding read_int
int_of (bool false) = ok (pos 0)
int_of (bool true) = ok (pos 1)
int_of (int z) = ok z
int_of (dec z k) = ok (truncate z (10 ^ k))
int_of (str s) = or_value_error s (read_int s)
int_of x = fails type_error (
    "int() argument must be a string, a bytes-like object or a real number, not '"
    <> type_name x
    <> "'")

-- `d[k]` on a dict
abbrev pub item : String → Fields → Result Json
item k fs = elim (get k fs) [ none ↦ fails key_error k | some v ↦ ok v ]

int_of_texts :
    (int_of (str " -1_2 ") ≡ ok (negsuc 11))
    × (int_of (dec (negsuc 18) 1) ≡ ok (negsuc 0))
    × (int_of (str "1__2") ≡ fails value_error "invalid literal for int() with base 10: '1__2'")
unfolding int_of repr_str
int_of_texts = (refl, refl, refl)
