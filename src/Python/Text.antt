-- ===== src/Python/Text.antt =====
-- Python's operations on texts: slices, case, `repr` and `str`. Letters, digits and spaces
-- outside ASCII are left as they are: the program compares only ASCII words.
use Prim.Native.Char.{Char, code}
use Prim.Native.String.{slice}
use par.Prelude.{
  ℕ, zero, suc, ◌+◌, ◌-◌, ◌/◌, ◌%◌, String, ◌<>◌, Bool, true, false, not, ◌&&◌, ◌||◌, eqb, leb,
  if◌then◌else◌,
}
use Prim.Native.Nat.{◌^◌}
use par.Python.Int.{ℤ, pos, negsuc}
use par.Python.Json.{
  Json, Items, Fields, null, bool, int, dec, str, arr, obj, nil, cons, end, field,
}

-- `s[:n]`
unfoldable pub take : ℕ → String → String
take zero s = ""
take (suc n) String.[] = ""
take (suc n) (String.◌∷◌ c s) = String.◌∷◌ c (take n s)

abbrev is_upper : ℕ → Bool
is_upper c = leb b'A' c && leb c b'Z'

abbrev is_lower : ℕ → Bool
is_lower c = leb b'a' c && leb c b'z'

abbrev lower_char : Char → String
lower_char c =
    if is_upper (code c)
    then slice "abcdefghijklmnopqrstuvwxyz" (code c - b'A') (code c - b'A' + 1)
    else String.◌∷◌ c ""

abbrev upper_char : Char → String
upper_char c =
    if is_lower (code c)
    then slice "ABCDEFGHIJKLMNOPQRSTUVWXYZ" (code c - b'a') (code c - b'a' + 1)
    else String.◌∷◌ c ""

-- `s.lower()`
unfoldable pub lower : String → String
lower String.[] = ""
lower (String.◌∷◌ c s) = lower_char c <> lower s

-- `s[0].upper() + s[1:]`, for `s` not empty
unfoldable pub capitalize : String → String
capitalize String.[] = ""
capitalize (String.◌∷◌ c s) = upper_char c <> s

abbrev pub digit : ℕ → String
digit d = slice "0123456789abcdef" d (d + 1)

-- The decimal digits of `n`; the fuel `n + 1` is more than their number.
unfoldable pub digits : ℕ → ℕ → String → String
digits zero n rest = rest
digits (suc f) n rest =
    let more = digits f (n / 10) (digit (n % 10) <> rest) in
    if leb n 9 then digit n <> rest else more

unfoldable pub nat_str : ℕ → String
unfolding digits
nat_str n = digits (n + 1) n ""

-- `str(z)`
unfoldable pub int_str : ℤ → String
unfolding nat_str
int_str (pos n) = nat_str n
int_str (negsuc n) = "-" <> nat_str (suc n)

-- The last `k` decimal digits of `n`, with leading zeros.
padded : ℕ → ℕ → String → String
padded zero n rest = rest
padded (suc k) n rest = padded k (n / 10) (digit (n % 10) <> rest)

abbrev decimal : ℕ → ℕ → String
unfolding nat_str padded
decimal n k = nat_str (n / 10 ^ k) <> "." <> (if eqb k 0 then "0" else padded k (n % 10 ^ k) "")

abbrev dec_str : ℤ → ℕ → String
unfolding decimal
dec_str (pos n) k = decimal n k
dec_str (negsuc n) k = "-" <> decimal (suc n) k

unfoldable pub has : ℕ → String → Bool
has c String.[] = false
has c (String.◌∷◌ d s) = eqb (code d) c || has c s

-- One character of a `repr` between quotes `q`.
abbrev escaped : ℕ → Char → String
escaped q c =
    let n = code c in
    if eqb n b'\\'
    then "\\\\"
    else if eqb n q
    then "\\" <> String.◌∷◌ c ""
    else if eqb n 10
    then "\\n"
    else if eqb n 13
    then "\\r"
    else if eqb n 9
    then "\\t"
    else if leb n 31 || eqb n 127
    then "\\x" <> digit (n / 16) <> digit (n % 16)
    else String.◌∷◌ c ""

escapes : ℕ → String → String
escapes q String.[] = ""
escapes q (String.◌∷◌ c s) = escaped q c <> escapes q s

-- `repr(s)`: double quotes only where they save an escape.
unfoldable pub repr_str : String → String
unfolding has escapes
repr_str s =
    if has 39 s && not (has 34 s) then "\"" <> escapes 34 s <> "\"" else "'" <> escapes 39 s <> "'"

unfoldable mutual
  unfolding repr_str int_str dec_str

  pub repr : Json → String
  repr null = "None"
  repr (bool true) = "True"
  repr (bool false) = "False"
  repr (int z) = int_str z
  repr (dec z k) = dec_str z k
  repr (str s) = repr_str s
  repr (arr xs) = "[" <> repr_items xs <> "]"
  repr (obj fs) = "{" <> repr_fields fs <> "}"

  pub repr_items : Items → String
  repr_items nil = ""
  repr_items (cons x nil) = repr x
  repr_items (cons x (cons y ys)) = repr x <> ", " <> repr_items (cons y ys)

  pub repr_fields : Fields → String
  repr_fields end = ""
  repr_fields (field k v end) = repr_str k <> ": " <> repr v
  repr_fields (field k v (field j w fs)) =
      repr_str k <> ": " <> repr v <> ", " <> repr_fields (field j w fs)

-- `str(x)`
unfoldable pub str_of : Json → String
unfolding repr
str_of (str s) = s
str_of x = repr x

-- `type(x).__name__`
abbrev pub type_name : Json → String
type_name null = "NoneType"
type_name (bool b) = "bool"
type_name (int z) = "int"
type_name (dec z k) = "float"
type_name (str s) = "str"
type_name (arr xs) = "list"
type_name (obj fs) = "dict"
