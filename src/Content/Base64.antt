-- ===== src/Content/Base64.antt =====
-- `base64.b64encode(raw).decode("ascii")` and `base64.b64decode(data, validate=True)`, the second as
-- `binascii.a2b_base64` in its strict mode: only digits, in groups of four, the last of which may be padded.
pub mod RoundTrip
pub mod Size
use Prim.Native.Char.{Char, char, code}
use Prim.Native.Nat.{Ordering, compare}
use par.Prelude.{
  ℕ, ◌+◌, ◌-◌, ◌*◌, ◌/◌, ◌%◌, ◌≡◌, refl, String, Bool, true, false, ◌&&◌, Option, none, some, List,
  [], ◌∷◌, eqb, ltb, if◌then◌else◌,
}

character_at : (n : ℕ) (o : Ordering) → compare n 55296 ≡ o → Char
character_at n Ordering.lt e = char n (rw e tt)
character_at n o e = char 0 tt

-- `chr(n)`, for the numbers below the surrogates
character : ℕ → Char
unfolding character_at
character n = character_at n (compare n 55296) refl

-- The digit of a number below 64, and the number of a digit.
unfoldable pub digit_code : ℕ → ℕ
digit_code n =
    if ltb n 26
    then n + b'A'
    else if ltb n 52
    then n - 26 + b'a'
    else if ltb n 62
    then n - 52 + b'0'
    else if eqb n 62
    then b'+'
    else b'/'

unfoldable pub digit_value : ℕ → Option ℕ
digit_value c =
    if eqb c b'+'
    then some 62
    else if eqb c b'/'
    then some 63
    else if ltb c b'0'
    then none
    else if ltb c 58
    then some (c - b'0' + 52)
    else if ltb c b'A'
    then none
    else if ltb c 91
    then some (c - b'A')
    else if ltb c b'a'
    then none
    else if ltb c 123
    then some (c - b'a' + 26)
    else none

digit : ℕ → Char
unfolding digit_code character
digit n = character (digit_code n)

-- Bytes are numbers below 256.
unfoldable pub encode : List ℕ → String
unfolding digit
encode [] = ""
encode (x ∷ []) = String.◌∷◌ (digit (x / 4)) (String.◌∷◌ (digit (x % 4 * 16)) "==")
encode (x ∷ y ∷ []) =
    String.◌∷◌ (digit (x / 4))
      (String.◌∷◌ (digit (x % 4 * 16 + y / 16)) (String.◌∷◌ (digit (y % 16 * 4)) "="))
encode (x ∷ y ∷ z ∷ bs) = String.◌∷◌ (digit (x / 4)) (
    String.◌∷◌ (digit (x % 4 * 16 + y / 16))
      (String.◌∷◌ (digit (y % 16 * 4 + z / 64)) (String.◌∷◌ (digit (z % 64)) (encode bs))))

abbrev value : Char → Option ℕ
unfolding digit_value
value c = digit_value (code c)

-- The bytes of a last group.
abbrev one_byte : Option ℕ → Option ℕ → Option (List ℕ)
one_byte (some a) (some b) = some ((a * 4 + b / 16) ∷ [])
one_byte a b = none

abbrev two_bytes : Option ℕ → Option ℕ → Option ℕ → Option (List ℕ)
two_bytes (some a) (some b) (some c) = some ((a * 4 + b / 16) ∷ (b % 16 * 16 + c / 4) ∷ [])
two_bytes a b c = none

-- Three bytes before the rest.
abbrev three_bytes : Option ℕ → Option ℕ → Option ℕ → Option ℕ → Option (List ℕ) → Option (List ℕ)
three_bytes (some a) (some b) (some c) (some d) (some bs) =
    some ((a * 4 + b / 16) ∷ (b % 16 * 16 + c / 4) ∷ (c % 4 * 64 + d) ∷ bs)
three_bytes a b c d bs = none

abbrev is_pad : Char → Bool
is_pad c = eqb (code c) b'='

abbrev is_empty : String → Bool
is_empty String.[] = true
is_empty s = false

abbrev group : Char → Char → Char → Char → String → Option (List ℕ) → Option (List ℕ)
unfolding digit_value
group a b c d s rest =
    if is_pad d && is_empty s
    then (if is_pad c
        then one_byte (value a) (value b)
        else two_bytes (value a) (value b) (value c))
    else three_bytes (value a) (value b) (value c) (value d) rest

unfoldable pub decode : String → Option (List ℕ)
unfolding digit_value
decode String.[] = some []
decode (String.◌∷◌ a (String.◌∷◌ b (String.◌∷◌ c (String.◌∷◌ d s)))) = group a b c d s (decode s)
decode s = none
