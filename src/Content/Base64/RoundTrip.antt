-- ===== src/Content/Base64/RoundTrip.antt =====
-- What is encoded in base64 is decoded to the same bytes.
use Prim.Native.Char.{Char, code}
use Prim.Native.Nat.{Ordering, compare}
use par.Prelude.{
  ℕ, ◌+◌, ◌*◌, ◌/◌, ◌%◌, ◌≡◌, ◌∙◌, ◌<◌, refl, ap, String, false, some, List, [], ◌∷◌, arith, eqb,
}
use par.Content.Base64.{
  character_at, character, digit_code, digit_value, digit, encode, decode, value, is_pad, group,
  two_bytes, three_bytes,
}

code-character_at :
    (n : ℕ) (o : Ordering) (e : compare n 55296 ≡ o) → n < 55296 → code (character_at n o e) ≡ n
unfolding character_at
code-character_at n Ordering.lt e h = refl
code-character_at n Ordering.eq e h = ground arith
code-character_at n Ordering.gt e h = ground arith

code-character : (n : ℕ) → n < 55296 → code (character n) ≡ n
unfolding character
code-character n h = code-character_at n (compare n 55296) refl h

digit_value-digit_code : (n : ℕ) → n < 64 → digit_value (digit_code n) ≡ some n
unfolding digit_value digit_code
digit_value-digit_code n h = ground arith

digit_code-small : (n : ℕ) → n < 64 → digit_code n < 128
unfolding digit_code
digit_code-small n h = ground arith

digit_code-pad : (n : ℕ) → n < 64 → eqb (digit_code n) b'=' ≡ false
unfolding digit_code
digit_code-pad n h = ground arith

value-digit : (n : ℕ) → n < 64 → value (digit n) ≡ some n
unfolding digit value
value-digit n h =
    rw (code-character (digit_code n) (omega (arith, digit_code-small n h)))
      (digit_value-digit_code n h)

is_pad-digit : (n : ℕ) → n < 64 → is_pad (digit n) ≡ false
unfolding digit
is_pad-digit n h =
    rw (code-character (digit_code n) (omega (arith, digit_code-small n h))) (digit_code-pad n h)

abbrev pub AreBytes : List ℕ → Type 0
AreBytes [] = Unit
AreBytes (b ∷ bs) = (b < 256) × AreBytes bs

-- The numbers of the four digits of three bytes, put together again.
first_lem : (x y : ℕ) → y < 256 → x / 4 * 4 + (x % 4 * 16 + y / 16) / 16 ≡ x
first_lem x y h = omega arith

second_lem :
    (x y z : ℕ)
    → y < 256
    → z < 256
    → (x % 4 * 16 + y / 16) % 16 * 16 + (y % 16 * 4 + z / 64) / 4 ≡ y
second_lem x y z hy hz = omega arith

last_lem : (x y : ℕ) → y < 256 → (x % 4 * 16 + y / 16) % 16 * 16 + y % 16 * 4 / 4 ≡ y
last_lem x y h = omega arith

third_lem : (y z : ℕ) → z < 256 → (y % 16 * 4 + z / 64) % 4 * 64 + z % 64 ≡ z
third_lem y z h = omega arith

decode-full :
    (a b c d : Char) (s : String)
    → is_pad d ≡ false
    → decode (String.◌∷◌ a (String.◌∷◌ b (String.◌∷◌ c (String.◌∷◌ d s))))
      ≡ three_bytes (value a) (value b) (value c) (value d) (decode s)
unfolding decode group
decode-full a b c d s h = simp h refl

decode-two :
    (a b c : Char)
    → is_pad c ≡ false
    → decode (String.◌∷◌ a (String.◌∷◌ b (String.◌∷◌ c "=")))
      ≡ two_bytes (value a) (value b) (value c)
unfolding decode group
decode-two a b c h = simp h refl

pub decode-encode : (bs : List ℕ) → AreBytes bs → decode (encode bs) ≡ some bs
unfolding decode encode
decode-encode [] h = refl
decode-encode (x ∷ []) (hx, u) =
    let a = value-digit (x / 4) (omega arith) in
    let b = value-digit (x % 4 * 16) (omega arith) in
    rw (a, b) (ap (λ n. some (n ∷ [])) (omega arith))
decode-encode (x ∷ y ∷ []) (hx, (hy, u)) =
    let a = value-digit (x / 4) (omega arith) in
    let b = value-digit (x % 4 * 16 + y / 16) (omega arith) in
    let c = value-digit (y % 16 * 4) (omega arith) in
    decode-two (digit (x / 4)) (digit (x % 4 * 16 + y / 16)) (digit (y % 16 * 4))
      (is_pad-digit (y % 16 * 4) (omega arith))
    ∙ rw (a, b, c) (cc (first_lem x y hy, last_lem x y hy))
decode-encode (x ∷ y ∷ z ∷ bs) (hx, (hy, (hz, hs))) =
    let a = value-digit (x / 4) (omega arith) in
    let b = value-digit (x % 4 * 16 + y / 16) (omega arith) in
    let c = value-digit (y % 16 * 4 + z / 64) (omega arith) in
    let d = value-digit (z % 64) (omega arith) in
    decode-full (digit (x / 4)) (digit (x % 4 * 16 + y / 16)) (digit (y % 16 * 4 + z / 64))
      (digit (z % 64)) (encode bs) (is_pad-digit (z % 64) (omega arith))
    ∙ rw (a, b, c, d, decode-encode bs hs)
        (cc (first_lem x y hy, second_lem x y z hy hz, third_lem y z hz))
