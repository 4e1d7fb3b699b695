-- ===== src/Python/Convert/Printed.antt =====
-- `int(str(n))` is `n`.
use Prim.Native.Char.{Char, code}
use text.Mathlib.TextLemmas.{nil-append, cons-append}
use par.Prelude.{
  ℕ, zero, suc, ◌+◌, ◌-◌, ◌*◌, ◌/◌, ◌%◌, ◌<◌, ◌≡◌, refl, ◌∙◌, ap, inl, inr, String, ◌<>◌, true,
  false, some, arith, eqb, leb, Bool-cases,
}
use par.Python.Int.{ℤ, pos, negsuc, is_negative}
use par.Python.Json.{str}
use par.Python.Text.{digit, digits, nat_str, int_str}
use par.Python.Errors.{ok}
use par.Python.Convert.{more, digit as place, is_digit, is_space, read_digits, read_int, int_of}

-- A digit is one character, whose code says which.
IsDigit : ℕ → String → Type 0
IsDigit d s = (c : Char) × (s ≡ String.◌∷◌ c "") × (code c ≡ d + b'0')

digit-IsDigit : (d : ℕ) → d < 10 → IsDigit d (digit d)
unfolding IsDigit
digit-IsDigit zero h = (_, refl, refl)
digit-IsDigit (suc zero) h = (_, refl, refl)
digit-IsDigit (suc (suc zero)) h = (_, refl, refl)
digit-IsDigit (suc (suc (suc zero))) h = (_, refl, refl)
digit-IsDigit (suc (suc (suc (suc zero)))) h = (_, refl, refl)
digit-IsDigit (suc (suc (suc (suc (suc zero))))) h = (_, refl, refl)
digit-IsDigit (suc (suc (suc (suc (suc (suc zero)))))) h = (_, refl, refl)
digit-IsDigit (suc (suc (suc (suc (suc (suc (suc zero))))))) h = (_, refl, refl)
digit-IsDigit (suc (suc (suc (suc (suc (suc (suc (suc zero)))))))) h = (_, refl, refl)
digit-IsDigit (suc (suc (suc (suc (suc (suc (suc (suc (suc zero))))))))) h = (_, refl, refl)
digit-IsDigit (suc (suc (suc (suc (suc (suc (suc (suc (suc (suc d)))))))))) h = absurd (omega arith)

digit-append :
    (d : ℕ) (c : Char) (rest : String)
    → digit d ≡ String.◌∷◌ c ""
    → digit d <> rest ≡ String.◌∷◌ c rest
digit-append d c rest e = rw e (cons-append c "" rest ∙ ap (λ s. String.◌∷◌ c s) (nil-append rest))

is_digit-code : (d c : ℕ) → d < 10 → c ≡ d + b'0' → (is_digit c ≡ true) × (c - b'0' ≡ d)
is_digit-code d c h e = (ground arith, omega arith)

-- A digit is read, at the start or after the digits of `n`.
read_char :
    (n d : ℕ) (c : Char) (rest : String)
    → d < 10
    → code c ≡ d + b'0'
    → (read_digits more n (String.◌∷◌ c rest) ≡ read_digits more (n * 10 + d) rest)
      × (read_digits place n (String.◌∷◌ c rest) ≡ read_digits more (n * 10 + d) rest)
unfolding read_digits
read_char n d c rest h e =
    let k = is_digit-code d (code c) h e in (simp (k.0, k.1) refl, simp (k.0, k.1) refl)

read_digit :
    (n d : ℕ) (rest : String)
    → d < 10
    → (read_digits more n (digit d <> rest) ≡ read_digits more (n * 10 + d) rest)
      × (read_digits place n (digit d <> rest) ≡ read_digits more (n * 10 + d) rest)
unfolding IsDigit
read_digit n d rest h =
    let (c, e, k) = digit-IsDigit d h in rw (digit-append d c rest e) (read_char n d c rest h k)

read-digits :
    (f n : ℕ) (rest : String)
    → n < f
    → read_digits place 0 (digits f n rest) ≡ read_digits more n rest
unfolding digits
read-digits zero n rest h = absurd (omega arith)
read-digits (suc f) n rest h = elim (Bool-cases (leb n 9)) [
  | inl small ↦
      simp small
        ((read_digit 0 n rest (ground arith)).1 ∙ ap (λ m. read_digits more m rest) (omega arith))
  | inr large ↦
      let rest' = digit (n % 10) <> rest in
      simp large (
        read-digits f (n / 10) rest' (ground arith)
        ∙ (read_digit (n / 10) (n % 10) rest (omega arith)).0
        ∙ ap (λ m. read_digits more m rest) (omega arith))
]

-- The first character of a number in digits.
StartsWithDigit : String → Type 0
StartsWithDigit s =
    (d : ℕ) × (d < 10) × (c : Char) × (t : String) × (code c ≡ d + b'0') × (s ≡ String.◌∷◌ c t)

digits-StartsWithDigit : (f n : ℕ) (rest : String) → n < f → StartsWithDigit (digits f n rest)
unfolding digits StartsWithDigit IsDigit
digits-StartsWithDigit zero n rest h = absurd (omega arith)
digits-StartsWithDigit (suc f) n rest h = elim (Bool-cases (leb n 9)) [
  | inl small ↦
      let (c, e, k) = digit-IsDigit n (ground arith) in
      (n, ground arith, c, rest, k, simp (small, digit-append n c rest e) refl)
  | inr large ↦
      simp large (digits-StartsWithDigit f (n / 10) (digit (n % 10) <> rest) (ground arith))
]

plain_code :
    (d c : ℕ)
    → d < 10
    → c ≡ d + b'0'
    → (is_space c ≡ false) × (eqb c b'-' ≡ false) × (eqb c b'+' ≡ false)
plain_code d c h e = (ground arith, ground arith, ground arith)

read_int-char :
    (c : Char) (t : String) (d n : ℕ)
    → d < 10
    → code c ≡ d + b'0'
    → read_digits place 0 (String.◌∷◌ c t) ≡ some n
    → read_int (String.◌∷◌ c t) ≡ some (pos n)
unfolding read_int
read_int-char c t d n h k r = let p = plain_code d (code c) h k in simp (p.0, p.1, p.2, r) refl

read_int-digit :
    (s : String) (n : ℕ)
    → StartsWithDigit s
    → read_digits place 0 s ≡ some n
    → read_int s ≡ some (pos n)
unfolding StartsWithDigit
read_int-digit s n (d, h, c, t, k, e) r = rw e (read_int-char c t d n h k (rw e at r))

-- A number that is printed and read again is the same.
pub int_of-int_str : (z : ℤ) → is_negative z ≡ false → int_of (str (int_str z)) ≡ ok z
unfolding int_of int_str nat_str read_digits
int_of-int_str (negsuc n) h = cc
int_of-int_str (pos n) h =
    rw
      (read_int-digit (digits (n + 1) n "") n (digits-StartsWithDigit (n + 1) n "" (omega arith))
        (read-digits (n + 1) n "" (omega arith)))
      refl
