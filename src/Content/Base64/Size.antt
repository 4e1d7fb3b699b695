-- ===== src/Content/Base64/Size.antt =====
-- How long the base64 text of a number of bytes is.
use Prim.Native.Char.{Char}
use par.Prelude.{
  ℕ, suc, ◌+◌, ◌*◌, ◌/◌, ◌≤◌, ◌≡◌, refl, String, Bool, true, ◌&&◌, ◌⊎◌, inl, inr, Option, some,
  List, arith, length, Bool-cases,
}
use par.Content.Base64.{decode, group, one_byte, two_bytes, three_bytes, value, is_pad, is_empty}

-- `len(s)`
unfoldable pub size : String → ℕ
size String.[] = 0
size (String.◌∷◌ c s) = suc (size s)

one_byte-length : (a b : Option ℕ) (bs : List ℕ) → one_byte a b ≡ some bs → length bs ≡ 1
one_byte-length (some a) (some b) bs e = ground arith
one_byte-length a b bs e = ground arith

two_bytes-length : (a b c : Option ℕ) (bs : List ℕ) → two_bytes a b c ≡ some bs → length bs ≡ 2
two_bytes-length (some a) (some b) (some c) bs e = ground arith
two_bytes-length a b c bs e = ground arith

three_bytes-length :
    (a b c d : Option ℕ) (rest : Option (List ℕ)) (bs : List ℕ)
    → three_bytes a b c d rest ≡ some bs
    → (bs' : List ℕ) × (rest ≡ some bs') × (length bs ≡ 3 + length bs')
three_bytes-length (some a) (some b) (some c) (some d) (some bs') bs e = (bs', refl, ground arith)
three_bytes-length a b c d rest bs e = ground arith

size-is_empty : (s : String) (p : Bool) → (p && is_empty s) ≡ true → size s ≡ 0
unfolding size
size-is_empty String.[] p h = refl
size-is_empty (String.◌∷◌ c s) p h = ground arith

group-length :
    (a b c d : Char) (s : String) (rest : Option (List ℕ)) (bs : List ℕ)
    → group a b c d s rest ≡ some bs
    → ((size s ≡ 0) × (1 ≤ length bs) × (length bs ≤ 2))
      ⊎ ((bs' : List ℕ) × (rest ≡ some bs') × (length bs ≡ 3 + length bs'))
unfolding group size
group-length a b c d s rest bs e = elim (Bool-cases (is_pad d && is_empty s)) [
  | inl last ↦ elim (Bool-cases (is_pad c)) [
    | inl p ↦
        let n = one_byte-length (value a) (value b) bs (simp (last, p) at e) in
        inl (size-is_empty s (is_pad d) last, omega arith, omega arith)
    | inr p ↦
        let n = two_bytes-length (value a) (value b) (value c) bs (simp (last, p) at e) in
        inl (size-is_empty s (is_pad d) last, omega arith, omega arith)
  ]
  | inr full ↦
      inr (three_bytes-length (value a) (value b) (value c) (value d) rest bs (simp full at e))
]

-- The text of decoded bytes has four digits for each group of three, the last one rounded up.
pub size-decode : (s : String) (bs : List ℕ) → decode s ≡ some bs → size s ≡ (length bs + 2) / 3 * 4
unfolding decode size
size-decode String.[] bs e = ground arith
size-decode (String.◌∷◌ a (String.◌∷◌ b (String.◌∷◌ c (String.◌∷◌ d s)))) bs e =
    elim (group-length a b c d s (decode s) bs e) [
      | inl (z, l, u) ↦ omega arith
      | inr (bs', r, l) ↦ omega (arith, size-decode s bs' r)
    ]
size-decode s bs e = ground arith
