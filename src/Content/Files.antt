-- ===== src/Content/Files.antt =====
-- Which files `image_file` accepts.
use par.Prelude.{
  ℕ, zero, suc, ◌+◌, ◌≤◌, ◌≡◌, refl, ◌∙◌, ap, sym, String, Bool, true, false, inl, inr, Option,
  none, some, List, [], ◌∷◌, arith, length, if◌then◌else◌, ◌==◌,
}
use par.Python.Int.{ℤ, pos}
use par.Python.Json.{Json}
use par.Python.Errors.{ok, Result-cases}
use par.Content.Base64.{encode}
use par.Content.Base64.RoundTrip.{AreBytes, decode-encode}
use par.Content.{
  FilePath, is_supported, image_block, check_max_bytes, file_media_type, inferred, media_type_of,
  first_bytes, check_raw, read_raw, image_file, suffix,
}
use par.Python.Text.{lower}
use par.Content.Checks.{
  check_media_type_ok, check_max_bytes_ok, check_max_bytes-pos, image_base64_ok,
  image_base64_accepts,
}

abbrev Supports : Option String → Type 0
Supports none = Unit
Supports (some t) = is_supported t ≡ true

Supports-if :
    (b : Bool) (o p : Option String) → Supports o → Supports p → Supports (if b then o else p)
Supports-if true o p so sp = so
Supports-if false o p so sp = sp

media_type_of-Supports : (s : String) → Supports (media_type_of s)
media_type_of-Supports s = Supports-if (s == ".png") _ _ refl (
    Supports-if (s == ".jpg") _ _ refl (
      Supports-if (s == ".jpeg") _ _ refl
        (Supports-if (s == ".gif") _ _ refl (Supports-if (s == ".webp") _ _ refl tt))))

inferred-supported :
    (path : FilePath) (o : Option String) (t : String)
    → Supports o
    → inferred path o ≡ ok t
    → is_supported t ≡ true
unfolding inferred
inferred-supported path none t s e = ground arith
inferred-supported path (some u) t s e = ground arith

-- A file's media type, given or inferred, is always a supported one.
pub file_media_type-supported :
    (path : FilePath) (o : Option String) (t : String)
    → file_media_type path o ≡ ok t
    → is_supported t ≡ true
unfolding file_media_type
file_media_type-supported path (some u) t e =
    let k = check_media_type_ok u "image_file" t e in cc (k.0, k.1)
file_media_type-supported path none t e =
    inferred-supported path (media_type_of (lower (suffix path))) t
      (media_type_of-Supports (lower (suffix path))) e

-- A file that is read whole, one byte past the limit at most, is within the limit if what was read is.
first_bytes_lem :
    (n : ℕ) (bs : List ℕ) → length (first_bytes (suc n) bs) ≤ n → first_bytes (suc n) bs ≡ bs
first_bytes_lem n [] h = refl
first_bytes_lem zero (b ∷ bs) h = absurd (omega arith)
first_bytes_lem (suc n) (b ∷ bs) h = ap (λ cs. b ∷ cs) (first_bytes_lem n bs (omega arith))

first_bytes-short : (n : ℕ) (bs : List ℕ) → length bs ≤ n → first_bytes n bs ≡ bs
first_bytes-short zero [] h = refl
first_bytes-short (suc n) [] h = refl
first_bytes-short zero (b ∷ bs) h = absurd (omega arith)
first_bytes-short (suc n) (b ∷ bs) h = ap (λ cs. b ∷ cs) (first_bytes-short n bs (omega arith))

check_raw_ok :
    (path : FilePath) (n : ℕ) (raw bs : List ℕ)
    → check_raw path n raw ≡ ok bs
    → (bs ≡ raw) × (1 ≤ length raw) × (length raw ≤ n)
unfolding check_raw
check_raw_ok path n [] bs e = ground arith
check_raw_ok path n (c ∷ cs) bs e = ground arith

check_raw-fits :
    (path : FilePath) (n : ℕ) (raw : List ℕ)
    → 1 ≤ length raw
    → length raw ≤ n
    → check_raw path n raw ≡ ok raw
unfolding check_raw
check_raw-fits path n [] l u = absurd (omega arith)
check_raw-fits path n (c ∷ cs) l u = ground arith

read_raw_ok :
    (path : FilePath) (n : ℕ) (o : Option (List ℕ)) (raw : List ℕ)
    → read_raw path n o ≡ ok raw
    → (o ≡ some raw) × (1 ≤ length raw) × (length raw ≤ n)
unfolding read_raw
read_raw_ok path n none raw e = ground arith
read_raw_ok path n (some bs) raw e =
    let one : n + 1 ≡ suc n = omega arith in
    let k = check_raw_ok path n (first_bytes (suc n) bs) raw (rw one at e) in
    let whole : first_bytes (suc n) bs ≡ bs = first_bytes_lem n bs k.2 in
    (ap (λ cs. some cs) (sym (k.0 ∙ whole)), rw (k.0) k.1, rw (k.0) k.2)

read_raw-fits :
    (path : FilePath) (n : ℕ) (bs : List ℕ)
    → 1 ≤ length bs
    → length bs ≤ n
    → read_raw path n (some bs) ≡ ok bs
unfolding read_raw
read_raw-fits path n bs l u =
    rw (first_bytes-short (n + 1) bs (omega arith)) (check_raw-fits path n bs l u)

module _ (binascii_error : String → String) where
  -- A file that can be read, with at least one byte and no more than the limit, and with a supported media
  -- type, given or inferred from its suffix, becomes an image block that holds its base64: the checks of
  -- `image_base64` refuse nothing that `image_file` has encoded.
  pub image_file_accepts :
      (on_disk : FilePath → Option (List ℕ)) (path : FilePath) (media_type detail : Option String)
      (n : ℕ) (bs : List ℕ) (t : String)
      → on_disk path ≡ some bs
      → AreBytes bs
      → 1 ≤ length bs
      → length bs ≤ n
      → file_media_type path media_type ≡ ok t
      → image_file binascii_error on_disk path media_type detail (pos n)
        ≡ ok (image_block "Base64" (encode bs) t detail)
  unfolding image_file
  image_file_accepts on_disk path media_type detail n bs t found bytes l u typed =
      simp
        (
          check_max_bytes-pos n "image_file" (omega arith),
          typed,
          found,
          read_raw-fits path n bs l u,
        )
        (image_base64_accepts binascii_error (encode bs) t detail n bs (decode-encode bs bytes) l u
          (file_media_type-supported path media_type t typed))

  -- An image block comes from `image_file` only if the file could be read and holds at least one byte and no
  -- more than the limit; the block then holds the base64 of the whole file under a supported media type.
  pub image_file_ok :
      (on_disk : FilePath → Option (List ℕ)) (path : FilePath) (media_type detail : Option String)
      (z : ℤ) (v : Json)
      → image_file binascii_error on_disk path media_type detail z ≡ ok v
      → (n : ℕ) × (bs : List ℕ) × (t : String) × (z ≡ pos n)
        × (on_disk path ≡ some bs)
        × (1 ≤ length bs)
        × (length bs ≤ n)
        × (is_supported t ≡ true)
        × (v ≡ image_block "Base64" (encode bs) t detail)
  unfolding image_file
  image_file_ok on_disk path media_type detail z v e =
      elim (Result-cases (check_max_bytes z "image_file")) [
        | inr (x, m) ↦ absurd (cc (simp m at e))
        | inl (n, m) ↦ elim (Result-cases (file_media_type path media_type)) [
          | inr (x, c) ↦ absurd (cc (simp (m, c) at e))
          | inl (t, c) ↦ elim (Result-cases (read_raw path n (on_disk path))) [
            | inr (x, r) ↦ absurd (cc (simp (m, c, r) at e))
            | inl (bs, r) ↦
                let k = read_raw_ok path n (on_disk path) bs r in
                let i =
                  image_base64_ok binascii_error (encode bs) t detail (pos n) v
                    (simp (m, c, r) at e) in
                (n, bs, t, (check_max_bytes_ok z "image_file" n m).0, k.0, k.1, k.2, i.6, i.7)
          ]
        ]
      ]
