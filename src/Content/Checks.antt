-- ===== src/Content/Checks.antt =====
-- Which images `image_base64` accepts.
use par.Prelude.{
  ℕ, zero, suc, ◌+◌, ◌*◌, ◌/◌, ◌≤◌, ◌≡◌, refl, String, true, false, inl, inr, Option, none, some,
  List, [], ◌∷◌, arith, ltb, length, Bool-cases,
}
use par.Python.Int.{ℤ, pos}
use par.Python.Json.{Json}
use par.Python.Errors.{ok, Result-cases}
use par.Content.Base64.{decode}
use par.Content.Base64.Size.{size, size-decode}
use par.Content.{
  is_supported, image_block, check_media_type, check_max_bytes, decode_base64, check_decoded,
  image_base64,
}

pub check_media_type_ok :
    (t what s : String) → check_media_type t what ≡ ok s → (is_supported t ≡ true) × (s ≡ t)
unfolding check_media_type
check_media_type_ok t what s e = ground arith

pub check_max_bytes_ok :
    (z : ℤ) (what : String) (n : ℕ) → check_max_bytes z what ≡ ok n → (z ≡ pos n) × (1 ≤ n)
unfolding check_max_bytes
check_max_bytes_ok (pos (suc n)) what m e = ground arith
check_max_bytes_ok z what n e = ground arith

pub check_max_bytes-pos : (n : ℕ) (what : String) → 1 ≤ n → check_max_bytes (pos n) what ≡ ok n
unfolding check_max_bytes
check_max_bytes-pos zero what h = absurd (omega arith)
check_max_bytes-pos (suc n) what h = refl

module _ (binascii_error : String → String) where
  check_decoded_ok :
      (s what : String) (n : ℕ) (o : Option (List ℕ)) (bs : List ℕ)
      → check_decoded binascii_error s n what o ≡ ok bs
      → (o ≡ some bs) × (1 ≤ length bs) × (length bs ≤ n)
  unfolding check_decoded
  check_decoded_ok s what n none bs e = ground arith
  check_decoded_ok s what n (some []) bs e = ground arith
  check_decoded_ok s what n (some (c ∷ cs)) bs e = ground arith

  check_decoded-some :
      (s what : String) (n : ℕ) (bs : List ℕ)
      → 1 ≤ length bs
      → length bs ≤ n
      → check_decoded binascii_error s n what (some bs) ≡ ok bs
  unfolding check_decoded
  check_decoded-some s what n [] l u = absurd (omega arith)
  check_decoded-some s what n (c ∷ cs) l u = ground arith

  decode_base64_ok :
      (s what : String) (n : ℕ) (bs : List ℕ)
      → decode_base64 binascii_error s n what ≡ ok bs
      → (decode s ≡ some bs) × (1 ≤ length bs) × (length bs ≤ n)
  unfolding decode_base64
  decode_base64_ok s what n bs e = elim (Bool-cases (ltb ((n + 2) / 3 * 4) (size s))) [
    | inl t ↦ absurd (cc (simp t at e))
    | inr f ↦ check_decoded_ok s what n (decode s) bs (simp f at e)
  ]

  pub decode_base64_accepts :
      (s what : String) (n : ℕ) (bs : List ℕ)
      → decode s ≡ some bs
      → 1 ≤ length bs
      → length bs ≤ n
      → decode_base64 binascii_error s n what ≡ ok bs
  unfolding decode_base64
  decode_base64_accepts s what n bs d l u =
      let fits : ltb ((n + 2) / 3 * 4) (size s) ≡ false = ground (arith, size-decode s bs d) in
      simp (fits, d) (check_decoded-some s what n bs l u)

  pub image_base64_ok :
      (s t : String) (detail : Option String) (z : ℤ) (v : Json)
      → image_base64 binascii_error s t detail z ≡ ok v
      → (n : ℕ) × (bs : List ℕ) × (z ≡ pos n)
        × (decode s ≡ some bs)
        × (1 ≤ length bs)
        × (length bs ≤ n)
        × (is_supported t ≡ true)
        × (v ≡ image_block "Base64" s t detail)
  unfolding image_base64
  image_base64_ok s t detail z v e = elim (Result-cases (check_max_bytes z "image_base64")) [
    | inr (x, m) ↦ absurd (cc (simp m at e))
    | inl (n, m) ↦ elim (Result-cases (decode_base64 binascii_error s n "image_base64")) [
      | inr (x, d) ↦ absurd (cc (simp (m, d) at e))
      | inl (bs, d) ↦ elim (Result-cases (check_media_type t "image_base64")) [
        | inr (x, c) ↦ absurd (cc (simp (m, d, c) at e))
        | inl (u, c) ↦
            let k = decode_base64_ok s "image_base64" n bs d in
            (
              n,
              bs,
              (check_max_bytes_ok z "image_base64" n m).0,
              k.0,
              k.1,
              k.2,
              (check_media_type_ok t "image_base64" u c).0,
              cc (simp (m, d, c) at e),
            )
      ]
    ]
  ]

  -- `image_base64` accepts every text that is base64 of at least one byte and of no more than the
  -- limit, with a supported media type.
  pub image_base64_accepts :
      (s t : String) (detail : Option String) (n : ℕ) (bs : List ℕ)
      → decode s ≡ some bs
      → 1 ≤ length bs
      → length bs ≤ n
      → is_supported t ≡ true
      → image_base64 binascii_error s t detail (pos n) ≡ ok (image_block "Base64" s t detail)
  unfolding image_base64 check_media_type
  image_base64_accepts s t detail n bs d l u h =
      simp
        (
          check_max_bytes-pos n "image_base64" (omega arith),
          decode_base64_accepts s "image_base64" n bs d l u,
          h,
        )
        refl
