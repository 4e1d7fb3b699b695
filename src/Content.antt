-- ===== src/Content.antt =====
-- bindings/python/par_runtime/content.py: the constructors of content blocks, and the checks on images.
pub mod Base64
pub mod Checks
pub mod Files
mod Tests
use Prim.Native.Char.{code}
use par.Prelude.{
  ℕ, zero, suc, ◌+◌, ◌*◌, ◌/◌, String, ◌<>◌, Bool, ◌||◌, Option, none, some, List, [], ◌∷◌, eqb,
  ltb, length, if◌then◌else◌, ◌==◌,
}
use par.Python.Int.{ℤ, pos}
use par.Python.Json.{Json, null, str, arr, obj, nil, cons, end, field}
use par.Python.Text.{lower, nat_str, repr_str}
use par.Python.Errors.{Result, ok, fails, image_error, os_error, ◌▹◌}
use par.Content.Base64.{encode, decode}
use par.Content.Base64.Size.{size}

-- `pathlib.Path`: `text` is `str(path)`, `name` its last component.
pub record FilePath : Type 0 where
  pub text : String
  pub name : String

-- `MAX_IMAGE_BYTES`
abbrev pub max_image_bytes : ℕ
max_image_bytes = 5 * 1024 * 1024

-- `media_type in SUPPORTED_IMAGE_MEDIA_TYPES`
abbrev pub is_supported : String → Bool
is_supported t = t == "image/png" || t == "image/jpeg" || t == "image/gif" || t == "image/webp"

abbrev supported : String
supported = "image/gif, image/jpeg, image/png, image/webp"

-- `_MEDIA_TYPES_BY_SUFFIX.get(suffix)`
abbrev pub media_type_of : String → Option String
media_type_of s =
    if s == ".png"
    then some "image/png"
    else if s == ".jpg"
    then some "image/jpeg"
    else if s == ".jpeg"
    then some "image/jpeg"
    else if s == ".gif"
    then some "image/gif"
    else if s == ".webp"
    then some "image/webp"
    else none

abbrev pub optional : Option String → Json
optional none = null
optional (some s) = str s

-- `text`
abbrev pub text_block : String → Json
text_block value = arr (
    cons (str "Text_block")
      (cons (obj (field "text" (str value) (field "cache_control" null end))) nil))

-- The block with which `image_url` and `image_base64` end.
abbrev pub image_block : String → String → String → Option String → Json
image_block kind source media_type detail = arr (
    cons (str "Image_block") (
      cons
        (obj (
          field "source" (arr (cons (str kind) (cons (str source) nil))) (
            field "media_type" (str media_type) (
              field "data" (str "")
                (field "detail" (optional detail) (field "cache_control" null end))))))
        nil))

abbrev pub image_url : String → String → Option String → Json
image_url url media_type detail = image_block "Url" url media_type detail

unfoldable pub check_media_type : String → String → Result String
unfolding repr_str
check_media_type media_type what =
    if is_supported media_type
    then ok media_type
    else fails image_error (
        what
        <> ": unsupported image media type "
        <> repr_str media_type
        <> " (supported: "
        <> supported
        <> ")")

-- `name[name.rfind("."):]`, if there is a dot
abbrev last_dot : String → Option String
last_dot String.[] = none
last_dot (String.◌∷◌ c s) = elim (last_dot s) [
  | some t ↦ some t
  | none ↦ if eqb (code c) b'.' then some (String.◌∷◌ c s) else none
]

-- The dot is neither the first character nor the last.
abbrev proper : Option String → String
proper none = ""
proper (some t) = if t == "." then "" else t

-- `PurePath.suffix`
unfoldable pub suffix : FilePath → String
suffix path = elim path.name [ String.[] ↦ "" | String.◌∷◌ c s ↦ proper (last_dot s) ]

abbrev inferred : FilePath → Option String → Result String
unfolding repr_str
inferred path none = fails image_error (
    "image_file: cannot infer an image media type from "
    <> repr_str path.text
    <> "; pass media_type explicitly (supported: "
    <> supported
    <> ")")
inferred path (some t) = ok t

unfoldable pub file_media_type : FilePath → Option String → Result String
unfolding repr_str suffix lower check_media_type
file_media_type path none = inferred path (media_type_of (lower (suffix path)))
file_media_type path (some t) = check_media_type t "image_file"

-- `handle.read(n)`
abbrev pub first_bytes : ℕ → List ℕ → List ℕ
first_bytes zero bs = []
first_bytes (suc n) [] = []
first_bytes (suc n) (b ∷ bs) = b ∷ first_bytes n bs

-- The checks on what was read.
abbrev check_raw : FilePath → ℕ → List ℕ → Result (List ℕ)
unfolding repr_str nat_str
check_raw path max_bytes [] =
    fails image_error ("image_file: " <> repr_str path.text <> " is empty")
check_raw path max_bytes raw =
    if ltb max_bytes (length raw)
    then fails image_error (
        "image_file: "
        <> repr_str path.text
        <> " is over the "
        <> nat_str max_bytes
        <> "-byte image limit")
    else ok raw

-- The bytes of the file, one more than the limit at most; `none` is a file that cannot be read.
unfoldable pub read_raw : FilePath → ℕ → Option (List ℕ) → Result (List ℕ)
unfolding repr_str nat_str
read_raw path max_bytes none = fails os_error "cannot read the file"
read_raw path max_bytes (some bs) = check_raw path max_bytes (first_bytes (max_bytes + 1) bs)

-- `_check_max_bytes`; the number that it accepts is positive.
unfoldable pub check_max_bytes : ℤ → String → Result ℕ
check_max_bytes (pos (suc n)) what = ok (suc n)
check_max_bytes z what = fails image_error (what <> ": max_bytes must be positive")

abbrev limit_message : String → String → ℕ → ℕ → String
unfolding nat_str
limit_message what subject n max_bytes =
    what
    <> ": "
    <> subject
    <> " is "
    <> nat_str n
    <> " bytes, over the "
    <> nat_str max_bytes
    <> "-byte image limit"

-- `binascii_error s` is the text of the exception that `b64decode` raises on `s`.
module _ (binascii_error : String → String) where
  -- The checks on what was decoded.
  abbrev check_decoded : String → ℕ → String → Option (List ℕ) → Result (List ℕ)
  unfolding nat_str
  check_decoded payload max_bytes what none =
      fails image_error (what <> ": not valid base64: " <> binascii_error payload)
  check_decoded payload max_bytes what (some []) = fails image_error (what <> ": empty image data")
  check_decoded payload max_bytes what (some bs) =
      if ltb max_bytes (length bs)
      then fails image_error (limit_message what "decoded image" (length bs) max_bytes)
      else ok bs

  unfoldable pub decode_base64 : String → ℕ → String → Result (List ℕ)
  unfolding size decode nat_str
  decode_base64 payload max_bytes what =
      if ltb ((max_bytes + 2) / 3 * 4) (size payload)
      then fails image_error (limit_message what "encoded data" (size payload) max_bytes)
      else check_decoded payload max_bytes what (decode payload)

  unfoldable pub image_base64 : String → String → Option String → ℤ → Result Json
  unfolding check_max_bytes decode_base64 check_media_type
  image_base64 payload media_type detail max_bytes = check_max_bytes max_bytes "image_base64" ▹ λ n.
      decode_base64 payload n "image_base64" ▹ λ bs.
      check_media_type media_type "image_base64" ▹ λ t.
      ok (image_block "Base64" payload media_type detail)

  -- `on_disk` is what the file system has under a path.
  unfoldable pub image_file :
      (FilePath → Option (List ℕ)) → FilePath → Option String → Option String → ℤ → Result Json
  unfolding check_max_bytes file_media_type read_raw encode image_base64
  image_file on_disk path media_type detail max_bytes =
      check_max_bytes max_bytes "image_file" ▹ λ n. file_media_type path media_type ▹ λ t.
      read_raw path n (on_disk path) ▹ λ raw. image_base64 (encode raw) t detail (pos n)
