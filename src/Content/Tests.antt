-- ===== src/Content/Tests.antt =====
-- Examples of image blocks.
use par.Prelude.{ℕ, String, ◌≡◌, ◌≤◌, refl, true, Option, none, some, List, [], ◌∷◌, length, arith}
use par.Python.Int.{pos}
use par.Python.Text.{lower}
use par.Python.Errors.{ok}
use par.Content.Base64.{encode, decode}
use par.Content.Base64.RoundTrip.{AreBytes}
use par.Content.{FilePath, is_supported, image_block, file_media_type, image_file, suffix}
use par.Content.Files.{image_file_accepts, image_file_ok}

abbrev bytes : List ℕ
bytes = 77 ∷ 97 ∷ 110 ∷ 33 ∷ []

encode-bytes : (encode bytes ≡ "TWFuIQ==") × (decode "TWF=IQ==" ≡ none)
unfolding encode decode
encode-bytes = (refl, refl)

abbrev explain : String → String
explain s = "Incorrect padding"

bytes-AreBytes : AreBytes bytes
bytes-AreBytes = ground arith

abbrev photo : FilePath
photo = record { text = "a/photo.JPG"; name = "photo.JPG" }

abbrev disk : FilePath → Option (List ℕ)
disk path = some bytes

photo_type : file_media_type photo none ≡ ok "image/jpeg"
unfolding file_media_type suffix lower
photo_type = refl

image_file_accepts_example :
    image_file explain disk photo none (some "low") (pos 4)
    ≡ ok (image_block "Base64" (encode bytes) "image/jpeg" (some "low"))
image_file_accepts_example =
    image_file_accepts explain disk photo none (some "low") 4 bytes "image/jpeg" refl bytes-AreBytes
      (omega arith) (omega arith) photo_type

image_file_ok_example :
    (n : ℕ) × (bs : List ℕ) × (t : String) × (pos 4 ≡ pos n)
    × (disk photo ≡ some bs)
    × (1 ≤ length bs)
    × (length bs ≤ n)
    × (is_supported t ≡ true)
    × (image_block "Base64" (encode bytes) "image/jpeg" (some "low")
        ≡ image_block "Base64" (encode bs) t (some "low"))
image_file_ok_example =
    image_file_ok explain disk photo none (some "low") (pos 4)
      (image_block "Base64" (encode bytes) "image/jpeg" (some "low")) image_file_accepts_example
