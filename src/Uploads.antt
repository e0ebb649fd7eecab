-- ===== src/Uploads.antt =====
-- `read_and_validate_image`, `persist_image` and `validate_utr` of backend/app/services.py.
pub mod Utr
pub mod Ends
use stranger_club.Base.{
  ℕ, suc, ◌*◌, ◌+◌, String, Bool, true, false, ◌&&◌, ◌||◌, Option, none, some, List, [], ◌∷◌, leb,
  str_eq, if◌then◌else◌,
}
use Prim.Native.String.{◌++◌}
use stranger_club.Db.{Db}
use stranger_club.Env.{Env, Imaging, Upload}
use stranger_club.Exec.{Error, api_error, Exec, pure, raise, or_raise, require, ◌>>=◌, ◌>>◌}

abbrev pub max_upload_bytes : ℕ
max_upload_bytes = 5 * 1024 * 1024

abbrev pub qr_max_upload_bytes : ℕ
qr_max_upload_bytes = 2 * 1024 * 1024

abbrev one_of : String → List String → Bool
one_of s [] = false
one_of s (t ∷ ts) = str_eq s t || one_of s ts

abbrev has_type : Option String → List String → Bool
has_type none ts = false
has_type (some s) ts = one_of s ts

abbrev pub byte_length : List ℕ → ℕ
byte_length [] = 0
byte_length (b ∷ bs) = suc (byte_length bs)

-- ALLOWED_FORMATS: the extension and the content type of a format.
unfoldable pub allowed_formats : String → Option (String × String)
allowed_formats f =
    if str_eq f "JPEG"
    then some (".jpg", "image/jpeg")
    else if str_eq f "PNG"
    then some (".png", "image/png")
    else if str_eq f "WEBP"
    then some (".webp", "image/webp")
    else none

pub record Image : Type 0 where
  pub content : List ℕ
  pub digest : String
  pub content_type : String
  pub extension : String

abbrev pub invalid_upload : Error
invalid_upload = api_error 400 "INVALID_UPLOAD"

-- `upload.read(max_bytes + 1)` gives a longer file cut to `max_bytes + 1` bytes, which is refused.
unfoldable pub read_and_validate_image : Imaging → Upload → ℕ → Exec Db Image
unfolding allowed_formats
read_and_validate_image imaging upload max_bytes = do
  require
      (one_of upload.suffix (".jpg" ∷ ".jpeg" ∷ ".png" ∷ ".webp" ∷ [])
        && has_type upload.content_type ("image/jpeg" ∷ "image/png" ∷ "image/webp" ∷ []))
      invalid_upload
  require (leb (byte_length upload.content) max_bytes) (api_error 413 "UPLOAD_TOO_LARGE")
  image_format ← or_raise (imaging.decode upload.content) invalid_upload
  (extension, content_type) ← or_raise (allowed_formats image_format) invalid_upload
  pure (record {
    content = upload.content;
    digest = imaging.sha256 upload.content;
    content_type = content_type;
    extension = extension;
  })

-- The key is a fresh random name with the format's extension; nothing of the request is in it.
-- `storage.put` may raise StorageUnavailableError, which the router answers with a 503.
unfoldable pub persist_image : Env → Image → Exec Db String
persist_image env image = do
  require env.storage_up (api_error 503 "STORAGE_UNAVAILABLE")
  pure (env.uuid ++ image.extension)
