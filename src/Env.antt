-- ===== src/Env.antt =====
-- What a request takes from outside the program: the clock, fresh random names, the object
-- store, the image decoder and the hash. None of it is defined here; each handler takes it as an
-- argument.
use stranger_club.Base.{ℕ, String, Bool, List, Option}

pub record Env : Type 0 where
  -- `now_ist()`
  pub now : ℕ
  -- `uuid.uuid4().hex`
  pub uuid : String
  -- whether `storage.put` succeeds
  pub storage_up : Bool

-- Pillow and hashlib: the format that decoding the bytes finds, and their SHA-256.
pub record Imaging : Type 0 where
  pub decode : List ℕ → Option String
  pub sha256 : List ℕ → String

-- `UploadFile`, with the lower-cased suffix of its file name.
pub record Upload : Type 0 where
  pub suffix : String
  pub content_type : Option String
  pub content : List ℕ
