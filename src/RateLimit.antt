-- ===== src/RateLimit.antt =====
-- The fixed-window rate limiter of backend/app/rate_limit.py: one bucket for each key, kept in the
-- table `rate_limit_buckets`. The database may be unavailable, which `up` says.
pub mod Window
use stranger_club.Base.{
  ℕ, suc, ◌+◌, String, Bool, true, false, Option, none, some, leb, str_eq, if◌then◌else◌,
}
use stranger_club.Exec.{Error, api_error, Result, ok, err}

pub record Bucket : Type 0 where
  pub window_start : ℕ
  pub count : ℕ

abbrev pub Buckets : Type 0
Buckets = String → Option Bucket

abbrev pub write_bucket : String → Option Bucket → Buckets → Buckets
write_bucket key bucket buckets = λ k. if str_eq k key then bucket else buckets k

-- `window_start <= now - window`, which datetimes compare below zero too
abbrev pub has_expired : ℕ → ℕ → Bucket → Bool
has_expired now window b = leb (b.window_start + window) now

-- The row that the upsert leaves.
unfoldable pub upserted : ℕ → ℕ → Option Bucket → Bucket
upserted now window none = record { window_start = now; count = 1 }
upserted now window (some b) =
    if has_expired now window b
    then record { window_start = now; count = 1 }
    else record b { count = suc b.count }

abbrev pub rate_limited : Error
rate_limited = api_error 429 "RATE_LIMITED"

-- `_increment`: the new count, if the database is up
unfoldable pub increment : Bool → ℕ → String → ℕ → Buckets → Option ℕ × Buckets
increment false now key window buckets = (none, buckets)
increment true now key window buckets =
    let bucket = upserted now window (buckets key) in
    (some bucket.count, write_bucket key (some bucket) buckets)

unfoldable pub limit_answer : ℕ → Option ℕ → Result (Unit {0})
limit_answer limit none = err rate_limited
limit_answer limit (some count) = if leb count limit then ok tt else err rate_limited

unfoldable pub enforce_rate_limit :
    Bool → ℕ → String → (limit window : ℕ) → Buckets → Result (Unit {0}) × Buckets
enforce_rate_limit up now key limit window buckets =
    let (count, after) = increment up now key window buckets in (limit_answer limit count, after)

abbrev bucket_count : ℕ → ℕ → Option Bucket → ℕ
bucket_count now window none = 0
bucket_count now window (some b) = if has_expired now window b then 0 else b.count

-- `peek_rate_limit_db` on a database that is up
unfoldable pub peek_rate_limit : ℕ → String → ℕ → Buckets → ℕ
peek_rate_limit now key window buckets = bucket_count now window (buckets key)

unfoldable pub record_rate_limit_attempt : ℕ → String → ℕ → Buckets → Buckets
unfolding increment
record_rate_limit_attempt now key window buckets = (increment true now key window buckets).1

unfoldable pub reset_rate_limit : String → Buckets → Buckets
reset_rate_limit key buckets = write_bucket key none buckets
