-- ===== src/RateLimit/Window.antt =====
-- What the limiter counts within one window.
use stranger_club.Base.{
  ℕ, suc, ◌+◌, ◌-◌, ◌<◌, ◌≡◌, refl, String, true, false, Option, none, some, List, [], ◌∷◌, leb,
  str_eq, eq_iff, if◌then◌else◌, arith,
}
use stranger_club.Exec.{Result, ok, err}
use stranger_club.RateLimit.{
  Bucket, Buckets, write_bucket, upserted, increment, limit_answer, enforce_rate_limit,
  peek_rate_limit, record_rate_limit_attempt, reset_rate_limit,
}

abbrev accepted : Result (Unit {0}) → ℕ
accepted (ok u) = 1
accepted (err e) = 0

-- How many requests of one key get through, made at these times.
unfoldable pub accepted_count : String → (limit window : ℕ) → List ℕ → Buckets → ℕ
accepted_count key limit window [] buckets = 0
accepted_count key limit window (now ∷ times) buckets =
    let rest =
      accepted_count key limit window times
        (enforce_rate_limit true now key limit window buckets).1 in
    accepted (enforce_rate_limit true now key limit window buckets).0 + rest

-- All times lie within the window that began at `start`.
abbrev pub AllWithin : ℕ → ℕ → List ℕ → Type 0
AllWithin start window [] = Unit
AllWithin start window (now ∷ times) = (now < start + window) × AllWithin start window times

str_eq_self : (s : String) → str_eq s s ≡ true
str_eq_self s = (eq_iff s s).1 refl

pub own_bucket :
    (key : String) (b : Option Bucket) (buckets : Buckets) → write_bucket key b buckets key ≡ b
own_bucket key b buckets = rw (str_eq_self key) refl

abbrev pub fewer : ℕ → ℕ → ℕ
fewer a b = if leb a b then a else b

abbrev pub number : List ℕ → ℕ
number [] = 0
number (t ∷ ts) = suc (number ts)

pub counted :
    (now window : ℕ) (o : Option Bucket) (b : Bucket)
    → o ≡ some b
    → now < b.window_start + window
    → upserted now window o ≡ record b { count = suc b.count }
unfolding upserted
counted now window o b e within = rw e (ground arith)

-- Within a window whose bucket has counted `c` requests, `limit - c` more get through.
within-count :
    (key : String) (limit window start : ℕ) (times : List ℕ) (buckets : Buckets) (b : Bucket)
    → buckets key ≡ some b
    → b.window_start ≡ start
    → AllWithin start window times
    → accepted_count key limit window times buckets ≡ fewer (limit - b.count) (number times)
unfolding accepted_count enforce_rate_limit increment limit_answer
within-count key limit window start [] buckets b e s h = ground arith
within-count key limit window start (now ∷ times) buckets b e s h =
    let after = record b { count = suc b.count } in
    let ih =
      within-count key limit window start times (write_bucket key (some after) buckets) after
        (own_bucket key (some after) buckets) s h.1 in
    rw (counted now window (buckets key) b e (ground (arith, h.0))) (ground (arith, ih))

-- When a key has no bucket, of the requests that are made within one window of the first exactly
-- `limit` get through, or all if there are fewer.
pub accepted_count_lem :
    (key : String) (limit window start : ℕ) (times : List ℕ) (buckets : Buckets)
    → buckets key ≡ none
    → AllWithin start window times
    → accepted_count key limit window (start ∷ times) buckets ≡ fewer limit (suc (number times))
unfolding accepted_count enforce_rate_limit increment limit_answer upserted
accepted_count_lem key limit window start times buckets e h =
    let first : Bucket = record { window_start = start; count = 1 } in
    let ih =
      within-count key limit window start times (write_bucket key (some first) buckets) first
        (own_bucket key (some first) buckets) refl h in
    rw e (ground (arith, ih))

-- A failed login that is recorded is the one that the next peek counts, at the same time and for a
-- window that is not empty: the count goes up by one, a reset sets it to zero, and neither changes
-- the count of another key.
pub peek-record :
    (now : ℕ) (key other : String) (window : ℕ) (buckets : Buckets)
    → 0 < window
    → str_eq other key ≡ false
    → (peek_rate_limit now key window (record_rate_limit_attempt now key window buckets)
        ≡ suc (peek_rate_limit now key window buckets))
      × (peek_rate_limit now key window (reset_rate_limit key buckets) ≡ 0)
      × (peek_rate_limit now other window (record_rate_limit_attempt now key window buckets)
          ≡ peek_rate_limit now other window buckets)
      × (peek_rate_limit now other window (reset_rate_limit key buckets)
          ≡ peek_rate_limit now other window buckets)
unfolding peek_rate_limit record_rate_limit_attempt reset_rate_limit increment upserted
peek-record now key other window buckets positive differ =
    (rw (str_eq_self key) (ground arith), rw (str_eq_self key) refl, rw differ refl, rw differ refl)
