-- ===== src/Accounts/Login.antt =====
-- Logins of players in backend/app/routers/player_auth.py: `player_login` and
-- `_start_player_session`, with the limit on failures.
pub mod Limit
use Prim.Native.String.{◌++◌}
use stranger_club.Base.{
  ℕ, ◌+◌, ◌*◌, String, Bool, not, ◌||◌, Option, none, some, ◌==◌, leb, str_eq, if◌then◌else◌,
}
use stranger_club.Db.Query.{Table, get, insert, update, count_where, delete_where}
use stranger_club.Exec.{
  Error, api_error, Result, ok, err, integrity_error, runtime_error, Exec, pure, or_raise, gets,
  require, modify, commit, ◌>>=◌, ◌>>◌, run,
}
use stranger_club.RateLimit.{
  Buckets, rate_limited, peek_rate_limit, record_rate_limit_attempt, reset_rate_limit,
}
use stranger_club.Access.{LoginSession}
use stranger_club.Accounts.{Account, Accounts, Hashing}
use stranger_club.Accounts.Passwords.{authenticate_player}

-- PLAYER_LOGIN_FAILURE_LIMIT; the window in microseconds
abbrev pub login_failure_limit : ℕ
login_failure_limit = 8

abbrev pub login_failure_window : ℕ
login_failure_window = 900 * 1000000

-- PLAYER_SESSION_DAYS, by its default
abbrev pub player_session_time : ℕ
player_session_time = 30 * 86400 * 1000000

-- What a request brings and draws for the session that it starts: the hash of the cookie that the
-- client sent, if it sent one, the hash of the new token, and the new CSRF token.
pub record Cookies : Type 0 where
  pub existing : Option String
  pub token_hash : String
  pub csrf_token : String

abbrev pub has_token : String → LoginSession → Bool
has_token hash s = str_eq s.token_hash hash

-- `DELETE FROM player_sessions WHERE token_hash = ...`, if the client sent a cookie
abbrev pub end_session : Option String → Table LoginSession → Table LoginSession
end_session none t = t
end_session (some hash) t = delete_where (has_token hash) t

unfoldable pub new_session : ℕ → ℕ → Cookies → LoginSession
new_session now id c = record {
  token_hash = c.token_hash;
  account = id;
  csrf_token = c.csrf_token;
  expires_at = now + player_session_time;
  last_seen_at = now;
}

-- `_start_player_session`; its answer is the CSRF token.
unfoldable pub start_player_session : ℕ → ℕ → Cookies → Exec Accounts String
start_player_session now id c = do
  user? ← gets (λ d. get d.users id)
  or_raise user? runtime_error
  modify (λ d. record d { sessions = end_session c.existing d.sessions })
  same ← gets (λ d. count_where (has_token c.token_hash) d.sessions)
  require (same == 0) integrity_error
  modify (λ d. record d { sessions = insert d.sessions (new_session now id c) })
  commit
  pure c.csrf_token

-- Whether the database answers each call of the rate limiter.
pub record LimiterUp : Type 0 where
  pub peek : Bool
  pub record_attempt : Bool
  pub reset : Bool

abbrev pub invalid_credentials : Error
invalid_credentials = api_error 401 "INVALID_CREDENTIALS"

-- Whether the failures that are counted close the login, which an unavailable limiter does too.
unfoldable pub login_is_closed : LimiterUp → ℕ → String → Buckets → Bool
login_is_closed up now key buckets =
    not up.peek || leb login_failure_limit (peek_rate_limit now key login_failure_window buckets)

unfoldable pub after_failure : LimiterUp → ℕ → String → Buckets → Buckets
after_failure up now key buckets =
    if up.record_attempt
    then record_rate_limit_attempt now key login_failure_window buckets
    else buckets

unfoldable pub after_success : LimiterUp → String → Buckets → Buckets
after_success up key buckets = if up.reset then reset_rate_limit key buckets else buckets

-- A login: who it is, unless the limiter refuses to look.
unfoldable pub limited_login {ℓ} :
    {A : Type ℓ} → LimiterUp → ℕ → String → Option A → Buckets → Result A × Buckets
limited_login up now key found buckets =
    if login_is_closed up now key buckets then (err rate_limited, buckets) else elim found [
      | none ↦ (err invalid_credentials, after_failure up now key buckets)
      | some a ↦ (ok a, after_success up key buckets)
    ]

abbrev pub player_key : String → String
player_key client = "player_login:" ++ client

-- The part of `player_login` after the password has been accepted.
unfoldable pub finish_login : ℕ → ℕ → Cookies → Exec Accounts String
finish_login now id c = do
  user? ← gets (λ d. get d.users id)
  user ← or_raise user? runtime_error
  modify (λ d. record d { users = update d.users id (record user { last_login_at = some now }) })
  commit
  start_player_session now id c

abbrev pub finished : ℕ → Cookies → Result ℕ → Accounts → Result String × Accounts
finished now c (err e) d = (err e, d)
finished now c (ok id) d = run (finish_login now id c) d

unfoldable pub player_login :
    Hashing
    → LimiterUp
    → ℕ
    → (client email password : String) → Cookies
    → Accounts
    → Buckets
    → Result String × Accounts × Buckets
player_login h up now client email password c d buckets =
    let (who, buckets') =
      limited_login up now (player_key client) (authenticate_player h email password d) buckets in
    let (answer, d') = finished now c who d in (answer, d', buckets')
