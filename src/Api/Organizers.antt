-- ===== src/Api/Organizers.antt =====
-- `login` and `logout` of organizers in backend/app/routers/auth.py.
pub mod Opened
use Prim.Native.String.{◌++◌}
use stranger_club.Base.{
  ℕ, ◌+◌, ◌*◌, String, Bool, true, false, Option, none, some, ◌&&◌, ◌==◌, str_eq, if◌then◌else◌,
}
use stranger_club.Db.Query.{Table, get, insert, count_where, first_where, delete_where}
use stranger_club.Exec.{Result, ok, err, integrity_error}
use stranger_club.RateLimit.{Buckets, rate_limited}
use stranger_club.Access.{LoginSession, auth_context, require_csrf}
use stranger_club.Accounts.{Hashing}
use stranger_club.Accounts.Login.{
  LimiterUp, has_token, invalid_credentials, login_is_closed, after_failure, after_success,
}
use stranger_club.Api.{
  active_organizers, OrganizerAccount, Server, Endpoint, Credentials, check, organizer_of,
}

-- SESSION_HOURS, by its default, in microseconds
abbrev pub session_time : ℕ
session_time = 12 * 3600 * 1000000

abbrev pub is_named : String → OrganizerAccount → Bool
is_named username a = str_eq a.username username

abbrev pub accepted :
    Hashing → String → Option (ℕ × OrganizerAccount) → Option (ℕ × OrganizerAccount)
accepted h password none = none
accepted h password (some (id, a)) =
    if a.is_active && h.verify a.password_hash password then some (id, a) else none

-- The organizer whom a username and a password name.
unfoldable pub authenticate_organizer :
    Hashing → String → String → Table OrganizerAccount → Option (ℕ × OrganizerAccount)
authenticate_organizer h username password t =
    accepted h password (first_where (is_named username) t)

unfoldable pub new_organizer_session : ℕ → ℕ → String → String → LoginSession
new_organizer_session now id token_hash csrf = record {
  token_hash = token_hash;
  account = id;
  csrf_token = csrf;
  expires_at = now + session_time;
  last_seen_at = now;
}

abbrev pub with_buckets : Server → Buckets → Server
with_buckets server buckets = record server { site = record server.site { buckets = buckets } }

-- The session of an organizer who has been named, under the unique index on its token, and the
-- counter of failures, which starts again.
unfoldable pub open_session :
    LimiterUp → ℕ → String → String → String → ℕ × OrganizerAccount → Endpoint
open_session up now key token_hash csrf (id, a) server =
    if count_where (has_token token_hash) server.organizer_sessions == 0
    then (
      ok tt,
      record (with_buckets server (after_success up key server.site.buckets)) {
        organizer_sessions =
            insert server.organizer_sessions (new_organizer_session now id token_hash csrf);
      },
    )
    else (err integrity_error, server)

abbrev pub organizer_key : String → String
organizer_key client = "login:" ++ client

abbrev pub answer_login :
    LimiterUp → ℕ → String → String → String → Option (ℕ × OrganizerAccount) → Endpoint
answer_login up now key token_hash csrf none server =
    (err invalid_credentials, with_buckets server (after_failure up now key server.site.buckets))
answer_login up now key token_hash csrf (some row) server =
    open_session up now key token_hash csrf row server

-- `login`, with the hash of the new token and the new CSRF token
unfoldable pub organizer_login :
    Hashing → LimiterUp → ℕ → (client username password token_hash csrf : String) → Endpoint
organizer_login h up now client username password token_hash csrf server =
    if login_is_closed up now (organizer_key client) server.site.buckets
    then (err rate_limited, server)
    else answer_login up now (organizer_key client) token_hash csrf
        (authenticate_organizer h username password server.organizers) server

abbrev pub end_organizer_session : LoginSession → Endpoint
end_organizer_session s server = (
  ok tt,
  record server {
    organizer_sessions = delete_where (has_token s.token_hash) server.organizer_sessions;
  },
)

unfoldable pub organizer_logout : Credentials → Endpoint
organizer_logout c server =
    let (found, sessions) =
      auth_context c.now (active_organizers server.organizers) c.hash server.organizer_sessions in
    check (organizer_of found server.organizers)
      (λ (s, o). check (require_csrf c.csrf s) (λ _. end_organizer_session s))
      (record server { organizer_sessions = sessions })
