-- ===== src/Api.antt =====
-- The server, and what its routes are made of, in this order: the session, the access check or the
-- rate limit, and the handler, of backend/app/deps.py and the routers admin.py, registrations.py and
-- payments.py.
pub mod Routes
pub mod Organizers
pub mod Mediation
pub mod Served
use Prim.Native.String.{◌++◌}
use stranger_club.Base.{
  ℕ, String, Bool, true, false, Option, none, some, List, [], ◌∷◌, str_eq, strip, option_is, ◌&&◌,
  if◌then◌else◌,
}
use stranger_club.Db.{Db}
use stranger_club.Db.Query.{Table, get, first_where}
use stranger_club.Db.Rows.{Match, Registration, Payment, Organizer, User}
use stranger_club.Db.Status.{EventStatus, Role, ActorType, event_in}
use stranger_club.Env.{Env, Imaging, Upload}
use stranger_club.Exec.{Error, api_error, Result, ok, err, runtime_error, Exec, run}
use stranger_club.Events.Manage.{
  MatchCreate, create_match, EventUpdate, update_match, PaymentConfigurationUpdate,
  update_payment_configuration, set_payment_configuration_qr,
}
use stranger_club.Registrations.{
  RegistrationCreate, create_registration, cancel_registration, promote_waitlisted,
}
use stranger_club.Payments.{
  Submission, replay, stored, prepared, prepare_payment_proof, store_payment_proof,
}
use stranger_club.Payments.Decisions.{review_payment}
use stranger_club.RateLimit.{enforce_rate_limit}
use stranger_club.Access.{
  LoginSession, auth_context, require_csrf, event_not_found, resource_not_found,
  require_event_access, require_registration_access, require_payment_access,
}
use stranger_club.Accounts.{active_users, Account}
use stranger_club.Accounts.Site.{Site, hour}

-- A row of `organizers`; its key is the id.
pub record OrganizerAccount : Type 0 where
  pub username : String
  pub password_hash : String
  pub role : Role
  pub is_active : Bool

pub record Server : Type 0 where
  pub db : Db
  pub organizers : Table OrganizerAccount
  pub organizer_sessions : Table LoginSession
  pub site : Site

abbrev pub Endpoint : Type 0
Endpoint = Server → Result (Unit {0}) × Server

-- When a request comes, the hash of its session cookie, if it has one, and its X-CSRF-Token.
pub record Credentials : Type 0 where
  pub now : ℕ
  pub hash : Option String
  pub csrf : String

-- An error ends the request.
abbrev pub check {ℓ} : {A : Type ℓ} → Result A → (A → Endpoint) → Endpoint
check (ok a) k server = k a server
check (err e) k server = (err e, server)

-- The call of a handler of services.py on the database, and the answer.
abbrev pub perform {ℓ} : {A : Type ℓ} → Exec Db A → Endpoint
perform m server =
    let (r, d) = run m server.db in check r (λ _ w. (ok tt, w)) (record server { db = d })

abbrev pub active_organizer : Option OrganizerAccount → Bool
active_organizer none = false
active_organizer (some a) = a.is_active

abbrev pub active_organizers : Table OrganizerAccount → ℕ → Bool
active_organizers t id = active_organizer (get t id)

abbrev pub organizer_row :
    LoginSession → Option OrganizerAccount → Result (LoginSession × Organizer)
organizer_row s none = err runtime_error
organizer_row s (some a) = ok (s, record { id = s.account; role = a.role })

abbrev pub organizer_of :
    Result LoginSession → Table OrganizerAccount → Result (LoginSession × Organizer)
organizer_of (err e) t = err e
organizer_of (ok s) t = organizer_row s (get t s.account)

-- A route of an organizer: `auth_context`, the access check, `require_csrf` and the handler.
unfoldable pub organizer_route {ℓ κ} :
    {A : Type ℓ}
    → {B : Type κ} → Credentials
    → (Organizer → Db → Result A)
    → (Organizer → A → Exec Db B)
    → Endpoint
organizer_route c access handler server =
    let (found, sessions) =
      auth_context c.now (active_organizers server.organizers) c.hash server.organizer_sessions in
    check (organizer_of found server.organizers)
      (λ (s, organizer).
        check (access organizer server.db)
          (λ a. check (require_csrf c.csrf s) (λ _. perform (handler organizer a))))
      (record server { organizer_sessions = sessions })

abbrev pub user_row : LoginSession → Option Account → Result (LoginSession × User)
user_row s none = err runtime_error
user_row s (some a) = ok (s, record { id = s.account; phone = a.phone })

abbrev pub user_of : Result LoginSession → Table Account → Result (LoginSession × User)
user_of (err e) t = err e
user_of (ok s) t = user_row s (get t s.account)

abbrev pub with_sessions : Server → Table LoginSession → Server
with_sessions server t = record server {
  site = record server.site { accounts = record server.site.accounts { sessions = t } };
}

-- A route of a player: `player_auth_context`, `require_player_csrf` and what follows.
unfoldable pub player_route : Credentials → (User → Endpoint) → Endpoint
player_route c k server =
    let (found, sessions) =
      auth_context c.now (active_users server.site.accounts.users) c.hash
        server.site.accounts.sessions in
    check (user_of found server.site.accounts.users)
      (λ (s, user). check (require_csrf c.csrf s) (λ _. k user)) (with_sessions server sessions)

-- `enforce_rate_limit_db`
unfoldable pub limited_route : Bool → ℕ → String → ℕ → Endpoint → Endpoint
limited_route up now key limit k server =
    let (allowed, buckets) = enforce_rate_limit up now key limit hour server.site.buckets in
    check allowed (λ _. k) (record server { site = record server.site { buckets = buckets } })

-- `get_public_match`
abbrev pub is_public : String → Match → Bool
is_public public_id match =
    str_eq match.public_id public_id
    && event_in match.status (EventStatus.open_ ∷ EventStatus.full ∷ EventStatus.ongoing ∷ [])

abbrev pub or_error {ℓ} : {A : Type ℓ} → Error → Option A → Result A
or_error e none = err e
or_error e (some a) = ok a

unfoldable pub get_public_match : String → Db → Result (ℕ × Match)
get_public_match public_id d =
    or_error event_not_found (first_where (is_public public_id) d.matches)

-- The registration of a key, if it is the player's own.
abbrev pub own : User → ℕ × Registration → Result ℕ
own user (i, r) = if option_is r.user_id user.id then ok i else err resource_not_found

abbrev pub own_registration? : User → Option (ℕ × Registration) → Result ℕ
own_registration? user none = err resource_not_found
own_registration? user (some row) = own user row

unfoldable pub own_registration : User → String → Db → Result ℕ
own_registration user key d =
    own_registration? user (first_where (λ r. str_eq r.public_id key) d.registrations)

-- The second phase of `submit_payment_proof`, after the first; the wait between them is left out.
abbrev pub store : Env → Submission → Endpoint
store env replay server = (ok tt, server)
store env stored server = (ok tt, server)
store env (prepared input) server = perform (store_payment_proof env input) server

unfoldable pub submit : Env → Imaging → String → Upload → Option String → User → Endpoint
submit env imaging key upload utr user server =
    let (r, d) = run (prepare_payment_proof env imaging key upload utr user.id) server.db in
    check r (store env) (record server { db = d })
