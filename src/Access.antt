-- ===== src/Access.antt =====
-- Ownership in backend/app/deps.py and services.py: which rows an organizer may reach, and the
-- sessions of organizers and players.
pub mod Granted
pub mod Ownership
pub mod Sessions
use stranger_club.Base.{
  ℕ, String, Bool, true, false, not, ◌&&◌, ◌||◌, Option, none, some, List, [], ◌∷◌, leb, str_eq,
  option_is, if◌then◌else◌,
}
use stranger_club.Db.{Db}
use stranger_club.Db.Query.{Table, get, delete, update, first_where}
use stranger_club.Db.Status.{Role}
use stranger_club.Db.Rows.{
  Match, Registration, Payment, PaymentProof, Team, TeamMember, Fixture, Organizer,
}
use stranger_club.Exec.{Error, api_error, Result, ok, err}

abbrev pub is_platform_admin : Role → Bool
is_platform_admin Role.platform_admin = true
is_platform_admin Role.organizer = false

unfoldable pub organizer_owns_event : Organizer → Match → Bool
organizer_owns_event organizer match =
    is_platform_admin organizer.role || option_is match.owner_organizer_id organizer.id

abbrev pub event_not_found : Error
event_not_found = api_error 404 "EVENT_NOT_FOUND"

abbrev pub resource_not_found : Error
resource_not_found = api_error 404 "RESOURCE_NOT_FOUND"

-- `services.assert_event_owner`
unfoldable pub assert_event_owner : Match → Organizer → Result (Unit {0})
unfolding organizer_owns_event
assert_event_owner match organizer =
    if organizer_owns_event organizer match then ok tt else err event_not_found

-- Grants `a`, which belongs to the event `match`, or answers `e`.
unfoldable pub granted {ℓ} : {A : Type ℓ} → Error → Organizer → Option Match → A → Result A
unfolding organizer_owns_event
granted e organizer none a = err e
granted e organizer (some match) a = if organizer_owns_event organizer match then ok a else err e

unfoldable pub require_event_access : ℕ → Organizer → Db → Result Match
unfolding granted
require_event_access m organizer d = elim (get d.matches m) [
  | none ↦ err event_not_found
  | some match ↦ granted event_not_found organizer (some match) match
]

-- The event of a registration, which its foreign key makes exist.
abbrev pub event_of_registration : Option Registration → Db → Option Match
event_of_registration none d = none
event_of_registration (some r) d = get d.matches r.match_id

abbrev pub event_of_payment : Option Payment → Db → Option Match
event_of_payment none d = none
event_of_payment (some pay) d = event_of_registration (get d.registrations pay.registration_id) d

unfoldable pub require_registration_access : ℕ → Organizer → Db → Result Registration
unfolding granted
require_registration_access i organizer d = elim (get d.registrations i) [
  | none ↦ err resource_not_found
  | some r ↦ granted resource_not_found organizer (event_of_registration (some r) d) r
]

unfoldable pub require_payment_access : ℕ → Organizer → Db → Result Payment
unfolding granted
require_payment_access p organizer d = elim (get d.payments p) [
  | none ↦ err resource_not_found
  | some pay ↦ granted resource_not_found organizer (event_of_payment (some pay) d) pay
]

unfoldable pub require_proof_access : ℕ → Organizer → Db → Result PaymentProof
unfolding granted
require_proof_access q organizer d = elim (get d.proofs q) [
  | none ↦ err resource_not_found
  | some proof ↦
      granted resource_not_found organizer (event_of_payment (get d.payments proof.payment_id) d)
        proof
]

unfoldable pub require_team_access : ℕ → Organizer → Db → Result Team
unfolding granted
require_team_access t organizer d = elim (get d.teams t) [
  | none ↦ err resource_not_found
  | some team ↦ granted resource_not_found organizer (get d.matches team.event_id) team
]

abbrev pub event_of_team : Option Team → Db → Option Match
event_of_team none d = none
event_of_team (some team) d = get d.matches team.event_id

unfoldable pub require_team_member_access : ℕ → Organizer → Db → Result TeamMember
unfolding granted
require_team_member_access i organizer d = elim (get d.members i) [
  | none ↦ err resource_not_found
  | some m ↦ granted resource_not_found organizer (event_of_team (get d.teams m.team_id) d) m
]

unfoldable pub require_fixture_access : ℕ → Organizer → Db → Result Fixture
unfolding granted
require_fixture_access f organizer d = elim (get d.fixtures f) [
  | none ↦ err resource_not_found
  | some fixture ↦ granted resource_not_found organizer (get d.matches fixture.event_id) fixture
]

-- A row of `organizer_sessions` or `player_sessions`.
pub record LoginSession : Type 0 where
  pub token_hash : String
  pub account : ℕ
  pub csrf_token : String
  pub expires_at : ℕ
  pub last_seen_at : ℕ

abbrev pub unauthorized : Error
unauthorized = api_error 401 "UNAUTHORIZED"

-- Whether a session has not run out and its account, which the query joins, is active.
abbrev pub is_alive : ℕ → (ℕ → Bool) → LoginSession → Bool
is_alive now active s = not (leb s.expires_at now) && active s.account

-- `auth_context` and `player_auth_context`, by the hash of the cookie that the client sent; `active`
-- is the `is_active` of the accounts as it is now.
unfoldable pub check_session :
    ℕ
    → (ℕ → Bool)
    → Option (ℕ × LoginSession)
    → Table LoginSession
    → Result LoginSession × Table LoginSession
check_session now active none sessions = (err unauthorized, sessions)
check_session now active (some (i, s)) sessions =
    if is_alive now active s
    then (ok (record s { last_seen_at = now }), update sessions i (record s { last_seen_at = now }))
    else (err unauthorized, delete sessions i)

unfoldable pub auth_context :
    ℕ → (ℕ → Bool) → Option String → Table LoginSession → Result LoginSession × Table LoginSession
auth_context now active none sessions = (err unauthorized, sessions)
auth_context now active (some hash) sessions =
    check_session now active (first_where (λ s. str_eq s.token_hash hash) sessions) sessions

-- `require_csrf` and `require_player_csrf`, on the session that `auth_context` gave
unfoldable pub require_csrf : String → LoginSession → Result ℕ
require_csrf header s =
    if str_eq header s.csrf_token then ok s.account else err (api_error 403 "CSRF_INVALID")
