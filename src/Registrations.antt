-- ===== src/Registrations.antt =====
-- Registrations in backend/app/services.py: `create_registration`, `cancel_registration` and
-- `promote_waitlisted`, each from the rows that it loads after taking its lock.
pub mod Refinement
pub mod Waitlist
pub mod Creation
pub mod Cancellation
use stranger_club.Base.{
  ℕ, ◌<◌, String, Bool, true, false, not, ◌&&◌, Option, none, some, List, [], ◌∷◌, ◌==◌, ltb, leb,
  str_eq, is_some, if◌then◌else◌,
}
use stranger_club.Db.{Db, audit, is_active_of, is_payment_of, in_event_as}
use stranger_club.Db.Query.{get, insert, delete, count_where, first_where, earliest_where}
use stranger_club.Db.Status.{
  EventStatus, RegistrationStatus, PaymentStatus, Position, QrSource, ActorType, event_in,
  registration_is,
}
use stranger_club.Db.Rows.{
  Match, EventPaymentConfiguration, Registration, Payment, TeamMember, MatchParticipant, User, Json,
  num, text, AuditLog,
}
use stranger_club.Env.{Env}
use stranger_club.Exec.{
  Error, api_error, integrity_error, runtime_error, Exec, pure, raise, or_raise, gets, require,
  modify, commit, rollback, ◌>>=◌, ◌>>◌, except_integrity,
}
use stranger_club.Lifecycle.{write_registration, transition_registration}
use stranger_club.Events.Counts.{match_counts}
use stranger_club.Events.Refresh.{refresh_full_status}

-- schemas.RegistrationCreate
pub record RegistrationCreate : Type 0 where
  pub name : String
  pub email : Option String
  pub preferred_position : Position

abbrev pub event_entry :
    String → String → ℕ → List (String × Json) → ActorType → Option ℕ → AuditLog
event_entry event_type entity_type id metadata actor_type actor_id = record {
  event_type = event_type;
  entity_type = entity_type;
  entity_id = id;
  metadata = metadata;
  actor_type = actor_type;
  actor_id = actor_id;
  before = [];
  after = [];
}

-- The indexes of `registrations` that an INSERT must satisfy: one active row for each event and
-- user, and a public id of its own.
unfoldable pub insert_registration : ℕ → Registration → Exec Db ℕ
insert_registration user_id r = do
  active ← gets (λ d. count_where (is_active_of r.match_id user_id) d.registrations)
  require (active == 0) integrity_error
  same_id ← gets (λ d. count_where (λ q. str_eq q.public_id r.public_id) d.registrations)
  require (same_id == 0) integrity_error
  id ← gets (λ d. d.registrations.next_id)
  modify (λ d. record d { registrations = insert d.registrations r })
  pure id

-- `ck_payment_qr_snapshot_consistent` and `ck_payment_config_qr_storage_consistent`
abbrev pub qr_is_consistent : QrSource → Option String → Bool
qr_is_consistent QrSource.uploaded key = is_some key
qr_is_consistent QrSource.generated key = not (is_some key)

unfoldable pub insert_payment : Payment → Exec Db (Unit {0})
insert_payment p = do
  paid ← gets (λ d. count_where (is_payment_of p.registration_id) d.payments)
  require (paid == 0) integrity_error
  require (qr_is_consistent p.qr_source_snapshot p.qr_storage_key_snapshot) integrity_error
  modify (λ d. record d { payments = insert d.payments p })

-- The snapshot that a registration's payment freezes.
unfoldable pub snapshot_payment : ℕ → Match → EventPaymentConfiguration → Payment
snapshot_payment registration_id match config = record {
  registration_id = registration_id;
  status = PaymentStatus.awaiting_proof;
  amount_due = match.fee;
  payee_upi_id_snapshot = config.payee_upi_id;
  payee_name_snapshot = config.payee_name;
  qr_source_snapshot = config.qr_source;
  qr_storage_key_snapshot = config.qr_storage_key;
  submitted_at = none;
  verified_at = none;
  rejection_reason = none;
}

abbrev pub initial_status : ℕ → ℕ → RegistrationStatus
initial_status confirmed capacity =
    if leb capacity confirmed then RegistrationStatus.waitlisted else RegistrationStatus.pending

unfoldable pub new_registration :
    Env → ℕ → RegistrationCreate → ℕ → String → RegistrationStatus → Registration
new_registration env match_id payload user_id phone status = record {
  public_id = env.uuid;
  match_id = match_id;
  user_id = some user_id;
  name = payload.name;
  phone = phone;
  email = payload.email;
  status = status;
  preferred_position = payload.preferred_position;
  cancelled_at = none;
  created_at = env.now;
}

abbrev pub registration_event : RegistrationStatus → String
registration_event status =
    if registration_is status RegistrationStatus.waitlisted
    then "PLAYER_WAITLISTED"
    else "REGISTRATION_CREATED"

-- The body of the `try`. `registrations.phone` is NOT NULL, and `users.phone` is nullable.
unfoldable pub write_new_registration :
    Env
    → ℕ
    → Match
    → EventPaymentConfiguration
    → RegistrationCreate
    → User
    → RegistrationStatus
    → Exec Db ℕ
write_new_registration env match_id match config payload user status = do
  phone ← or_raise user.phone integrity_error
  id ← insert_registration user.id (new_registration env match_id payload user.id phone status)
  insert_payment (snapshot_payment id match config)
  audit (
      event_entry (registration_event status) "registration" id (("event_id", num match_id) ∷ [])
        ActorType.player (some user.id))
  commit
  pure id

abbrev pub registration_exists : Error
registration_exists = api_error 409 "REGISTRATION_EXISTS"

-- `stale` is the event as the router loaded it, before the lock.
unfoldable pub create_registration : Env → ℕ → Match → RegistrationCreate → User → Exec Db ℕ
create_registration env match_id stale payload user = do
  require
      (not (ltb stale.registration_deadline env.now)
        && event_in stale.status (EventStatus.open_ ∷ EventStatus.full ∷ []))
      (api_error 409 "REGISTRATION_CLOSED")
  rollback
  match? ← gets (λ d. get d.matches match_id)
  match ← or_raise match? runtime_error
  config? ← gets (λ d. first_where (λ c. c.match_id == match_id) d.configurations)
  (_, config) ← or_raise config? (api_error 409 "EVENT_PAYMENT_NOT_CONFIGURED")
  counts ← gets (match_counts match_id)
  except_integrity registration_exists (
      write_new_registration env match_id match config payload user
        (initial_status counts.confirmed match.capacity))

abbrev pub is_member_of : ℕ → TeamMember → Bool
is_member_of registration_id m = m.registration_id == registration_id

-- The foreign key of `match_participants` that the DELETE of a membership must respect.
abbrev pub plays_as : TeamMember → MatchParticipant → Bool
plays_as m p = p.registration_id == m.registration_id && p.team_id == m.team_id

-- `_delete_team_membership`
unfoldable pub delete_team_membership :
    ℕ → TeamMember → String → ActorType → Option ℕ → List (String × Json) → Exec Db (Unit {0})
delete_team_membership id m event_type actor_type actor_id reason = do
  audit (
      event_entry event_type "team_member" id
        (("team_id", num m.team_id) ∷ ("registration_id", num m.registration_id) ∷ reason)
        actor_type actor_id)
  played ← gets (λ d. count_where (plays_as m) d.participants)
  require (played == 0) integrity_error
  modify (λ d. record d { members = delete d.members id })

unfoldable pub leave_team : ActorType → Option ℕ → Option (ℕ × TeamMember) → Exec Db (Unit {0})
unfolding delete_team_membership
leave_team actor_type actor_id none = pure tt
leave_team actor_type actor_id (some (id, m)) =
    delete_team_membership id m "TEAM_MEMBER_REMOVED" actor_type actor_id
      (("reason", text "registration_cancelled") ∷ [])

-- CANCELLABLE_EVENT_STATUSES
abbrev pub cancellable_event_statuses : List EventStatus
cancellable_event_statuses = EventStatus.draft ∷ EventStatus.open_ ∷ EventStatus.full ∷ []

-- The cancellation proper, of a registration that is not cancelled in an event that has not begun.
unfoldable pub cancel_active :
    Env → ℕ → Registration → Match → ActorType → Option ℕ → Exec Db Registration
cancel_active env id r match actor_type actor_id = do
  moved ←
      transition_registration id r RegistrationStatus.cancelled "REGISTRATION_CANCELLED" actor_type
        actor_id (("event_id", num r.match_id) ∷ [])
  modify (write_registration id (record moved { cancelled_at = some env.now }))
  member ← gets (λ d. first_where (is_member_of id) d.members)
  leave_team actor_type actor_id member
  refresh_full_status r.match_id match
  commit
  pure (record moved { cancelled_at = some env.now })

unfoldable pub refuse_started : Exec Db Registration
refuse_started = do commit; raise (api_error 409 "EVENT_ALREADY_STARTED")

unfoldable pub cancel_standing :
    Env → ℕ → Registration → ActorType → Option ℕ → Exec Db Registration
cancel_standing env id r actor_type actor_id = do
  match? ← gets (λ d. get d.matches r.match_id)
  match ← or_raise match? runtime_error
  if event_in match.status cancellable_event_statuses
      then cancel_active env id r match actor_type actor_id
      else refuse_started

unfoldable pub keep_cancelled : Registration → Exec Db Registration
keep_cancelled r = do commit; pure r

unfoldable pub cancel_registration : Env → ℕ → ActorType → Option ℕ → Exec Db Registration
cancel_registration env registration_id actor_type actor_id = do
  rollback
  registration? ← gets (λ d. get d.registrations registration_id)
  r ← or_raise registration? (api_error 404 "RESOURCE_NOT_FOUND")
  if registration_is r.status RegistrationStatus.cancelled
      then keep_cancelled r
      else cancel_standing env registration_id r actor_type actor_id

abbrev pub waits_in : ℕ → Registration → Bool
waits_in m = in_event_as m RegistrationStatus.waitlisted

unfoldable pub promote_waitlisted : ℕ → ℕ → Exec Db Registration
promote_waitlisted registration_id actor_id = do
  preliminary ← gets (λ d. get d.registrations registration_id)
  or_raise preliminary (api_error 404 "RESOURCE_NOT_FOUND")
  rollback
  registration? ← gets (λ d. get d.registrations registration_id)
  r ← or_raise registration? (api_error 404 "RESOURCE_NOT_FOUND")
  match? ← gets (λ d. get d.matches r.match_id)
  match ← or_raise match? runtime_error
  require (registration_is r.status RegistrationStatus.waitlisted)
      (api_error 409 "INVALID_STATE_TRANSITION")
  first? ← gets (λ d. earliest_where (waits_in r.match_id) (λ q. q.created_at) d.registrations)
  (first, _) ← or_raise first? runtime_error
  require (first == registration_id) (api_error 409 "WAITLIST_ORDER")
  counts ← gets (match_counts r.match_id)
  require (ltb counts.confirmed match.capacity) (api_error 409 "EVENT_FULL")
  moved ←
      transition_registration registration_id r RegistrationStatus.pending "PLAYER_PROMOTED"
        ActorType.organizer (some actor_id) (("event_id", num r.match_id) ∷ [])
  refresh_full_status r.match_id match
  commit
  pure moved
