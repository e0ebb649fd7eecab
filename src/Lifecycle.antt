-- ===== src/Lifecycle.antt =====
-- The state machines of backend/app/services.py: the tables of allowed transitions, and
-- `transition_registration` and `transition_payment`, the two functions that move a status.
pub mod Ends
pub mod Passes
use stranger_club.Base.{ℕ, String, Bool, Option, List, [], ◌∷◌}
use stranger_club.Db.{Db, audit}
use stranger_club.Db.Query.{update}
use stranger_club.Db.Status.{
  EventStatus, RegistrationStatus, PaymentStatus, FixtureStatus, ActorType, registration_in,
  payment_in, registration_text, payment_text,
}
use stranger_club.Db.Rows.{Registration, Payment, AuditLog, Json, text}
use stranger_club.Exec.{Error, api_error, Exec, pure, require, modify, ◌>>=◌, ◌>>◌}

-- VALID_PAYMENT_TRANSITIONS
abbrev pub valid_payment_transitions : PaymentStatus → List PaymentStatus
valid_payment_transitions PaymentStatus.awaiting_proof = PaymentStatus.submitted ∷ []
valid_payment_transitions PaymentStatus.submitted =
    PaymentStatus.verified ∷ PaymentStatus.rejected ∷ []
valid_payment_transitions PaymentStatus.rejected = PaymentStatus.submitted ∷ []
valid_payment_transitions PaymentStatus.verified = []

-- VALID_EVENT_TRANSITIONS
abbrev pub valid_event_transitions : EventStatus → List EventStatus
valid_event_transitions EventStatus.draft = EventStatus.open_ ∷ EventStatus.cancelled ∷ []
valid_event_transitions EventStatus.open_ =
    EventStatus.full ∷ EventStatus.ongoing ∷ EventStatus.cancelled ∷ []
valid_event_transitions EventStatus.full =
    EventStatus.open_ ∷ EventStatus.ongoing ∷ EventStatus.cancelled ∷ []
valid_event_transitions EventStatus.ongoing = EventStatus.completed ∷ EventStatus.cancelled ∷ []
valid_event_transitions EventStatus.completed = []
valid_event_transitions EventStatus.cancelled = []

-- VALID_REGISTRATION_TRANSITIONS
abbrev pub valid_registration_transitions : RegistrationStatus → List RegistrationStatus
valid_registration_transitions RegistrationStatus.pending =
    RegistrationStatus.confirmed ∷ RegistrationStatus.waitlisted ∷ RegistrationStatus.rejected
    ∷ RegistrationStatus.cancelled ∷ []
valid_registration_transitions RegistrationStatus.waitlisted =
    RegistrationStatus.pending ∷ RegistrationStatus.cancelled ∷ []
valid_registration_transitions RegistrationStatus.confirmed = RegistrationStatus.cancelled ∷ []
valid_registration_transitions RegistrationStatus.rejected = []
valid_registration_transitions RegistrationStatus.cancelled = []

-- VALID_FIXTURE_TRANSITIONS
abbrev pub valid_fixture_transitions : FixtureStatus → List FixtureStatus
valid_fixture_transitions FixtureStatus.scheduled =
    FixtureStatus.in_progress ∷ FixtureStatus.cancelled ∷ []
valid_fixture_transitions FixtureStatus.in_progress =
    FixtureStatus.completed ∷ FixtureStatus.cancelled ∷ []
valid_fixture_transitions FixtureStatus.completed = []
valid_fixture_transitions FixtureStatus.cancelled = []

abbrev pub invalid_transition : Error
invalid_transition = api_error 409 "INVALID_STATE_TRANSITION"

abbrev pub write_registration : ℕ → Registration → Db → Db
write_registration i r d = record d { registrations = update d.registrations i r }

abbrev pub write_payment : ℕ → Payment → Db → Db
write_payment i p d = record d { payments = update d.payments i p }

-- An audit entry of a move between two statuses.
abbrev pub moved_entry :
    String → String → ℕ → List (String × Json) → ActorType → Option ℕ → String → String → AuditLog
moved_entry event_type entity_type id metadata actor_type actor_id from to = record {
  event_type = event_type;
  entity_type = entity_type;
  entity_id = id;
  metadata = metadata;
  actor_type = actor_type;
  actor_id = actor_id;
  before = ("status", text from) ∷ [];
  after = ("status", text to) ∷ [];
}

-- The row as it is loaded, and the row after the move.
unfoldable pub transition_registration :
    (id : ℕ) (registration : Registration) (to_status : RegistrationStatus) (event_type : String)
    (actor_type : ActorType) (actor_id : Option ℕ) (metadata : List (String × Json))
    → Exec Db Registration
transition_registration id registration to_status event_type actor_type actor_id metadata = do
  require (registration_in to_status (valid_registration_transitions registration.status))
      invalid_transition
  modify (write_registration id (record registration { status = to_status }))
  audit (
      moved_entry event_type "registration" id metadata actor_type actor_id
        (registration_text registration.status) (registration_text to_status))
  pure (record registration { status = to_status })

unfoldable pub transition_payment :
    (id : ℕ) (payment : Payment) (to_status : PaymentStatus) (event_type : String)
    (actor_type : ActorType) (actor_id : Option ℕ) (metadata : List (String × Json))
    → Exec Db Payment
transition_payment id payment to_status event_type actor_type actor_id metadata = do
  require (payment_in to_status (valid_payment_transitions payment.status)) invalid_transition
  modify (write_payment id (record payment { status = to_status }))
  audit (
      moved_entry event_type "payment" id metadata actor_type actor_id (payment_text payment.status)
        (payment_text to_status))
  pure (record payment { status = to_status })
