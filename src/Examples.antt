-- ===== src/Examples.antt =====
-- A small club: an organizer, players and an event for two, the requests that they make, and the
-- rows that these leave.
mod Served
mod Handled
mod Played
mod Claimed
mod Results
mod Joined
mod Heard
mod Visited
use stranger_club.Base.{ℕ, String, Bool, true, false, Option, none, some, List, [], ◌∷◌, ◌++◌}
use stranger_club.Db.{Db, audit}
use stranger_club.Db.Query.{
  get, update, insert, count_where, first_where, ids_where, delete, earliest_where,
}
use stranger_club.Db.Rows.{
  Registration, Payment, PaymentProof, EventPaymentConfiguration, Match, Organizer, User,
}
use stranger_club.Db.Status.{
  RegistrationStatus, PaymentStatus, ProofStatus, QrSource, EventStatus, Position, Role, ActorType,
}
use stranger_club.Env.{Env, Imaging, Upload}
use stranger_club.Exec.{◌>>=◌, run, except_integrity}
use stranger_club.Lifecycle.{transition_registration, transition_payment}
use stranger_club.Events.Counts.{match_counts}
use stranger_club.Events.Refresh.{refresh_full_status}
use stranger_club.Events.Manage.{MatchCreate, create_match, new_match, new_configuration}
use stranger_club.Registrations.{
  RegistrationCreate, create_registration, write_new_registration, insert_registration,
  insert_payment, new_registration, snapshot_payment, cancel_registration, keep_cancelled,
  cancel_standing, cancel_active, leave_team,
}
use stranger_club.Payments.{
  Prepared, store_payment_proof, load_registration_for_payment, assert_open_for_payment,
  closed_for_payment, write_proof, new_proof, advance_payment, find_duplicate_proofs_by_hash,
  keep_replay,
}
use stranger_club.Payments.Decisions.{review_payment, decide, conclude}
use stranger_club.Club.{
  serve_all, serve, empty, Request, opens, registers, stores_proof, reviews, cancels, promotes,
}

abbrev pub env : ℕ → String → Env
env now uuid = record { now = now; uuid = uuid; storage_up = true }

abbrev pub host : Organizer
host = record { id = 1; role = Role.organizer }

abbrev pub payload : MatchCreate
payload = record {
  name = "Sunday match";
  date = 1;
  start_time = 10;
  end_time = 20;
  venue = "The ground";
  capacity = 2;
  fee = 500;
  registration_deadline = 100;
  upi_id = "club@upi";
  payee_name = "Club";
  status = EventStatus.open_;
}

-- The event's row as the requests see it.
abbrev pub event : Match
event = record {
  public_id = "event-1";
  name = "Sunday match";
  date = 1;
  start_time = 10;
  end_time = 20;
  venue = "The ground";
  capacity = 2;
  fee = 500;
  registration_deadline = 100;
  status = EventStatus.open_;
  owner_organizer_id = some 1;
}

abbrev pub player : ℕ → User
player id = record { id = id; phone = some "+910000000000" }

abbrev pub form : RegistrationCreate
form = record { name = "A player"; email = none; preferred_position = Position.bowler }

abbrev pub proof_of : (stored key : String) → ℕ → Prepared
proof_of stored key user_id = record {
  registration_key = key;
  user_id = user_id;
  utr = some "UTR123456";
  image = record {
    content = 1 ∷ 2 ∷ [];
    digest = key;
    content_type = "image/png";
    extension = ".png";
  };
  storage_key = stored;
}

-- One player registers and sends a proof.
abbrev pub opening : List Request
opening =
    opens (env 1 "event-1") payload host
    ∷ registers (env 2 "reg-1") 1 event form (player 7)
    ∷ stores_proof (env 3 "") (proof_of "a.png" "reg-1" 7)
    ∷ []

-- The organizer approves.
abbrev pub approval : List Request
approval = reviews (env 4 "") 1 true 1 none ∷ []

-- A third player takes the last place, and a fourth is put on the waitlist.
abbrev pub filling : List Request
filling =
    opens (env 1 "event-1") payload host
    ∷ registers (env 2 "reg-1") 1 event form (player 7)
    ∷ registers (env 2 "reg-2") 1 event form (player 8)
    ∷ stores_proof (env 3 "") (proof_of "a.png" "reg-1" 7)
    ∷ stores_proof (env 3 "") (proof_of "b.png" "reg-2" 8)
    ∷ reviews (env 4 "") 1 true 1 none
    ∷ reviews (env 5 "") 2 true 1 none
    ∷ registers (env 6 "reg-3") 1 event form (player 9)
    ∷ cancels (env 7 "") 1 ActorType.player (some 7)
    ∷ []

-- The player's proof is rejected, and the player sends another.
abbrev pub refusal : List Request
refusal =
    opens (env 1 "event-1") payload host
    ∷ registers (env 2 "reg-1") 1 event form (player 7)
    ∷ stores_proof (env 3 "") (proof_of "a.png" "reg-1" 7)
    ∷ reviews (env 4 "") 1 false 1 (some "Not readable")
    ∷ stores_proof (env 5 "") (proof_of "b.png" "reg-1" 7)
    ∷ []

-- The database after some requests on an empty one.
unfoldable pub served : List Request → Db
unfolding serve_all serve create_match new_match new_configuration audit create_registration
    write_new_registration insert_registration insert_payment new_registration snapshot_payment
    match_counts store_payment_proof load_registration_for_payment assert_open_for_payment
    closed_for_payment write_proof new_proof advance_payment find_duplicate_proofs_by_hash
    keep_replay transition_payment transition_registration review_payment decide conclude
    refresh_full_status cancel_registration keep_cancelled cancel_standing cancel_active leave_team
    ◌>>=◌ run except_integrity get update insert count_where first_where ids_where
served requests = serve_all requests empty

abbrev pub configuration : EventPaymentConfiguration
configuration = record {
  match_id = 1;
  payee_upi_id = "club@upi";
  payee_name = "Club";
  qr_source = QrSource.generated;
  qr_storage_key = none;
  updated_by_organizer_id = some 1;
}

abbrev pub registration : RegistrationStatus → Registration
registration status = record {
  public_id = "reg-1";
  match_id = 1;
  user_id = some 7;
  name = "A player";
  phone = "+910000000000";
  email = none;
  status = status;
  preferred_position = Position.bowler;
  cancelled_at = none;
  created_at = 2;
}

abbrev pub payment : Payment
payment = record {
  registration_id = 1;
  status = PaymentStatus.submitted;
  amount_due = 500;
  payee_upi_id_snapshot = "club@upi";
  payee_name_snapshot = "Club";
  qr_source_snapshot = QrSource.generated;
  qr_storage_key_snapshot = none;
  submitted_at = some 3;
  verified_at = none;
  rejection_reason = none;
}

abbrev pub proof : String → ℕ → PaymentProof
proof stored uploaded_at = record {
  payment_id = 1;
  storage_key = stored;
  screenshot_hash = "reg-1";
  file_size = 2;
  content_type = "image/png";
  utr_reference = some "UTR123456";
  uploaded_at = uploaded_at;
  submitted_by_user_id = 7;
  status = ProofStatus.pending;
  reviewed_by_organizer_id = none;
  reviewed_at = none;
  rejection_reason = none;
  superseded_at = none;
}
