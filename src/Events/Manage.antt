-- ===== src/Events/Manage.antt =====
-- `create_match`, `update_match`, `update_payment_configuration` and
-- `set_payment_configuration_qr`: what an organizer does to an event.
use stranger_club.Base.{
  ℕ, ◌+◌, ◌*◌, String, Bool, true, ◌&&◌, ◌||◌, Option, none, some, List, [], ◌∷◌, ◌++◌, ◌==◌, ltb,
  leb, str_eq, strip, or_default, if◌then◌else◌,
}
use stranger_club.Db.{Db, audit}
use stranger_club.Db.Query.{update, insert, count_where, first_where}
use stranger_club.Db.Status.{
  EventStatus, QrSource, ActorType, event_is, event_in, event_text, qr_text,
}
use stranger_club.Db.Rows.{Match, EventPaymentConfiguration, Organizer, AuditLog, Json, text, texts}
use stranger_club.Env.{Env, Imaging, Upload}
use stranger_club.Exec.{
  Error, api_error, integrity_error, Exec, pure, or_raise, gets, require, modify, commit, ◌>>=◌,
  ◌>>◌,
}
use stranger_club.Lifecycle.{valid_event_transitions, invalid_transition}
use stranger_club.Events.Counts.{match_counts}
use stranger_club.Events.Refresh.{write_match}
use stranger_club.Uploads.{qr_max_upload_bytes, read_and_validate_image, persist_image}

abbrev pub validation_error : Error
validation_error = api_error 422 "VALIDATION_ERROR"

-- `datetime.combine(date, time)`, in microseconds
abbrev pub combine : ℕ → ℕ → ℕ
combine date time = date * 86400000000 + time

-- schemas.MatchCreate, after its validators
pub record MatchCreate : Type 0 where
  pub name : String
  pub date : ℕ
  pub start_time : ℕ
  pub end_time : ℕ
  pub venue : String
  pub capacity : ℕ
  pub fee : ℕ
  pub registration_deadline : ℕ
  pub upi_id : String
  pub payee_name : String
  pub status : EventStatus

abbrev organizer_entry :
    String
    → String
    → ℕ
    → List (String × Json)
    → Organizer
    → List (String × Json)
    → List (String × Json)
    → AuditLog
organizer_entry event_type entity_type id metadata organizer before after = record {
  event_type = event_type;
  entity_type = entity_type;
  entity_id = id;
  metadata = metadata;
  actor_type = ActorType.organizer;
  actor_id = some organizer.id;
  before = before;
  after = after;
}

-- `ck_match_capacity_positive` and `ck_match_fee_nonnegative`
abbrev pub match_is_valid : Match → Bool
match_is_valid match = leb 2 match.capacity && leb 1 match.fee

unfoldable pub new_match : Env → MatchCreate → Organizer → Match
new_match env payload organizer = record {
  public_id = env.uuid;
  name = payload.name;
  date = payload.date;
  start_time = payload.start_time;
  end_time = payload.end_time;
  venue = payload.venue;
  capacity = payload.capacity;
  fee = payload.fee;
  registration_deadline = payload.registration_deadline;
  status = payload.status;
  owner_organizer_id = some organizer.id;
}

unfoldable pub new_configuration : ℕ → MatchCreate → Organizer → EventPaymentConfiguration
new_configuration match_id payload organizer = record {
  match_id = match_id;
  payee_upi_id = payload.upi_id;
  payee_name = payload.payee_name;
  qr_source = QrSource.generated;
  qr_storage_key = none;
  updated_by_organizer_id = some organizer.id;
}

-- The event's public id is the first 16 digits of `env.uuid`, which the caller cuts.
unfoldable pub create_match : Env → MatchCreate → Organizer → Exec Db ℕ
create_match env payload organizer = do
  require (leb payload.registration_deadline (combine payload.date payload.start_time))
      validation_error
  same_id ← gets (λ d. count_where (λ m. str_eq m.public_id env.uuid) d.matches)
  require (same_id == 0 && match_is_valid (new_match env payload organizer)) integrity_error
  id ← gets (λ d. d.matches.next_id)
  modify (λ d. record d { matches = insert d.matches (new_match env payload organizer) })
  config_taken ← gets (λ d. count_where (λ c. c.match_id == id) d.configurations)
  require (config_taken == 0) integrity_error
  modify (λ d. record d {
    configurations = insert d.configurations (new_configuration id payload organizer);
  })
  audit (
      organizer_entry "EVENT_CREATED" "event" id (("public_id", text env.uuid) ∷ []) organizer []
        [])
  commit
  pure id

-- schemas.EventUpdate: the fields that the client sent. An explicit null is not modelled.
pub record EventUpdate : Type 0 where
  pub name : Option String
  pub date : Option ℕ
  pub start_time : Option ℕ
  pub end_time : Option ℕ
  pub venue : Option String
  pub capacity : Option ℕ
  pub fee : Option ℕ
  pub registration_deadline : Option ℕ
  pub status : Option EventStatus

abbrev stripped : Option String → String → String
stripped none old = old
stripped (some s) old = strip s

abbrev named {ℓ} : {A : Type ℓ} → String → Option A → List String
named name none = []
named name (some a) = name ∷ []

-- `sorted(changes)`
unfoldable pub changed_fields : EventUpdate → List String
changed_fields p =
    named "capacity" p.capacity
    ++ (named "date" p.date
        ++ (named "end_time" p.end_time
            ++ (named "fee" p.fee
                ++ (named "name" p.name
                    ++ (named "registration_deadline" p.registration_deadline
                        ++ (named "start_time" p.start_time ++ named "venue" p.venue))))))

-- The event's row after the assignments, the status among them.
unfoldable pub updated_match : EventUpdate → Match → Match
updated_match p match = record match {
  name = stripped p.name match.name;
  date = or_default p.date match.date;
  start_time = or_default p.start_time match.start_time;
  end_time = or_default p.end_time match.end_time;
  venue = stripped p.venue match.venue;
  capacity = or_default p.capacity match.capacity;
  fee = or_default p.fee match.fee;
  registration_deadline = or_default p.registration_deadline match.registration_deadline;
  status = or_default p.status match.status;
}

abbrev pub status_allowed : EventStatus → Option EventStatus → Bool
status_allowed from none = true
status_allowed from (some to) = event_is to from || event_in to (valid_event_transitions from)

-- `match` is the row as the router loaded it in this session.
unfoldable pub update_match : ℕ → Match → EventUpdate → Organizer → Exec Db Match
update_match m match payload organizer = do
  require (status_allowed match.status payload.status) invalid_transition
  modify (write_match m (updated_match payload match))
  require (ltb (updated_match payload match).start_time (updated_match payload match).end_time)
      validation_error
  require
      (leb (updated_match payload match).registration_deadline
        (combine (updated_match payload match).date (updated_match payload match).start_time))
      validation_error
  counts ← gets (match_counts m)
  require (leb counts.confirmed (updated_match payload match).capacity) invalid_transition
  audit (
      organizer_entry "EVENT_UPDATED" "event" m (("fields", texts (changed_fields payload)) ∷ [])
        organizer (("status", text (event_text match.status)) ∷ [])
        (("status", text (event_text (updated_match payload match).status)) ∷ []))
  require (match_is_valid (updated_match payload match)) integrity_error
  commit
  pure (updated_match payload match)

-- schemas.PaymentConfigurationUpdate, after its validators; its `qr_source` can only be GENERATED.
pub record PaymentConfigurationUpdate : Type 0 where
  pub payee_upi_id : Option String
  pub payee_name : Option String
  pub generated_qr : Bool

abbrev configuration_fields : PaymentConfigurationUpdate → List String
configuration_fields p =
    named "payee_name" p.payee_name
    ++ (named "payee_upi_id" p.payee_upi_id ++ (if p.generated_qr then "qr_source" ∷ [] else []))

unfoldable pub updated_configuration :
    PaymentConfigurationUpdate → Organizer → EventPaymentConfiguration → EventPaymentConfiguration
updated_configuration p organizer config = record config {
  payee_upi_id = or_default p.payee_upi_id config.payee_upi_id;
  payee_name = or_default p.payee_name config.payee_name;
  qr_source = if p.generated_qr then QrSource.generated else config.qr_source;
  qr_storage_key = if p.generated_qr then none else config.qr_storage_key;
  updated_by_organizer_id = some organizer.id;
}

abbrev configuration_json : EventPaymentConfiguration → List (String × Json)
configuration_json config =
    ("payee_upi_id", text config.payee_upi_id)
    ∷ ("payee_name", text config.payee_name)
    ∷ ("qr_source", text (qr_text config.qr_source))
    ∷ []

abbrev no_configuration : Error
no_configuration = api_error 404 "RESOURCE_NOT_FOUND"

unfoldable pub update_payment_configuration :
    ℕ → PaymentConfigurationUpdate → Organizer → Exec Db EventPaymentConfiguration
update_payment_configuration m payload organizer = do
  config? ← gets (λ d. first_where (λ c. c.match_id == m) d.configurations)
  (id, config) ← or_raise config? no_configuration
  modify (λ d. record d {
    configurations = update d.configurations id (updated_configuration payload organizer config);
  })
  audit (
      organizer_entry "PAYMENT_CONFIG_UPDATED" "event_payment_configuration" id
        (("fields", texts (configuration_fields payload)) ∷ []) organizer
        (configuration_json config)
        (configuration_json (updated_configuration payload organizer config)))
  commit
  pure (updated_configuration payload organizer config)

abbrev uploaded_configuration :
    String → Organizer → EventPaymentConfiguration → EventPaymentConfiguration
uploaded_configuration key organizer config = record config {
  qr_source = QrSource.uploaded;
  qr_storage_key = some key;
  updated_by_organizer_id = some organizer.id;
}

unfoldable pub set_payment_configuration_qr :
    Env → Imaging → ℕ → Upload → Organizer → Exec Db EventPaymentConfiguration
set_payment_configuration_qr env imaging m upload organizer = do
  config? ← gets (λ d. first_where (λ c. c.match_id == m) d.configurations)
  (id, config) ← or_raise config? no_configuration
  image ← read_and_validate_image imaging upload qr_max_upload_bytes
  key ← persist_image env image
  modify (λ d. record d {
    configurations = update d.configurations id (uploaded_configuration key organizer config);
  })
  audit (
      organizer_entry "PAYMENT_CONFIG_UPDATED" "event_payment_configuration" id
        (("field", text "qr") ∷ []) organizer (("qr_source", text (qr_text config.qr_source)) ∷ [])
        (("qr_source", text "UPLOADED") ∷ []))
  commit
  pure (uploaded_configuration key organizer config)
