-- ===== src/Api/Routes.antt =====
-- The routes of backend/app/routers/admin.py, registrations.py and payments.py that change the
-- database.
use Prim.Native.String.{◌++◌}
use stranger_club.Base.{ℕ, String, Bool, true, false, Option, none, some, strip}
use stranger_club.Db.{Db}
use stranger_club.Db.Rows.{Organizer}
use stranger_club.Db.Status.{ActorType}
use stranger_club.Env.{Env, Imaging, Upload}
use stranger_club.Exec.{Result, ok}
use stranger_club.Events.Manage.{
  MatchCreate, create_match, EventUpdate, update_match, PaymentConfigurationUpdate,
  update_payment_configuration, set_payment_configuration_qr,
}
use stranger_club.Registrations.{
  RegistrationCreate, create_registration, cancel_registration, promote_waitlisted,
}
use stranger_club.Payments.Decisions.{review_payment}
use stranger_club.Access.{require_event_access, require_registration_access, require_payment_access}
use stranger_club.Api.{
  Endpoint, Credentials, check, perform, organizer_route, player_route, limited_route,
  get_public_match, own_registration, submit,
}

abbrev nobody_else : Organizer → Db → Result (Unit {0})
nobody_else organizer d = ok tt

-- `admin_create_event`
abbrev pub create_event_route : Credentials → Env → MatchCreate → Endpoint
create_event_route c env payload = organizer_route c nobody_else (λ o _. create_match env payload o)

-- `admin_update_event`
abbrev pub update_event_route : Credentials → ℕ → EventUpdate → Endpoint
update_event_route c m payload =
    organizer_route c (require_event_access m) (λ o match. update_match m match payload o)

-- `admin_update_payment_configuration`
abbrev pub configure_route : Credentials → ℕ → PaymentConfigurationUpdate → Endpoint
configure_route c m payload =
    organizer_route c (require_event_access m) (λ o _. update_payment_configuration m payload o)

-- `admin_upload_payment_qr`
abbrev pub upload_qr_route : Credentials → Env → Imaging → ℕ → Upload → Endpoint
upload_qr_route c env imaging m upload =
    organizer_route c (require_event_access m)
      (λ o _. set_payment_configuration_qr env imaging m upload o)

abbrev pub confirm_payment_route : Credentials → Env → ℕ → Endpoint
confirm_payment_route c env p =
    organizer_route c (require_payment_access p) (λ o _. review_payment env p true o.id none)

abbrev pub reject_payment_route : Credentials → Env → ℕ → String → Endpoint
reject_payment_route c env p reason =
    organizer_route c (require_payment_access p)
      (λ o _. review_payment env p false o.id (some (strip reason)))

abbrev pub promote_route : Credentials → ℕ → Endpoint
promote_route c i =
    organizer_route c (require_registration_access i) (λ o _. promote_waitlisted i o.id)

-- `admin_cancel_registration`
abbrev pub cancel_route : Credentials → Env → ℕ → Endpoint
cancel_route c env i =
    organizer_route c (require_registration_access i)
      (λ o _. cancel_registration env i ActorType.organizer (some o.id))

abbrev pub register_route :
    Credentials → Bool → String → Env → String → RegistrationCreate → Endpoint
register_route c up client env public_id payload = player_route c (λ user.
    limited_route up c.now ("registration:" ++ client) 20 (λ server.
      check (get_public_match public_id server.db)
        (λ (m, match). perform (create_registration env m match payload user)) server))

-- `cancel_own_registration`
abbrev pub cancel_own_route : Credentials → Env → String → Endpoint
cancel_own_route c env key = player_route c (λ user server.
    check (own_registration user key server.db)
      (λ i. perform (cancel_registration env i ActorType.player (some user.id))) server)

abbrev pub upload_payment_route :
    Credentials → Bool → String → Env → Imaging → String → Upload → Option String → Endpoint
upload_payment_route c up client env imaging key upload utr = player_route c (λ user.
    limited_route up c.now ("payment_upload:" ++ client) 20
      (submit env imaging key upload utr user))

-- The requests that change the database.
pub data Call : Type 0 where
  create_event : Credentials → Env → MatchCreate → Call
  update_event : Credentials → (match_id : ℕ) → EventUpdate → Call
  configure : Credentials → (match_id : ℕ) → PaymentConfigurationUpdate → Call
  upload_qr : Credentials → Env → Imaging → (match_id : ℕ) → Upload → Call
  confirm_payment : Credentials → Env → (payment_id : ℕ) → Call
  reject_payment : Credentials → Env → (payment_id : ℕ) → (reason : String) → Call
  promote : Credentials → (registration_id : ℕ) → Call
  cancel : Credentials → Env → (registration_id : ℕ) → Call
  register :
      Credentials
      → (up : Bool) → (client : String) → Env
      → (public_id : String) → RegistrationCreate
      → Call
  cancel_own : Credentials → Env → (key : String) → Call
  upload_payment :
      Credentials
      → (up : Bool) → (client : String) → Env
      → Imaging
      → (key : String) → Upload
      → Option String
      → Call

unfoldable pub call : Call → Endpoint
call (create_event c env payload) = create_event_route c env payload
call (update_event c m payload) = update_event_route c m payload
call (configure c m payload) = configure_route c m payload
call (upload_qr c env imaging m upload) = upload_qr_route c env imaging m upload
call (confirm_payment c env p) = confirm_payment_route c env p
call (reject_payment c env p reason) = reject_payment_route c env p reason
call (promote c i) = promote_route c i
call (cancel c env i) = cancel_route c env i
call (register c up client env public_id payload) = register_route c up client env public_id payload
call (cancel_own c env key) = cancel_own_route c env key
call (upload_payment c up client env imaging key upload utr) =
    upload_payment_route c up client env imaging key upload utr
