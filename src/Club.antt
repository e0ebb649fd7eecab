-- ===== src/Club.antt =====
-- The club's service as a whole: the requests of the routers registrations.py, payments.py and
-- admin.py that reach Events, Registrations and Payments, served one after the other. This is an
-- assumption of the model: in services.py a row lock orders only the requests that lock the same
-- row. What a request read before it took its lock is part of the request: a stale event row, and
-- what the first phase of a proof's upload has prepared.
pub mod Sound
pub mod Served
pub mod Safety
pub mod History
use stranger_club.Base.{ℕ, String, Bool, Option, none, some, List, [], ◌∷◌}
use stranger_club.Db.{Db}
use stranger_club.Db.Query.{get}
use stranger_club.Db.Rows.{Match, Organizer, User}
use stranger_club.Db.Status.{ActorType}
use stranger_club.Env.{Env, Imaging, Upload}
use stranger_club.Exec.{run}
use stranger_club.Events.Manage.{
  MatchCreate, create_match, EventUpdate, update_match, PaymentConfigurationUpdate,
  update_payment_configuration, set_payment_configuration_qr,
}
use stranger_club.Registrations.{
  RegistrationCreate, create_registration, cancel_registration, promote_waitlisted,
}
use stranger_club.Payments.{Prepared, prepare_payment_proof, store_payment_proof}
use stranger_club.Payments.Decisions.{review_payment}

pub data Request : Type 0 where
  opens : Env → MatchCreate → Organizer → Request
  edits : (match_id : ℕ) → EventUpdate → Organizer → Request
  configures : (match_id : ℕ) → PaymentConfigurationUpdate → Organizer → Request
  uploads_qr : Env → Imaging → (match_id : ℕ) → Upload → Organizer → Request
  registers : Env → (match_id : ℕ) → Match → RegistrationCreate → User → Request
  cancels : Env → (registration_id : ℕ) → ActorType → Option ℕ → Request
  promotes : (registration_id organizer_id : ℕ) → Request
  uploads_proof : Env → Imaging → String → Upload → Option String → (user_id : ℕ) → Request
  stores_proof : Env → Prepared → Request
  reviews : Env → (payment_id : ℕ) → Bool → (organizer_id : ℕ) → Option String → Request

-- The handler of an event loads its row first, and answers 404 where there is none.
unfoldable pub serve_edit : ℕ → EventUpdate → Organizer → Option Match → Db → Db
serve_edit m payload organizer none d = d
serve_edit m payload organizer (some match) d = (run (update_match m match payload organizer) d).1

-- The database after a request.
unfoldable pub serve : Request → Db → Db
unfolding serve_edit
serve (opens env payload organizer) d = (run (create_match env payload organizer) d).1
serve (edits m payload organizer) d = serve_edit m payload organizer (get d.matches m) d
serve (configures m payload organizer) d =
    (run (update_payment_configuration m payload organizer) d).1
serve (uploads_qr env imaging m upload organizer) d =
    (run (set_payment_configuration_qr env imaging m upload organizer) d).1
serve (registers env m stale payload user) d =
    (run (create_registration env m stale payload user) d).1
serve (cancels env i actor_type actor_id) d =
    (run (cancel_registration env i actor_type actor_id) d).1
serve (promotes i actor_id) d = (run (promote_waitlisted i actor_id) d).1
serve (uploads_proof env imaging key upload utr user_id) d =
    (run (prepare_payment_proof env imaging key upload utr user_id) d).1
serve (stores_proof env input) d = (run (store_payment_proof env input) d).1
serve (reviews env p approve actor_id reason) d =
    (run (review_payment env p approve actor_id reason) d).1

unfoldable pub serve_all : List Request → Db → Db
serve_all [] d = d
serve_all (q ∷ qs) d = serve_all qs (serve q d)

abbrev pub empty : Db
empty = record {
  matches = record { rows = []; next_id = 1 };
  configurations = record { rows = []; next_id = 1 };
  registrations = record { rows = []; next_id = 1 };
  payments = record { rows = []; next_id = 1 };
  proofs = record { rows = []; next_id = 1 };
  members = record { rows = []; next_id = 1 };
  participants = record { rows = []; next_id = 1 };
  teams = record { rows = []; next_id = 1 };
  fixtures = record { rows = []; next_id = 1 };
  results = record { rows = []; next_id = 1 };
  audit_log = [];
}
