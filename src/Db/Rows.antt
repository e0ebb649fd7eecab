-- ===== src/Db/Rows.antt =====
-- The rows of backend/app/models.py. A primary key stands beside its row in the table, and the
-- audit columns `created_at` and `updated_at` are kept where the code orders by them. Dates,
-- times and datetimes are counts of microseconds, as Python's resolution is.
use stranger_club.Base.{ℕ, String, Option, List}
use stranger_club.Db.Status.{
  ResultType, FixtureStatus, EventStatus, RegistrationStatus, PaymentStatus, ProofStatus, Position,
  QrSource, Role, ActorType,
}

pub record Match : Type 0 where
  pub public_id : String
  pub name : String
  pub date : ℕ
  pub start_time : ℕ
  pub end_time : ℕ
  pub venue : String
  pub capacity : ℕ
  pub fee : ℕ
  pub registration_deadline : ℕ
  pub status : EventStatus
  pub owner_organizer_id : Option ℕ

pub record EventPaymentConfiguration : Type 0 where
  pub match_id : ℕ
  pub payee_upi_id : String
  pub payee_name : String
  pub qr_source : QrSource
  pub qr_storage_key : Option String
  pub updated_by_organizer_id : Option ℕ

pub record Registration : Type 0 where
  pub public_id : String
  pub match_id : ℕ
  pub user_id : Option ℕ
  pub name : String
  pub phone : String
  pub email : Option String
  pub status : RegistrationStatus
  pub preferred_position : Position
  pub cancelled_at : Option ℕ
  pub created_at : ℕ

pub record Payment : Type 0 where
  pub registration_id : ℕ
  pub status : PaymentStatus
  pub amount_due : ℕ
  pub payee_upi_id_snapshot : String
  pub payee_name_snapshot : String
  pub qr_source_snapshot : QrSource
  pub qr_storage_key_snapshot : Option String
  pub submitted_at : Option ℕ
  pub verified_at : Option ℕ
  pub rejection_reason : Option String

pub record PaymentProof : Type 0 where
  pub payment_id : ℕ
  pub storage_key : String
  pub screenshot_hash : String
  pub file_size : ℕ
  pub content_type : String
  pub utr_reference : Option String
  pub uploaded_at : ℕ
  pub submitted_by_user_id : ℕ
  pub status : ProofStatus
  pub reviewed_by_organizer_id : Option ℕ
  pub reviewed_at : Option ℕ
  pub rejection_reason : Option String
  pub superseded_at : Option ℕ

pub record Team : Type 0 where
  pub event_id : ℕ
  pub name : String
  pub short_code : Option String
  pub max_size : Option ℕ

pub record Fixture : Type 0 where
  pub event_id : ℕ
  pub team_a_id : ℕ
  pub team_b_id : ℕ
  pub sequence : Option ℕ
  pub scheduled_at : ℕ
  pub venue_override : Option String
  pub status : FixtureStatus

pub record TeamMember : Type 0 where
  pub team_id : ℕ
  pub registration_id : ℕ
  pub event_id : ℕ
  pub assigned_by_organizer_id : Option ℕ
  pub created_at : ℕ

pub record MatchParticipant : Type 0 where
  pub fixture_id : ℕ
  pub registration_id : ℕ
  pub team_id : ℕ
  pub event_id : ℕ

pub record MatchResult : Type 0 where
  pub fixture_id : ℕ
  pub event_id : ℕ
  pub team_a_id : ℕ
  pub team_b_id : ℕ
  pub winning_team_id : Option ℕ
  pub result_type : ResultType
  pub player_of_match_registration_id : Option ℕ
  pub best_batter_registration_id : Option ℕ
  pub best_bowler_registration_id : Option ℕ
  pub notes : Option String
  pub finalized_at : Option ℕ
  pub finalized_by_organizer_id : Option ℕ

-- An organizer's account, and a player's, as far as services.py reads them.
pub record Organizer : Type 0 where
  pub id : ℕ
  pub role : Role

pub record User : Type 0 where
  pub id : ℕ
  pub phone : Option String

-- The JSON of an audit entry.
pub data Json : Type 0 where
  null : Json
  num : ℕ → Json
  text : String → Json
  nums : List ℕ → Json
  texts : List String → Json

pub record AuditLog : Type 0 where
  pub event_type : String
  pub entity_type : String
  pub entity_id : ℕ
  pub metadata : List (String × Json)
  pub actor_type : ActorType
  pub actor_id : Option ℕ
  pub before : List (String × Json)
  pub after : List (String × Json)
