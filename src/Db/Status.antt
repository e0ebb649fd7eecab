-- ===== src/Db/Status.antt =====
-- The status columns of backend/app/models.py and the literal types of schemas.py, each with the
-- text that the column holds.
use stranger_club.Base.{ℕ, String, Bool, false, ◌||◌, List, [], ◌∷◌, ◌==◌}

pub data EventStatus : Type 0 where
  draft open_ full ongoing completed cancelled : EventStatus

pub data RegistrationStatus : Type 0 where
  pending waitlisted confirmed rejected cancelled : RegistrationStatus

pub data PaymentStatus : Type 0 where
  awaiting_proof submitted verified rejected : PaymentStatus

pub data ProofStatus : Type 0 where
  pending accepted rejected superseded : ProofStatus

pub data FixtureStatus : Type 0 where
  scheduled in_progress completed cancelled : FixtureStatus

pub data ResultType : Type 0 where
  team_a_win team_b_win draw no_result : ResultType

pub data Position : Type 0 where
  batsman bowler all_rounder wicket_keeper no_preference : Position

pub data QrSource : Type 0 where
  generated uploaded : QrSource

pub data Role : Type 0 where
  organizer platform_admin : Role

pub data ActorType : Type 0 where
  player organizer system : ActorType

-- A number for each status, by which two of them are compared.
abbrev pub event_code : EventStatus → ℕ
event_code EventStatus.draft = 0
event_code EventStatus.open_ = 1
event_code EventStatus.full = 2
event_code EventStatus.ongoing = 3
event_code EventStatus.completed = 4
event_code EventStatus.cancelled = 5

abbrev pub registration_code : RegistrationStatus → ℕ
registration_code RegistrationStatus.pending = 0
registration_code RegistrationStatus.waitlisted = 1
registration_code RegistrationStatus.confirmed = 2
registration_code RegistrationStatus.rejected = 3
registration_code RegistrationStatus.cancelled = 4

abbrev pub payment_code : PaymentStatus → ℕ
payment_code PaymentStatus.awaiting_proof = 0
payment_code PaymentStatus.submitted = 1
payment_code PaymentStatus.verified = 2
payment_code PaymentStatus.rejected = 3

abbrev pub proof_code : ProofStatus → ℕ
proof_code ProofStatus.pending = 0
proof_code ProofStatus.accepted = 1
proof_code ProofStatus.rejected = 2
proof_code ProofStatus.superseded = 3

abbrev pub fixture_code : FixtureStatus → ℕ
fixture_code FixtureStatus.scheduled = 0
fixture_code FixtureStatus.in_progress = 1
fixture_code FixtureStatus.completed = 2
fixture_code FixtureStatus.cancelled = 3

abbrev pub event_is : EventStatus → EventStatus → Bool
event_is a b = event_code a == event_code b

abbrev pub registration_is : RegistrationStatus → RegistrationStatus → Bool
registration_is a b = registration_code a == registration_code b

abbrev pub payment_is : PaymentStatus → PaymentStatus → Bool
payment_is a b = payment_code a == payment_code b

abbrev pub proof_is : ProofStatus → ProofStatus → Bool
proof_is a b = proof_code a == proof_code b

abbrev pub fixture_is : FixtureStatus → FixtureStatus → Bool
fixture_is a b = fixture_code a == fixture_code b

-- `status in {...}`
abbrev pub event_in : EventStatus → List EventStatus → Bool
event_in a [] = false
event_in a (b ∷ bs) = event_is a b || event_in a bs

abbrev pub registration_in : RegistrationStatus → List RegistrationStatus → Bool
registration_in a [] = false
registration_in a (b ∷ bs) = registration_is a b || registration_in a bs

abbrev pub payment_in : PaymentStatus → List PaymentStatus → Bool
payment_in a [] = false
payment_in a (b ∷ bs) = payment_is a b || payment_in a bs

abbrev pub fixture_in : FixtureStatus → List FixtureStatus → Bool
fixture_in a [] = false
fixture_in a (b ∷ bs) = fixture_is a b || fixture_in a bs

-- The text of the column, as the audit entries show it.
abbrev pub event_text : EventStatus → String
event_text EventStatus.draft = "DRAFT"
event_text EventStatus.open_ = "OPEN"
event_text EventStatus.full = "FULL"
event_text EventStatus.ongoing = "ONGOING"
event_text EventStatus.completed = "COMPLETED"
event_text EventStatus.cancelled = "CANCELLED"

abbrev pub registration_text : RegistrationStatus → String
registration_text RegistrationStatus.pending = "PENDING"
registration_text RegistrationStatus.waitlisted = "WAITLISTED"
registration_text RegistrationStatus.confirmed = "CONFIRMED"
registration_text RegistrationStatus.rejected = "REJECTED"
registration_text RegistrationStatus.cancelled = "CANCELLED"

abbrev pub payment_text : PaymentStatus → String
payment_text PaymentStatus.awaiting_proof = "AWAITING_PROOF"
payment_text PaymentStatus.submitted = "SUBMITTED"
payment_text PaymentStatus.verified = "VERIFIED"
payment_text PaymentStatus.rejected = "REJECTED"

abbrev pub qr_text : QrSource → String
qr_text QrSource.generated = "GENERATED"
qr_text QrSource.uploaded = "UPLOADED"
