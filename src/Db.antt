-- ===== src/Db.antt =====
-- The database: one table for each class of backend/app/models.py that the modelled operations
-- read or write, and the queries that several of them share.
pub mod Query
pub mod Status
pub mod Rows
use stranger_club.Base.{
  ℕ, ◌+◌, Bool, ◌&&◌, Option, none, some, List, [], ◌∷◌, ◌++◌, ◌==◌, option_is,
}
use stranger_club.Exec.{Exec, modify}
use Query.{Table, get, count_where, first_where}
use Status.{
  EventStatus, RegistrationStatus, PaymentStatus, ProofStatus, registration_is, registration_in,
  payment_is, proof_is,
}
use Rows.{
  MatchResult, Team, Fixture, Match, EventPaymentConfiguration, Registration, Payment, PaymentProof,
  TeamMember, MatchParticipant, AuditLog,
}

pub record Db : Type 0 where
  pub matches : Table Match
  pub configurations : Table EventPaymentConfiguration
  pub registrations : Table Registration
  pub payments : Table Payment
  pub proofs : Table PaymentProof
  pub members : Table TeamMember
  pub participants : Table MatchParticipant
  pub teams : Table Team
  pub fixtures : Table Fixture
  pub results : Table MatchResult
  pub audit_log : List AuditLog

-- `ACTIVE_REGISTRATION_STATUSES`
abbrev pub active_registration_statuses : List RegistrationStatus
active_registration_statuses =
    RegistrationStatus.pending ∷ RegistrationStatus.waitlisted ∷ RegistrationStatus.confirmed
    ∷ RegistrationStatus.rejected ∷ []

abbrev pub is_active : RegistrationStatus → Bool
is_active s = registration_in s active_registration_statuses

-- The rows of an event with one status.
abbrev pub in_event_as : ℕ → RegistrationStatus → Registration → Bool
in_event_as m s r = r.match_id == m && registration_is r.status s

-- The rows that the index `uq_registration_active_per_user` holds under one (event, user).
abbrev pub is_active_of : ℕ → ℕ → Registration → Bool
is_active_of m u r = r.match_id == m && option_is r.user_id u && is_active r.status

abbrev pub is_payment_of : ℕ → Payment → Bool
is_payment_of r p = p.registration_id == r

abbrev pub is_pending_of : ℕ → PaymentProof → Bool
is_pending_of p q = q.payment_id == p && proof_is q.status ProofStatus.pending

abbrev pub confirmed_count : Db → ℕ → ℕ
confirmed_count d m = count_where (in_event_as m RegistrationStatus.confirmed) d.registrations

-- services.audit
unfoldable pub audit : AuditLog → Exec Db (Unit {0})
audit entry = modify (λ d. record d { audit_log = d.audit_log ++ entry ∷ [] })
