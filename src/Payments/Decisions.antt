-- ===== src/Payments/Decisions.antt =====
-- `review_payment` of backend/app/services.py.
use stranger_club.Base.{ℕ, String, Bool, Option, some, List, [], ◌∷◌, leb, if◌then◌else◌}
use stranger_club.Db.{Db, is_pending_of}
use stranger_club.Db.Query.{get, update, first_where}
use stranger_club.Db.Status.{RegistrationStatus, PaymentStatus, ProofStatus, ActorType, payment_is}
use stranger_club.Db.Rows.{Match, Registration, Payment, PaymentProof, Json, num, text}
use stranger_club.Env.{Env}
use stranger_club.Exec.{
  api_error, runtime_error, Exec, pure, or_raise, gets, require, modify, commit, rollback, ◌>>=◌,
  ◌>>◌,
}
use stranger_club.Lifecycle.{write_payment, transition_registration, transition_payment}
use stranger_club.Events.Counts.{match_counts}
use stranger_club.Events.Refresh.{refresh_full_status}
use stranger_club.Payments.{not_found}

-- What a review writes: the statuses, the audit entries' types and metadata, and the changes to
-- the payment and the proof.
pub record Decision : Type 0 where
  pub to_registration : RegistrationStatus
  pub registration_event : String
  pub registration_metadata : List (String × Json)
  pub to_payment : PaymentStatus
  pub payment_event : String
  pub payment_metadata : List (String × Json)
  pub verified_at : Option ℕ
  pub rejection_reason : Option String
  pub to_proof : ProofStatus
  pub proof_reason : Option String

-- Approved, and the event has filled meanwhile.
unfoldable pub filled : Payment → Decision
filled pay = record {
  to_registration = RegistrationStatus.waitlisted;
  registration_event = "PLAYER_WAITLISTED";
  registration_metadata = ("reason", text "capacity") ∷ [];
  to_payment = PaymentStatus.rejected;
  payment_event = "PAYMENT_REJECTED";
  payment_metadata = ("reason", text "capacity") ∷ [];
  verified_at = pay.verified_at;
  rejection_reason = some "Event filled before payment could be confirmed";
  to_proof = ProofStatus.rejected;
  proof_reason = some "Event filled before payment could be confirmed";
}

unfoldable pub approved : Env → ℕ → ℕ → Payment → PaymentProof → Decision
approved env payment_id proof_id pay proof = record {
  to_registration = RegistrationStatus.confirmed;
  registration_event = "PAYMENT_VERIFIED";
  registration_metadata = ("payment_id", num payment_id) ∷ [];
  to_payment = PaymentStatus.verified;
  payment_event = "PAYMENT_VERIFIED";
  payment_metadata = ("proof_id", num proof_id) ∷ [];
  verified_at = some env.now;
  rejection_reason = pay.rejection_reason;
  to_proof = ProofStatus.accepted;
  proof_reason = proof.rejection_reason;
}

unfoldable pub refused : ℕ → ℕ → Payment → Option String → Decision
refused payment_id proof_id pay reason = record {
  to_registration = RegistrationStatus.rejected;
  registration_event = "PAYMENT_REJECTED";
  registration_metadata = ("payment_id", num payment_id) ∷ [];
  to_payment = PaymentStatus.rejected;
  payment_event = "PAYMENT_REJECTED";
  payment_metadata = ("proof_id", num proof_id) ∷ [];
  verified_at = pay.verified_at;
  rejection_reason = reason;
  to_proof = ProofStatus.rejected;
  proof_reason = reason;
}

unfoldable pub decide :
    Env → Bool → ℕ → ℕ → ℕ → ℕ → Payment → PaymentProof → Option String → Decision
unfolding filled approved refused
decide env approve confirmed capacity p q pay proof reason =
    if approve
    then if leb capacity confirmed then filled pay else approved env p q pay proof
    else refused p q pay reason

abbrev pub reviewed_payment : Decision → Payment → Payment
reviewed_payment c pay = record pay {
  verified_at = c.verified_at;
  rejection_reason = c.rejection_reason;
}

abbrev pub reviewed_proof : Env → ℕ → Decision → PaymentProof → PaymentProof
reviewed_proof env actor_id c proof = record proof {
  status = c.to_proof;
  rejection_reason = c.proof_reason;
  reviewed_by_organizer_id = some actor_id;
  reviewed_at = some env.now;
}

-- The writes of a review, in the source's order.
unfoldable pub conclude :
    Env → ℕ → ℕ → Payment → ℕ → PaymentProof → Registration → Match → Decision → Exec Db ℕ
conclude env actor_id p pay q proof r match c = do
  transition_registration pay.registration_id r c.to_registration c.registration_event
      ActorType.organizer (some actor_id) c.registration_metadata
  paid ←
      transition_payment p pay c.to_payment c.payment_event ActorType.organizer (some actor_id)
        c.payment_metadata
  modify (write_payment p (reviewed_payment c paid))
  modify (λ d. record d { proofs = update d.proofs q (reviewed_proof env actor_id c proof) })
  refresh_full_status r.match_id match
  commit
  pure pay.registration_id

-- The registration that was reviewed.
unfoldable pub review_payment : Env → ℕ → Bool → ℕ → Option String → Exec Db ℕ
review_payment env payment_id approve actor_id reason = do
  preliminary ← gets (λ d. get d.payments payment_id)
  or_raise preliminary not_found
  rollback
  payment? ← gets (λ d. get d.payments payment_id)
  pay ← or_raise payment? not_found
  require (payment_is pay.status PaymentStatus.submitted) (api_error 409 "PAYMENT_ALREADY_REVIEWED")
  pending ← gets (λ d. first_where (is_pending_of payment_id) d.proofs)
  (q, proof) ← or_raise pending runtime_error
  registration? ← gets (λ d. get d.registrations pay.registration_id)
  r ← or_raise registration? runtime_error
  match? ← gets (λ d. get d.matches r.match_id)
  match ← or_raise match? runtime_error
  counts ← gets (match_counts r.match_id)
  conclude env actor_id payment_id pay q proof r match
      (decide env approve counts.confirmed match.capacity payment_id q pay proof reason)
