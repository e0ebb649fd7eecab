-- ===== src/Spec.antt =====
-- The abstract specification of the registration and payment core: the moves that a transaction
-- may make on the database, each with the condition under which it is made.
pub mod Tables
pub mod Capacity
pub mod Uniqueness
pub mod Proofs
pub mod Agreement
pub mod History
pub mod Events
use stranger_club.Base.{
  ℕ, ◌≤◌, ◌<◌, ◌≡◌, ◌≢◌, ◌⊎◌, String, Bool, true, Option, none, some, List, ◌==◌,
}
use stranger_club.Db.{Db, is_active_of, is_pending_of, confirmed_count}
use stranger_club.Db.Query.{Table, get, update, insert, delete, count_where, first_where}
use stranger_club.Db.Status.{
  RegistrationStatus, PaymentStatus, ProofStatus, registration_in, payment_in,
}
use stranger_club.Db.Rows.{
  Match, EventPaymentConfiguration, Registration, Payment, PaymentProof, AuditLog,
}
use stranger_club.Exec.{Result, ok, err}
use stranger_club.Lifecycle.{
  valid_registration_transitions, valid_payment_transitions, write_registration, write_payment,
}
use stranger_club.Lifecycle.Ends.{log}
use stranger_club.Events.Refresh.{write_match}
use stranger_club.Events.Manage.{status_allowed, combine}
use stranger_club.Registrations.{initial_status, snapshot_payment}

-- How a review may end, by the number of confirmed players and the capacity of the event.
pub data Verdict (taken capacity : ℕ)
    : RegistrationStatus → PaymentStatus → ProofStatus → Type 0 where
  confirms :
      taken < capacity
      → Verdict taken capacity RegistrationStatus.confirmed PaymentStatus.verified
          ProofStatus.accepted
  fills :
      capacity ≤ taken
      → Verdict taken capacity RegistrationStatus.waitlisted PaymentStatus.rejected
          ProofStatus.rejected
  rejects :
      Verdict taken capacity RegistrationStatus.rejected PaymentStatus.rejected ProofStatus.rejected

-- What a payment froze when it was created.
pub record SameSnapshot (pay new : Payment) : Type 0 where
  pub registration : new.registration_id ≡ pay.registration_id
  pub amount : new.amount_due ≡ pay.amount_due
  pub payee : new.payee_upi_id_snapshot ≡ pay.payee_upi_id_snapshot
  pub name : new.payee_name_snapshot ≡ pay.payee_name_snapshot
  pub source : new.qr_source_snapshot ≡ pay.qr_source_snapshot
  pub key : new.qr_storage_key_snapshot ≡ pay.qr_storage_key_snapshot

-- What a proof is evidence of.
pub record SameEvidence (proof new : PaymentProof) : Type 0 where
  pub payment : new.payment_id ≡ proof.payment_id
  pub key : new.storage_key ≡ proof.storage_key
  pub hash : new.screenshot_hash ≡ proof.screenshot_hash
  pub size : new.file_size ≡ proof.file_size
  pub reference : new.utr_reference ≡ proof.utr_reference
  pub uploaded : new.uploaded_at ≡ proof.uploaded_at
  pub sender : new.submitted_by_user_id ≡ proof.submitted_by_user_id

-- The proofs of a payment before a new one is added: a pending one has been superseded.
pub data Superseded (d : Db) (p : ℕ) : Table PaymentProof → Type 0 where
  no_pending : first_where (is_pending_of p) d.proofs ≡ none → Superseded d p d.proofs
  replaced :
      (q : ℕ) (old new : PaymentProof)
      → first_where (is_pending_of p) d.proofs ≡ some (q, old)
      → SameEvidence old new
      → new.status ≡ ProofStatus.superseded
      → Superseded d p (update d.proofs q new)

-- Registration closes before the event starts, and the constraints of the columns hold.
pub record IsValidMatch (match : Match) : Type 0 where
  pub closes : match.registration_deadline ≤ combine match.date match.start_time
  pub capacity : 2 ≤ match.capacity
  pub fee : 1 ≤ match.fee

-- What an event keeps when its row is rewritten, and how its status may move.
pub record SameEvent (match new : Match) : Type 0 where
  pub identifier : new.public_id ≡ match.public_id
  pub owner : new.owner_organizer_id ≡ match.owner_organizer_id
  pub status : status_allowed match.status (some new.status) ≡ true
  pub valid : IsValidMatch match → IsValidMatch new

pub data Step (d : Db) : Db → Type 0 where
  logged : (entry : AuditLog) → Step d (log entry d)
  opened :
      (match : Match) → IsValidMatch match → Step d (record d { matches = insert d.matches match })
  configured : (t : Table EventPaymentConfiguration) → Step d (record d { configurations = t })
  -- An edit of an event keeps its capacity, or leaves room for the confirmed players.
  edited :
      (m : ℕ) (old new : Match)
      → get d.matches m ≡ some old
      → confirmed_count d m ≤ new.capacity
      → SameEvent old new
      → Step d (write_match m new d)
  restatused :
      (m : ℕ) (old new : Match)
      → get d.matches m ≡ some old
      → new.capacity ≡ old.capacity
      → SameEvent old new
      → Step d (write_match m new d)
  registered :
      (m u c : ℕ) (match : Match) (config : EventPaymentConfiguration) (r : Registration)
      → get d.matches m ≡ some match
      → first_where (λ c. c.match_id == m) d.configurations ≡ some (c, config)
      → r.match_id ≡ m
      → r.user_id ≡ some u
      → r.status ≡ initial_status (confirmed_count d m) match.capacity
      → count_where (is_active_of m u) d.registrations ≡ 0
      → Step d (record d {
        registrations = insert d.registrations r;
        payments = insert d.payments (snapshot_payment d.registrations.next_id match config);
      })
  -- A registration leaves for CANCELLED, or a waitlisted one goes back to PENDING.
  moved :
      (i : ℕ) (r new : Registration)
      → get d.registrations i ≡ some r
      → registration_in new.status (valid_registration_transitions r.status) ≡ true
      → (new.status ≡ RegistrationStatus.cancelled) ⊎ (new.status ≡ RegistrationStatus.pending)
      → new.match_id ≡ r.match_id
      → new.user_id ≡ r.user_id
      → Step d (write_registration i new d)
  stamped :
      (i : ℕ) (r new : Registration)
      → get d.registrations i ≡ some r
      → new.status ≡ r.status
      → new.match_id ≡ r.match_id
      → new.user_id ≡ r.user_id
      → Step d (write_registration i new d)
  left_team : (id : ℕ) → Step d (record d { members = delete d.members id })
  -- A new pending proof, while the payment is not verified.
  proved :
      (p : ℕ) (pay mid new : Payment) (proof : PaymentProof) (r : Registration)
      (t : Table PaymentProof)
      → get d.payments p ≡ some pay
      → get d.registrations pay.registration_id ≡ some r
      → (r.status ≡ RegistrationStatus.pending) ⊎ (r.status ≡ RegistrationStatus.rejected)
      → pay.status ≢ PaymentStatus.verified
      → Superseded d p t
      → proof.payment_id ≡ p
      → proof.status ≡ ProofStatus.pending
      → new.status ≡ PaymentStatus.submitted
      → SameSnapshot pay new
      → Step d
          (record d { payments = update (update d.payments p mid) p new; proofs = insert t proof })
  reviewed :
      (p q : ℕ) (pay mid new : Payment) (proof proof' : PaymentProof) (r : Registration)
      (match : Match) {to_registration : RegistrationStatus} {to_payment : PaymentStatus}
      {to_proof : ProofStatus}
      → get d.payments p ≡ some pay
      → pay.status ≡ PaymentStatus.submitted
      → first_where (is_pending_of p) d.proofs ≡ some (q, proof)
      → get d.registrations pay.registration_id ≡ some r
      → get d.matches r.match_id ≡ some match
      → registration_in to_registration (valid_registration_transitions r.status) ≡ true
      → Verdict (confirmed_count d r.match_id) match.capacity to_registration to_payment to_proof
      → new.status ≡ to_payment
      → SameSnapshot pay new
      → proof'.status ≡ to_proof
      → SameEvidence proof proof'
      → Step d (record d {
        registrations =
            update d.registrations pay.registration_id (record r { status = to_registration });
        payments = update (update d.payments p mid) p new;
        proofs = update d.proofs q proof';
      })

pub data Steps (d : Db) : Db → Type 0 where
  here : Steps d d
  next : {w x : Db} → Steps d w → Step w x → Steps d x

-- What the specification lets a handler do: fail and change nothing, or succeed by such moves.
abbrev pub Refines {ℓ} : {A : Type ℓ} → Db → Result A → Db → Type 0
Refines d (ok a) w = Steps d w
Refines d (err e) w = w ≡ d
