-- ===== src/Payments/Guards.antt =====
-- The guards of the handlers of payments, and the rows that they load.
use stranger_club.Base.{
  ℕ, String, ◌≡◌, ◌≢◌, ◌⊎◌, refl, inl, inr, true, not, none, some, arith, Bool-cases,
}
use stranger_club.Db.{Db, is_payment_of}
use stranger_club.Db.Query.{first_where}
use stranger_club.Db.Status.{RegistrationStatus, PaymentStatus, payment_is}
use stranger_club.Db.Rows.{Registration, Payment, AuditLog}
use stranger_club.Exec.{Error, Result, err, Session, Exec, ◌>>=◌}
use stranger_club.Exec.Ends.{Ends, Ends-found, Ends-gets, Ends-pure-bind, Ends-assoc}
use stranger_club.Lifecycle.{invalid_transition, write_payment}
use stranger_club.Lifecycle.Ends.{log, Ends-transition_payment}
use stranger_club.Payments.{
  closed_for_payment, assert_open_for_payment, has_public_id, load_registration_for_payment,
  advance_payment,
}

open_statuses :
    (s : RegistrationStatus)
    → closed_for_payment s ≡ none
    → (s ≡ RegistrationStatus.pending) ⊎ (s ≡ RegistrationStatus.rejected)
unfolding closed_for_payment
open_statuses s h = ground arith

pub is_submitted :
    (s : PaymentStatus) → payment_is s PaymentStatus.submitted ≡ true → s ≡ PaymentStatus.submitted
is_submitted s h = ground arith

pub not_verified :
    (s : PaymentStatus)
    → not (payment_is s PaymentStatus.verified) ≡ true
    → s ≢ PaymentStatus.verified
not_verified s h = ground arith

module _ {ℓ} {A : Type ℓ} {Q : Result A → Db → Type 0} where
  pub Ends-open :
      (st : RegistrationStatus) (k : Unit {0} → Exec Db A) (s : Session Db)
      → ((e : Error) → Q (err e) s.committed)
      → ((st ≡ RegistrationStatus.pending) ⊎ (st ≡ RegistrationStatus.rejected) → Ends Q (k tt) s)
      → Ends Q (assert_open_for_payment st >>= k) s
  unfolding assert_open_for_payment closed_for_payment ◌>>=◌
  Ends-open RegistrationStatus.pending k s failed rest = record { holds = (rest (inl refl)).holds }
  Ends-open RegistrationStatus.rejected k s failed rest = record { holds = (rest (inr refl)).holds }
  Ends-open RegistrationStatus.waitlisted k s failed rest = record { holds = failed _ }
  Ends-open RegistrationStatus.confirmed k s failed rest = record { holds = failed _ }
  Ends-open RegistrationStatus.cancelled k s failed rest = record { holds = failed _ }

  pub Ends-load :
      (key : String) (k : (ℕ × Registration × ℕ × Payment) → Exec Db A) (s : Session Db)
      → ((e : Error) → Q (err e) s.committed)
      → ((i : ℕ) (r : Registration) (p : ℕ) (pay : Payment)
          → first_where (has_public_id key) s.working.registrations ≡ some (i, r)
          → first_where (is_payment_of i) s.working.payments ≡ some (p, pay)
          → Ends Q (k (i, r, p, pay)) s)
      → Ends Q (load_registration_for_payment key >>= k) s
  unfolding load_registration_for_payment
  Ends-load key k s failed rest = Ends-assoc _ _ k s (
      Ends-gets _ _ s (
        Ends-assoc _ _ k s (
          Ends-found _ _ _ s (failed _) λ r found. Ends-assoc _ _ k s (
            Ends-gets _ _ s (
              Ends-assoc _ _ k s (
                Ends-found _ _ _ s (failed _)
                  λ p paid. Ends-pure-bind _ k s (rest r.0 r.1 p.0 p.1 found paid)))))))

  pub Ends-advance :
      (u q p : ℕ) (pay : Payment) (k : Payment → Exec Db A) (s : Session Db)
      → Q (err invalid_transition) s.committed
      → (pay.status ≡ PaymentStatus.submitted → Ends Q (k pay) s)
      → ((entry : AuditLog)
          → Ends Q (k (record pay { status = PaymentStatus.submitted })) (record s {
            working =
                log entry
                  (write_payment p (record pay { status = PaymentStatus.submitted }) s.working);
          }))
      → Ends Q (advance_payment u q p pay >>= k) s
  unfolding advance_payment
  Ends-advance u q p pay k s failed stay move =
      elim (Bool-cases (payment_is pay.status PaymentStatus.submitted)) [
        | inl e ↦ rw e (Ends-pure-bind pay k s (stay (is_submitted pay.status e)))
        | inr e ↦ rw e (Ends-transition_payment p pay _ _ _ _ _ k s failed (λ allowed. move _))
      ]
