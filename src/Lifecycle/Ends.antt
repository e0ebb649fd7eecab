-- ===== src/Lifecycle/Ends.antt =====
-- How a handler goes on after a transition: the move was allowed, the row holds the new status,
-- and one entry was added to the audit log.
use stranger_club.Base.{ℕ, String, ◌≡◌, true, Option, List, [], ◌∷◌, ◌++◌}
use stranger_club.Db.{Db, audit}
use stranger_club.Db.Status.{
  RegistrationStatus, PaymentStatus, ActorType, registration_in, payment_in, registration_text,
  payment_text,
}
use stranger_club.Db.Rows.{Registration, Payment, Json, AuditLog}
use stranger_club.Exec.{Result, err, Session, Exec, ◌>>=◌}
use stranger_club.Exec.Ends.{Ends, Ends-require, Ends-modify, Ends-pure-bind, Ends-assoc}
use stranger_club.Lifecycle.{
  valid_payment_transitions, valid_registration_transitions, invalid_transition, write_registration,
  write_payment, moved_entry, transition_registration, transition_payment,
}

abbrev pub log : AuditLog → Db → Db
log entry d = record d { audit_log = d.audit_log ++ entry ∷ [] }

module _ {ℓ} {A : Type ℓ} {Q : Result A → Db → Type 0} where
  pub Ends-audit :
      (entry : AuditLog) (k : Unit {0} → Exec Db A) (s : Session Db)
      → Ends Q (k tt) (record s { working = log entry s.working })
      → Ends Q (audit entry >>= k) s
  unfolding audit
  Ends-audit entry k s h = Ends-modify _ k s h

  pub Ends-transition_registration :
      (id : ℕ) (r : Registration) (to : RegistrationStatus) (e : String) (t : ActorType)
      (a : Option ℕ) (meta : List (String × Json)) (k : Registration → Exec Db A) (s : Session Db)
      → Q (err invalid_transition) s.committed
      → (registration_in to (valid_registration_transitions r.status) ≡ true
          → Ends Q (k (record r { status = to })) (record s {
            working =
                log
                  (moved_entry e "registration" id meta t a
                    (registration_text r.status)
                    (registration_text to))
                  (write_registration id (record r { status = to }) s.working);
          }))
      → Ends Q (transition_registration id r to e t a meta >>= k) s
  unfolding transition_registration
  Ends-transition_registration id r to e t a meta k s failed rest = Ends-assoc _ _ k s (
      Ends-require _ _ _ s failed λ allowed. Ends-assoc _ _ k s (
        Ends-modify _ _ s
          (Ends-assoc _ _ k _ (Ends-audit _ _ _ (Ends-pure-bind _ k _ (rest allowed))))))

  pub Ends-transition_payment :
      (id : ℕ) (p : Payment) (to : PaymentStatus) (e : String) (t : ActorType) (a : Option ℕ)
      (meta : List (String × Json)) (k : Payment → Exec Db A) (s : Session Db)
      → Q (err invalid_transition) s.committed
      → (payment_in to (valid_payment_transitions p.status) ≡ true
          → Ends Q (k (record p { status = to })) (record s {
            working =
                log
                  (moved_entry e "payment" id meta t a (payment_text p.status) (payment_text to))
                  (write_payment id (record p { status = to }) s.working);
          }))
      → Ends Q (transition_payment id p to e t a meta >>= k) s
  unfolding transition_payment
  Ends-transition_payment id p to e t a meta k s failed rest = Ends-assoc _ _ k s (
      Ends-require _ _ _ s failed λ allowed. Ends-assoc _ _ k s (
        Ends-modify _ _ s
          (Ends-assoc _ _ k _ (Ends-audit _ _ _ (Ends-pure-bind _ k _ (rest allowed))))))
