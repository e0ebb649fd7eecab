-- ===== src/Lifecycle/Passes.antt =====
-- How a handler goes on where a transition is known to be allowed, or to be refused.
use stranger_club.Base.{ℕ, String, ◌≡◌, true, false, Option, List}
use stranger_club.Db.{Db}
use stranger_club.Db.Status.{
  RegistrationStatus, PaymentStatus, ActorType, registration_in, payment_in, registration_text,
  payment_text,
}
use stranger_club.Db.Rows.{Registration, Payment, Json}
use stranger_club.Exec.{Result, err, Session, Exec, ◌>>=◌}
use stranger_club.Exec.Ends.{Ends, Ends-modify, Ends-pure-bind, Ends-assoc}
use stranger_club.Exec.Passes.{Passes-require, Refuses-require}
use stranger_club.Lifecycle.{
  valid_payment_transitions, valid_registration_transitions, invalid_transition, write_registration,
  write_payment, moved_entry, transition_registration, transition_payment,
}
use stranger_club.Lifecycle.Ends.{log, Ends-audit}

module _ {ℓ} {A : Type ℓ} {Q : Result A → Db → Type 0} where
  pub Passes-transition_registration :
      (id : ℕ) (r : Registration) (to : RegistrationStatus) (e : String) (t : ActorType)
      (a : Option ℕ) (meta : List (String × Json)) (k : Registration → Exec Db A) (s : Session Db)
      → registration_in to (valid_registration_transitions r.status) ≡ true
      → Ends Q (k (record r { status = to })) (record s {
        working =
            log
              (moved_entry e "registration" id meta t a
                (registration_text r.status)
                (registration_text to))
              (write_registration id (record r { status = to }) s.working);
      })
      → Ends Q (transition_registration id r to e t a meta >>= k) s
  unfolding transition_registration
  Passes-transition_registration id r to e t a meta k s allowed rest = Ends-assoc _ _ k s (
      Passes-require _ _ _ s allowed (
        Ends-assoc _ _ k s
          (Ends-modify _ _ s (Ends-assoc _ _ k _ (Ends-audit _ _ _ (Ends-pure-bind _ k _ rest))))))

  pub Refuses-transition_registration :
      (id : ℕ) (r : Registration) (to : RegistrationStatus) (e : String) (t : ActorType)
      (a : Option ℕ) (meta : List (String × Json)) (k : Registration → Exec Db A) (s : Session Db)
      → registration_in to (valid_registration_transitions r.status) ≡ false
      → Q (err invalid_transition) s.committed
      → Ends Q (transition_registration id r to e t a meta >>= k) s
  unfolding transition_registration
  Refuses-transition_registration id r to e t a meta k s refused failed =
      Ends-assoc _ _ k s (Refuses-require _ _ _ s refused failed)

  pub Passes-transition_payment :
      (id : ℕ) (p : Payment) (to : PaymentStatus) (e : String) (t : ActorType) (a : Option ℕ)
      (meta : List (String × Json)) (k : Payment → Exec Db A) (s : Session Db)
      → payment_in to (valid_payment_transitions p.status) ≡ true
      → Ends Q (k (record p { status = to })) (record s {
        working =
            log
              (moved_entry e "payment" id meta t a (payment_text p.status) (payment_text to))
              (write_payment id (record p { status = to }) s.working);
      })
      → Ends Q (transition_payment id p to e t a meta >>= k) s
  unfolding transition_payment
  Passes-transition_payment id p to e t a meta k s allowed rest = Ends-assoc _ _ k s (
      Passes-require _ _ _ s allowed (
        Ends-assoc _ _ k s
          (Ends-modify _ _ s (Ends-assoc _ _ k _ (Ends-audit _ _ _ (Ends-pure-bind _ k _ rest))))))
