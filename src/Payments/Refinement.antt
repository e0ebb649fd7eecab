-- ===== src/Payments/Refinement.antt =====
-- `submit_payment_proof` from its lock on, against the moves of Spec.
use stranger_club.Base.{ℕ, ◌≡◌, ◌≢◌, ◌⊎◌, refl, subst, Option, none, some, ==→eq}
use stranger_club.Db.{Db, is_pending_of, is_payment_of}
use stranger_club.Db.Query.{Table, get, update, insert, first_where}
use stranger_club.Db.Query.Laws.{IsTable, update_same, first_where-get}
use stranger_club.Db.Status.{RegistrationStatus, PaymentStatus}
use stranger_club.Db.Rows.{Registration, Payment, PaymentProof}
use stranger_club.Env.{Env}
use stranger_club.Exec.{run}
use stranger_club.Exec.Ends.{
  Ends, Ends-pure, Ends-if, Ends-require, Ends-modify, Ends-commit, Ends-rollback, Ends-run,
  Ends-gets,
}
use stranger_club.Lifecycle.Ends.{Ends-audit}
use stranger_club.Payments.{
  is_replay, Prepared, supersede, new_proof, submitted_payment, write_proof, keep_replay,
  store_payment_proof,
}
use stranger_club.Spec.{
  SameSnapshot, Superseded, no_pending, replaced, logged, proved, Steps, here, next, Refines,
}
use stranger_club.Payments.Guards.{not_verified, Ends-open, Ends-load, Ends-advance}

supersede-Superseded :
    (d : Db) (p now : ℕ) (o : Option (ℕ × PaymentProof))
    → first_where (is_pending_of p) d.proofs ≡ o
    → Superseded d p (supersede now o d.proofs)
supersede-Superseded d p now none e = no_pending e
supersede-Superseded d p now (some (q, proof)) e =
    replaced q proof _ e
      (record {
        payment = refl;
        key = refl;
        hash = refl;
        size = refl;
        reference = refl;
        uploaded = refl;
        sender = refl;
      })
      refl

module _ (env : Env) (d : Db) (input : Prepared) (r : Registration) (p : ℕ) (pay : Payment)
    (found : get d.payments p ≡ some pay) (held : get d.registrations pay.registration_id ≡ some r)
    (is_open : (r.status ≡ RegistrationStatus.pending) ⊎ (r.status ≡ RegistrationStatus.rejected))
    (unverified : pay.status ≢ PaymentStatus.verified) where
  proofs_after : Table PaymentProof
  proofs_after = supersede env.now (first_where (is_pending_of p) d.proofs) d.proofs

  proved-Steps :
      (mid new : Payment)
      → new.status ≡ PaymentStatus.submitted
      → SameSnapshot pay new
      → Steps d (record d {
        payments = update (update d.payments p mid) p new;
        proofs = insert proofs_after (new_proof env p input);
      })
  unfolding proofs_after new_proof
  proved-Steps mid new e f = next here (
      proved p pay mid new _ r proofs_after found held is_open unverified
        (supersede-Superseded d p env.now _ refl) refl refl e f)

  write_proof-Ends :
      Ends
        (Refines d)
        (write_proof env p pay (first_where (is_pending_of p) d.proofs) input)
        (record { committed = d; working = d })
  unfolding write_proof proofs_after
  write_proof-Ends = Ends-modify _ _ _ (
      Ends-gets _ _ _ (
        Ends-gets _ _ _ (
          Ends-gets _ _ _ (
            Ends-require _ _ _ _ refl λ unused. Ends-modify _ _ _ (
              Ends-advance _ _ _ _ _ _ refl
                (λ same. Ends-modify _ _ _ (
                  Ends-audit _ _ _ (
                    Ends-commit _ _ (
                      Ends-pure _ _ (
                        next
                          (subst
                            (λ t. Steps d (record d {
                              payments = update t p (submitted_payment env pay);
                              proofs = insert proofs_after (new_proof env p input);
                            }))
                            (update_same d.payments p pay found)
                            (proved-Steps pay (submitted_payment env pay) same (record {
                              registration = refl;
                              amount = refl;
                              payee = refl;
                              name = refl;
                              source = refl;
                              key = refl;
                            })))
                          (logged _))))))
                λ entry. Ends-modify _ _ _ (
                  Ends-audit _ _ _ (
                    Ends-commit _ _ (
                      Ends-pure _ _ (
                        next
                          (next
                            (proved-Steps _ _ refl (record {
                              registration = refl;
                              amount = refl;
                              payee = refl;
                              name = refl;
                              source = refl;
                              key = refl;
                            }))
                            (logged entry))
                          (logged _))))))))))

store_payment_proof-Ends :
    (env : Env) (input : Prepared) (d : Db)
    → IsTable d.registrations
    → IsTable d.payments
    → Ends (Refines d) (store_payment_proof env input) (record { committed = d; working = d })
unfolding store_payment_proof keep_replay
store_payment_proof-Ends env input d tr tp = Ends-rollback _ _ (
    Ends-load _ _ _ (λ e. refl)
      λ i r p pay loaded paid.
        Ends-open _ _ _ (λ e. refl)
          λ is_open. Ends-require _ _ _ _ refl λ unverified. Ends-gets _ _ _ (
            Ends-if
              (is_replay input.user_id input.image.digest (first_where (is_pending_of p) d.proofs))
              keep_replay (write_proof env p pay (first_where (is_pending_of p) d.proofs) input) _
              (λ same. Ends-commit _ _ (Ends-pure _ _ here))
              λ other.
                let (found, owned) = first_where-get (is_payment_of i) d.payments p pay tp paid in
                let (held, _) = first_where-get _ d.registrations i r tr loaded in
                write_proof-Ends env d input r p pay found
                  (rw (==→eq pay.registration_id i owned) held) is_open
                  (not_verified pay.status unverified)))

-- On tables whose keys are distinct, the locked part of `submit_payment_proof` makes moves of the
-- specification only when it returns, and leaves the database as it was when it raises.
pub store_payment_proof-Refines :
    (env : Env) (input : Prepared) (d : Db)
    → IsTable d.registrations
    → IsTable d.payments
    → let (answer, w) = run (store_payment_proof env input) d in Refines d answer w
store_payment_proof-Refines env input d tr tp =
    Ends-run _ d (store_payment_proof-Ends env input d tr tp)
