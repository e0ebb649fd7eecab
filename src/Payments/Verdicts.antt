-- ===== src/Payments/Verdicts.antt =====
-- `review_payment` against the moves of Spec.
use stranger_club.Base.{
  ℕ, String, ◌≡◌, refl, inl, inr, Bool, true, false, Option, some, leb, leb→le, leb→lt, Bool-cases,
}
use stranger_club.Db.{Db, is_pending_of, confirmed_count}
use stranger_club.Db.Query.{get, first_where}
use stranger_club.Db.Status.{PaymentStatus}
use stranger_club.Db.Rows.{Match, Registration, Payment, PaymentProof}
use stranger_club.Env.{Env}
use stranger_club.Exec.{run}
use stranger_club.Exec.Ends.{
  Ends, Ends-require, Ends-modify, Ends-rollback, Ends-run, Ends-found, Ends-gets,
}
use stranger_club.Lifecycle.Ends.{Ends-transition_registration, Ends-transition_payment}
use stranger_club.Events.Counts.{match_counts}
use stranger_club.Registrations.Refinement.{refresh_and_commit}
use stranger_club.Payments.Decisions.{decide, conclude, review_payment}
use stranger_club.Spec.{Verdict, confirms, fills, rejects, logged, reviewed, here, next, Refines}
use stranger_club.Payments.Guards.{is_submitted}

decide-Verdict :
    (env : Env) (approve : Bool) (confirmed capacity p q : ℕ) (pay : Payment) (proof : PaymentProof)
    (reason : Option String)
    → let c = decide env approve confirmed capacity p q pay proof reason in
      Verdict confirmed capacity c.to_registration c.to_payment c.to_proof
unfolding decide
decide-Verdict env true confirmed capacity p q pay proof reason =
    elim (Bool-cases (leb capacity confirmed)) [
      | inl e ↦ rw e (fills (leb→le capacity confirmed e))
      | inr e ↦ rw e (confirms (leb→lt capacity confirmed e))
    ]
decide-Verdict env false confirmed capacity p q pay proof reason = rejects

conclude-Ends :
    (env : Env) (p : ℕ) (approve : Bool) (actor_id : ℕ) (reason : Option String) (d : Db)
    (pay : Payment) (q : ℕ) (proof : PaymentProof) (r : Registration) (match : Match)
    → get d.payments p ≡ some pay
    → pay.status ≡ PaymentStatus.submitted
    → first_where (is_pending_of p) d.proofs ≡ some (q, proof)
    → get d.registrations pay.registration_id ≡ some r
    → get d.matches r.match_id ≡ some match
    → Ends
        (Refines d)
        (conclude env actor_id p pay q proof r match
          (decide env approve (confirmed_count d r.match_id) match.capacity p q pay proof reason))
        (record { committed = d; working = d })
unfolding conclude
conclude-Ends env p approve actor_id reason d pay q proof r match found submitted pending held
      in_event =
    Ends-transition_registration _ _ _ _ _ _ _ _ _ refl λ allowed.
      Ends-transition_payment _ _ _ _ _ _ _ _ _ refl λ payable. Ends-modify _ _ _ (
        Ends-modify _ _ _ (
          refresh_and_commit _ match _ d _
            (next
              (next
                (next here (
                  reviewed p q pay _ _ proof _ r match found submitted pending held in_event allowed
                    (decide-Verdict env approve _ match.capacity p q pay proof reason) refl
                    (record {
                      registration = refl;
                      amount = refl;
                      payee = refl;
                      name = refl;
                      source = refl;
                      key = refl;
                    })
                    refl
                    (record {
                      payment = refl;
                      key = refl;
                      hash = refl;
                      size = refl;
                      reference = refl;
                      uploaded = refl;
                      sender = refl;
                    })))
                (logged _))
              (logged _))
            in_event))

review_payment-Ends :
    (env : Env) (p : ℕ) (approve : Bool) (actor_id : ℕ) (reason : Option String) (d : Db)
    → Ends
        (Refines d)
        (review_payment env p approve actor_id reason)
        (record { committed = d; working = d })
unfolding review_payment conclude match_counts
review_payment-Ends env p approve actor_id reason d = Ends-gets _ _ _ (
    Ends-found _ _ _ _ refl λ preliminary there. Ends-rollback _ _ (
      Ends-gets _ _ _ (
        Ends-found _ _ _ _ refl λ pay found. Ends-require _ _ _ _ refl λ submitted.
          Ends-gets _ _ _ (
            Ends-found _ _ _ _ refl λ proof pending. Ends-gets _ _ _ (
              Ends-found _ _ _ _ refl λ r held. Ends-gets _ _ _ (
                Ends-found _ _ _ _ refl λ match in_event. Ends-gets _ _ _ (
                  conclude-Ends env p approve actor_id reason d pay proof.0 proof.1 r match found
                    (is_submitted pay.status submitted) pending held in_event)))))))

-- A review that returns has made moves of the specification only, and one that raises leaves the
-- database as it was.
pub review_payment-Refines :
    (env : Env) (p : ℕ) (approve : Bool) (actor_id : ℕ) (reason : Option String) (d : Db)
    → let (answer, w) = run (review_payment env p approve actor_id reason) d in Refines d answer w
review_payment-Refines env p approve actor_id reason d =
    Ends-run _ d (review_payment-Ends env p approve actor_id reason d)
