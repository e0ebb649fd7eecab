-- ===== src/Payments/Review.antt =====
-- What `review_payment` answers and stores.
use stranger_club.Base.{
  ℕ, ◌∙◌, ap, String, ◌≡◌, refl, Bool, true, false, Option, some, leb, if◌then◌else◌, arith,
}
use stranger_club.Db.{Db, is_pending_of, confirmed_count}
use stranger_club.Db.Query.{get, update, first_where}
use stranger_club.Db.Query.Laws.{get-update_self, first_where-get, IsTable}
use stranger_club.Db.Status.{
  RegistrationStatus, PaymentStatus, ProofStatus, registration_in, payment_in,
}
use stranger_club.Db.Rows.{Match, Registration, Payment, PaymentProof}
use stranger_club.Env.{Env}
use stranger_club.Exec.{Result, ok, err, run}
use stranger_club.Exec.Ends.{
  Ends, Ends-pure, Ends-modify, Ends-commit, Ends-rollback, Ends-run, Ends-gets,
}
use stranger_club.Exec.Passes.{Passes-require, Passes-found}
use stranger_club.Lifecycle.{
  invalid_transition, valid_registration_transitions, valid_payment_transitions,
}
use stranger_club.Lifecycle.Passes.{
  Passes-transition_registration, Refuses-transition_registration, Passes-transition_payment,
}
use stranger_club.Events.Counts.{match_counts}
use stranger_club.Events.Refresh.{Refreshed-rows, Ends-refresh}
use stranger_club.Payments.Decisions.{
  Decision, decide, reviewed_payment, reviewed_proof, conclude, review_payment,
}

-- The outcome of a review by its verdict, the confirmed players and the capacity.
abbrev pub outcome : Bool → ℕ → ℕ → RegistrationStatus × PaymentStatus × ProofStatus
outcome false confirmed capacity =
    (RegistrationStatus.rejected, PaymentStatus.rejected, ProofStatus.rejected)
outcome true confirmed capacity =
    if leb capacity confirmed
    then (RegistrationStatus.waitlisted, PaymentStatus.rejected, ProofStatus.rejected)
    else (RegistrationStatus.confirmed, PaymentStatus.verified, ProofStatus.accepted)

-- The three rows after a review.
pub record Settled (outcome : RegistrationStatus × PaymentStatus × ProofStatus)
    (reviewer now i p q : ℕ) (r : Registration) (w : Db) : Type 0 where
  pub registration : get w.registrations i ≡ some (record r { status = outcome.0 })
  pub payment_row : Payment
  pub payment : get w.payments p ≡ some payment_row
  pub payment_status : payment_row.status ≡ outcome.1
  pub proof_row : PaymentProof
  pub proof : get w.proofs q ≡ some proof_row
  pub proof_status : proof_row.status ≡ outcome.2
  pub reviewed_by : proof_row.reviewed_by_organizer_id ≡ some reviewer
  pub reviewed_at : proof_row.reviewed_at ≡ some now

decide-outcome :
    (env : Env) (approve : Bool) (confirmed capacity p q : ℕ) (pay : Payment) (proof : PaymentProof)
    (reason : Option String)
    → let c = decide env approve confirmed capacity p q pay proof reason in
      (c.to_registration, c.to_payment, c.to_proof) ≡ outcome approve confirmed capacity
unfolding decide
decide-outcome env true confirmed capacity p q pay proof reason = ground arith
decide-outcome env false confirmed capacity p q pay proof reason = refl

decide-allowed :
    (env : Env) (approve : Bool) (confirmed capacity p q : ℕ) (pay : Payment) (proof : PaymentProof)
    (reason : Option String) (from : RegistrationStatus)
    → from ≡ RegistrationStatus.pending
    → pay.status ≡ PaymentStatus.submitted
    → let c = decide env approve confirmed capacity p q pay proof reason in
      (registration_in c.to_registration (valid_registration_transitions from) ≡ true)
      × (payment_in c.to_payment (valid_payment_transitions pay.status) ≡ true)
unfolding decide
decide-allowed env true confirmed capacity p q pay proof reason from e f = ground arith
decide-allowed env false confirmed capacity p q pay proof reason from e f = ground arith

-- The rows that the writes of a review leave.
written-Settled :
    (env : Env) (actor_id : ℕ) (c : Decision) (d w : Db) (i p q : ℕ) (r : Registration)
    (pay mid : Payment) (proof : PaymentProof)
    (expected : RegistrationStatus × PaymentStatus × ProofStatus)
    → (c.to_registration, c.to_payment, c.to_proof) ≡ expected
    → get d.registrations i ≡ some r
    → get d.payments p ≡ some pay
    → get d.proofs q ≡ some proof
    → mid.status ≡ c.to_payment
    → w.registrations ≡ update d.registrations i (record r { status = c.to_registration })
    → w.payments ≡ update (update d.payments p mid) p (reviewed_payment c mid)
    → w.proofs ≡ update d.proofs q (reviewed_proof env actor_id c proof)
    → Settled expected actor_id env.now i p q r w
written-Settled env actor_id c d w i p q r pay mid proof expected same er ep eq em wr wp wq =
    record {
      registration =
          rw wr (get-update_self d.registrations i (record r { status = c.to_registration }) r er)
          ∙ ap (λ o. some (record r { status = o.0 })) same;
      payment_row = reviewed_payment c mid;
      payment = rw wp (
          get-update_self (update d.payments p mid) p (reviewed_payment c mid) mid
            (get-update_self d.payments p mid pay ep));
      payment_status = em ∙ ap (λ o. o.1) same;
      proof_row = reviewed_proof env actor_id c proof;
      proof = rw wq (get-update_self d.proofs q (reviewed_proof env actor_id c proof) proof eq);
      proof_status = ap (λ o. o.2) same;
      reviewed_by = refl;
      reviewed_at = refl;
    }

module _ (env : Env) (p : ℕ) (approve : Bool) (actor_id : ℕ) (reason : Option String) (d : Db)
    (pay : Payment) (q : ℕ) (proof : PaymentProof) (r : Registration) (match : Match)
    (found : get d.payments p ≡ some pay) (submitted : pay.status ≡ PaymentStatus.submitted)
    (pending : first_where (is_pending_of p) d.proofs ≡ some (q, proof))
    (held : get d.registrations pay.registration_id ≡ some r)
    (in_event : get d.matches r.match_id ≡ some match) where
  -- The guards pass, and the review comes to its writes.
  reviews-Ends :
      (Q : Result ℕ → Db → Type 0)
      → Ends Q
          (conclude env actor_id p pay q proof r match
            (decide env approve (confirmed_count d r.match_id) match.capacity p q pay proof reason))
          (record { committed = d; working = d })
      → Ends Q
          (review_payment env p approve actor_id reason)
          (record { committed = d; working = d })
  unfolding review_payment match_counts
  reviews-Ends Q rest = Ends-gets _ _ _ (
      Passes-found _ pay _ _ _ found (
        Ends-rollback _ _ (
          Ends-gets _ _ _ (
            Passes-found _ pay _ _ _ found (
              Passes-require _ _ _ _ (ground arith) (
                Ends-gets _ _ _ (
                  Passes-found _ (q, proof) _ _ _ pending
                    (Ends-gets _ _ _ (
                      Passes-found _ r _ _ _ held (
                        Ends-gets _ _ _
                          (Passes-found _ match _ _ _ in_event (Ends-gets _ _ _ rest))))))))))))

  -- A payment that a player has submitted again for a REJECTED registration can be neither
  -- approved nor rejected: every review of it answers 409 and changes nothing.
  pub review_payment-stuck :
      r.status ≡ RegistrationStatus.rejected
      → run (review_payment env p approve actor_id reason) d ≡ (err invalid_transition, d)
  unfolding conclude
  review_payment-stuck out =
      let (answer, same) =
        Ends-run {Q = λ a w. (a ≡ err invalid_transition) × (w ≡ d)}
          (review_payment env p approve actor_id reason) d
          (reviews-Ends _
            (Refuses-transition_registration _ _ _ _ _ _ _ _ _ (ground arith) (refl, refl))) in
      ground arith

  -- A review of a SUBMITTED payment with a pending proof, whose registration is PENDING and whose
  -- event exists, succeeds, where the keys of the proofs are distinct: rejected, approved, or
  -- approved when the event has filled, it sets the statuses of the registration, the payment and
  -- the proof together, and the reviewer of the proof.
  pub review_payment-settles :
      IsTable d.proofs
      → r.status ≡ RegistrationStatus.pending
      → let (answer, w) = run (review_payment env p approve actor_id reason) d in
        (answer ≡ ok pay.registration_id)
        × Settled
            (outcome approve (confirmed_count d r.match_id) match.capacity)
            actor_id
            env.now
            pay.registration_id
            p
            q
            r
            w
  unfolding conclude
  review_payment-settles it waits =
      let c =
        decide env approve (confirmed_count d r.match_id) match.capacity p q pay proof reason in
      let (to_r, to_p) =
        decide-allowed env approve (confirmed_count d r.match_id) match.capacity p q pay proof
          reason r.status waits submitted in
      let same =
        decide-outcome env approve (confirmed_count d r.match_id) match.capacity p q pay proof
          reason in
      let (there, _) = first_where-get (is_pending_of p) d.proofs q proof it pending in
      let mid = record pay { status = c.to_payment } in
      Ends-run
        {Q = λ a w.
          (a ≡ ok pay.registration_id)
          × Settled (outcome approve (confirmed_count d r.match_id) match.capacity) actor_id env.now
              pay.registration_id p q r w}
        (review_payment env p approve actor_id reason) d
        (reviews-Ends _ (
          Passes-transition_registration _ _ _ _ _ _ _ _ _ to_r (
            Passes-transition_payment _ _ _ _ _ _ _ _ _ to_p (
              Ends-modify _ _ _ (
                Ends-modify _ _ _ (
                  Ends-refresh _ _ _ _ λ w moves. Ends-commit _ _ (
                    Ends-pure _ _ (
                      refl,
                      let (wr, wp, wq) = Refreshed-rows moves in
                          written-Settled env actor_id c d w pay.registration_id p q r pay mid proof
                            _ same held found there refl wr wp wq,
                    ))))))))
