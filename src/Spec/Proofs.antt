-- ===== src/Spec/Proofs.antt =====
-- The status of a payment and its pending proofs, move by move.
use stranger_club.Base.{ℕ, refl, ◌≡◌, ◌≢◌, ◌≤◌, some, false, ◌==◌, if◌then◌else◌, arith, indicator}
use stranger_club.Db.{Db, is_pending_of}
use stranger_club.Db.Query.{Table, get, count_where, insert, update, first_where}
use stranger_club.Db.Query.Laws.{
  get-update, get-update_self, get-insert, next_id-update, next_id-insert, get-lt,
  count_where-update, count_where-insert, count_where_pos, first_where-get, first_where-none,
  IsTable,
}
use stranger_club.Db.Rows.{Payment, PaymentProof}
use stranger_club.Db.Status.{PaymentStatus, ProofStatus, payment_is, proof_is}
use stranger_club.Registrations.{snapshot_payment}
use stranger_club.Spec.{
  SameEvidence, confirms, fills, rejects, Superseded, no_pending, replaced, Step, logged, opened,
  configured, edited, restatused, registered, moved, stamped, left_team, proved, reviewed,
}
use stranger_club.Spec.Tables.{AreTables}

abbrev pub pending_count : Db → ℕ → ℕ
pending_count d p = count_where (is_pending_of p) d.proofs

pub record ProofsAgree (d : Db) : Type 0 where
  pub at :
      (p : ℕ) (pay : Payment)
      → get d.payments p ≡ some pay
      → pending_count d p ≡ indicator (payment_is pay.status PaymentStatus.submitted)
  pub unplaced : (p : ℕ) → d.payments.next_id ≤ p → pending_count d p ≡ 0

-- After the supersession the payment has no pending proof, and the others have theirs.
supersede-count :
    {d : Db} {p : ℕ} {t : Table PaymentProof}
    → Superseded d p t
    → IsTable d.proofs
    → pending_count d p ≤ 1
    → (n : ℕ)
    → (n ≡ p → count_where (is_pending_of n) t ≡ 0)
      × (n ≢ p → count_where (is_pending_of n) t ≡ pending_count d n)
supersede-count {d} {p} (no_pending e) t one n =
    (λ same. rw same (first_where-none (is_pending_of p) d.proofs e), λ other. refl)
supersede-count {d} {p} (replaced q old new e same gone) t one n =
    let (found, pending) = first_where-get (is_pending_of p) d.proofs q old t e in
    let place = same.payment in
    let moved = count_where-update (is_pending_of n) d.proofs q new old found in
    (
      λ s. ground (arith, moved, count_where_pos (is_pending_of p) d.proofs q old found),
      λ other. ground (arith, moved),
    )

module _ {d : Db} (t : AreTables d) (h : ProofsAgree d) where
  rewritten :
      (p : ℕ) (pay mid new : Payment)
      → get d.payments p ≡ some pay
      → (n : ℕ)
      → get (update (update d.payments p mid) p new) n
        ≡ (if p == n then some new else get d.payments n)
  rewritten p pay mid new e n = ground (
    arith,
    get-update d.payments p n mid pay e,
    get-update (update d.payments p mid) p n new mid (get-update_self d.payments p mid pay e),
  )

  one : (p : ℕ) (pay : Payment) → get d.payments p ≡ some pay → pending_count d p ≤ 1
  one p pay e = ground (arith, h.at p pay e)

  reviewed-ProofsAgree :
      (p q : ℕ) (pay mid new : Payment) (proof proof' : PaymentProof)
      → get d.payments p ≡ some pay
      → first_where (is_pending_of p) d.proofs ≡ some (q, proof)
      → payment_is new.status PaymentStatus.submitted ≡ false
      → SameEvidence proof proof'
      → proof_is proof'.status ProofStatus.pending ≡ false
      → ProofsAgree (record d {
        payments = update (update d.payments p mid) p new;
        proofs = update d.proofs q proof';
      })
  reviewed-ProofsAgree p q pay mid new proof proof' found pending settled same done =
      let (held, is_pending) =
        first_where-get (is_pending_of p) d.proofs q proof t.proofs pending in
      let place = same.payment in
      record {
        at = λ n other e. ground (
          arith,
          h.at n other,
          h.at p pay found,
          rewritten p pay mid new found n,
          count_where-update (is_pending_of n) d.proofs q proof' proof held,
          count_where_pos (is_pending_of p) d.proofs q proof held is_pending,
        );
        unplaced = λ n le. ground (
          arith,
          h.unplaced n,
          get-lt d.payments p pay t.payments found,
          next_id-update d.payments p mid,
          next_id-update (update d.payments p mid) p new,
          count_where-update (is_pending_of n) d.proofs q proof' proof held,
        );
      }

  proved-ProofsAgree :
      (p : ℕ) (pay mid new : Payment) (proof : PaymentProof) (ps : Table PaymentProof)
      → get d.payments p ≡ some pay
      → Superseded d p ps
      → proof.payment_id ≡ p
      → proof.status ≡ ProofStatus.pending
      → new.status ≡ PaymentStatus.submitted
      → ProofsAgree
          (record d { payments = update (update d.payments p mid) p new; proofs = insert ps proof })
  proved-ProofsAgree p pay mid new proof ps found s place pending submitted = record {
    at = λ n other e. ground (
      arith,
      h.at n other,
      h.at p pay found,
      rewritten p pay mid new found n,
      count_where-insert (is_pending_of n) ps proof,
      supersede-count s t.proofs (one p pay found) n,
    );
    unplaced = λ n le. ground (
      arith,
      h.unplaced n,
      get-lt d.payments p pay t.payments found,
      next_id-update d.payments p mid,
      next_id-update (update d.payments p mid) p new,
      count_where-insert (is_pending_of n) ps proof,
      supersede-count s t.proofs (one p pay found) n,
    );
  }

pub Step-ProofsAgree : {d w : Db} → Step d w → AreTables d → ProofsAgree d → ProofsAgree w
unfolding snapshot_payment
Step-ProofsAgree (logged _) t h = record { at = h.at; unplaced = h.unplaced }
Step-ProofsAgree (configured _) t h = record { at = h.at; unplaced = h.unplaced }
Step-ProofsAgree (left_team _) t h = record { at = h.at; unplaced = h.unplaced }
Step-ProofsAgree (opened _ _) t h = record { at = h.at; unplaced = h.unplaced }
Step-ProofsAgree (edited _ _ _ _ _ _) t h = record { at = h.at; unplaced = h.unplaced }
Step-ProofsAgree (restatused _ _ _ _ _ _) t h = record { at = h.at; unplaced = h.unplaced }
Step-ProofsAgree (moved _ _ _ _ _ _ _ _) t h = record { at = h.at; unplaced = h.unplaced }
Step-ProofsAgree (stamped _ _ _ _ _ _ _) t h = record { at = h.at; unplaced = h.unplaced }
Step-ProofsAgree {d} (registered m u c match config r _ _ _ _ _ _) t h = record {
  at = λ n other e. ground (
    arith,
    get-insert d.payments n (snapshot_payment d.registrations.next_id match config) t.payments,
    h.at n other,
    h.unplaced n,
  );
  unplaced = λ n le. omega (arith, h.unplaced n, next_id-insert d.payments _);
}
Step-ProofsAgree {d} (proved p pay mid new proof r ps found _ _ _ s place pending submitted _) t h =
    proved-ProofsAgree t h p pay mid new proof ps found s place pending submitted
Step-ProofsAgree {d}
      (reviewed p q pay mid new proof proof' r match found _ pending _ _ _
        (confirms _)
        settled
        _
        done
        same)
      t h =
    let x =
      reviewed-ProofsAgree t h p q pay mid new proof proof' found pending (ground arith) same
        (ground arith) in
    record { at = x.at; unplaced = x.unplaced }
Step-ProofsAgree {d}
      (reviewed p q pay mid new proof proof' r match found _ pending _ _ _
        (fills _)
        settled
        _
        done
        same)
      t h =
    let x =
      reviewed-ProofsAgree t h p q pay mid new proof proof' found pending (ground arith) same
        (ground arith) in
    record { at = x.at; unplaced = x.unplaced }
Step-ProofsAgree {d}
      (reviewed p q pay mid new proof proof' r match found _ pending _ _ _ rejects settled _ done
        same)
      t h =
    let x =
      reviewed-ProofsAgree t h p q pay mid new proof proof' found pending (ground arith) same
        (ground arith) in
    record { at = x.at; unplaced = x.unplaced }
