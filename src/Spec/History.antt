-- ===== src/Spec/History.antt =====
-- The audit log and the rows of payments, proofs and registrations before and after a move.
use stranger_club.Base.{
  ℕ, ◌≡◌, ◌≢◌, inl, inr, refl, sym, subst, true, some, ◌==◌, arith, Extends, Extends-refl,
  Extends-snoc, Bool-cases,
}
use stranger_club.Db.{Db, is_pending_of}
use stranger_club.Db.Query.{Table, get, insert, update}
use stranger_club.Db.Query.Laws.{
  IsTable, get-update, get-update_self, get-insert, get-lt, first_where-get,
}
use stranger_club.Db.Rows.{Payment, Registration, PaymentProof}
use stranger_club.Db.Status.{RegistrationStatus, PaymentStatus, ProofStatus}
use stranger_club.Registrations.{snapshot_payment}
use stranger_club.Spec.{
  SameSnapshot, SameEvidence, Superseded, no_pending, replaced, Step, logged, registered, moved,
  stamped, proved, reviewed,
}
use stranger_club.Spec.Tables.{AreTables, Superseded-IsTable}

pub Step-Extends : {d w : Db} → Step d w → Extends d.audit_log w.audit_log
Step-Extends {d} (logged entry) = Extends-snoc d.audit_log entry
Step-Extends {d} _ = Extends-refl d.audit_log

-- The row of a payment in a later database: the same snapshot, and verified if it was.
pub record StillPaid (pay : Payment) (p : ℕ) (w : Db) : Type 0 where
  pub row : Payment
  pub found : get w.payments p ≡ some row
  pub same : SameSnapshot pay row
  pub verified : pay.status ≡ PaymentStatus.verified → row.status ≡ PaymentStatus.verified

-- The row of a proof in a later database: the same evidence, and reviewed if it was.
pub record StillProves (proof : PaymentProof) (q : ℕ) (w : Db) : Type 0 where
  pub row : PaymentProof
  pub found : get w.proofs q ≡ some row
  pub same : SameEvidence proof row
  pub settled : proof.status ≢ ProofStatus.pending → row.status ≡ proof.status

-- The row of a registration in a later database: in the same event, of the same player, and
-- cancelled or rejected if it was.
pub record StillRegistered (r : Registration) (i : ℕ) (w : Db) : Type 0 where
  pub row : Registration
  pub found : get w.registrations i ≡ some row
  pub event : row.match_id ≡ r.match_id
  pub player : row.user_id ≡ r.user_id
  pub cancelled :
      r.status ≡ RegistrationStatus.cancelled → row.status ≡ RegistrationStatus.cancelled
  pub rejected : r.status ≡ RegistrationStatus.rejected → row.status ≡ RegistrationStatus.rejected

snapshot_refl : (pay : Payment) → SameSnapshot pay pay
snapshot_refl pay = record {
  registration = refl;
  amount = refl;
  payee = refl;
  name = refl;
  source = refl;
  key = refl;
}

evidence_refl : (proof : PaymentProof) → SameEvidence proof proof
evidence_refl proof = record {
  payment = refl;
  key = refl;
  hash = refl;
  size = refl;
  reference = refl;
  uploaded = refl;
  sender = refl;
}

pub still_paid : (pay : Payment) (p : ℕ) (w : Db) → get w.payments p ≡ some pay → StillPaid pay p w
still_paid pay p w e = record { row = pay; found = e; same = snapshot_refl pay; verified = λ v. v }

pub still_proves :
    (proof : PaymentProof) (q : ℕ) (w : Db) → get w.proofs q ≡ some proof → StillProves proof q w
still_proves proof q w e = record {
  row = proof;
  found = e;
  same = evidence_refl proof;
  settled = λ v. refl;
}

pub still_registered :
    (r : Registration) (i : ℕ) (w : Db) → get w.registrations i ≡ some r → StillRegistered r i w
still_registered r i w e = record {
  row = r;
  found = e;
  event = refl;
  player = refl;
  cancelled = λ c. c;
  rejected = λ c. c;
}

-- The payment of a proof or a review is rewritten twice.
rewritten-StillPaid :
    (d : Db) (p : ℕ) (old mid new : Payment) (n : ℕ) (pay : Payment) (w : Db)
    → get d.payments p ≡ some old
    → get d.payments n ≡ some pay
    → w.payments ≡ update (update d.payments p mid) p new
    → SameSnapshot old new
    → old.status ≢ PaymentStatus.verified
    → StillPaid pay n w
rewritten-StillPaid d p old mid new n pay w found e is same unverified =
    let first = get-update d.payments p n mid old found in
    let second =
      get-update (update d.payments p mid) p n new mid
        (get-update_self d.payments p mid old found) in
    elim (Bool-cases (p == n)) [
      | inl hit ↦
          let one : pay ≡ old = ground arith in
          record {
            row = new;
            found = ground (arith, first, second);
            same = subst (λ x. SameSnapshot x new) (sym one) same;
            verified = λ v. absurd (unverified (ground arith));
          }
      | inr miss ↦ still_paid pay n w (ground (arith, first, second))
    ]

pub Step-StillPaid :
    {d w : Db}
    → Step d w
    → AreTables d
    → (n : ℕ) (pay : Payment) → get d.payments n ≡ some pay
    → StillPaid pay n w
Step-StillPaid {d} {w} (registered m u c match config r _ _ _ _ _ _) t n pay e =
    still_paid pay n w (
      ground (
        arith,
        get-insert d.payments n (snapshot_payment d.registrations.next_id match config) t.payments,
        get-lt d.payments n pay t.payments e,
      ))
Step-StillPaid {d} {w} (proved p old mid new _ _ _ found _ _ unverified _ _ _ _ same) t n pay e =
    rewritten-StillPaid d p old mid new n pay w found e refl same unverified
Step-StillPaid {d} {w} (reviewed p q old mid new _ _ _ _ found is_submitted _ _ _ _ _ _ same _ _) t
      n pay e =
    rewritten-StillPaid d p old mid new n pay w found e refl same (λ v. ground arith)
Step-StillPaid {d} {w} (logged _) t n pay e = still_paid pay n w e
Step-StillPaid {d} {w} _ t n pay e = still_paid pay n w e

rewritten-StillRegistered :
    (d : Db) (i : ℕ) (old new : Registration) (n : ℕ) (r : Registration) (w : Db)
    → get d.registrations i ≡ some old
    → get d.registrations n ≡ some r
    → w.registrations ≡ update d.registrations i new
    → new.match_id ≡ old.match_id
    → new.user_id ≡ old.user_id
    → (old.status ≡ RegistrationStatus.cancelled → new.status ≡ RegistrationStatus.cancelled)
    → (old.status ≡ RegistrationStatus.rejected → new.status ≡ RegistrationStatus.rejected)
    → StillRegistered r n w
rewritten-StillRegistered d i old new n r w found e is place user gone out =
    let law = get-update d.registrations i n new old found in
    elim (Bool-cases (i == n)) [
      | inl hit ↦
          let one : r ≡ old = ground arith in
          record {
            row = new;
            found = ground (arith, law);
            event = ground arith;
            player = ground arith;
            cancelled = λ c. gone (ground arith);
            rejected = λ c. out (ground arith);
          }
      | inr miss ↦ still_registered r n w (ground (arith, law))
    ]

pub Step-StillRegistered :
    {d w : Db}
    → Step d w
    → AreTables d
    → (n : ℕ) (r : Registration) → get d.registrations n ≡ some r
    → StillRegistered r n w
Step-StillRegistered {d} {w} (registered m u c match config new _ _ _ _ _ _) t n r e =
    still_registered r n w (
      ground (
        arith,
        get-insert d.registrations n new t.registrations,
        get-lt d.registrations n r t.registrations e,
      ))
Step-StillRegistered {d} {w} (moved i old new found allowed _ place user) t n r e =
    rewritten-StillRegistered d i old new n r w found e refl place user (λ c. ground arith)
      (λ c. ground arith)
Step-StillRegistered {d} {w} (stamped i old new found same place user) t n r e =
    rewritten-StillRegistered d i old new n r w found e refl place user (λ c. ground arith)
      (λ c. ground arith)
Step-StillRegistered {d} {w}
      (reviewed p q pay mid new _ _ old _ {to_registration = to} _ _ _ held _ allowed _ _ _ _ _) t n
      r e =
    rewritten-StillRegistered d pay.registration_id old (record old { status = to }) n r w held e
      refl refl refl (λ c. ground arith) (λ c. ground arith)
Step-StillRegistered {d} {w} (logged _) t n r e = still_registered r n w e
Step-StillRegistered {d} {w} _ t n r e = still_registered r n w e

rewritten-StillProves :
    (d : Db) (q : ℕ) (old new : PaymentProof) (n : ℕ) (proof : PaymentProof) (w : Db)
    → get d.proofs q ≡ some old
    → get d.proofs n ≡ some proof
    → w.proofs ≡ update d.proofs q new
    → SameEvidence old new
    → old.status ≡ ProofStatus.pending
    → StillProves proof n w
rewritten-StillProves d q old new n proof w found e is same pending =
    let law = get-update d.proofs q n new old found in
    elim (Bool-cases (q == n)) [
      | inl hit ↦
          let one : proof ≡ old = ground arith in
          record {
            row = new;
            found = ground (arith, law);
            same = subst (λ x. SameEvidence x new) (sym one) same;
            settled = λ v. absurd (v (ground arith));
          }
      | inr miss ↦ still_proves proof n w (ground (arith, law))
    ]

is_pending :
    (p : ℕ) (proof : PaymentProof)
    → is_pending_of p proof ≡ true
    → proof.status ≡ ProofStatus.pending
is_pending p proof h = ground arith

Superseded-StillProves :
    {d : Db} {p : ℕ} {t : Table PaymentProof} (w : Db)
    → Superseded d p t
    → w.proofs ≡ t
    → IsTable d.proofs
    → (n : ℕ) (proof : PaymentProof) → get d.proofs n ≡ some proof
    → StillProves proof n w
Superseded-StillProves w (no_pending _) is t n proof e = still_proves proof n w (ground arith)
Superseded-StillProves {d} {p} w (replaced q old new found same _) is t n proof e =
    let (held, p') = first_where-get (is_pending_of p) d.proofs q old t found in
    rewritten-StillProves d q old new n proof w held e is same (is_pending p old p')

inserted-StillProves :
    (proof : PaymentProof) (n : ℕ) (t : Table PaymentProof) (new : PaymentProof) (v w : Db)
    → IsTable t
    → v.proofs ≡ t
    → w.proofs ≡ insert t new
    → StillProves proof n v
    → StillProves proof n w
inserted-StillProves proof n t new v w it is was h = record {
  row = h.row;
  found =
      let old : get t n ≡ some h.row = subst (λ x. get x n ≡ some h.row) is h.found in
      ground (arith, get-insert t n new it, get-lt t n h.row it old);
  same = h.same;
  settled = h.settled;
}

pub Step-StillProves :
    {d w : Db}
    → Step d w
    → AreTables d
    → (n : ℕ) (proof : PaymentProof) → get d.proofs n ≡ some proof
    → StillProves proof n w
Step-StillProves {d} {w} (proved p _ _ _ new _ ps _ _ _ _ s _ _ _ _) t n proof e =
    let v = record d { proofs = ps } in
    inserted-StillProves proof n ps new v w (Superseded-IsTable s t.proofs) refl refl
      (Superseded-StillProves v s refl t.proofs n proof e)
Step-StillProves {d} {w} (reviewed p q _ _ _ old new _ _ _ _ pending _ _ _ _ _ _ _ same) t n proof
      e =
    let (held, p') = first_where-get (is_pending_of p) d.proofs q old t.proofs pending in
    rewritten-StillProves d q old new n proof w held e refl same (is_pending p old p')
Step-StillProves {d} {w} (logged _) t n proof e = still_proves proof n w e
Step-StillProves {d} {w} _ t n proof e = still_proves proof n w e
