-- ===== src/Spec/Agreement.antt =====
-- The status of a registration and the status of its payment, move by move.
use stranger_club.Base.{ℕ, ◌≡◌, ◌<◌, refl, Bool, true, false, some, ◌==◌, if◌then◌else◌, arith}
use stranger_club.Db.{Db}
use stranger_club.Db.Query.{get, insert, update}
use stranger_club.Db.Query.Laws.{
  get-update, get-update_self, get-insert, next_id-update, next_id-insert,
}
use stranger_club.Db.Rows.{Payment, Registration}
use stranger_club.Db.Status.{RegistrationStatus, PaymentStatus}
use stranger_club.Lifecycle.{write_registration}
use stranger_club.Registrations.{snapshot_payment}
use stranger_club.Spec.{
  SameSnapshot, confirms, fills, rejects, Step, logged, opened, configured, edited, restatused,
  registered, moved, stamped, left_team, proved, reviewed,
}
use stranger_club.Spec.Tables.{AreTables}

-- A confirmed registration is paid for; a waiting one has no proof under review; a rejected one
-- has been rejected, or has a new proof. A cancelled one may have any payment.
abbrev pub agrees : RegistrationStatus → PaymentStatus → Bool
agrees RegistrationStatus.confirmed PaymentStatus.verified = true
agrees RegistrationStatus.confirmed _ = false
agrees RegistrationStatus.pending PaymentStatus.verified = false
agrees RegistrationStatus.pending _ = true
agrees RegistrationStatus.waitlisted PaymentStatus.awaiting_proof = true
agrees RegistrationStatus.waitlisted PaymentStatus.rejected = true
agrees RegistrationStatus.waitlisted _ = false
agrees RegistrationStatus.rejected PaymentStatus.rejected = true
agrees RegistrationStatus.rejected PaymentStatus.submitted = true
agrees RegistrationStatus.rejected _ = false
agrees RegistrationStatus.cancelled _ = true

pub record StatusesAgree (d : Db) : Type 0 where
  pub at :
      (p : ℕ) (pay : Payment) (r : Registration)
      → get d.payments p ≡ some pay
      → get d.registrations pay.registration_id ≡ some r
      → agrees r.status pay.status ≡ true
  -- Every payment belongs to a registration, and no two to the same.
  pub owned :
      (p : ℕ) (pay : Payment)
      → get d.payments p ≡ some pay
      → pay.registration_id < d.registrations.next_id
  pub one :
      (p q : ℕ) (pay other : Payment)
      → get d.payments p ≡ some pay
      → get d.payments q ≡ some other
      → pay.registration_id ≡ other.registration_id
      → p ≡ q

module _ {d : Db} (t : AreTables d) (h : StatusesAgree d) where
  rewritten :
      (p : ℕ) (pay mid new : Payment)
      → get d.payments p ≡ some pay
      → (n : ℕ)
      → get (update (update d.payments p mid) p new) n
        ≡ (if p == n then some new else get d.payments n)
  rewritten p pay mid new e n = ground (
    arith,
    get-update d.payments p n mid pay e,
    get-update (update d.payments p mid) p n new mid (get-update_self d.payments p mid pay e),
  )

  -- A registration is rewritten, and agrees with each payment of its own.
  written-StatusesAgree :
      (i : ℕ) (r new : Registration)
      → get d.registrations i ≡ some r
      → ((s : PaymentStatus) → agrees r.status s ≡ true → agrees new.status s ≡ true)
      → StatusesAgree (write_registration i new d)
  written-StatusesAgree i r new e keeps = record {
    at = λ p pay x f g. ground (
      arith,
      h.at p pay x f,
      h.at p pay r f,
      keeps pay.status,
      get-update d.registrations i pay.registration_id new r e,
    );
    owned = λ p pay f. omega (arith, h.owned p pay f, next_id-update d.registrations i new);
    one = h.one;
  }

  -- A payment is rewritten, and agrees with its registration.
  paid-StatusesAgree :
      (p : ℕ) (pay mid new : Payment) (r : Registration)
      → get d.payments p ≡ some pay
      → get d.registrations pay.registration_id ≡ some r
      → SameSnapshot pay new
      → agrees r.status new.status ≡ true
      → StatusesAgree (record d { payments = update (update d.payments p mid) p new })
  paid-StatusesAgree p pay mid new r found held same fits =
      let place = same.registration in
      record {
        at = λ n x y e f. ground (arith, h.at n x y, rewritten p pay mid new found n);
        owned = λ n x e.
            ground (arith, h.owned n x, h.owned p pay found, rewritten p pay mid new found n);
        one = λ n m x y e f g. ground (
          arith,
          h.one n m x y,
          h.one n p x pay,
          h.one p m pay y,
          rewritten p pay mid new found n,
          rewritten p pay mid new found m,
        );
      }

  reviewed-StatusesAgree :
      (p : ℕ) (pay mid new : Payment) (r after : Registration)
      → get d.payments p ≡ some pay
      → get d.registrations pay.registration_id ≡ some r
      → SameSnapshot pay new
      → agrees after.status new.status ≡ true
      → StatusesAgree (record d {
        registrations = update d.registrations pay.registration_id after;
        payments = update (update d.payments p mid) p new;
      })
  reviewed-StatusesAgree p pay mid new r after found held same fits =
      let place = same.registration in
      record {
        at = λ n x y e f. ground (
          arith,
          h.at n x y,
          h.one n p x pay,
          rewritten p pay mid new found n,
          get-update d.registrations pay.registration_id x.registration_id after r held,
        );
        owned = λ n x e. ground (
          arith,
          h.owned n x,
          h.owned p pay found,
          rewritten p pay mid new found n,
          next_id-update d.registrations pay.registration_id after,
        );
        one = λ n m x y e f g. ground (
          arith,
          h.one n m x y,
          h.one n p x pay,
          h.one p m pay y,
          rewritten p pay mid new found n,
          rewritten p pay mid new found m,
        );
      }

  registered-StatusesAgree :
      (r : Registration) (pay : Payment)
      → pay.registration_id ≡ d.registrations.next_id
      → agrees r.status pay.status ≡ true
      → StatusesAgree
          (record d { registrations = insert d.registrations r; payments = insert d.payments pay })
  registered-StatusesAgree r pay place fits = record {
    at = λ n x y e f. ground (
      arith,
      h.at n x y,
      h.owned n x,
      get-insert d.payments n pay t.payments,
      get-insert d.registrations x.registration_id r t.registrations,
    );
    owned = λ n x e. ground (
      arith,
      h.owned n x,
      get-insert d.payments n pay t.payments,
      next_id-insert d.registrations r,
    );
    one = λ n m x y e f g. ground (
      arith,
      h.one n m x y,
      h.owned n x,
      h.owned m y,
      get-insert d.payments n pay t.payments,
      get-insert d.payments m pay t.payments,
    );
  }

pub Step-StatusesAgree : {d w : Db} → Step d w → AreTables d → StatusesAgree d → StatusesAgree w
unfolding snapshot_payment
Step-StatusesAgree (logged _) t h = record { at = h.at; owned = h.owned; one = h.one }
Step-StatusesAgree (configured _) t h = record { at = h.at; owned = h.owned; one = h.one }
Step-StatusesAgree (left_team _) t h = record { at = h.at; owned = h.owned; one = h.one }
Step-StatusesAgree (opened _ _) t h = record { at = h.at; owned = h.owned; one = h.one }
Step-StatusesAgree (edited _ _ _ _ _ _) t h = record { at = h.at; owned = h.owned; one = h.one }
Step-StatusesAgree (restatused _ _ _ _ _ _) t h = record { at = h.at; owned = h.owned; one = h.one }
Step-StatusesAgree (registered m u c match config r _ _ _ _ starts _) t h =
    registered-StatusesAgree t h r (snapshot_payment _ match config) refl (ground arith)
Step-StatusesAgree (moved i r new e allowed target _ _) t h =
    written-StatusesAgree t h i r new e λ s old. ground arith
Step-StatusesAgree (stamped i r new e same _ _) t h =
    written-StatusesAgree t h i r new e λ s old. ground arith
Step-StatusesAgree (proved p pay mid new proof r ps found held is_open _ _ _ _ submitted same) t h =
    let x = paid-StatusesAgree t h p pay mid new r found held same (ground arith) in
    record { at = x.at; owned = x.owned; one = x.one }
Step-StatusesAgree
      (reviewed p q pay mid new proof proof' r match found _ _ held _ _
        (confirms _)
        settled
        same
        _
        _)
      t h =
    let x =
      reviewed-StatusesAgree t h p pay mid new r
        (record r { status = RegistrationStatus.confirmed }) found held same (ground arith) in
    record { at = x.at; owned = x.owned; one = x.one }
Step-StatusesAgree
      (reviewed p q pay mid new proof proof' r match found _ _ held _ _ (fills _) settled same _ _)
      t h =
    let x =
      reviewed-StatusesAgree t h p pay mid new r
        (record r { status = RegistrationStatus.waitlisted }) found held same (ground arith) in
    record { at = x.at; owned = x.owned; one = x.one }
Step-StatusesAgree
      (reviewed p q pay mid new proof proof' r match found _ _ held _ _ rejects settled same _ _) t
      h =
    let x =
      reviewed-StatusesAgree t h p pay mid new r (record r { status = RegistrationStatus.rejected })
        found held same (ground arith) in
    record { at = x.at; owned = x.owned; one = x.one }
