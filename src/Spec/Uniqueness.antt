-- ===== src/Spec/Uniqueness.antt =====
-- The active registrations of a player for an event, move by move.
use stranger_club.Base.{ℕ, ◌≡◌, ◌≤◌, ◌+◌, some, arith, indicator}
use stranger_club.Db.{Db, is_active_of}
use stranger_club.Db.Query.{get, count_where}
use stranger_club.Db.Query.Laws.{count_where-update, count_where-insert}
use stranger_club.Db.Rows.{Registration}
use stranger_club.Lifecycle.{write_registration}
use stranger_club.Spec.{
  Step, logged, opened, configured, edited, restatused, registered, moved, stamped, left_team,
  proved, reviewed,
}

pub record OneActive (d : Db) : Type 0 where
  pub at : (m u : ℕ) → count_where (is_active_of m u) d.registrations ≤ 1

recount :
    (d : Db) (m u i : ℕ) (r new : Registration)
    → get d.registrations i ≡ some r
    → count_where (is_active_of m u) (write_registration i new d).registrations
        + indicator (is_active_of m u r)
      ≡ count_where (is_active_of m u) d.registrations + indicator (is_active_of m u new)
recount d m u i r new e = count_where-update (is_active_of m u) d.registrations i new r e

pub Step-OneActive : {d w : Db} → Step d w → OneActive d → OneActive w
Step-OneActive (logged _) h = record { at = h.at }
Step-OneActive (configured _) h = record { at = h.at }
Step-OneActive (left_team _) h = record { at = h.at }
Step-OneActive (opened _ _) h = record { at = h.at }
Step-OneActive (edited _ _ _ _ _ _) h = record { at = h.at }
Step-OneActive (restatused _ _ _ _ _ _) h = record { at = h.at }
Step-OneActive (proved _ _ _ _ _ _ _ _ _ _ _ _ _ _ _ _) h = record { at = h.at }
Step-OneActive {d} (registered m u c match config r found _ place user starts free) h = record {
  at = λ n v. ground (arith, h.at n v, count_where-insert (is_active_of n v) d.registrations r);
}
Step-OneActive {d} (moved i r new e allowed target place user) h = record {
  at = λ n v. ground (arith, h.at n v, recount d n v i r new e);
}
Step-OneActive {d} (stamped i r new e same place user) h = record {
  at = λ n v. ground (arith, h.at n v, recount d n v i r new e);
}
Step-OneActive {d}
      (reviewed p q pay mid new proof proof' r match {to_registration = to} found _ _ held placed
        allowed _ _ _ _ _)
      h =
    record {
      at = λ n v.
          ground
            (arith, h.at n v, recount d n v pay.registration_id r (record r { status = to }) held);
    }
