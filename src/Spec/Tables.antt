-- ===== src/Spec/Tables.antt =====
-- The primary keys of the tables, move by move.
use stranger_club.Base.{ℕ}
use stranger_club.Db.{Db}
use stranger_club.Db.Query.{Table}
use stranger_club.Db.Query.Laws.{IsTable, update-IsTable, insert-IsTable}
use stranger_club.Db.Rows.{PaymentProof}
use stranger_club.Spec.{
  Superseded, no_pending, replaced, Step, logged, opened, configured, edited, restatused,
  registered, moved, stamped, left_team, proved, reviewed,
}

pub record AreTables (d : Db) : Type 0 where
  pub matches : IsTable d.matches
  pub registrations : IsTable d.registrations
  pub payments : IsTable d.payments
  pub proofs : IsTable d.proofs

pub Superseded-IsTable :
    {d : Db} {p : ℕ} {t : Table PaymentProof} → Superseded d p t → IsTable d.proofs → IsTable t
Superseded-IsTable (no_pending _) h = h
Superseded-IsTable (replaced q old new _ _ _) h = update-IsTable _ q new h

pub Step-AreTables : {d w : Db} → Step d w → AreTables d → AreTables w
Step-AreTables (logged _) h = record {
  matches = h.matches;
  registrations = h.registrations;
  payments = h.payments;
  proofs = h.proofs;
}
Step-AreTables (opened match _) h = record {
  matches = insert-IsTable _ match h.matches;
  registrations = h.registrations;
  payments = h.payments;
  proofs = h.proofs;
}
Step-AreTables (configured _) h = record {
  matches = h.matches;
  registrations = h.registrations;
  payments = h.payments;
  proofs = h.proofs;
}
Step-AreTables (edited m _ new _ _ _) h = record {
  matches = update-IsTable _ m new h.matches;
  registrations = h.registrations;
  payments = h.payments;
  proofs = h.proofs;
}
Step-AreTables (restatused m _ new _ _ _) h = record {
  matches = update-IsTable _ m new h.matches;
  registrations = h.registrations;
  payments = h.payments;
  proofs = h.proofs;
}
Step-AreTables (registered m u c match config r _ _ _ _ _ _) h = record {
  matches = h.matches;
  registrations = insert-IsTable _ r h.registrations;
  payments = insert-IsTable _ _ h.payments;
  proofs = h.proofs;
}
Step-AreTables (moved i _ new _ _ _ _ _) h = record {
  matches = h.matches;
  registrations = update-IsTable _ i new h.registrations;
  payments = h.payments;
  proofs = h.proofs;
}
Step-AreTables (stamped i _ new _ _ _ _) h = record {
  matches = h.matches;
  registrations = update-IsTable _ i new h.registrations;
  payments = h.payments;
  proofs = h.proofs;
}
Step-AreTables (left_team _) h = record {
  matches = h.matches;
  registrations = h.registrations;
  payments = h.payments;
  proofs = h.proofs;
}
Step-AreTables (proved p pay mid new proof r t _ _ _ _ s _ _ _ _) h = record {
  matches = h.matches;
  registrations = h.registrations;
  payments = update-IsTable _ p new (update-IsTable _ p mid h.payments);
  proofs = insert-IsTable t proof (Superseded-IsTable s h.proofs);
}
Step-AreTables (reviewed p q pay mid new proof proof' r match _ _ _ _ _ _ _ _ _ _ _) h = record {
  matches = h.matches;
  registrations = update-IsTable _ pay.registration_id _ h.registrations;
  payments = update-IsTable _ p new (update-IsTable _ p mid h.payments);
  proofs = update-IsTable _ q proof' h.proofs;
}
