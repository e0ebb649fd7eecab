-- ===== src/Club/Sound.antt =====
-- The invariant of the database, put together from those of Spec.
use stranger_club.Db.{Db}
use stranger_club.Exec.{Result, ok, err}
use stranger_club.Spec.{Steps, here, next, Refines}
use stranger_club.Spec.Tables.{AreTables, Step-AreTables}
use stranger_club.Spec.Capacity.{WithinCapacity, Step-WithinCapacity}
use stranger_club.Spec.Uniqueness.{OneActive, Step-OneActive}
use stranger_club.Spec.Proofs.{ProofsAgree, Step-ProofsAgree}
use stranger_club.Spec.Events.{EventsValid, Step-EventsValid}
use stranger_club.Spec.Agreement.{StatusesAgree, Step-StatusesAgree}

pub record Sound (d : Db) : Type 0 where
  pub tables : AreTables d
  pub capacity : WithinCapacity d
  pub unique : OneActive d
  pub proofs : ProofsAgree d
  pub statuses : StatusesAgree d
  pub events : EventsValid d

pub Steps-Sound : {d w : Db} → Steps d w → Sound d → Sound w
Steps-Sound here h = h
Steps-Sound (next r s) h =
    let x = Steps-Sound r h in
    record {
      tables = Step-AreTables s x.tables;
      capacity = Step-WithinCapacity s x.tables x.capacity;
      unique = Step-OneActive s x.unique;
      proofs = Step-ProofsAgree s x.tables x.proofs;
      statuses = Step-StatusesAgree s x.tables x.statuses;
      events = Step-EventsValid s x.tables x.events;
    }

pub Refines-Steps {ℓ} : {A : Type ℓ} {d w : Db} (answer : Result A) → Refines d answer w → Steps d w
Refines-Steps (ok a) h = h
Refines-Steps (err e) h = rw h here
