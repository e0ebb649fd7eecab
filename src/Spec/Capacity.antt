-- ===== src/Spec/Capacity.antt =====
-- The confirmed players of an event and its capacity, move by move.
use stranger_club.Base.{ℕ, ◌≡◌, ◌≤◌, ◌+◌, some, arith, indicator}
use stranger_club.Db.{Db, confirmed_count, in_event_as}
use stranger_club.Db.Query.{get}
use stranger_club.Db.Query.Laws.{
  next_id-update, next_id-insert, get-update, get-insert, get-lt, count_where-update,
  count_where-insert,
}
use stranger_club.Db.Rows.{Match, Registration}
use stranger_club.Db.Status.{RegistrationStatus}
use stranger_club.Lifecycle.{write_registration}
use stranger_club.Spec.{
  confirms, fills, rejects, Step, logged, opened, configured, edited, restatused, registered, moved,
  stamped, left_team, proved, reviewed,
}
use stranger_club.Spec.Tables.{AreTables}

pub record WithinCapacity (d : Db) : Type 0 where
  pub at :
      (m : ℕ) (match : Match) → get d.matches m ≡ some match → confirmed_count d m ≤ match.capacity
  pub unplaced : (m : ℕ) → d.matches.next_id ≤ m → confirmed_count d m ≡ 0

-- Rewriting one registration moves the count by that row alone.
recount :
    (d : Db) (m i : ℕ) (r new : Registration)
    → get d.registrations i ≡ some r
    → confirmed_count (write_registration i new d) m
        + indicator (in_event_as m RegistrationStatus.confirmed r)
      ≡ confirmed_count d m + indicator (in_event_as m RegistrationStatus.confirmed new)
recount d m i r new e =
    count_where-update (in_event_as m RegistrationStatus.confirmed) d.registrations i new r e

pub Step-WithinCapacity : {d w : Db} → Step d w → AreTables d → WithinCapacity d → WithinCapacity w
Step-WithinCapacity (logged _) t h = record { at = h.at; unplaced = h.unplaced }
Step-WithinCapacity (configured _) t h = record { at = h.at; unplaced = h.unplaced }
Step-WithinCapacity (left_team _) t h = record { at = h.at; unplaced = h.unplaced }
Step-WithinCapacity (proved _ _ _ _ _ _ _ _ _ _ _ _ _ _ _ _) t h = record {
  at = h.at;
  unplaced = h.unplaced;
}
Step-WithinCapacity {d} (opened new _) t h = record {
  at =
      λ m match e. ground (arith, get-insert d.matches m new t.matches, h.at m match, h.unplaced m);
  unplaced = λ m le. omega (arith, h.unplaced m, next_id-insert d.matches new);
}
Step-WithinCapacity {d} (edited i old new e fits _) t h = record {
  at = λ m match f. ground (arith, get-update d.matches i m new old e, h.at m match);
  unplaced = λ m le. omega (arith, h.unplaced m, next_id-update d.matches i new);
}
Step-WithinCapacity {d} (restatused i old new e same _) t h = record {
  at = λ m match f. ground (arith, get-update d.matches i m new old e, h.at m match, h.at m old);
  unplaced = λ m le. omega (arith, h.unplaced m, next_id-update d.matches i new);
}
Step-WithinCapacity {d} (registered m u c match config r found _ placed _ starts _) t h = record {
  at = λ n other e. ground (
    arith,
    h.at n other e,
    count_where-insert (in_event_as n RegistrationStatus.confirmed) d.registrations r,
  );
  unplaced = λ n le. ground (
    arith,
    h.unplaced n le,
    count_where-insert (in_event_as n RegistrationStatus.confirmed) d.registrations r,
  );
}
Step-WithinCapacity {d} (moved i r new e _ target _ _) t h = record {
  at = λ n other f. ground (arith, h.at n other f, recount d n i r new e);
  unplaced = λ n le. ground (arith, h.unplaced n le, recount d n i r new e);
}
Step-WithinCapacity {d} (stamped i r new e same place _) t h = record {
  at = λ n other f. ground (arith, h.at n other f, recount d n i r new e);
  unplaced = λ n le. ground (arith, h.unplaced n le, recount d n i r new e);
}
Step-WithinCapacity {d}
      (reviewed p q pay mid new proof proof' r match found _ _ held placed _
        (confirms room)
        _
        _
        _
        _)
      t h =
    record {
      at = λ n other f. ground (
        arith,
        h.at n other f,
        recount d n pay.registration_id r (record r { status = RegistrationStatus.confirmed }) held,
      );
      unplaced = λ n le. ground (
        arith,
        h.unplaced n le,
        get-lt d.matches r.match_id match t.matches placed,
        recount d n pay.registration_id r (record r { status = RegistrationStatus.confirmed }) held,
      );
    }
Step-WithinCapacity {d}
      (reviewed p q pay mid new proof proof' r match found _ _ held placed _ (fills _) _ _ _ _) t
      h =
    record {
      at = λ n other f. ground (
        arith,
        h.at n other f,
        recount d n pay.registration_id r (record r { status = RegistrationStatus.waitlisted })
            held,
      );
      unplaced = λ n le. ground (
        arith,
        h.unplaced n le,
        get-lt d.matches r.match_id match t.matches placed,
        recount d n pay.registration_id r (record r { status = RegistrationStatus.waitlisted })
            held,
      );
    }
Step-WithinCapacity {d}
      (reviewed p q pay mid new proof proof' r match found _ _ held placed _ rejects _ _ _ _) t h =
    record {
      at = λ n other f. ground (
        arith,
        h.at n other f,
        recount d n pay.registration_id r (record r { status = RegistrationStatus.rejected }) held,
      );
      unplaced = λ n le. ground (
        arith,
        h.unplaced n le,
        get-lt d.matches r.match_id match t.matches placed,
        recount d n pay.registration_id r (record r { status = RegistrationStatus.rejected }) held,
      );
    }
