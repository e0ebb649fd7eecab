-- ===== src/Events/FullStatus.antt =====
-- `_refresh_full_status`: the status that it leaves.
use stranger_club.Base.{ℕ, ◌≡◌, ◌≤◌, ◌<◌, refl, true, some, [], ◌∷◌, arith}
use stranger_club.Db.{Db, confirmed_count}
use stranger_club.Db.Query.{get}
use stranger_club.Db.Query.Laws.{get-update_self}
use stranger_club.Db.Status.{EventStatus, event_in}
use stranger_club.Db.Rows.{Match}
use stranger_club.Exec.{Exec, run, pure, ◌>>◌, commit}
use stranger_club.Exec.Ends.{Ends-pure, Ends-commit, Ends-run}
use stranger_club.Events.Refresh.{
  full_status, refresh_full_status, Refreshed, kept, switched, Ends-refresh,
}

-- The end of `cancel_registration`, `review_payment` and `promote_waitlisted`.
abbrev pub refresh_and_save : ℕ → Match → Exec Db (Unit {0})
refresh_and_save m match = refresh_full_status m match >> (commit >> pure tt)

-- The row of an event after a refresh.
pub record FullExactly (m : ℕ) (match : Match) (d w : Db) : Type 0 where
  pub row : Match
  pub found : get w.matches m ≡ some row
  pub capacity : row.capacity ≡ match.capacity
  pub same_count : confirmed_count w m ≡ confirmed_count d m
  pub full : match.capacity ≤ confirmed_count w m → row.status ≡ EventStatus.full
  pub room : confirmed_count w m < match.capacity → row.status ≡ EventStatus.open_

Refreshed-FullExactly :
    (m : ℕ) (match : Match) {d w : Db}
    → get d.matches m ≡ some match
    → event_in match.status (EventStatus.open_ ∷ EventStatus.full ∷ []) ≡ true
    → Refreshed m match d w
    → FullExactly m match d w
Refreshed-FullExactly m match {d} held in_play (kept right) = record {
  row = match;
  found = held;
  capacity = refl;
  same_count = refl;
  full = λ le. ground (arith, right in_play);
  room = λ lt. ground (arith, right in_play);
}
Refreshed-FullExactly m match {d} held in_play (switched _) = record {
  row = record match { status = full_status (confirmed_count d m) match.capacity };
  found = get-update_self d.matches m _ match held;
  capacity = refl;
  same_count = refl;
  full = λ le. ground arith;
  room = λ lt. ground arith;
}

-- A refresh of an OPEN or FULL event leaves it FULL if the confirmed players have reached its
-- capacity, and OPEN if they have not.
pub refresh_full_status-FullExactly :
    (m : ℕ) (match : Match) (d : Db)
    → get d.matches m ≡ some match
    → event_in match.status (EventStatus.open_ ∷ EventStatus.full ∷ []) ≡ true
    → FullExactly m match d (run (refresh_and_save m match) d).1
refresh_full_status-FullExactly m match d held in_play =
    Ends-run {Q = λ _ w. FullExactly m match d w} (refresh_and_save m match) d (
      Ends-refresh _ _ _ _ λ w moves.
        Ends-commit _ _ (Ends-pure _ _ (Refreshed-FullExactly m match held in_play moves)))
