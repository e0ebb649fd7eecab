-- ===== src/Registrations/Waitlist.antt =====
-- `promote_waitlisted` and the order of the waitlist.
use stranger_club.Base.{ℕ, ◌≡◌, ◌<◌, refl, true, false, some, arith, ltb→lt, ==→eq, ltb, ◌==◌}
use stranger_club.Db.{Db, confirmed_count}
use stranger_club.Db.Query.{get, update, earliest_where, comes_before}
use stranger_club.Db.Query.Laws.{get-update_self, earliest_where-first, earliest_where-get, IsTable}
use stranger_club.Db.Status.{RegistrationStatus, registration_is}
use stranger_club.Db.Rows.{Match, Registration}
use stranger_club.Exec.{Result, ok, err, run}
use stranger_club.Exec.Ends.{
  Ends, Ends-pure, Ends-require, Ends-commit, Ends-rollback, Ends-run, Ends-found, Ends-gets,
}
use stranger_club.Lifecycle.Ends.{Ends-transition_registration}
use stranger_club.Events.Counts.{match_counts}
use stranger_club.Events.Refresh.{Refreshed-rows, Ends-refresh}
use stranger_club.Registrations.{waits_in, promote_waitlisted}

-- What a promotion of registration `i` found in `d` and left in `w`.
pub record Promoted (d : Db) (i : ℕ) (row : Registration) (w : Db) : Type 0 where
  pub old : Registration
  pub found : get d.registrations i ≡ some old
  pub waited : old.status ≡ RegistrationStatus.waitlisted
  -- everybody else on the waitlist of the event came later
  pub first :
      (j : ℕ) (other : Registration)
      → get d.registrations j ≡ some other
      → waits_in old.match_id other ≡ true
      → comes_before (λ r. r.created_at) (j, other) (i, old) ≡ false
  pub event : Match
  pub held : get d.matches old.match_id ≡ some event
  pub room : confirmed_count d old.match_id < event.capacity
  pub now_pending : row ≡ record old { status = RegistrationStatus.pending }
  pub stored : get w.registrations i ≡ some row

abbrev pub IfPromoted : Db → ℕ → Result Registration → Db → Type 0
IfPromoted d i (ok row) w = Promoted d i row w
IfPromoted d i (err e) w = w ≡ d

is_waitlisted :
    (s : RegistrationStatus)
    → registration_is s RegistrationStatus.waitlisted ≡ true
    → s ≡ RegistrationStatus.waitlisted
is_waitlisted s h = ground arith

promoted :
    (d w : Db) (i : ℕ) (r : Registration) (match : Match) (x : ℕ × Registration)
    → IsTable d.registrations
    → get d.registrations i ≡ some r
    → get d.matches r.match_id ≡ some match
    → registration_is r.status RegistrationStatus.waitlisted ≡ true
    → earliest_where (waits_in r.match_id) (λ q. q.created_at) d.registrations ≡ some x
    → (x.0 == i) ≡ true
    → ltb (confirmed_count d r.match_id) match.capacity ≡ true
    → w.registrations ≡ update d.registrations i (record r { status = RegistrationStatus.pending })
    → Promoted d i (record r { status = RegistrationStatus.pending }) w
promoted d w i r match x it found held waits oldest same room e = record {
  old = r;
  found = found;
  waited = is_waitlisted r.status waits;
  first = λ j other f waiting.
      let (there, _) =
        earliest_where-get (waits_in r.match_id) (λ q. q.created_at) d.registrations x.0 x.1 it
          oldest in
      let law =
        earliest_where-first (waits_in r.match_id) (λ q. q.created_at) d.registrations x.0 j x.1
          other oldest f waiting in
      let place : x.0 ≡ i = ==→eq x.0 i same in let one : x.1 ≡ r = ground arith in ground arith;
  event = match;
  held = held;
  room = ltb→lt (confirmed_count d r.match_id) match.capacity room;
  now_pending = refl;
  stored = rw e (get-update_self d.registrations i _ r found);
}

promote-Ends :
    (i actor_id : ℕ) (d : Db)
    → IsTable d.registrations
    → Ends (IfPromoted d i) (promote_waitlisted i actor_id) (record { committed = d; working = d })
unfolding promote_waitlisted match_counts
promote-Ends i actor_id d it = Ends-gets _ _ _ (
    Ends-found _ _ _ _ refl λ preliminary there. Ends-rollback _ _ (
      Ends-gets _ _ _ (
        Ends-found _ _ _ _ refl λ r found. Ends-gets _ _ _ (
          Ends-found _ _ _ _ refl λ match held. Ends-require _ _ _ _ refl λ waits. Ends-gets _ _ _ (
            Ends-found _ _ _ _ refl λ x oldest. Ends-require _ _ _ _ refl λ same. Ends-gets _ _ _ (
              Ends-require _ _ _ _ refl λ room.
                Ends-transition_registration _ _ _ _ _ _ _ _ _ refl λ allowed.
                  Ends-refresh _ _ _ _ λ w moves. Ends-commit _ _ (
                    Ends-pure _ _ (
                      promoted d w i r match x it found held waits oldest same room
                        (Refreshed-rows moves).0))))))))

-- On a table whose keys are distinct, a promotion that succeeds has taken a WAITLISTED player to
-- PENDING while a place was free, and no player on the waitlist of that event came before; one that
-- fails changes nothing.
pub promote_waitlisted-Promoted :
    (i actor_id : ℕ) (d : Db)
    → IsTable d.registrations
    → let (answer, w) = run (promote_waitlisted i actor_id) d in IfPromoted d i answer w
promote_waitlisted-Promoted i actor_id d it = Ends-run _ d (promote-Ends i actor_id d it)
