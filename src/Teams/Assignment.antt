-- ===== src/Teams/Assignment.antt =====
-- What the assignment of a player to a team finds and leaves.
use stranger_club.Base.{ℕ, ◌≡◌, refl, Bool, true, false, some, ◌==◌, arith, ==→eq}
use stranger_club.Db.{Db}
use stranger_club.Db.Query.{get, insert, count_where}
use stranger_club.Db.Query.Laws.{IsTable, get-insert}
use stranger_club.Db.Status.{RegistrationStatus, registration_is}
use stranger_club.Db.Rows.{Registration, Team, TeamMember, Organizer}
use stranger_club.Exec.{
  Error, Result, ok, err, Session, Exec, except_integrity, integrity_error, require, gets, modify,
  ◌>>◌, run, ◌>>=◌, pure,
}
use stranger_club.Exec.Ends.{
  Ends, Ends-pure, Ends-require, Ends-commit, Ends-rollback, Ends-run, Ends-found, Ends-gets,
}
use stranger_club.Lifecycle.Ends.{Ends-audit}
use stranger_club.Teams.{locking_count, team_member_count}
use stranger_club.Teams.Members.{is_assigned, has_room, insert_member, assign_team_member}
use stranger_club.Teams.Roster.{KeepsLocked, inserted-KeepsLocked, Ends-unlocked}

module _ {ℓ} {A : Type ℓ} {Q : Result A → Db → Type 0} where
  guarded-Ends :
      (b : Bool) (e : Error) (n : Db → ℕ) (f : Db → Db) (k : ℕ → Exec Db A) (s : Session Db)
      → Q (err e) s.committed
      → (b ≡ true → Ends Q (k (n s.working)) (record s { working = f s.working }))
      → Ends Q
          (except_integrity e (require b integrity_error >> (gets n >>= λ i. modify f >> pure i))
            >>= k)
          s
  unfolding except_integrity ◌>>=◌
  guarded-Ends true e n f k s failed rest = record { holds = (rest refl).holds }
  guarded-Ends false e n f k s failed rest = record { holds = failed }

  -- The INSERT of a membership, under the `except` that answers a conflict.
  Ends-insert_member :
      (m : TeamMember) (e : Error) (k : ℕ → Exec Db A) (s : Session Db)
      → Q (err e) s.committed
      → (count_where (is_assigned m.registration_id) s.working.members ≡ 0
          → Ends Q
              (k s.working.members.next_id)
              (record s { working = record s.working { members = insert s.working.members m } }))
      → Ends Q (except_integrity e (insert_member m) >>= k) s
  unfolding insert_member except_integrity ◌>>=◌
  Ends-insert_member m e k s failed rest = record {
    holds =
        (guarded-Ends (count_where (is_assigned m.registration_id) s.working.members == 0) e
          (λ d. d.members.next_id) (λ d. record d { members = insert d.members m }) k s failed
          λ free. rest (==→eq _ 0 free)).holds;
  }

-- What an assignment found in `d`.
pub record Assigned (d : Db) (team_id registration_id i : ℕ) (w : Db) : Type 0 where
  pub team : Team
  pub in_teams : get d.teams team_id ≡ some team
  pub registration : Registration
  pub in_registrations : get d.registrations registration_id ≡ some registration
  pub confirmed : registration.status ≡ RegistrationStatus.confirmed
  pub unlocked : locking_count team_id d ≡ 0
  pub room : has_room team.max_size (team_member_count team_id d) ≡ true
  pub alone : count_where (is_assigned registration_id) d.members ≡ 0
  pub member : TeamMember
  pub stored : get w.members i ≡ some member
  pub to_team : member.team_id ≡ team_id
  pub of_registration : member.registration_id ≡ registration_id
  pub keeps : KeepsLocked d w

abbrev pub IfAssigned : Db → ℕ → ℕ → Result ℕ → Db → Type 0
IfAssigned d team_id registration_id (ok i) w = Assigned d team_id registration_id i w
IfAssigned d team_id registration_id (err e) w = w ≡ d

is_confirmed :
    (s : RegistrationStatus)
    → registration_is s RegistrationStatus.confirmed ≡ true
    → s ≡ RegistrationStatus.confirmed
is_confirmed s h = ground arith

assigned :
    (d w : Db) (team_id registration_id : ℕ) (team : Team) (r : Registration) (m : TeamMember)
    → IsTable d.members
    → get d.teams team_id ≡ some team
    → get d.registrations registration_id ≡ some r
    → registration_is r.status RegistrationStatus.confirmed ≡ true
    → locking_count team_id d ≡ 0
    → has_room team.max_size (team_member_count team_id d) ≡ true
    → count_where (is_assigned registration_id) d.members ≡ 0
    → m.team_id ≡ team_id
    → m.registration_id ≡ registration_id
    → w.members ≡ insert d.members m
    → Assigned d team_id registration_id d.members.next_id w
assigned d w team_id registration_id team r m t found held is_c free fits alone to_team of e =
    record {
      team = team;
      in_teams = found;
      registration = r;
      in_registrations = held;
      confirmed = is_confirmed r.status is_c;
      unlocked = free;
      room = fits;
      alone = alone;
      member = m;
      stored = rw e (ground (arith, get-insert d.members d.members.next_id m t));
      to_team = to_team;
      of_registration = of;
      keeps = inserted-KeepsLocked d w m t (ground (arith, free)) e;
    }

assign-Ends :
    (now team_id : ℕ) (stale_team : Team) (registration_id : ℕ) (stale : Registration)
    (organizer : Organizer) (d : Db)
    → IsTable d.members
    → Ends
        (IfAssigned d team_id registration_id)
        (assign_team_member now team_id stale_team registration_id stale organizer)
        (record { committed = d; working = d })
unfolding assign_team_member
assign-Ends now team_id stale_team registration_id stale organizer d t =
    Ends-require _ _ _ _ refl λ same_event. Ends-rollback _ _ (
      Ends-gets _ _ _ (
        Ends-gets _ _ _ (
          Ends-found _ _ _ _ refl λ r held. Ends-require _ _ _ _ refl λ is_confirmed_row.
            Ends-found _ _ _ _ refl λ team found. Ends-unlocked _ _ _ refl λ free. Ends-gets _ _ _ (
              Ends-require _ _ _ _ refl λ fits. Ends-insert_member _ _ _ _ refl λ alone.
                Ends-audit _ _ _ (
                  Ends-commit _ _ (
                    Ends-pure _ _ (
                      assigned d _ team_id registration_id team r
                        (record {
                          team_id = team_id;
                          registration_id = registration_id;
                          event_id = team.event_id;
                          assigned_by_organizer_id = some organizer.id;
                          created_at = now;
                        })
                        t found held is_confirmed_row free fits alone refl refl refl)))))))

-- Where the keys of the memberships are distinct, an assignment that succeeds has put a CONFIRMED
-- player who was on no team into a team that has room and has not begun to play, and no team that
-- has begun to play gets other members; one that fails changes nothing.
pub assign_team_member-Assigned :
    (now team_id : ℕ) (stale_team : Team) (registration_id : ℕ) (stale : Registration)
    (organizer : Organizer) (d : Db)
    → IsTable d.members
    → let (answer, w) =
        run (assign_team_member now team_id stale_team registration_id stale organizer) d in
      IfAssigned d team_id registration_id answer w
assign_team_member-Assigned now team_id stale_team registration_id stale organizer d t =
    Ends-run _ d (assign-Ends now team_id stale_team registration_id stale organizer d t)
