-- ===== src/Teams/Roster.antt =====
-- The roster lock: the members of a team under the operations on memberships.
use stranger_club.Base.{ℕ, ◌<◌, ◌≡◌, refl, some, ◌==◌, arith, ==→eq}
use stranger_club.Db.{Db}
use stranger_club.Db.Query.{get, update, insert, delete}
use stranger_club.Db.Query.Laws.{
  IsTable, get-update, get-insert, get-lt, count_where-update, count_where-insert,
}
use stranger_club.Db.Query.Deletion.{get-delete, count_where-delete}
use stranger_club.Db.Rows.{Team, TeamMember, Organizer}
use stranger_club.Exec.{Result, err, Session, Exec, run, ◌>>=◌, pure}
use stranger_club.Exec.Ends.{
  Ends, Ends-saved, Ends-pure, Ends-if, Ends-require, Ends-modify, Ends-commit, Ends-rollback,
  Ends-run, Ends-found, Ends-gets, Ends-assoc,
}
use stranger_club.Lifecycle.Ends.{Ends-audit}
use stranger_club.Registrations.{delete_team_membership}
use stranger_club.Teams.{
  locking_count, roster_locked, assert_roster_unlocked, in_team, team_member_count,
}
use stranger_club.Teams.Members.{move_between, move_team_member, remove_team_member}

-- Every team that has begun to play in `d` has the same members in `w`.
pub record KeepsLocked (d w : Db) : Type 0 where
  pub count :
      (team : ℕ) → 0 < locking_count team d → team_member_count team w ≡ team_member_count team d
  pub rows :
      (team i : ℕ) (m : TeamMember)
      → 0 < locking_count team d
      → get d.members i ≡ some m
      → m.team_id ≡ team
      → get w.members i ≡ some m

keeps_same : (d : Db) → KeepsLocked d d
keeps_same d = record { count = λ team l. refl; rows = λ team i m l e f. e }

pub inserted-KeepsLocked :
    (d w : Db) (m : TeamMember)
    → IsTable d.members
    → locking_count m.team_id d ≡ 0
    → w.members ≡ insert d.members m
    → KeepsLocked d w
inserted-KeepsLocked d w m t free e = record {
  count = λ team l. rw e (ground (arith, count_where-insert (in_team team) d.members m));
  rows = λ team i other l found place.
      rw e (ground (arith, get-insert d.members i m t, get-lt d.members i other t found));
}

updated-KeepsLocked :
    (d w : Db) (i : ℕ) (old new : TeamMember)
    → get d.members i ≡ some old
    → locking_count old.team_id d ≡ 0
    → locking_count new.team_id d ≡ 0
    → w.members ≡ update d.members i new
    → KeepsLocked d w
updated-KeepsLocked d w i old new found free free' e = record {
  count =
      λ team l. rw e (ground (arith, count_where-update (in_team team) d.members i new old found));
  rows =
      λ team j other l there place. rw e (ground (arith, get-update d.members i j new old found));
}

deleted-KeepsLocked :
    (d w : Db) (i : ℕ) (old : TeamMember)
    → IsTable d.members
    → get d.members i ≡ some old
    → locking_count old.team_id d ≡ 0
    → w.members ≡ delete d.members i
    → KeepsLocked d w
deleted-KeepsLocked d w i old t found free e = record {
  count =
      λ team l. rw e (ground (arith, count_where-delete (in_team team) d.members i old t found));
  rows = λ team j other l there place. rw e (ground (arith, get-delete d.members i j));
}

module _ {ℓ} {A : Type ℓ} {Q : Result A → Db → Type 0} where
  pub Ends-unlocked :
      (team : ℕ) (k : Unit {0} → Exec Db A) (s : Session Db)
      → Q (err roster_locked) s.committed
      → (locking_count team s.working ≡ 0 → Ends Q (k tt) s)
      → Ends Q (assert_roster_unlocked team >>= k) s
  unfolding assert_roster_unlocked
  Ends-unlocked team k s failed rest =
      Ends-assoc _ _ k s
        (Ends-gets _ _ s (Ends-require _ _ _ s failed λ free. rest (==→eq _ 0 free)))

move-Ends :
    (member_id : ℕ) (member : TeamMember) (new_team_id : ℕ) (stale_team : Team)
    (organizer : Organizer) (d : Db)
    → get d.members member_id ≡ some member
    → Ends
        (λ _ w. KeepsLocked d w)
        (move_team_member member_id member new_team_id stale_team organizer)
        (record { committed = d; working = d })
unfolding move_team_member move_between
move-Ends member_id member new_team_id stale_team organizer d there =
    Ends-require _ _ _ _ (keeps_same d) λ same_event.
      Ends-if (member.team_id == new_team_id) (pure member)
        (move_between member_id member.team_id new_team_id organizer) _
        (λ same. Ends-pure _ _ (keeps_same d))
        λ other. Ends-rollback _ _ (
          Ends-gets _ _ _ (
            Ends-gets _ _ _ (
              Ends-unlocked _ _ _ (keeps_same d) λ free.
                Ends-found _ _ _ _ (keeps_same d) λ team found.
                  Ends-unlocked _ _ _ (keeps_same d) λ free_too. Ends-gets _ _ _ (
                    Ends-require _ _ _ _ (keeps_same d) λ fits.
                      Ends-found _ _ _ _ (keeps_same d) λ row loaded. Ends-gets _ _ _ (
                        Ends-require _ _ _ _ (keeps_same d) λ idle. Ends-modify _ _ _ (
                          Ends-audit _ _ _ (
                            Ends-commit _ _ (
                              Ends-pure _ _ (
                                updated-KeepsLocked d _ member_id row _ loaded
                                  (ground (arith, loaded, there, free)) free_too refl)))))))))

-- A move of a membership, where the row that was loaded before the locks is still the stored one,
-- gives no team that has begun to play other members, whether it succeeds or fails.
pub move_team_member-KeepsLocked :
    (member_id : ℕ) (member : TeamMember) (new_team_id : ℕ) (stale_team : Team)
    (organizer : Organizer) (d : Db)
    → get d.members member_id ≡ some member
    → KeepsLocked d (run (move_team_member member_id member new_team_id stale_team organizer) d).1
move_team_member-KeepsLocked member_id member new_team_id stale_team organizer d there =
    Ends-run _ d (move-Ends member_id member new_team_id stale_team organizer d there)

remove-Ends :
    (member_id : ℕ) (organizer : Organizer) (d : Db)
    → IsTable d.members
    → Ends
        (λ _ w. KeepsLocked d w)
        (remove_team_member member_id organizer)
        (record { committed = d; working = d })
unfolding remove_team_member delete_team_membership
remove-Ends member_id organizer d t = Ends-rollback _ _ (
    Ends-gets _ _ _ (
      Ends-found _ _ _ _ (keeps_same d) λ m there. Ends-unlocked _ _ _ (keeps_same d) λ free.
        Ends-assoc _ _ _ _ (
          Ends-audit _ _ _ (
            Ends-assoc _ _ _ _ (
              Ends-gets _ _ _ (
                Ends-assoc _ _ _ _ (
                  Ends-require _ _ _ _ (keeps_same d) λ idle.
                    Ends-modify _ _ _
                      (Ends-saved _ (deleted-KeepsLocked d _ member_id m t there free refl)))))))))

-- Where the keys of the memberships are distinct, the removal of a membership gives no team that
-- has begun to play other members, whether it succeeds or fails.
pub remove_team_member-KeepsLocked :
    (member_id : ℕ) (organizer : Organizer) (d : Db)
    → IsTable d.members
    → KeepsLocked d (run (remove_team_member member_id organizer) d).1
remove_team_member-KeepsLocked member_id organizer d t =
    Ends-run _ d (remove-Ends member_id organizer d t)
