-- ===== src/Teams/Members.antt =====
-- Who plays in a team: `assign_team_member`, `move_team_member` and `remove_team_member` of
-- backend/app/services.py.
use stranger_club.Base.{
  ℕ, Bool, true, not, ◌||◌, Option, none, some, [], ◌∷◌, ◌==◌, leb, if◌then◌else◌,
}
use stranger_club.Db.{Db, audit}
use stranger_club.Db.Query.{get, update, insert, count_where}
use stranger_club.Db.Status.{RegistrationStatus, ActorType, registration_is}
use stranger_club.Db.Rows.{Registration, Team, TeamMember, Organizer, num}
use stranger_club.Exec.{
  api_error, integrity_error, runtime_error, Exec, pure, or_raise, gets, require, modify, commit,
  rollback, ◌>>=◌, ◌>>◌, except_integrity,
}
use stranger_club.Registrations.{plays_as, delete_team_membership}
use stranger_club.Teams.{assert_roster_unlocked, team_member_count, entry_of}

-- Whether a team of this size limit has room for another member.
abbrev pub has_room : Option ℕ → ℕ → Bool
has_room none members = true
has_room (some size) members = not (leb size members)

-- The rows that `uq_team_member_registration` refuses beside a new membership.
abbrev pub is_assigned : ℕ → TeamMember → Bool
is_assigned registration m = m.registration_id == registration

unfoldable pub insert_member : TeamMember → Exec Db ℕ
insert_member m = do
  assigned ← gets (λ d. count_where (is_assigned m.registration_id) d.members)
  require (assigned == 0) integrity_error
  id ← gets (λ d. d.members.next_id)
  modify (λ d. record d { members = insert d.members m })
  pure id

-- `now` is `now_ist()`; the two stale rows are those that the router loaded before the lock.
unfoldable pub assign_team_member :
    (now team_id : ℕ) → Team → (registration_id : ℕ) → Registration → Organizer → Exec Db ℕ
assign_team_member now team_id stale_team registration_id stale organizer = do
  require (stale.match_id == stale_team.event_id) (api_error 409 "CROSS_EVENT_REGISTRATION")
  rollback
  team? ← gets (λ d. get d.teams team_id)
  registration? ← gets (λ d. get d.registrations registration_id)
  r ← or_raise registration? runtime_error
  require (registration_is r.status RegistrationStatus.confirmed)
      (api_error 409 "REGISTRATION_NOT_CONFIRMED")
  team ← or_raise team? runtime_error
  assert_roster_unlocked team_id
  members ← gets (team_member_count team_id)
  require (has_room team.max_size members) (api_error 409 "TEAM_FULL")
  id ← except_integrity (api_error 409 "ALREADY_ON_A_TEAM") (
      insert_member (record {
        team_id = team_id;
        registration_id = registration_id;
        event_id = team.event_id;
        assigned_by_organizer_id = some organizer.id;
        created_at = now;
      }))
  audit (
      entry_of "TEAM_MEMBER_ASSIGNED" "team_member" id
        (("team_id", num team_id) ∷ ("registration_id", num registration_id) ∷ []) organizer [] [])
  commit
  pure id

-- The move proper, between two teams. `old_team_id` was read before the locks.
unfoldable pub move_between :
    (member_id old_team_id new_team_id : ℕ) → Organizer → Exec Db TeamMember
move_between member_id old_team_id new_team_id organizer = do
  rollback
  member? ← gets (λ d. get d.members member_id)
  team? ← gets (λ d. get d.teams new_team_id)
  assert_roster_unlocked old_team_id
  team ← or_raise team? runtime_error
  assert_roster_unlocked new_team_id
  members ← gets (team_member_count new_team_id)
  require (has_room team.max_size members) (api_error 409 "TEAM_FULL")
  member ← or_raise member? runtime_error
  played ← gets (λ d. count_where (plays_as member) d.participants)
  require (played == 0 || member.team_id == new_team_id) integrity_error
  modify (λ d. record d {
    members = update d.members member_id (record member { team_id = new_team_id });
  })
  audit (
      entry_of "TEAM_MEMBER_MOVED" "team_member" member_id
        (("from_team_id", num old_team_id) ∷ ("to_team_id", num new_team_id) ∷ []) organizer
        (("team_id", num old_team_id) ∷ []) (("team_id", num new_team_id) ∷ []))
  commit
  pure (record member { team_id = new_team_id })

-- `stale` and `stale_team` are the rows that the router loaded before the locks.
unfoldable pub move_team_member :
    (member_id : ℕ) → TeamMember → (new_team_id : ℕ) → Team → Organizer → Exec Db TeamMember
move_team_member member_id stale new_team_id stale_team organizer = do
  require (stale_team.event_id == stale.event_id) (api_error 409 "CROSS_EVENT_TEAM")
  if stale.team_id == new_team_id
      then pure stale
      else move_between member_id stale.team_id new_team_id organizer

unfoldable pub remove_team_member : (member_id : ℕ) → Organizer → Exec Db (Unit {0})
remove_team_member member_id organizer = do
  rollback
  member? ← gets (λ d. get d.members member_id)
  member ← or_raise member? runtime_error
  assert_roster_unlocked member.team_id
  delete_team_membership member_id member "TEAM_MEMBER_REMOVED" ActorType.organizer
      (some organizer.id) []
  commit
