-- ===== src/Teams.antt =====
-- Teams in backend/app/services.py: the roster lock, `create_team`, `update_team` and `delete_team`.
pub mod Members
pub mod Roster
pub mod Assignment
use stranger_club.Base.{
  ℕ, String, Bool, true, false, not, ◌&&◌, ◌||◌, Option, none, some, List, [], ◌∷◌, ◌++◌, ◌==◌, leb,
  str_eq, or_default, if◌then◌else◌,
}
use stranger_club.Db.{Db, audit}
use stranger_club.Db.Query.{Table, get, update, insert, delete, count_where, ids_where}
use stranger_club.Db.Status.{
  EventStatus, RegistrationStatus, FixtureStatus, ActorType, event_is, registration_is, fixture_in,
}
use stranger_club.Db.Rows.{
  Match, Registration, Team, TeamMember, MatchParticipant, Fixture, Organizer, AuditLog, Json, null,
  num, text, texts,
}
use stranger_club.Exec.{
  Error, api_error, integrity_error, runtime_error, Exec, pure, or_raise, gets, require, modify,
  commit, rollback, ◌>>=◌, ◌>>◌, except_integrity,
}
use stranger_club.Registrations.{plays_as, delete_team_membership}

-- FIXTURE_ROSTER_LOCKING_STATUSES
abbrev pub roster_locking_statuses : List FixtureStatus
roster_locking_statuses = FixtureStatus.in_progress ∷ FixtureStatus.completed ∷ []

abbrev pub plays_in : ℕ → Fixture → Bool
plays_in team f = f.team_a_id == team || f.team_b_id == team

abbrev pub locks : ℕ → Fixture → Bool
locks team f = plays_in team f && fixture_in f.status roster_locking_statuses

-- `_team_has_locking_fixture`, by the number of such fixtures
abbrev pub locking_count : ℕ → Db → ℕ
locking_count team d = count_where (locks team) d.fixtures

abbrev pub roster_locked : Error
roster_locked = api_error 409 "TEAM_ROSTER_LOCKED"

unfoldable pub assert_roster_unlocked : ℕ → Exec Db (Unit {0})
assert_roster_unlocked team = do
  locking ← gets (locking_count team)
  require (locking == 0) roster_locked

abbrev pub in_team : ℕ → TeamMember → Bool
in_team team m = m.team_id == team

abbrev pub team_member_count : ℕ → Db → ℕ
team_member_count team d = count_where (in_team team) d.members

abbrev pub entry_of :
    String
    → String
    → ℕ
    → List (String × Json)
    → Organizer
    → List (String × Json)
    → List (String × Json)
    → AuditLog
entry_of event_type entity_type id metadata organizer before after = record {
  event_type = event_type;
  entity_type = entity_type;
  entity_id = id;
  metadata = metadata;
  actor_type = ActorType.organizer;
  actor_id = some organizer.id;
  before = before;
  after = after;
}

-- schemas.TeamCreate, after its validators
pub record TeamCreate : Type 0 where
  pub name : String
  pub short_code : Option String
  pub max_size : Option ℕ

-- The rows that `uq_team_name_per_event` refuses beside a team of this name.
abbrev pub same_name : ℕ → String → Team → Bool
same_name event name t = t.event_id == event && str_eq t.name name

abbrev pub team_name_taken : Error
team_name_taken = api_error 409 "TEAM_NAME_TAKEN"

unfoldable pub insert_team : Team → Exec Db ℕ
insert_team team = do
  same ← gets (λ d. count_where (same_name team.event_id team.name) d.teams)
  require (same == 0) integrity_error
  id ← gets (λ d. d.teams.next_id)
  modify (λ d. record d { teams = insert d.teams team })
  pure id

unfoldable pub create_team : ℕ → Match → TeamCreate → Organizer → Exec Db ℕ
create_team m match payload organizer = do
  require (not (event_is match.status EventStatus.cancelled)) (api_error 409 "EVENT_CANCELLED")
  id ← except_integrity team_name_taken (
      insert_team (record {
        event_id = m;
        name = payload.name;
        short_code = payload.short_code;
        max_size = payload.max_size;
      }))
  audit (
      entry_of "TEAM_CREATED" "team" id (("event_id", num m) ∷ ("name", text payload.name) ∷ [])
        organizer [] [])
  commit
  pure id

-- schemas.TeamUpdate: the fields that the client sent; a short code and a size can be sent as null.
pub record TeamUpdate : Type 0 where
  pub name : Option String
  pub short_code : Option (Option String)
  pub max_size : Option (Option ℕ)

unfoldable pub updated_team : TeamUpdate → Team → Team
updated_team p team = record team {
  name = or_default p.name team.name;
  short_code = or_default p.short_code team.short_code;
  max_size = or_default p.max_size team.max_size;
}

abbrev text_or_null : Option String → Json
text_or_null none = null
text_or_null (some s) = text s

abbrev num_or_null : Option ℕ → Json
num_or_null none = null
num_or_null (some n) = num n

abbrev name_change : Option String → List (String × Json)
name_change none = []
name_change (some s) = ("name", text s) ∷ []

abbrev code_change : Option (Option String) → List (String × Json)
code_change none = []
code_change (some s) = ("short_code", text_or_null s) ∷ []

abbrev size_change : Option (Option ℕ) → List (String × Json)
size_change none = []
size_change (some n) = ("max_size", num_or_null n) ∷ []

abbrev team_changes : TeamUpdate → List (String × Json)
team_changes p = size_change p.max_size ++ (name_change p.name ++ code_change p.short_code)

abbrev keys : List (String × Json) → List String
keys [] = []
keys ((k, v) ∷ rest) = k ∷ keys rest

-- The other teams of the event with the new name.
abbrev other_names : ℕ → Team → Db → List ℕ
other_names id team d = ids_where (same_name team.event_id team.name) (delete d.teams id)

abbrev no_ids : List ℕ → Bool
no_ids [] = true
no_ids (i ∷ is) = false

unfoldable pub flush_team : ℕ → Team → Exec Db (Unit {0})
flush_team id team = do
  others ← gets (other_names id team)
  require (no_ids others) integrity_error
  modify (λ d. record d { teams = update d.teams id team })

-- `team` is the row as the router loaded it in this session.
unfoldable pub update_team : ℕ → Team → TeamUpdate → Organizer → Exec Db Team
update_team id team payload organizer = do
  except_integrity team_name_taken (flush_team id (updated_team payload team))
  audit (
      entry_of "TEAM_UPDATED" "team" id (("fields", texts (keys (team_changes payload))) ∷ [])
        organizer
        (("name", text team.name)
          ∷ ("short_code", text_or_null team.short_code)
          ∷ ("max_size", num_or_null team.max_size)
          ∷ [])
        (team_changes payload))
  commit
  pure (updated_team payload team)

-- `cascade="all, delete-orphan"` on Team.members
unfoldable pub delete_members : List ℕ → Table TeamMember → Table TeamMember
delete_members [] t = t
delete_members (i ∷ is) t = delete_members is (delete t i)

unfoldable pub delete_team : ℕ → Team → Organizer → Exec Db (Unit {0})
delete_team id team organizer = do
  fixtures ← gets (λ d. count_where (plays_in id) d.fixtures)
  require (fixtures == 0) (api_error 409 "TEAM_HAS_MATCHES")
  audit (
      entry_of "TEAM_REMOVED" "team" id
        (("event_id", num team.event_id) ∷ ("name", text team.name) ∷ []) organizer [] [])
  played ← gets (λ d. count_where (λ p. p.team_id == id) d.participants)
  require (played == 0) integrity_error
  modify (λ d. record d {
    members = delete_members (ids_where (in_team id) d.members) d.members;
    teams = delete d.teams id;
  })
  commit
