-- ===== src/Fixtures.antt =====
-- Fixtures, the scheduled games between two teams of an event, in backend/app/services.py:
-- `create_fixture` and `update_fixture`.
pub mod Frozen
use stranger_club.Base.{
  ℕ, String, Bool, true, false, not, ◌&&◌, ◌||◌, Option, none, some, List, [], ◌∷◌, ◌++◌, ◌==◌,
  or_default, is_some, option_is, if◌then◌else◌,
}
use stranger_club.Db.{Db, audit}
use stranger_club.Db.Query.{get, update, insert, delete, count_where}
use stranger_club.Db.Status.{EventStatus, FixtureStatus, event_is, fixture_is, fixture_in}
use stranger_club.Db.Rows.{Match, Team, Fixture, Organizer, Json, num, text, texts}
use stranger_club.Exec.{
  Error, api_error, integrity_error, runtime_error, Exec, pure, or_raise, gets, require, modify,
  commit, rollback, ◌>>=◌, ◌>>◌, except_integrity,
}
use stranger_club.Events.Manage.{validation_error}
use stranger_club.Lifecycle.{valid_fixture_transitions, invalid_transition}
use stranger_club.Teams.{roster_locking_statuses, entry_of}

abbrev pub fixture_text : FixtureStatus → String
fixture_text FixtureStatus.scheduled = "SCHEDULED"
fixture_text FixtureStatus.in_progress = "IN_PROGRESS"
fixture_text FixtureStatus.completed = "COMPLETED"
fixture_text FixtureStatus.cancelled = "CANCELLED"

-- `_load_team_in_event_or_422`
unfoldable pub load_team_in_event : ℕ → ℕ → Exec Db Team
load_team_in_event team_id event_id = do
  team? ← gets (λ d. get d.teams team_id)
  team ← or_raise team? validation_error
  require (team.event_id == event_id) validation_error
  pure team

-- schemas.FixtureCreate, after its validators
pub record FixtureCreate : Type 0 where
  pub team_a_id : ℕ
  pub team_b_id : ℕ
  pub scheduled_at : ℕ
  pub sequence : Option ℕ
  pub venue_override : Option String

abbrev same_number : Option ℕ → Option ℕ → Bool
same_number (some n) other = option_is other n
same_number none other = false

-- The rows that `uq_fixture_sequence_per_event` refuses beside this one.
abbrev pub same_sequence : Fixture → Fixture → Bool
same_sequence f g = g.event_id == f.event_id && same_number f.sequence g.sequence

abbrev pub sequence_taken : Error
sequence_taken = api_error 409 "FIXTURE_SEQUENCE_TAKEN"

unfoldable pub insert_fixture : Fixture → Exec Db ℕ
insert_fixture f = do
  require (not (f.team_a_id == f.team_b_id)) integrity_error
  same ← gets (λ d. count_where (same_sequence f) d.fixtures)
  require (same == 0) integrity_error
  id ← gets (λ d. d.fixtures.next_id)
  modify (λ d. record d { fixtures = insert d.fixtures f })
  pure id

unfoldable pub create_fixture : ℕ → Match → FixtureCreate → Organizer → Exec Db ℕ
create_fixture m match payload organizer = do
  require (not (event_is match.status EventStatus.cancelled)) (api_error 409 "EVENT_CANCELLED")
  load_team_in_event payload.team_a_id m
  load_team_in_event payload.team_b_id m
  id ← except_integrity sequence_taken (
      insert_fixture (record {
        event_id = m;
        team_a_id = payload.team_a_id;
        team_b_id = payload.team_b_id;
        sequence = payload.sequence;
        scheduled_at = payload.scheduled_at;
        venue_override = payload.venue_override;
        status = FixtureStatus.scheduled;
      }))
  audit (
      entry_of "FIXTURE_CREATED" "fixture" id
        (("event_id", num m)
          ∷ ("team_a_id", num payload.team_a_id)
          ∷ ("team_b_id", num payload.team_b_id)
          ∷ [])
        organizer [] [])
  commit
  pure id

-- schemas.FixtureUpdate: the fields that the client sent; a sequence and a venue can be sent as
-- null, and a null in another field is not modelled.
pub record FixtureUpdate : Type 0 where
  pub team_a_id : Option ℕ
  pub team_b_id : Option ℕ
  pub scheduled_at : Option ℕ
  pub sequence : Option (Option ℕ)
  pub venue_override : Option (Option String)
  pub status : Option FixtureStatus

-- Whether anything but the status is changed.
abbrev pub has_changes : FixtureUpdate → Bool
has_changes p =
    is_some p.team_a_id
    || is_some p.team_b_id
    || is_some p.scheduled_at
    || is_some p.sequence
    || is_some p.venue_override

abbrev named {ℓ} : {A : Type ℓ} → String → Option A → List String
named name none = []
named name (some a) = name ∷ []

-- `sorted(changes)`
abbrev pub fixture_fields : FixtureUpdate → List String
fixture_fields p =
    named "scheduled_at" p.scheduled_at
    ++ (named "sequence" p.sequence
        ++ (named "status" p.status
            ++ (named "team_a_id" p.team_a_id
                ++ (named "team_b_id" p.team_b_id ++ named "venue_override" p.venue_override))))

-- The row after the assignments, before its status moves.
unfoldable pub edited_fixture : FixtureUpdate → Fixture → Fixture
edited_fixture p f = record f {
  team_a_id = or_default p.team_a_id f.team_a_id;
  team_b_id = or_default p.team_b_id f.team_b_id;
  scheduled_at = or_default p.scheduled_at f.scheduled_at;
  sequence = or_default p.sequence f.sequence;
  venue_override = or_default p.venue_override f.venue_override;
}

-- Whether a request moves a fixture of this status into one that locks the rosters.
abbrev pub begins_play : FixtureStatus → Option FixtureStatus → Bool
begins_play from none = false
begins_play from (some to) = fixture_in to roster_locking_statuses && not (fixture_is to from)

-- The row that the handler goes on with: read again under the locks if the rosters will lock.
unfoldable pub reload : Bool → ℕ → Fixture → Exec Db Fixture
reload false id stale = pure stale
reload true id stale = do
  rollback
  fixture? ← gets (λ d. get d.fixtures id)
  or_raise fixture? runtime_error

unfoldable pub current_fixture : ℕ → Fixture → Option FixtureStatus → Exec Db Fixture
unfolding reload
current_fixture id stale requested = reload (begins_play stale.status requested) id stale

unfoldable pub check_teams : FixtureUpdate → Fixture → Exec Db (Unit {0})
check_teams p f = do
  require (not (or_default p.team_a_id f.team_a_id == or_default p.team_b_id f.team_b_id))
      validation_error
  load_team_in_event (or_default p.team_a_id f.team_a_id) f.event_id
  load_team_in_event (or_default p.team_b_id f.team_b_id) f.event_id
  pure tt

unfoldable pub assert_teams : Bool → FixtureUpdate → Fixture → Exec Db (Unit {0})
unfolding check_teams
assert_teams false p f = pure tt
assert_teams true p f = check_teams p f

abbrev pub move_allowed : FixtureStatus → Option FixtureStatus → Bool
move_allowed from none = true
move_allowed from (some to) = fixture_is to from || fixture_in to (valid_fixture_transitions from)

unfoldable pub flush_fixture : ℕ → Fixture → Exec Db (Unit {0})
flush_fixture id f = do
  require (not (f.team_a_id == f.team_b_id)) integrity_error
  same ← gets (λ d. count_where (same_sequence f) (delete d.fixtures id))
  require (same == 0) integrity_error
  modify (λ d. record d { fixtures = update d.fixtures id f })

-- The row that is stored.
unfoldable pub updated_fixture : FixtureUpdate → Fixture → Fixture
unfolding edited_fixture
updated_fixture p f = record (edited_fixture p f) { status = or_default p.status f.status }

abbrev event_name : Option FixtureStatus → String
event_name none = "FIXTURE_UPDATED"
event_name (some to) = "FIXTURE_STATUS_CHANGED"

-- `stale` is the row as the router loaded it.
unfoldable pub update_fixture : ℕ → Fixture → FixtureUpdate → Organizer → Exec Db Fixture
update_fixture id stale payload organizer = do
  fixture ← current_fixture id stale payload.status
  require (not (has_changes payload) || fixture_is fixture.status FixtureStatus.scheduled)
      (api_error 409 "FIXTURE_ALREADY_STARTED")
  assert_teams (is_some payload.team_a_id || is_some payload.team_b_id) payload fixture
  require (move_allowed fixture.status payload.status) invalid_transition
  except_integrity sequence_taken (flush_fixture id (updated_fixture payload fixture))
  audit (
      entry_of (event_name payload.status) "fixture" id
        (("fields", texts (fixture_fields payload)) ∷ []) organizer
        (("status", text (fixture_text stale.status)) ∷ [])
        (("status", text (fixture_text (updated_fixture payload fixture).status)) ∷ []))
  commit
  pure (updated_fixture payload fixture)
