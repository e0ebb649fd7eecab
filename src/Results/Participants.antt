-- ===== src/Results/Participants.antt =====
-- The participants of a fixture in backend/app/services.py: `set_match_participants`.
use stranger_club.Base.{
  ℕ, ◌+◌, Bool, true, false, not, ◌&&◌, ◌||◌, Option, none, some, List, [], ◌∷◌, ◌==◌,
  if◌then◌else◌,
}
use stranger_club.Db.{Db, audit}
use stranger_club.Db.Query.{Table, get, insert, count_where}
use stranger_club.Db.Status.{FixtureStatus, fixture_is}
use stranger_club.Db.Rows.{
  Fixture, Registration, TeamMember, MatchParticipant, MatchResult, Organizer, num,
}
use stranger_club.Exec.{
  api_error, integrity_error, runtime_error, Exec, or_raise, gets, require, modify, commit,
  rollback, ◌>>=◌, ◌>>◌, except_integrity,
}
use stranger_club.Events.Manage.{validation_error}
use stranger_club.Teams.{entry_of}
use stranger_club.Results.{took_part, is_result_of, award_is_valid}

-- schemas.MatchParticipantEntry
pub record ParticipantEntry : Type 0 where
  pub registration_id : ℕ
  pub team_id : ℕ

abbrev pub desired : List ParticipantEntry → ℕ → Bool
desired [] r = false
desired (e ∷ es) r = e.registration_id == r || desired es r

abbrev pub is_member_as : ParticipantEntry → TeamMember → Bool
is_member_as e m = m.registration_id == e.registration_id && m.team_id == e.team_id

abbrev pub in_event : ℕ → Option Registration → Bool
in_event event none = false
in_event event (some r) = r.match_id == event

-- The tests of the loop on one entry after the test on duplicates.
unfoldable pub entry_is_valid : Fixture → Db → ParticipantEntry → Bool
entry_is_valid f d e =
    (f.team_a_id == e.team_id || f.team_b_id == e.team_id)
    && (in_event f.event_id (get d.registrations e.registration_id)
        && not (count_where (is_member_as e) d.members == 0))

-- Every entry that the loop refuses raises the same error, so the order of entries is not seen.
unfoldable pub entries_are_valid : Fixture → List ParticipantEntry → Db → Bool
entries_are_valid f [] d = true
entries_are_valid f (e ∷ es) d =
    not (desired es e.registration_id) && (entry_is_valid f d e && entries_are_valid f es d)

abbrev pub takes_part : ℕ → Table MatchParticipant → ℕ → Bool
takes_part fixture_id t r = not (count_where (took_part fixture_id r) t == 0)

abbrev pub is_removed : ℕ → List ParticipantEntry → MatchParticipant → Bool
is_removed fixture_id entries p =
    p.fixture_id == fixture_id && not (desired entries p.registration_id)

unfoldable pub retained :
    ℕ → List ParticipantEntry → List (ℕ × MatchParticipant) → List (ℕ × MatchParticipant)
retained fixture_id entries [] = []
retained fixture_id entries ((i, p) ∷ rows) =
    let rest = retained fixture_id entries rows in
    if is_removed fixture_id entries p then rest else (i, p) ∷ rest

unfoldable pub remove_undesired :
    ℕ → List ParticipantEntry → Table MatchParticipant → Table MatchParticipant
remove_undesired fixture_id entries t = record t { rows = retained fixture_id entries t.rows }

-- A result whose award would point at no participant: `fk_result_mvp_participant` and its kin.
abbrev pub award_is_orphan : ℕ → Db → MatchResult → Bool
award_is_orphan fixture_id d r =
    is_result_of fixture_id r
    && not (
        award_is_valid fixture_id d r.player_of_match_registration_id
        && (award_is_valid fixture_id d r.best_batter_registration_id
            && award_is_valid fixture_id d r.best_bowler_registration_id))

unfoldable pub without_undesired : ℕ → List ParticipantEntry → Db → Db
without_undesired fixture_id entries d = record d {
  participants = remove_undesired fixture_id entries d.participants;
}

unfoldable pub flush_removal : ℕ → List ParticipantEntry → Exec Db (Unit {0})
flush_removal fixture_id entries = do
  orphans ← gets (λ d.
      count_where (award_is_orphan fixture_id (without_undesired fixture_id entries d)) d.results)
  require (orphans == 0) integrity_error
  modify (without_undesired fixture_id entries)

abbrev pub new_participant : ℕ → ℕ → ParticipantEntry → MatchParticipant
new_participant fixture_id event_id e = record {
  fixture_id = fixture_id;
  registration_id = e.registration_id;
  team_id = e.team_id;
  event_id = event_id;
}

-- One INSERT, under `uq_match_participant_fixture_registration`, unless the player took part before;
-- the loop has checked what the foreign keys ask for.
unfoldable pub add_entry :
    (fixture_id event_id : ℕ) (existing : ℕ → Bool)
    → ParticipantEntry
    → Table MatchParticipant
    → Option (Table MatchParticipant)
add_entry fixture_id event_id existing e t =
    if existing e.registration_id
    then some t
    else if takes_part fixture_id t e.registration_id
    then none
    else some (insert t (new_participant fixture_id event_id e))

unfoldable pub add_entries :
    (fixture_id event_id : ℕ) (existing : ℕ → Bool)
    → List ParticipantEntry
    → Option (Table MatchParticipant)
    → Option (Table MatchParticipant)
add_entries fixture_id event_id existing es none = none
add_entries fixture_id event_id existing [] (some t) = some t
add_entries fixture_id event_id existing (e ∷ es) (some t) =
    add_entries fixture_id event_id existing es (add_entry fixture_id event_id existing e t)

unfoldable pub flush_entries :
    (fixture_id event_id : ℕ) (existing : ℕ → Bool) → List ParticipantEntry → Exec Db (Unit {0})
flush_entries fixture_id event_id existing entries = do
  added? ← gets (λ d. add_entries fixture_id event_id existing entries (some d.participants))
  added ← or_raise added? integrity_error
  modify (λ d. record d { participants = added })

abbrev entry_count : List ParticipantEntry → ℕ
entry_count [] = 0
entry_count (e ∷ es) = 1 + entry_count es

unfoldable pub set_match_participants : ℕ → List ParticipantEntry → Organizer → Exec Db (Unit {0})
set_match_participants fixture_id entries organizer = do
  rollback
  fixture? ← gets (λ d. get d.fixtures fixture_id)
  f ← or_raise fixture? runtime_error
  require (fixture_is f.status FixtureStatus.completed) (api_error 409 "FIXTURE_NOT_COMPLETED")
  valid ← gets (entries_are_valid f entries)
  require valid validation_error
  existing ← gets (λ d. takes_part fixture_id d.participants)
  except_integrity (api_error 409 "PARTICIPANT_IS_AWARD_RECIPIENT")
      (flush_removal fixture_id entries)
  except_integrity (api_error 409 "DUPLICATE_PARTICIPANT")
      (flush_entries fixture_id f.event_id existing entries)
  audit (
      entry_of "PARTICIPATION_UPDATED" "fixture" fixture_id
        (("participant_count", num (entry_count entries)) ∷ []) organizer [] [])
  commit
