-- ===== src/Results.antt =====
-- The results of fixtures in backend/app/services.py: `create_match_result` and
-- `update_match_result`.
pub mod Recorded
pub mod Corrected
pub mod Participants
pub mod Replaced
use stranger_club.Base.{
  ℕ, String, Bool, true, false, not, ◌&&◌, Option, none, some, List, [], ◌∷◌, ◌==◌, is_some,
  option_is,
}
use stranger_club.Db.{Db, audit}
use stranger_club.Db.Query.{get, update, insert, count_where}
use stranger_club.Db.Status.{FixtureStatus, ResultType, fixture_is}
use stranger_club.Db.Rows.{
  Fixture, MatchParticipant, MatchResult, Organizer, Json, null, num, text, texts,
}
use stranger_club.Exec.{
  Error, api_error, integrity_error, runtime_error, Exec, pure, or_raise, gets, require, modify,
  commit, rollback, ◌>>=◌, ◌>>◌, except_integrity,
}
use stranger_club.Events.Manage.{validation_error}
use stranger_club.Teams.{entry_of}

abbrev pub result_text : ResultType → String
result_text ResultType.team_a_win = "TEAM_A_WIN"
result_text ResultType.team_b_win = "TEAM_B_WIN"
result_text ResultType.draw = "DRAW"
result_text ResultType.no_result = "NO_RESULT"

-- schemas.MatchResultCreate and MatchResultUpdate, after their validators
pub record ResultPayload : Type 0 where
  pub result_type : ResultType
  pub winning_team_id : Option ℕ
  pub player_of_match_registration_id : Option ℕ
  pub best_batter_registration_id : Option ℕ
  pub best_bowler_registration_id : Option ℕ
  pub notes : Option String

-- The two tests of `_validate_result_payload` on the winner.
abbrev pub winner_is_valid : ResultType → Option ℕ → (team_a team_b : ℕ) → Bool
winner_is_valid ResultType.team_a_win winner a b = option_is winner a
winner_is_valid ResultType.team_b_win winner a b = option_is winner b
winner_is_valid _ winner a b = true

-- `ck_result_winner_consistent`
abbrev pub winner_is_consistent : ResultType → Option ℕ → (team_a team_b : ℕ) → Bool
winner_is_consistent ResultType.team_a_win winner a b = option_is winner a
winner_is_consistent ResultType.team_b_win winner a b = option_is winner b
winner_is_consistent _ winner a b = not (is_some winner)

abbrev pub took_part : ℕ → ℕ → MatchParticipant → Bool
took_part fixture_id registration_id p =
    p.fixture_id == fixture_id && p.registration_id == registration_id

-- Whether an award is left open, or goes to a participant of the fixture.
abbrev pub award_is_valid : ℕ → Db → Option ℕ → Bool
award_is_valid fixture_id d none = true
award_is_valid fixture_id d (some r) =
    not (count_where (took_part fixture_id r) d.participants == 0)

abbrev pub awards_are_valid : ℕ → ResultPayload → Db → Bool
awards_are_valid fixture_id p d =
    award_is_valid fixture_id d p.player_of_match_registration_id
    && (award_is_valid fixture_id d p.best_batter_registration_id
        && award_is_valid fixture_id d p.best_bowler_registration_id)

unfoldable pub validate_result_payload : ℕ → Fixture → ResultPayload → Exec Db (Unit {0})
validate_result_payload fixture_id f p = do
  require (winner_is_valid p.result_type p.winning_team_id f.team_a_id f.team_b_id) validation_error
  valid ← gets (awards_are_valid fixture_id p)
  require valid validation_error

unfoldable pub new_result : ℕ → ℕ → Fixture → ResultPayload → Organizer → MatchResult
new_result now fixture_id f p organizer = record {
  fixture_id = fixture_id;
  event_id = f.event_id;
  team_a_id = f.team_a_id;
  team_b_id = f.team_b_id;
  winning_team_id = p.winning_team_id;
  result_type = p.result_type;
  player_of_match_registration_id = p.player_of_match_registration_id;
  best_batter_registration_id = p.best_batter_registration_id;
  best_bowler_registration_id = p.best_bowler_registration_id;
  notes = p.notes;
  finalized_at = some now;
  finalized_by_organizer_id = some organizer.id;
}

abbrev pub is_result_of : ℕ → MatchResult → Bool
is_result_of fixture_id r = r.fixture_id == fixture_id

abbrev pub result_is_consistent : MatchResult → Bool
result_is_consistent r =
    winner_is_consistent r.result_type r.winning_team_id r.team_a_id r.team_b_id

-- The INSERT, under `uq_match_result_fixture` and `ck_result_winner_consistent`; the awards' foreign
-- keys have been checked just before.
unfoldable pub insert_result : MatchResult → Exec Db ℕ
insert_result r = do
  require (result_is_consistent r) integrity_error
  same ← gets (λ d. count_where (is_result_of r.fixture_id) d.results)
  require (same == 0) integrity_error
  id ← gets (λ d. d.results.next_id)
  modify (λ d. record d { results = insert d.results r })
  pure id

unfoldable pub create_match_result : (now fixture_id : ℕ) → ResultPayload → Organizer → Exec Db ℕ
create_match_result now fixture_id payload organizer = do
  rollback
  fixture? ← gets (λ d. get d.fixtures fixture_id)
  f ← or_raise fixture? runtime_error
  require (fixture_is f.status FixtureStatus.completed) (api_error 409 "FIXTURE_NOT_COMPLETED")
  validate_result_payload fixture_id f payload
  id ←
      except_integrity (api_error 409 "RESULT_ALREADY_EXISTS")
        (insert_result (new_result now fixture_id f payload organizer))
  audit (
      entry_of "RESULT_CREATED" "match_result" id
        (("fixture_id", num fixture_id)
          ∷ ("result_type", text (result_text payload.result_type))
          ∷ [])
        organizer [] [])
  commit
  pure id

unfoldable pub updated_result : ResultPayload → MatchResult → MatchResult
updated_result p r = record r {
  winning_team_id = p.winning_team_id;
  result_type = p.result_type;
  player_of_match_registration_id = p.player_of_match_registration_id;
  best_batter_registration_id = p.best_batter_registration_id;
  best_bowler_registration_id = p.best_bowler_registration_id;
  notes = p.notes;
}

unfoldable pub flush_result : ℕ → MatchResult → Exec Db (Unit {0})
flush_result id r = do
  require (result_is_consistent r) integrity_error
  modify (λ d. record d { results = update d.results id r })

abbrev num_or_null : Option ℕ → Json
num_or_null none = null
num_or_null (some n) = num n

abbrev result_json : MatchResult → List (String × Json)
result_json r =
    ("result_type", text (result_text r.result_type))
    ∷ ("winning_team_id", num_or_null r.winning_team_id)
    ∷ []

abbrev result_fields : List String
result_fields =
    "best_batter_registration_id" ∷ "best_bowler_registration_id" ∷ "notes"
    ∷ "player_of_match_registration_id" ∷ "result_type" ∷ "winning_team_id" ∷ []

unfoldable pub update_match_result :
    (result_id fixture_id : ℕ) → ResultPayload → Organizer → Exec Db MatchResult
update_match_result result_id fixture_id payload organizer = do
  rollback
  fixture? ← gets (λ d. get d.fixtures fixture_id)
  result? ← gets (λ d. get d.results result_id)
  f ← or_raise fixture? runtime_error
  validate_result_payload fixture_id f payload
  r ← or_raise result? runtime_error
  except_integrity validation_error (flush_result result_id (updated_result payload r))
  audit (
      entry_of "RESULT_UPDATED" "match_result" result_id (("fields", texts result_fields) ∷ [])
        organizer (result_json r) (result_json (updated_result payload r)))
  commit
  pure (updated_result payload r)
