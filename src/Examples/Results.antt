-- ===== src/Examples/Results.antt =====
-- What the theorems on results say of one game.
use stranger_club.Base.{◌≡◌, refl, none, some, [], List, ◌∷◌}
use stranger_club.Db.{Db, audit}
use stranger_club.Db.Query.{get, insert, lookup, count_where}
use stranger_club.Db.Query.Laws.{IsTable}
use stranger_club.Db.Rows.{Fixture, MatchParticipant, MatchResult, TeamMember}
use stranger_club.Db.Status.{RegistrationStatus, FixtureStatus, ResultType}
use stranger_club.Exec.{run, ok, ◌>>=◌, except_integrity}
use stranger_club.Results.{
  ResultPayload, create_match_result, validate_result_payload, insert_result, new_result,
}
use stranger_club.Results.Recorded.{IfRecorded, create_match_result-Recorded}
use stranger_club.Results.Participants.{
  ParticipantEntry, set_match_participants, entry_is_valid, entries_are_valid, remove_undesired,
  retained, without_undesired, flush_removal, add_entry, add_entries, flush_entries,
}
use stranger_club.Results.Replaced.{IfReplaced, set_match_participants-Replaced}
use stranger_club.Club.{empty}
use stranger_club.Examples.{host, registration}

abbrev played : Fixture
played = record {
  event_id = 1;
  team_a_id = 1;
  team_b_id = 2;
  sequence = some 1;
  scheduled_at = 50;
  venue_override = none;
  status = FixtureStatus.completed;
}

abbrev batter : MatchParticipant
batter = record { fixture_id = 1; registration_id = 4; team_id = 1; event_id = 1 }

abbrev d : Db
d = record empty {
  fixtures = record { rows = (1, played) ∷ []; next_id = 2 };
  participants = record { rows = (1, batter) ∷ []; next_id = 2 };
}

abbrev win : ResultPayload
win = record {
  result_type = ResultType.team_a_win;
  winning_team_id = some 1;
  player_of_match_registration_id = some 4;
  best_batter_registration_id = some 4;
  best_bowler_registration_id = none;
  notes = none;
}

no_results-IsTable : IsTable d.results
unfolding lookup get
no_results-IsTable = record { keyed = tt; below = λ i le. refl }

create_match_result-Recorded_example :
    let (answer, w) = run (create_match_result 60 1 win host) d in
    IfRecorded d 60 1 win host answer w
create_match_result-Recorded_example =
    create_match_result-Recorded 60 1 win host d no_results-IsTable

recorded_test : (run (create_match_result 60 1 win host) d).0 ≡ ok 1
unfolding create_match_result validate_result_payload insert_result new_result audit ◌>>=◌
    except_integrity run get insert count_where
recorded_test = refl

abbrev rained_off : MatchResult
rained_off = record {
  fixture_id = 1;
  event_id = 1;
  team_a_id = 1;
  team_b_id = 2;
  winning_team_id = none;
  result_type = ResultType.no_result;
  player_of_match_registration_id = none;
  best_batter_registration_id = none;
  best_bowler_registration_id = none;
  notes = none;
  finalized_at = some 55;
  finalized_by_organizer_id = some 1;
}

abbrev finalized : Db
finalized = record d { results = record { rows = (1, rained_off) ∷ []; next_id = 2 } }

abbrev line_up : List ParticipantEntry
line_up = record { registration_id = 4; team_id = 1 } ∷ []

abbrev player : TeamMember
player = record {
  team_id = 1;
  registration_id = 4;
  event_id = 1;
  assigned_by_organizer_id = some 1;
  created_at = 5;
}

-- The game with a member of the first team, and a participant who is not in the list.
abbrev lined_up : Db
lined_up = record empty {
  registrations = record {
    rows = (4, registration RegistrationStatus.confirmed) ∷ [];
    next_id = 5;
  };
  members = record { rows = (1, player) ∷ []; next_id = 2 };
  fixtures = record { rows = (1, played) ∷ []; next_id = 2 };
  participants = record { rows = (1, record batter { registration_id = 7 }) ∷ []; next_id = 2 };
}

set_match_participants-Replaced_example :
    let (answer, w) = run (set_match_participants 1 line_up host) lined_up in
    IfReplaced lined_up 1 line_up answer w
set_match_participants-Replaced_example = set_match_participants-Replaced 1 line_up host lined_up

replaced_test : (run (set_match_participants 1 line_up host) lined_up).0 ≡ ok tt
unfolding set_match_participants entry_is_valid entries_are_valid remove_undesired retained
    without_undesired flush_removal add_entry add_entries flush_entries audit ◌>>=◌ except_integrity
    run get insert count_where
replaced_test = refl
