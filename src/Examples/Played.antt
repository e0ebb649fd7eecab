-- ===== src/Examples/Played.antt =====
-- What the theorems on teams, fixtures, access, limits and fanout say at concrete inputs.
use stranger_club.Base.{◌==◌, ℕ, ◌≡◌, refl, String, none, some, [], ◌∷◌, arith}
use stranger_club.Db.{Db, audit}
use stranger_club.Db.Query.{Table, get, insert, lookup, count_where}
use stranger_club.Db.Query.Laws.{IsTable}
use stranger_club.Db.Rows.{Team, TeamMember, Fixture}
use stranger_club.Db.Status.{Role, RegistrationStatus, FixtureStatus}
use stranger_club.Exec.{api_error, run, ok, err, ◌>>=◌, except_integrity}
use stranger_club.Teams.{assert_roster_unlocked}
use stranger_club.Teams.Members.{assign_team_member, insert_member, move_team_member}
use stranger_club.Teams.Roster.{KeepsLocked, move_team_member-KeepsLocked}
use stranger_club.Teams.Assignment.{IfAssigned, assign_team_member-Assigned}
use stranger_club.Fixtures.{FixtureUpdate, update_fixture}
use stranger_club.Fixtures.Frozen.{IfUpdated, update_fixture-Updated}
use stranger_club.RateLimit.{Buckets}
use stranger_club.RateLimit.Window.{accepted_count, accepted_count_lem}
use stranger_club.Access.{
  require_fixture_access, require_team_member_access, require_team_access, granted,
  organizer_owns_event, require_event_access, require_registration_access, require_payment_access,
  require_proof_access, LoginSession, auth_context,
}
use stranger_club.Access.Ownership.{access-IfGranted}
use stranger_club.Access.Granted.{
  IfGranted, EventOfRegistration, EventOfPayment, EventOfProof, EventOfTeam, EventOfMember,
  EventOfFixture,
}
use stranger_club.Access.Sessions.{IfAuthenticated, auth_context-IfAuthenticated}
use stranger_club.Realtime.{new_broadcaster}
use stranger_club.Realtime.Limits.{
  subscribes, unsubscribes, publishes, act_all, WithinLimits, act_all-WithinLimits,
}
use stranger_club.Club.{serve_all, empty}
use stranger_club.Examples.{Organizer, host, opening, registration, proof, served}

abbrev team : String → Team
team name = record { event_id = 1; name = name; short_code = none; max_size = some 11 }

abbrev membership : ℕ → TeamMember
membership team_id = record {
  team_id = team_id;
  registration_id = 1;
  event_id = 1;
  assigned_by_organizer_id = some 1;
  created_at = 5;
}

abbrev game : FixtureStatus → Fixture
game status = record {
  event_id = 1;
  team_a_id = 1;
  team_b_id = 2;
  sequence = some 1;
  scheduled_at = 50;
  venue_override = none;
  status = status;
}

-- A confirmed player in a club with three teams, of which the first two have played.
abbrev d : Db
d = record empty {
  registrations = record {
    rows = (1, registration RegistrationStatus.confirmed) ∷ [];
    next_id = 2;
  };
  teams = record { rows = (1, team "A") ∷ (2, team "B") ∷ (3, team "C") ∷ []; next_id = 4 };
  fixtures = record {
    rows = (1, game FixtureStatus.completed) ∷ (2, game FixtureStatus.scheduled) ∷ [];
    next_id = 3;
  };
}

abbrev assigned : Db
assigned = record d { members = record { rows = (1, membership 3) ∷ []; next_id = 2 } }

no_members-IsTable : IsTable d.members
unfolding lookup get
no_members-IsTable = record { keyed = tt; below = λ i le. refl }

members-IsTable : IsTable assigned.members
unfolding lookup get
members-IsTable = record { keyed = (refl, tt); below = λ i le. ground arith }

assign_team_member-Assigned_example :
    let (answer, w) =
      run
        (assign_team_member 5 3 (team "C") 1 (registration RegistrationStatus.confirmed) host)
        d in
    IfAssigned d 3 1 answer w
assign_team_member-Assigned_example =
    assign_team_member-Assigned 5 3 (team "C") 1 (registration RegistrationStatus.confirmed) host d
      no_members-IsTable

assigned_test :
    (run (assign_team_member 5 3 (team "C") 1 (registration RegistrationStatus.confirmed) host) d).0
    ≡ ok 1
unfolding assign_team_member insert_member assert_roster_unlocked audit ◌>>=◌ except_integrity run
    get insert count_where
assigned_test = refl

move_team_member-KeepsLocked_example :
    KeepsLocked assigned (run (move_team_member 1 (membership 3) 1 (team "A") host) assigned).1
unfolding get
move_team_member-KeepsLocked_example =
    move_team_member-KeepsLocked 1 (membership 3) 1 (team "A") host assigned refl

abbrev rename : FixtureUpdate
rename = record {
  team_a_id = none;
  team_b_id = none;
  scheduled_at = some 60;
  sequence = none;
  venue_override = none;
  status = none;
}

update_fixture-Updated_example :
    let (answer, w) = run (update_fixture 2 (game FixtureStatus.scheduled) rename host) d in
    IfUpdated d 2 (game FixtureStatus.scheduled) answer w
unfolding get
update_fixture-Updated_example =
    update_fixture-Updated 2 (game FixtureStatus.scheduled) rename host d refl

abbrev no_buckets : Buckets
no_buckets = λ key. none

accepted_count_lem_example : accepted_count "otp" 2 60 (10 ∷ 20 ∷ 30 ∷ 40 ∷ []) no_buckets ≡ 2
accepted_count_lem_example =
    accepted_count_lem "otp" 2 60 10 (20 ∷ 30 ∷ 40 ∷ []) no_buckets refl
      (omega arith, (omega arith, (omega arith, tt)))

-- The organizer of the small club asks for its event, registration, payment and proof, and for a team,
-- a member and a fixture that it does not have.
access-IfGranted_example :
    let c = serve_all opening empty in
    IfGranted host
      (get c.matches 1)
      (λ a match. a ≡ match)
      (api_error 404 "EVENT_NOT_FOUND")
      (require_event_access 1 host c)
    × IfGranted host
        (get c.registrations 1)
        (EventOfRegistration c)
        (api_error 404 "RESOURCE_NOT_FOUND")
        (require_registration_access 1 host c)
    × IfGranted host
        (get c.payments 1)
        (EventOfPayment c)
        (api_error 404 "RESOURCE_NOT_FOUND")
        (require_payment_access 1 host c)
    × IfGranted host
        (get c.proofs 1)
        (EventOfProof c)
        (api_error 404 "RESOURCE_NOT_FOUND")
        (require_proof_access 1 host c)
    × IfGranted host
        (get c.teams 1)
        (EventOfTeam c)
        (api_error 404 "RESOURCE_NOT_FOUND")
        (require_team_access 1 host c)
    × IfGranted host
        (get c.members 1)
        (EventOfMember c)
        (api_error 404 "RESOURCE_NOT_FOUND")
        (require_team_member_access 1 host c)
    × IfGranted host
        (get c.fixtures 1)
        (EventOfFixture c)
        (api_error 404 "RESOURCE_NOT_FOUND")
        (require_fixture_access 1 host c)
access-IfGranted_example = access-IfGranted host (serve_all opening empty) 1 1 1 1 1 1 1

granted_test :
    let c = serve_all opening empty in
    let other : Organizer = record { id = 2; role = Role.organizer } in
    (require_proof_access 1 host c ≡ ok (proof "a.png" 3))
    × (require_proof_access 1 other c ≡ err (api_error 404 "RESOURCE_NOT_FOUND"))
unfolding served require_proof_access granted organizer_owns_event
granted_test = (refl, refl)

abbrev login : LoginSession
login = record {
  token_hash = "h";
  account = 1;
  csrf_token = "c";
  expires_at = 100;
  last_seen_at = 0;
}

abbrev sessions : Table LoginSession
sessions = record { rows = (1, login) ∷ []; next_id = 2 }

sessions-IsTable : IsTable sessions
unfolding lookup get
sessions-IsTable = record { keyed = (refl, tt); below = λ i le. ground arith }

auth_context-IfAuthenticated_example :
    let (answer, after) = auth_context 5 (λ id. id == 1) (some "h") sessions in
    IfAuthenticated 5 (λ id. id == 1) "h" sessions answer after
auth_context-IfAuthenticated_example =
    auth_context-IfAuthenticated 5 (λ id. id == 1) "h" sessions sessions-IsTable

act_all-WithinLimits_example : WithinLimits (
    act_all
      (subscribes "event-1" ∷ publishes "event-1" 1 ∷ unsubscribes "event-1" 0 ∷ [])
      new_broadcaster)
act_all-WithinLimits_example =
    act_all-WithinLimits
      (subscribes "event-1" ∷ publishes "event-1" 1 ∷ unsubscribes "event-1" 0 ∷ [])
