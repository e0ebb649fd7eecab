-- ===== src/Results/Recorded.antt =====
-- What recording a fixture's result finds and leaves.
use stranger_club.Base.{ℕ, ◌≡◌, refl, Bool, true, false, some, ◌==◌, arith, ==→eq}
use stranger_club.Db.{Db}
use stranger_club.Db.Query.{get, insert, count_where}
use stranger_club.Db.Query.Laws.{IsTable, get-insert, count_where-insert}
use stranger_club.Db.Status.{FixtureStatus, fixture_is}
use stranger_club.Db.Rows.{Fixture, MatchResult, Organizer}
use stranger_club.Exec.{
  Error, Result, ok, err, Session, Exec, pure, integrity_error, gets, require, modify, run, ◌>>=◌,
  ◌>>◌, except_integrity,
}
use stranger_club.Exec.Ends.{
  Ends, Ends-pure, Ends-require, Ends-commit, Ends-rollback, Ends-run, Ends-found, Ends-gets,
  Ends-assoc,
}
use stranger_club.Events.Manage.{validation_error}
use stranger_club.Lifecycle.Ends.{Ends-audit}
use stranger_club.Results.{
  ResultPayload, winner_is_consistent, awards_are_valid, validate_result_payload, new_result,
  is_result_of, result_is_consistent, insert_result, create_match_result,
}

pub record Recorded (d : Db) (now fixture_id : ℕ) (p : ResultPayload) (organizer : Organizer)
    (id : ℕ) (w : Db) : Type 0 where
  pub fixture : Fixture
  pub in_fixtures : get d.fixtures fixture_id ≡ some fixture
  pub completed : fixture.status ≡ FixtureStatus.completed
  pub winner :
      winner_is_consistent p.result_type p.winning_team_id fixture.team_a_id fixture.team_b_id
      ≡ true
  pub awards : awards_are_valid fixture_id p d ≡ true
  pub first : count_where (is_result_of fixture_id) d.results ≡ 0
  pub only : count_where (is_result_of fixture_id) w.results ≡ 1
  pub stored : get w.results id ≡ some (new_result now fixture_id fixture p organizer)

abbrev pub IfRecorded : Db → ℕ → ℕ → ResultPayload → Organizer → Result ℕ → Db → Type 0
IfRecorded d now fixture_id p organizer (ok id) w = Recorded d now fixture_id p organizer id w
IfRecorded d now fixture_id p organizer (err e) w = w ≡ d

is_completed :
    (s : FixtureStatus) → fixture_is s FixtureStatus.completed ≡ true → s ≡ FixtureStatus.completed
is_completed s h = ground arith

same_fixture : (n : ℕ) → (n == n) ≡ true
same_fixture n = ground arith

recorded :
    (d w : Db) (now fixture_id : ℕ) (p : ResultPayload) (organizer : Organizer) (f : Fixture)
    → IsTable d.results
    → get d.fixtures fixture_id ≡ some f
    → fixture_is f.status FixtureStatus.completed ≡ true
    → awards_are_valid fixture_id p d ≡ true
    → result_is_consistent (new_result now fixture_id f p organizer) ≡ true
    → count_where (is_result_of fixture_id) d.results ≡ 0
    → w.results ≡ insert d.results (new_result now fixture_id f p organizer)
    → Recorded d now fixture_id p organizer d.results.next_id w
unfolding new_result
recorded d w now fixture_id p organizer f t found done awards consistent first e = record {
  fixture = f;
  in_fixtures = found;
  completed = is_completed f.status done;
  winner = consistent;
  awards = awards;
  first = first;
  only = rw e (
      ground (
        arith,
        count_where-insert (is_result_of fixture_id) d.results
            (new_result now fixture_id f p organizer),
        same_fixture fixture_id,
      ));
  stored = rw e (
      ground (
        arith,
        get-insert d.results d.results.next_id (new_result now fixture_id f p organizer) t,
      ));
}

module _ {ℓ} {A : Type ℓ} {Q : Result A → Db → Type 0} where
  pub Ends-validated :
      (fixture_id : ℕ) (f : Fixture) (p : ResultPayload) (k : Unit {0} → Exec Db A) (s : Session Db)
      → Q (err validation_error) s.committed
      → (awards_are_valid fixture_id p s.working ≡ true → Ends Q (k tt) s)
      → Ends Q (validate_result_payload fixture_id f p >>= k) s
  unfolding validate_result_payload
  Ends-validated fixture_id f p k s failed rest = Ends-assoc _ _ k s (
      Ends-require _ _ _ s failed
        λ valid. Ends-assoc _ _ k s (Ends-gets _ _ s (Ends-require _ _ k s failed rest)))

  -- The new row's id, where a test of the rows in the way passes.
  last-Ends :
      (b : Bool) (e : Error) (n : Db → ℕ) (f : Db → Db) (k : ℕ → Exec Db A) (s : Session Db)
      → Q (err e) s.committed
      → (b ≡ true → Ends Q (k (n s.working)) (record s { working = f s.working }))
      → Ends Q
          (except_integrity e (require b integrity_error >> (gets n >>= λ i. modify f >> pure i))
            >>= k)
          s
  unfolding except_integrity ◌>>=◌
  last-Ends false e n f k s failed rest = record { holds = failed }
  last-Ends true e n f k s failed rest = record { holds = (rest refl).holds }

  both-Ends :
      (b : Bool) (c n : Db → ℕ) (e : Error) (f : Db → Db) (k : ℕ → Exec Db A) (s : Session Db)
      → Q (err e) s.committed
      → (b ≡ true
          → (c s.working == 0) ≡ true
          → Ends Q (k (n s.working)) (record s { working = f s.working }))
      → Ends Q
          (except_integrity e (
              require b integrity_error
              >> (gets c >>= λ same.
                  require (same == 0) integrity_error >> (gets n >>= λ i. modify f >> pure i)))
            >>= k)
          s
  unfolding except_integrity ◌>>=◌
  both-Ends false c n e f k s failed rest = record { holds = failed }
  both-Ends true c n e f k s failed rest = record {
    holds = (last-Ends (c s.working == 0) e n f k s failed (rest refl)).holds;
  }

  -- The INSERT of a result, under the `except` that answers a conflict.
  Ends-insert_result :
      (r : MatchResult) (e : Error) (k : ℕ → Exec Db A) (s : Session Db)
      → Q (err e) s.committed
      → (result_is_consistent r ≡ true
          → count_where (is_result_of r.fixture_id) s.working.results ≡ 0
          → Ends Q
              (k s.working.results.next_id)
              (record s { working = record s.working { results = insert s.working.results r } }))
      → Ends Q (except_integrity e (insert_result r) >>= k) s
  unfolding insert_result
  Ends-insert_result r e k s failed rest =
      both-Ends (result_is_consistent r) _ _ e _ k s failed
        λ consistent free. rest consistent (==→eq _ 0 free)

create-Ends :
    (now fixture_id : ℕ) (payload : ResultPayload) (organizer : Organizer) (d : Db)
    → IsTable d.results
    → Ends
        (IfRecorded d now fixture_id payload organizer)
        (create_match_result now fixture_id payload organizer)
        (record { committed = d; working = d })
unfolding create_match_result new_result
create-Ends now fixture_id payload organizer d t = Ends-rollback _ _ (
    Ends-gets _ _ _ (
      Ends-found _ _ _ _ refl λ f found. Ends-require _ _ _ _ refl λ done.
        Ends-validated _ f _ _ _ refl λ awards.
          Ends-insert_result (new_result now fixture_id f payload organizer) _ _ _ refl
            λ consistent free. Ends-audit _ _ _ (
              Ends-commit _ _ (
                Ends-pure _ _ (
                  recorded d _ now fixture_id payload organizer f t found done awards consistent
                    free refl)))))

-- Where the keys of the results are distinct, recording a result succeeds only for a COMPLETED
-- fixture that has none yet, with a winner that agrees with the result's type and awards that are
-- open or go to the fixture's participants, and the fixture then has exactly that one result; where
-- it fails, nothing has changed.
pub create_match_result-Recorded :
    (now fixture_id : ℕ) (payload : ResultPayload) (organizer : Organizer) (d : Db)
    → IsTable d.results
    → let (answer, w) = run (create_match_result now fixture_id payload organizer) d in
      IfRecorded d now fixture_id payload organizer answer w
create_match_result-Recorded now fixture_id payload organizer d t =
    Ends-run _ d (create-Ends now fixture_id payload organizer d t)
