-- ===== src/Results/Corrected.antt =====
-- What a correction of a stored result leaves.
use stranger_club.Base.{ℕ, ◌≡◌, ◌≢◌, refl, Bool, true, false, some, arith}
use stranger_club.Db.{Db}
use stranger_club.Db.Query.{get, update}
use stranger_club.Db.Query.Laws.{get-update, get-update_self}
use stranger_club.Db.Rows.{MatchResult, Organizer}
use stranger_club.Exec.{
  Error, Result, ok, err, Session, Exec, integrity_error, require, modify, run, ◌>>=◌, ◌>>◌,
  except_integrity,
}
use stranger_club.Exec.Ends.{
  Ends, Ends-pure, Ends-commit, Ends-rollback, Ends-run, Ends-found, Ends-gets,
}
use stranger_club.Exec.Passes.{Passes-found}
use stranger_club.Lifecycle.Ends.{Ends-audit}
use stranger_club.Results.{
  ResultPayload, awards_are_valid, updated_result, result_is_consistent, flush_result,
  update_match_result,
}
use stranger_club.Results.Recorded.{Ends-validated}

pub record Corrected (d : Db) (id fixture_id : ℕ) (p : ResultPayload) (old row : MatchResult)
    (w : Db) : Type 0 where
  pub stored : get w.results id ≡ some row
  pub others : (j : ℕ) → j ≢ id → get w.results j ≡ get d.results j
  pub fixture : row.fixture_id ≡ old.fixture_id
  pub team_a : row.team_a_id ≡ old.team_a_id
  pub team_b : row.team_b_id ≡ old.team_b_id
  pub finalized : row.finalized_at ≡ old.finalized_at
  pub finalized_by : row.finalized_by_organizer_id ≡ old.finalized_by_organizer_id
  pub winner : result_is_consistent row ≡ true
  pub awards : awards_are_valid fixture_id p d ≡ true
  pub player_of_match : row.player_of_match_registration_id ≡ p.player_of_match_registration_id
  pub best_batter : row.best_batter_registration_id ≡ p.best_batter_registration_id
  pub best_bowler : row.best_bowler_registration_id ≡ p.best_bowler_registration_id

abbrev pub IfCorrected : Db → ℕ → ℕ → ResultPayload → MatchResult → Result MatchResult → Db → Type 0
IfCorrected d id fixture_id p old (ok row) w = Corrected d id fixture_id p old row w
IfCorrected d id fixture_id p old (err e) w = w ≡ d

corrected :
    (d w : Db) (id fixture_id : ℕ) (p : ResultPayload) (old : MatchResult)
    → get d.results id ≡ some old
    → result_is_consistent (updated_result p old) ≡ true
    → awards_are_valid fixture_id p d ≡ true
    → w.results ≡ update d.results id (updated_result p old)
    → Corrected d id fixture_id p old (updated_result p old) w
unfolding updated_result
corrected d w id fixture_id p old held consistent awards e = record {
  stored = rw e (get-update_self d.results id (updated_result p old) old held);
  others =
      λ j other. rw e (ground (arith, get-update d.results id j (updated_result p old) old held));
  fixture = refl;
  team_a = refl;
  team_b = refl;
  finalized = refl;
  finalized_by = refl;
  winner = consistent;
  awards = awards;
  player_of_match = refl;
  best_batter = refl;
  best_bowler = refl;
}

module _ {ℓ} {A : Type ℓ} {Q : Result A → Db → Type 0} where
  guarded-Ends :
      (b : Bool) (e : Error) (f : Db → Db) (k : Unit {0} → Exec Db A) (s : Session Db)
      → Q (err e) s.committed
      → (b ≡ true → Ends Q (k tt) (record s { working = f s.working }))
      → Ends Q (except_integrity e (require b integrity_error >> modify f) >>= k) s
  unfolding except_integrity ◌>>=◌
  guarded-Ends true e f k s failed rest = record { holds = (rest refl).holds }
  guarded-Ends false e f k s failed rest = record { holds = failed }

correct-Ends :
    (id fixture_id : ℕ) (payload : ResultPayload) (organizer : Organizer) (old : MatchResult)
    (d : Db)
    → get d.results id ≡ some old
    → Ends
        (IfCorrected d id fixture_id payload old)
        (update_match_result id fixture_id payload organizer)
        (record { committed = d; working = d })
unfolding update_match_result flush_result
correct-Ends id fixture_id payload organizer old d held = Ends-rollback _ _ (
    Ends-gets _ _ _ (
      Ends-gets _ _ _ (
        Ends-found _ _ _ _ refl λ f found. Ends-validated _ f _ _ _ refl λ awards.
          Passes-found _ old _ _ _ held (
            guarded-Ends _ _ _ _ _ refl λ consistent. Ends-audit _ _ _ (
              Ends-commit _ _ (
                Ends-pure _ _
                  (corrected d _ id fixture_id payload old held consistent awards refl)))))))

-- A correction of a stored result with a payload for a fixture, where it succeeds, keeps the
-- result's fixture, teams and who finalized it and when, leaves a winner that agrees with the
-- result's type and the awards of the payload, which are open or go to that fixture's participants,
-- and touches no other result; where it fails, nothing has changed.
pub update_match_result-Corrected :
    (id fixture_id : ℕ) (payload : ResultPayload) (organizer : Organizer) (old : MatchResult)
    (d : Db)
    → get d.results id ≡ some old
    → let (answer, w) = run (update_match_result id fixture_id payload organizer) d in
      IfCorrected d id fixture_id payload old answer w
update_match_result-Corrected id fixture_id payload organizer old d held =
    Ends-run _ d (correct-Ends id fixture_id payload organizer old d held)
