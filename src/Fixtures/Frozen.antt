-- ===== src/Fixtures/Frozen.antt =====
-- `update_fixture` before and after a game has begun.
use stranger_club.Base.{
  ℕ, ◌≡◌, ◌≢◌, refl, Bool, true, false, not, ◌||◌, ◌==◌, Option, none, some, or_default, arith,
}
use stranger_club.Db.{Db}
use stranger_club.Db.Query.{get, update}
use stranger_club.Db.Query.Laws.{get-update, get-update_self}
use stranger_club.Db.Status.{FixtureStatus, fixture_is}
use stranger_club.Db.Rows.{Team, Fixture, Organizer}
use stranger_club.Exec.{
  Error, Result, ok, err, Session, Exec, integrity_error, except_integrity, require, gets, modify,
  run, ◌>>=◌, ◌>>◌,
}
use stranger_club.Exec.Ends.{
  Ends, Ends-pure, Ends-require, Ends-commit, Ends-rollback, Ends-run, Ends-found, Ends-gets,
  Ends-pure-bind, Ends-assoc,
}
use stranger_club.Exec.Passes.{Passes-found}
use stranger_club.Events.Manage.{validation_error}
use stranger_club.Lifecycle.Ends.{Ends-audit}
use stranger_club.Fixtures.{
  load_team_in_event, FixtureUpdate, has_changes, reload, current_fixture, assert_teams,
  move_allowed, flush_fixture, updated_fixture, update_fixture, begins_play,
}

-- What an update of fixture `id` leaves in `w`.
pub record Updated (d : Db) (id : ℕ) (old row : Fixture) (w : Db) : Type 0 where
  pub stored : get w.fixtures id ≡ some row
  pub others : (j : ℕ) → j ≢ id → get w.fixtures j ≡ get d.fixtures j
  pub move : move_allowed old.status (some row.status) ≡ true
  pub frozen :
      fixture_is old.status FixtureStatus.scheduled ≡ false
      → row ≡ record old { status = row.status }

abbrev pub IfUpdated : Db → ℕ → Fixture → Result Fixture → Db → Type 0
IfUpdated d id old (ok row) w = Updated d id old row w
IfUpdated d id old (err e) w = w ≡ d

unchanged_fields :
    (p : FixtureUpdate) (f : Fixture)
    → has_changes p ≡ false
    → updated_fixture p f ≡ record f { status = or_default p.status f.status }
unfolding updated_fixture
unchanged_fields p f h = ground arith

still_allowed :
    (from : FixtureStatus) (to : Option FixtureStatus)
    → move_allowed from to ≡ true
    → move_allowed from (some (or_default to from)) ≡ true
still_allowed from none h = ground arith
still_allowed from (some to) h = h

updated :
    (d w : Db) (id : ℕ) (old : Fixture) (p : FixtureUpdate)
    → get d.fixtures id ≡ some old
    → (not (has_changes p) || fixture_is old.status FixtureStatus.scheduled) ≡ true
    → move_allowed old.status p.status ≡ true
    → w.fixtures ≡ update d.fixtures id (updated_fixture p old)
    → Updated d id old (updated_fixture p old) w
unfolding updated_fixture
updated d w id old p held editable allowed e = record {
  stored = rw e (get-update_self d.fixtures id (updated_fixture p old) old held);
  others =
      λ j other. rw e (ground (arith, get-update d.fixtures id j (updated_fixture p old) old held));
  move = still_allowed old.status p.status allowed;
  frozen = λ begun. unchanged_fields p old (ground arith);
}

module _ {ℓ} {A : Type ℓ} {Q : Result A → Db → Type 0} where
  -- The row that was loaded is the stored one, so reading it again changes nothing.
  Ends-reload :
      (b : Bool) (id : ℕ) (f : Fixture) (k : Fixture → Exec Db A) (d : Db)
      → get d.fixtures id ≡ some f
      → Ends Q (k f) (record { committed = d; working = d })
      → Ends Q (reload b id f >>= k) (record { committed = d; working = d })
  unfolding reload
  Ends-reload false id f k d held rest = Ends-pure-bind f k _ rest
  Ends-reload true id f k d held rest =
      Ends-assoc _ _ k _ (
        Ends-rollback _ _ (Ends-assoc _ _ k _ (Ends-gets _ _ _ (Passes-found _ f _ k _ held rest))))

  Ends-load_team :
      (t m : ℕ) (k : Team → Exec Db A) (s : Session Db)
      → Q (err validation_error) s.committed
      → ((team : Team) → Ends Q (k team) s)
      → Ends Q (load_team_in_event t m >>= k) s
  unfolding load_team_in_event
  Ends-load_team t m k s failed rest = Ends-assoc _ _ _ s (
      Ends-gets _ _ s (
        Ends-assoc _ _ _ s (
          Ends-found _ _ _ s failed λ team found.
            Ends-assoc _ _ _ s
              (Ends-require _ _ _ s failed λ same. Ends-pure-bind _ _ s (rest team)))))

  Ends-assert_teams :
      (b : Bool) (p : FixtureUpdate) (f : Fixture) (k : Unit {0} → Exec Db A) (s : Session Db)
      → Q (err validation_error) s.committed
      → Ends Q (k tt) s
      → Ends Q (assert_teams b p f >>= k) s
  unfolding assert_teams
  Ends-assert_teams false p f k s failed rest = Ends-pure-bind tt k s rest
  Ends-assert_teams true p f k s failed rest = Ends-assoc _ _ k s (
      Ends-require _ _ _ s failed λ differ. Ends-assoc _ _ k s (
        Ends-load_team _ _ _ s failed
          λ a. Ends-assoc _ _ k s (Ends-load_team _ _ _ s failed λ b. Ends-pure-bind tt k s rest)))

  guarded-Ends :
      (b : Bool) (e : Error) (f : Db → Db) (k : Unit {0} → Exec Db A) (s : Session Db)
      → Q (err e) s.committed
      → Ends Q (k tt) (record s { working = f s.working })
      → Ends Q (except_integrity e (require b integrity_error >> modify f) >>= k) s
  unfolding except_integrity ◌>>=◌
  guarded-Ends true e f k s failed rest = record { holds = rest.holds }
  guarded-Ends false e f k s failed rest = record { holds = failed }

  twice_guarded-Ends :
      (b : Bool) (n : Db → ℕ) (e : Error) (f : Db → Db) (k : Unit {0} → Exec Db A) (s : Session Db)
      → Q (err e) s.committed
      → Ends Q (k tt) (record s { working = f s.working })
      → Ends Q
          (except_integrity e (
              require b integrity_error
              >> (gets n >>= λ i. require (i == 0) integrity_error >> modify f))
            >>= k)
          s
  unfolding except_integrity ◌>>=◌
  twice_guarded-Ends true n e f k s failed rest = record {
    holds = (guarded-Ends (n s.working == 0) e f k s failed rest).holds;
  }
  twice_guarded-Ends false n e f k s failed rest = record { holds = failed }

update-Ends :
    (id : ℕ) (old : Fixture) (payload : FixtureUpdate) (organizer : Organizer) (d : Db)
    → get d.fixtures id ≡ some old
    → Ends
        (IfUpdated d id old)
        (update_fixture id old payload organizer)
        (record { committed = d; working = d })
unfolding update_fixture current_fixture flush_fixture
update-Ends id old payload organizer d held =
    Ends-reload (begins_play old.status payload.status) id old _ d held (
      Ends-require _ _ _ _ refl λ editable. Ends-assert_teams _ _ _ _ _ refl (
        Ends-require _ _ _ _ refl λ allowed. twice_guarded-Ends _ _ _ _ _ _ refl (
          Ends-audit _ _ _ (
            Ends-commit _ _
              (Ends-pure _ _ (updated d _ id old payload held editable allowed refl))))))

-- An update of a fixture whose row is the stored one, where it succeeds, moves its status only
-- along VALID_FIXTURE_TRANSITIONS, changes nothing but the status once the game is not SCHEDULED,
-- and touches no other fixture; where it fails, it changes nothing.
pub update_fixture-Updated :
    (id : ℕ) (old : Fixture) (payload : FixtureUpdate) (organizer : Organizer) (d : Db)
    → get d.fixtures id ≡ some old
    → let (answer, w) = run (update_fixture id old payload organizer) d in
      IfUpdated d id old answer w
update_fixture-Updated id old payload organizer d held =
    Ends-run _ d (update-Ends id old payload organizer d held)
