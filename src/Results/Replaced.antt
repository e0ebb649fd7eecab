-- ===== src/Results/Replaced.antt =====
-- What setting the participants of a fixture leaves.
use stranger_club.Base.{
  ℕ, ◌≡◌, refl, Bool, true, false, not, ◌&&◌, ◌||◌, Option, none, some, List, [], ◌∷◌, ◌==◌,
  if◌then◌else◌, arith, Option-cases, inl, inr, subst, ◌≢◌, ap, ==→eq,
}
use stranger_club.Db.{Db}
use stranger_club.Db.Query.{Table, get, count, count_where}
use stranger_club.Db.Query.Laws.{count_where-insert}
use stranger_club.Db.Status.{FixtureStatus, fixture_is}
use stranger_club.Db.Rows.{Fixture, MatchParticipant, Organizer}
use stranger_club.Exec.{
  Error, Result, ok, err, Session, integrity_error, Exec, or_raise, require, modify, ◌>>=◌, ◌>>◌,
  except_integrity, run,
}
use stranger_club.Exec.Ends.{
  Ends, Ends-require, Ends-rollback, Ends-run, Ends-found, Ends-gets, Ends-saved,
}
use stranger_club.Lifecycle.Ends.{Ends-audit}
use stranger_club.Results.{took_part}
use stranger_club.Results.Participants.{
  ParticipantEntry, desired, entries_are_valid, takes_part, retained, remove_undesired,
  without_undesired, flush_removal, new_participant, add_entry, add_entries, flush_entries,
  set_match_participants, award_is_orphan,
}

count-retained :
    (fixture_id : ℕ) (entries : List ParticipantEntry) (r : ℕ) (rows : List (ℕ × MatchParticipant))
    → count (took_part fixture_id r) (retained fixture_id entries rows)
      ≡ (if desired entries r then count (took_part fixture_id r) rows else 0)
unfolding count retained
count-retained fixture_id entries r [] = ground arith
count-retained fixture_id entries r ((i, p) ∷ rows) =
    ground (arith, count-retained fixture_id entries r rows)

removed-takes_part :
    (fixture_id : ℕ) (entries : List ParticipantEntry) (t : Table MatchParticipant) (r : ℕ)
    → takes_part fixture_id (remove_undesired fixture_id entries t) r
      ≡ (takes_part fixture_id t r && desired entries r)
unfolding count_where remove_undesired
removed-takes_part fixture_id entries t r =
    ground (arith, count-retained fixture_id entries r t.rows)

module _ (fixture_id event_id : ℕ) (existing : ℕ → Bool) (r : ℕ) where
  same_existing : (q : ℕ) → (q == r) ≡ true → existing q ≡ existing r
  same_existing q h = ap existing (==→eq q r h)

  added-takes_part :
      (e : ParticipantEntry) (t u : Table MatchParticipant)
      → add_entry fixture_id event_id existing e t ≡ some u
      → takes_part fixture_id u r
        ≡ (takes_part fixture_id t r || (not (existing r) && e.registration_id == r))
  unfolding add_entry
  added-takes_part e t u h = ground (
    arith,
    count_where-insert (took_part fixture_id r) t (new_participant fixture_id event_id e),
    same_existing e.registration_id,
  )

  none-added :
      (es : List ParticipantEntry) (u : Table MatchParticipant)
      → add_entries fixture_id event_id existing es none ≢ some u
  unfolding add_entries
  none-added es u h = ground arith

  all_added-takes_part :
      (es : List ParticipantEntry) (t u : Table MatchParticipant)
      → add_entries fixture_id event_id existing es (some t) ≡ some u
      → takes_part fixture_id u r
        ≡ (takes_part fixture_id t r || (not (existing r) && desired es r))
  unfolding add_entries
  all_added-takes_part [] t u h = ground arith
  all_added-takes_part (e ∷ es) t u h =
      elim (Option-cases (add_entry fixture_id event_id existing e t)) [
        | inl n ↦ ground (
          arith,
          none-added es u (subst (λ o. add_entries fixture_id event_id existing es o ≡ some u) n h),
        )
        | inr (v, first) ↦ ground (
          arith,
          all_added-takes_part es v u
              (subst (λ o. add_entries fixture_id event_id existing es o ≡ some u) first h),
          added-takes_part e t v first,
        )
      ]

-- The participants of fixture `id` in `w` are those of the list, which passed every test in `d`.
pub record Replaced (d : Db) (id : ℕ) (entries : List ParticipantEntry) (w : Db) : Type 0 where
  pub fixture : Fixture
  pub in_fixtures : get d.fixtures id ≡ some fixture
  pub completed : fixture_is fixture.status FixtureStatus.completed ≡ true
  pub valid : entries_are_valid fixture entries d ≡ true
  pub awards_kept : count_where (award_is_orphan id (without_undesired id entries d)) d.results ≡ 0
  pub exactly : (r : ℕ) → takes_part id w.participants r ≡ desired entries r

abbrev pub IfReplaced : Db → ℕ → List ParticipantEntry → Result (Unit {0}) → Db → Type 0
IfReplaced d id entries (ok done) w = Replaced d id entries w
IfReplaced d id entries (err e) w = w ≡ d

exactly_desired :
    (id event_id : ℕ) (entries : List ParticipantEntry) (t u : Table MatchParticipant) (r : ℕ)
    → add_entries id event_id (takes_part id t) entries (some (remove_undesired id entries t))
      ≡ some u
    → takes_part id u r ≡ desired entries r
exactly_desired id event_id entries t u r h = ground (
  arith,
  all_added-takes_part id event_id (takes_part id t) r entries (remove_undesired id entries t) u h,
  removed-takes_part id entries t r,
)

module _ {ℓ} {A : Type ℓ} {Q : Result A → Db → Type 0} where
  found-Ends :
      {B : Type 0} (o : Option B) (e : Error) (f : B → Db → Db) (k : Unit {0} → Exec Db A)
      (s : Session Db)
      → Q (err e) s.committed
      → ((b : B) → o ≡ some b → Ends Q (k tt) (record s { working = f b s.working }))
      → Ends Q (except_integrity e (or_raise o integrity_error >>= λ b. modify (f b)) >>= k) s
  unfolding except_integrity ◌>>=◌
  found-Ends none e f k s failed rest = record { holds = failed }
  found-Ends (some b) e f k s failed rest = record { holds = (rest b refl).holds }

  required-Ends :
      (b : Bool) (e : Error) (f : Db → Db) (k : Unit {0} → Exec Db A) (s : Session Db)
      → Q (err e) s.committed
      → (b ≡ true → Ends Q (k tt) (record s { working = f s.working }))
      → Ends Q (except_integrity e (require b integrity_error >> modify f) >>= k) s
  unfolding except_integrity ◌>>=◌
  required-Ends true e f k s failed rest = record { holds = (rest refl).holds }
  required-Ends false e f k s failed rest = record { holds = failed }

  Ends-removal :
      (id : ℕ) (entries : List ParticipantEntry) (e : Error) (k : Unit {0} → Exec Db A)
      (s : Session Db)
      → Q (err e) s.committed
      → (count_where (award_is_orphan id (without_undesired id entries s.working)) s.working.results
            ≡ 0
          → Ends Q (k tt) (record s { working = without_undesired id entries s.working }))
      → Ends Q (except_integrity e (flush_removal id entries) >>= k) s
  unfolding flush_removal except_integrity ◌>>=◌
  Ends-removal id entries e k s failed rest = record {
    holds =
        (required-Ends
          (count_where (award_is_orphan id (without_undesired id entries s.working))
              s.working.results
            == 0)
          e (without_undesired id entries) k s failed λ free. rest (==→eq _ 0 free)).holds;
  }

  Ends-entries :
      (id event_id : ℕ) (existing : ℕ → Bool) (entries : List ParticipantEntry) (e : Error)
      (k : Unit {0} → Exec Db A) (s : Session Db)
      → Q (err e) s.committed
      → ((u : Table MatchParticipant)
          → add_entries id event_id existing entries (some s.working.participants) ≡ some u
          → Ends Q (k tt) (record s { working = record s.working { participants = u } }))
      → Ends Q (except_integrity e (flush_entries id event_id existing entries) >>= k) s
  unfolding flush_entries except_integrity ◌>>=◌
  Ends-entries id event_id existing entries e k s failed rest = record {
    holds =
        (found-Ends (add_entries id event_id existing entries (some s.working.participants)) e
          (λ u d. record d { participants = u }) k s failed rest).holds;
  }

set-Ends :
    (id : ℕ) (entries : List ParticipantEntry) (organizer : Organizer) (d : Db)
    → Ends
        (IfReplaced d id entries)
        (set_match_participants id entries organizer)
        (record { committed = d; working = d })
unfolding set_match_participants without_undesired
set-Ends id entries organizer d = Ends-rollback _ _ (
    Ends-gets _ _ _ (
      Ends-found _ _ _ _ refl λ f found. Ends-require _ _ _ _ refl λ completed. Ends-gets _ _ _ (
        Ends-require _ _ _ _ refl λ valid. Ends-gets _ _ _ (
          Ends-removal id entries _ _ _ refl λ kept.
            Ends-entries id f.event_id (takes_part id d.participants) entries _ _ _ refl λ u added.
              Ends-audit _ _ _ (
                Ends-saved _ (record {
                  fixture = f;
                  in_fixtures = found;
                  completed = completed;
                  valid = valid;
                  awards_kept = kept;
                  exactly = λ r. exactly_desired id f.event_id entries d.participants u r added;
                }))))))

-- Setting the participants of a fixture succeeds only for a COMPLETED fixture and a list whose
-- entries are distinct members of its teams, where no award goes to a player who is left out, and
-- those who take part in the fixture are then exactly the players of the list; where it fails,
-- nothing has changed.
pub set_match_participants-Replaced :
    (id : ℕ) (entries : List ParticipantEntry) (organizer : Organizer) (d : Db)
    → let (answer, w) = run (set_match_participants id entries organizer) d in
      IfReplaced d id entries answer w
set_match_participants-Replaced id entries organizer d =
    Ends-run _ d (set-Ends id entries organizer d)
