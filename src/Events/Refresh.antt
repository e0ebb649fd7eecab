-- ===== src/Events/Refresh.antt =====
-- `_refresh_full_status`: the automatic move of an event between OPEN and FULL.
use stranger_club.Base.{
  ℕ, refl, ◌≡◌, inl, inr, true, [], ◌∷◌, none, leb, if◌then◌else◌, arith, Bool-cases,
}
use stranger_club.Db.{Db, audit, confirmed_count}
use stranger_club.Db.Query.{update}
use stranger_club.Db.Status.{EventStatus, ActorType, event_is, event_in, event_text}
use stranger_club.Db.Rows.{Match, AuditLog, num, text}
use stranger_club.Exec.{Result, Session, Exec, pure, gets, modify, ◌>>=◌, ◌>>◌}
use stranger_club.Exec.Ends.{Ends, Ends-modify, Ends-gets, Ends-pure-bind, Ends-assoc}
use stranger_club.Lifecycle.Ends.{log, Ends-audit}
use stranger_club.Events.Counts.{match_counts}

abbrev pub write_match : ℕ → Match → Db → Db
write_match m match d = record d { matches = update d.matches m match }

-- The status that an OPEN or FULL event should have.
abbrev pub full_status : ℕ → ℕ → EventStatus
full_status confirmed capacity =
    if leb capacity confirmed then EventStatus.full else EventStatus.open_

abbrev pub full_entry : ℕ → Match → EventStatus → AuditLog
full_entry m match new_status = record {
  event_type = "EVENT_CAPACITY_STATUS_CHANGED";
  entity_type = "event";
  entity_id = m;
  metadata = ("capacity", num match.capacity) ∷ [];
  actor_type = ActorType.system;
  actor_id = none;
  before = ("status", text (event_text match.status)) ∷ [];
  after = ("status", text (event_text new_status)) ∷ [];
}

switch_status : ℕ → Match → EventStatus → Exec Db (Unit {0})
switch_status m match new_status = do
  modify (write_match m (record match { status = new_status }))
  audit (full_entry m match new_status)

move_status : ℕ → Match → EventStatus → Exec Db (Unit {0})
unfolding switch_status
move_status m match new_status =
    if event_is new_status match.status then pure tt else switch_status m match new_status

refresh_open : ℕ → Match → Exec Db (Unit {0})
unfolding move_status
refresh_open m match = do
  counts ← gets (match_counts m)
  move_status m match (full_status counts.confirmed match.capacity)

-- `match` is the event's row as it is loaded.
unfoldable pub refresh_full_status : ℕ → Match → Exec Db (Unit {0})
unfolding refresh_open
refresh_full_status m match =
    if event_in match.status (EventStatus.open_ ∷ EventStatus.full ∷ [])
    then refresh_open m match
    else pure tt

-- What the refresh does to the database: nothing, or it sets the status that the count calls for.
pub data Refreshed (m : ℕ) (match : Match) (d : Db) : Db → Type 0 where
  kept :
      (event_in match.status (EventStatus.open_ ∷ EventStatus.full ∷ []) ≡ true
        → match.status ≡ full_status (confirmed_count d m) match.capacity)
      → Refreshed m match d d
  switched :
      event_in match.status (EventStatus.open_ ∷ EventStatus.full ∷ []) ≡ true
      → Refreshed m match d (
          log (full_entry m match (full_status (confirmed_count d m) match.capacity)) (
            write_match m
              (record match { status = full_status (confirmed_count d m) match.capacity })
              d))

-- The refresh rewrites events only.
pub Refreshed-rows :
    {m : ℕ} {match : Match} {d w : Db}
    → Refreshed m match d w
    → (w.registrations ≡ d.registrations) × (w.payments ≡ d.payments) × (w.proofs ≡ d.proofs)
Refreshed-rows (kept _) = (refl, refl, refl)
Refreshed-rows (switched _) = (refl, refl, refl)

event_is-eq : (a b : EventStatus) → event_is a b ≡ true → b ≡ a
event_is-eq a b h = ground arith

module _ {ℓ} {A : Type ℓ} {Q : Result A → Db → Type 0} where
  move-Ends :
      (m : ℕ) (match : Match) (st : EventStatus) (k : Unit {0} → Exec Db A) (s : Session Db)
      → (match.status ≡ st → Ends Q (k tt) s)
      → Ends Q (k tt) (record s {
        working =
            log (full_entry m match st) (write_match m (record match { status = st }) s.working);
      })
      → Ends Q (move_status m match st >>= k) s
  unfolding move_status
  move-Ends m match st k s same moved = elim (Bool-cases (event_is st match.status)) [
    | inl e ↦ rw e (Ends-pure-bind tt k s (same (event_is-eq st match.status e)))
    | inr e ↦ rw e (Ends-assoc _ _ k s (Ends-modify _ _ s (Ends-audit _ k _ moved)))
  ]

  pub Ends-refresh :
      (m : ℕ) (match : Match) (k : Unit {0} → Exec Db A) (s : Session Db)
      → ((w : Db) → Refreshed m match s.working w → Ends Q (k tt) (record s { working = w }))
      → Ends Q (refresh_full_status m match >>= k) s
  unfolding refresh_full_status match_counts
  Ends-refresh m match k s rest =
      elim (Bool-cases (event_in match.status (EventStatus.open_ ∷ EventStatus.full ∷ []))) [
        | inl e ↦ rw e (
            Ends-assoc _ _ k s (
              Ends-gets _ _ s (
                move-Ends m match _ k s (λ same. rest s.working (kept (λ _. same)))
                  (rest _ (switched e)))))
        | inr e ↦ rw e (Ends-pure-bind tt k s (rest s.working (kept (λ t. cc))))
      ]
