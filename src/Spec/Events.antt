-- ===== src/Spec/Events.antt =====
-- The rows of events before and after a move: validity, identity, owner and phase.
use stranger_club.Base.{subst, ℕ, ◌≡◌, ◌≤◌, inl, inr, refl, true, some, ◌==◌, arith, Bool-cases}
use stranger_club.Db.{Db}
use stranger_club.Db.Query.{get, insert, update}
use stranger_club.Db.Query.Laws.{get-update, get-insert, get-lt}
use stranger_club.Db.Rows.{Match}
use stranger_club.Db.Status.{EventStatus}
use stranger_club.Events.Manage.{status_allowed}
use stranger_club.Spec.{IsValidMatch, SameEvent, Step, logged, opened, edited, restatused}
use stranger_club.Spec.Tables.{AreTables}

pub record EventsValid (d : Db) : Type 0 where
  pub at : (m : ℕ) (match : Match) → get d.matches m ≡ some match → IsValidMatch match

rewritten-EventsValid :
    (d : Db) (i : ℕ) (old new : Match)
    → EventsValid d
    → get d.matches i ≡ some old
    → SameEvent old new
    → (n : ℕ) (match : Match) → get (update d.matches i new) n ≡ some match
    → IsValidMatch match
rewritten-EventsValid d i old new h found same n match e =
    let law = get-update d.matches i n new old found in
    elim (Bool-cases (i == n)) [
      | inl hit ↦ subst IsValidMatch (ground (arith, law)) (same.valid (h.at i old found))
      | inr miss ↦ h.at n match (ground (arith, law))
    ]

inserted-EventsValid :
    (d : Db) (new : Match)
    → AreTables d
    → EventsValid d
    → IsValidMatch new
    → (n : ℕ) (match : Match) → get (insert d.matches new) n ≡ some match
    → IsValidMatch match
inserted-EventsValid d new t h valid n match e =
    let law = get-insert d.matches n new t.matches in
    elim (Bool-cases (d.matches.next_id == n)) [
      | inl hit ↦ subst IsValidMatch (ground (arith, law)) valid
      | inr miss ↦ h.at n match (ground (arith, law))
    ]

pub Step-EventsValid : {d w : Db} → Step d w → AreTables d → EventsValid d → EventsValid w
Step-EventsValid {d} {w} (opened new valid) t h = record {
  at = inserted-EventsValid d new t h valid;
}
Step-EventsValid {d} {w} (edited i old new found _ same) t h = record {
  at = rewritten-EventsValid d i old new h found same;
}
Step-EventsValid {d} {w} (restatused i old new found _ same) t h = record {
  at = rewritten-EventsValid d i old new h found same;
}
Step-EventsValid {d} {w} (logged _) t h = record { at = h.at }
Step-EventsValid {d} {w} _ t h = record { at = h.at }

-- The phases of an event, in their order.
abbrev pub phase : EventStatus → ℕ
phase EventStatus.draft = 0
phase EventStatus.open_ = 1
phase EventStatus.full = 1
phase EventStatus.ongoing = 2
phase EventStatus.completed = 3
phase EventStatus.cancelled = 3

-- The row of an event in a later database.
pub record StillHeld (match : Match) (m : ℕ) (w : Db) : Type 0 where
  pub row : Match
  pub found : get w.matches m ≡ some row
  pub identifier : row.public_id ≡ match.public_id
  pub owner : row.owner_organizer_id ≡ match.owner_organizer_id
  pub later : phase match.status ≤ phase row.status
  pub completed : match.status ≡ EventStatus.completed → row.status ≡ EventStatus.completed
  pub cancelled : match.status ≡ EventStatus.cancelled → row.status ≡ EventStatus.cancelled

allowed-phase :
    (from to : EventStatus) → status_allowed from (some to) ≡ true → phase from ≤ phase to
allowed-phase from to h = ground arith

pub still_held :
    (match : Match) (m : ℕ) (w : Db) → get w.matches m ≡ some match → StillHeld match m w
still_held match m w e = record {
  row = match;
  found = e;
  identifier = refl;
  owner = refl;
  later = omega arith;
  completed = λ c. c;
  cancelled = λ c. c;
}

rewritten-StillHeld :
    (d : Db) (i : ℕ) (old new : Match) (n : ℕ) (match : Match) (w : Db)
    → get d.matches i ≡ some old
    → get d.matches n ≡ some match
    → w.matches ≡ update d.matches i new
    → SameEvent old new
    → StillHeld match n w
rewritten-StillHeld d i old new n match w found e is same =
    let law = get-update d.matches i n new old found in
    elim (Bool-cases (i == n)) [
      | inl hit ↦
          let one : match ≡ old = ground arith in
          let moves = same.status in
          record {
            row = new;
            found = ground (arith, law);
            identifier = ground (arith, same.identifier);
            owner = ground (arith, same.owner);
            later = ground (arith, allowed-phase old.status new.status moves);
            completed = λ c. ground arith;
            cancelled = λ c. ground arith;
          }
      | inr miss ↦ still_held match n w (ground (arith, law))
    ]

pub Step-StillHeld :
    {d w : Db}
    → Step d w
    → AreTables d
    → (n : ℕ) (match : Match) → get d.matches n ≡ some match
    → StillHeld match n w
Step-StillHeld {d} {w} (opened new _) t n match e =
    still_held match n w
      (ground (arith, get-insert d.matches n new t.matches, get-lt d.matches n match t.matches e))
Step-StillHeld {d} {w} (edited i old new found _ same) t n match e =
    rewritten-StillHeld d i old new n match w found e refl same
Step-StillHeld {d} {w} (restatused i old new found _ same) t n match e =
    rewritten-StillHeld d i old new n match w found e refl same
Step-StillHeld {d} {w} (logged _) t n match e = still_held match n w e
Step-StillHeld {d} {w} _ t n match e = still_held match n w e
