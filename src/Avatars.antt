-- ===== src/Avatars.antt =====
-- The avatars of backend/app/services.py: `assign_new_avatar` and `choose_avatar`, by which players
-- claim the designs of a finite catalog.
pub mod Unique
pub mod Owners
use stranger_club.Base.{
  ℕ, suc, zero, ◌+◌, String, Bool, true, false, not, Option, none, some, List, [], ◌∷◌, ◌==◌, ltb,
  option_is, if◌then◌else◌,
}
use stranger_club.Db.Query.{Table, get, update, delete, count_where}
use stranger_club.Db.Status.{Position}
use stranger_club.Exec.{Error, api_error, Result, ok, err}

-- AVATAR_CATALOG_SIZE
abbrev pub avatar_catalog_size : ℕ
avatar_catalog_size = 256

pub record PlayerProfile : Type 0 where
  pub user_id : ℕ
  pub display_name : Option String
  pub phone : Option String
  pub cricket_role : Position
  pub skill_rating : Option ℕ
  pub bio : Option String
  pub avatar_design_id : Option ℕ

abbrev pub Profiles : Type 0
Profiles = Table PlayerProfile

abbrev pub owns : ℕ → PlayerProfile → Bool
owns design p = option_is p.avatar_design_id design

-- `WHERE user_id = ...`
abbrev pub profile_of : ℕ → PlayerProfile → Bool
profile_of user_id p = p.user_id == user_id

abbrev pub with_avatar : ℕ → PlayerProfile → PlayerProfile
with_avatar design p = record p { avatar_design_id = some design }

-- The UPDATE of a profile under the UNIQUE constraint of `avatar_design_id`.
unfoldable pub claim : ℕ → PlayerProfile → ℕ → Profiles → Option Profiles
claim i p design profiles =
    if count_where (owns design) (delete profiles i) == 0
    then some (update profiles i (with_avatar design p))
    else none

abbrev pub avatar_taken : Error
avatar_taken = api_error 409 "AVATAR_TAKEN"

unfoldable pub answer_claim :
    ℕ → PlayerProfile → Option Profiles → Profiles → Result PlayerProfile × Profiles
answer_claim design p none profiles = (err avatar_taken, profiles)
answer_claim design p (some after) profiles = (ok (with_avatar design p), after)

unfoldable pub choose_avatar : ℕ → PlayerProfile → ℕ → Profiles → Result PlayerProfile × Profiles
unfolding answer_claim
choose_avatar i p design profiles =
    if not (ltb design avatar_catalog_size)
    then (err (api_error 422 "VALIDATION_ERROR"), profiles)
    else if owns design p
    then (ok p, profiles)
    else answer_claim design p (claim i p design profiles) profiles

-- The unclaimed designs among `start`, `start + 1`, and so on, `n` of them.
unfoldable pub available_from : (n start : ℕ) → Profiles → List ℕ
available_from zero start profiles = []
available_from (suc n) start profiles =
    let rest = available_from n (suc start) profiles in
    if count_where (owns start) profiles == 0 then start ∷ rest else rest

-- `random.choice`, by the index that it draws
unfoldable pub choice : ℕ → ℕ → List ℕ → ℕ
choice index first [] = first
choice zero first (x ∷ xs) = first
choice (suc index) first (x ∷ xs) = choice index x xs

-- The claims that other players commit while a request is between its query and its flush.
unfoldable pub others_claim : List (ℕ × ℕ) → Profiles → Profiles
others_claim [] profiles = profiles
others_claim ((i, design) ∷ claims) profiles =
    others_claim claims
      (elim (get profiles i) [ none ↦ profiles | some p ↦ (choose_avatar i p design profiles).1 ])

-- One round of `assign_new_avatar`: the index that is drawn, and what the others do meanwhile.
pub record Round : Type 0 where
  pub index : ℕ
  pub meanwhile : List (ℕ × ℕ)

abbrev pub no_avatars : Error
no_avatars = api_error 409 "NO_AVATARS_AVAILABLE"

-- How a round ends; the source goes on to the next one after a lost race only.
pub data Attempt : Type 0 where
  exhausted : Attempt
  won : PlayerProfile → Profiles → Attempt
  lost : Attempt

unfoldable pub flush_avatar : PlayerProfile → Option Profiles → Attempt
flush_avatar p none = lost
flush_avatar p (some after) = won p after

-- One round, from the designs that its query found unclaimed.
unfoldable pub attempt : ℕ → PlayerProfile → ℕ → List ℕ → Profiles → Attempt
unfolding flush_avatar
attempt i p index [] after = exhausted
attempt i p index (x ∷ xs) after =
    flush_avatar (with_avatar (choice index x xs) p) (claim i p (choice index x xs) after)

unfoldable pub after_attempt :
    Attempt → Profiles → Result PlayerProfile × Profiles → Result PlayerProfile × Profiles
after_attempt exhausted profiles rest = (err no_avatars, profiles)
after_attempt (won p after) profiles rest = (ok p, after)
after_attempt lost profiles rest = rest

-- `assign_new_avatar`; the source makes five rounds.
unfoldable pub assign_new_avatar :
    ℕ → PlayerProfile → List Round → Profiles → Result PlayerProfile × Profiles
unfolding attempt after_attempt
assign_new_avatar i p [] profiles = (err avatar_taken, profiles)
assign_new_avatar i p (r ∷ rounds) profiles =
    let after = others_claim r.meanwhile profiles in
    let rest = assign_new_avatar i p rounds after in
    after_attempt (attempt i p r.index (available_from avatar_catalog_size 0 profiles) after) after
      rest
