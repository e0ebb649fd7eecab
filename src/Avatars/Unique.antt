-- ===== src/Avatars/Unique.antt =====
-- The owners of a design under `choose_avatar` and `assign_new_avatar`.
use stranger_club.Base.{
  ℕ, subst, suc, zero, ◌+◌, ◌≤◌, ◌<◌, ◌≡◌, refl, Option, none, some, List, [], ◌∷◌, ◌==◌, ltb,
  ltb→lt, arith, inl, inr, Bool-cases, Option-cases, ==→eq,
}
use stranger_club.Db.Query.{get, update, delete, count_where}
use stranger_club.Db.Query.Laws.{IsTable, update-IsTable, count_where-update}
use stranger_club.Db.Query.Deletion.{count_where-delete, update_absent}
use stranger_club.Exec.{Result}
use stranger_club.Avatars.{
  avatar_catalog_size, PlayerProfile, Profiles, owns, with_avatar, claim, answer_claim,
  choose_avatar, available_from, choice, others_claim, Round, flush_avatar, attempt, after_attempt,
  assign_new_avatar,
}

-- No design has two owners, and every owned design is in the catalog.
pub record OneOwner (profiles : Profiles) : Type 0 where
  pub table : IsTable profiles
  pub unique : (design : ℕ) → count_where (owns design) profiles ≤ 1
  pub in_catalog :
      (design : ℕ) → 0 < count_where (owns design) profiles → design < avatar_catalog_size

written-OneOwner :
    (i : ℕ) (q p : PlayerProfile) (design : ℕ) (profiles : Profiles)
    → OneOwner profiles
    → get profiles i ≡ some q
    → design < avatar_catalog_size
    → count_where (owns design) (delete profiles i) ≡ 0
    → OneOwner (update profiles i (with_avatar design p))
written-OneOwner i q p design profiles h held small free = record {
  table = update-IsTable profiles i (with_avatar design p) h.table;
  unique = λ other. ground (
    arith,
    h.unique other,
    count_where-update (owns other) profiles i (with_avatar design p) q held,
    count_where-delete (owns other) profiles i q h.table held,
  );
  in_catalog = λ other owned. ground (
    arith,
    h.in_catalog other,
    count_where-update (owns other) profiles i (with_avatar design p) q held,
  );
}

-- A claim that the constraint lets pass keeps the rule.
claim-OneOwner :
    (i : ℕ) (p : PlayerProfile) (design : ℕ) (profiles after : Profiles)
    → OneOwner profiles
    → design < avatar_catalog_size
    → claim i p design profiles ≡ some after
    → OneOwner after
unfolding claim
claim-OneOwner i p design profiles after h small e =
    elim (Bool-cases (count_where (owns design) (delete profiles i) == 0)) [
      | inl free ↦
          let is_after : update profiles i (with_avatar design p) ≡ after = ground (arith, e) in
          subst OneOwner is_after (elim (Option-cases (get profiles i)) [
            | inl missing ↦ rw (update_absent profiles i (with_avatar design p) missing) h
            | inr found ↦
                written-OneOwner i found.0 p design profiles h found.1 small (==→eq _ 0 free)
          ])
      | inr taken ↦ absurd (ground (arith, e))
    ]

answered-OneOwner :
    (i : ℕ) (p : PlayerProfile) (design : ℕ) (profiles : Profiles) (o : Option Profiles)
    → OneOwner profiles
    → design < avatar_catalog_size
    → claim i p design profiles ≡ o
    → OneOwner (answer_claim design p o profiles).1
unfolding answer_claim
answered-OneOwner i p design profiles none h small e = h
answered-OneOwner i p design profiles (some after) h small e =
    claim-OneOwner i p design profiles after h small e

-- Where no design has two owners and every owned design is in the catalog, this stays so when a
-- player chooses a design, whatever it is.
pub choose_avatar-OneOwner :
    (i : ℕ) (p : PlayerProfile) (design : ℕ) (profiles : Profiles)
    → OneOwner profiles
    → OneOwner (choose_avatar i p design profiles).1
unfolding choose_avatar
choose_avatar-OneOwner i p design profiles h = elim (Bool-cases (ltb design avatar_catalog_size)) [
  | inl small ↦ rw small (elim (Bool-cases (owns design p)) [
    | inl same ↦ rw same h
    | inr other ↦
        rw other
          (answered-OneOwner i p design profiles _ h (ltb→lt design avatar_catalog_size small) refl)
  ])
  | inr large ↦ rw large h
]

others-OneOwner :
    (claims : List (ℕ × ℕ)) (profiles : Profiles)
    → OneOwner profiles
    → OneOwner (others_claim claims profiles)
unfolding others_claim
others-OneOwner [] profiles h = h
others-OneOwner ((i, design) ∷ claims) profiles h = elim (Option-cases (get profiles i)) [
  | inl missing ↦ rw missing (others-OneOwner claims profiles h)
  | inr found ↦ rw found.1 (
      others-OneOwner claims (choose_avatar i found.0 design profiles).1
        (choose_avatar-OneOwner i found.0 design profiles h))
]

abbrev AllBelow : ℕ → List ℕ → Type 0
AllBelow bound [] = Unit
AllBelow bound (x ∷ xs) = (x < bound) × AllBelow bound xs

available-AllBelow :
    (n start bound : ℕ) (profiles : Profiles)
    → start + n ≤ bound
    → AllBelow bound (available_from n start profiles)
unfolding available_from
available-AllBelow zero start bound profiles h = tt
available-AllBelow (suc n) start bound profiles h =
    let rest = available-AllBelow n (suc start) bound profiles (omega (arith, h)) in
    elim (Bool-cases (count_where (owns start) profiles == 0)) [
      | inl free ↦ rw free (omega (arith, h), rest)
      | inr taken ↦ rw taken rest
    ]

choice-lt :
    (index x bound : ℕ) (xs : List ℕ) → x < bound → AllBelow bound xs → choice index x xs < bound
unfolding choice
choice-lt index x bound [] h hs = h
choice-lt zero x bound (y ∷ ys) h hs = h
choice-lt (suc index) x bound (y ∷ ys) h hs = choice-lt index y bound ys hs.0 hs.1

flushed-OneOwner :
    (i : ℕ) (p new : PlayerProfile) (design : ℕ) (profiles : Profiles) (o : Option Profiles)
    (rest : Result PlayerProfile × Profiles)
    → OneOwner profiles
    → OneOwner rest.1
    → design < avatar_catalog_size
    → claim i p design profiles ≡ o
    → OneOwner (after_attempt (flush_avatar new o) profiles rest).1
unfolding flush_avatar after_attempt
flushed-OneOwner i p new design profiles none rest h hr small e = hr
flushed-OneOwner i p new design profiles (some after) rest h hr small e =
    claim-OneOwner i p design profiles after h small e

attempted-OneOwner :
    (i : ℕ) (p : PlayerProfile) (index : ℕ) (designs : List ℕ) (profiles : Profiles)
    (rest : Result PlayerProfile × Profiles)
    → OneOwner profiles
    → OneOwner rest.1
    → AllBelow avatar_catalog_size designs
    → OneOwner (after_attempt (attempt i p index designs profiles) profiles rest).1
unfolding attempt after_attempt
attempted-OneOwner i p index [] profiles rest h hr small = h
attempted-OneOwner i p index (x ∷ xs) profiles rest h hr small =
    flushed-OneOwner i p _ (choice index x xs) profiles _ rest h hr
      (choice-lt index x avatar_catalog_size xs small.0 small.1) refl

-- Where no design has two owners and every owned design is in the catalog, this stays so when a
-- player has a new design drawn, however the dice fall, whatever the others claim between a query
-- and the write that follows it, and however many rounds there are.
pub assign_new_avatar-OneOwner :
    (i : ℕ) (p : PlayerProfile) (rounds : List Round) (profiles : Profiles)
    → OneOwner profiles
    → OneOwner (assign_new_avatar i p rounds profiles).1
unfolding assign_new_avatar
assign_new_avatar-OneOwner i p [] profiles h = h
assign_new_avatar-OneOwner i p (r ∷ rounds) profiles h =
    let after = others-OneOwner r.meanwhile profiles h in
    attempted-OneOwner i p r.index (available_from avatar_catalog_size 0 profiles)
      (others_claim r.meanwhile profiles)
      (assign_new_avatar i p rounds (others_claim r.meanwhile profiles)) after
      (assign_new_avatar-OneOwner i p rounds (others_claim r.meanwhile profiles) after)
      (available-AllBelow avatar_catalog_size 0 avatar_catalog_size profiles (omega arith))
