-- ===== src/Avatars/Owners.antt =====
-- A change of avatars leaves every profile with its user.
use stranger_club.Base.{
  ℕ, ◌≡◌, refl, ◌∙◌, Option, none, some, List, [], ◌∷◌, ◌==◌, ltb, arith, inl, inr, Bool-cases,
  Option-cases,
}
use stranger_club.Db.Query.{get, update, delete, count_where}
use stranger_club.Db.Query.Laws.{get-update, count_where-update}
use stranger_club.Exec.{Result}
use stranger_club.Avatars.{
  avatar_catalog_size, PlayerProfile, Profiles, owns, profile_of, with_avatar, claim, answer_claim,
  choose_avatar, available_from, choice, others_claim, Round, flush_avatar, attempt, after_attempt,
  assign_new_avatar,
}

abbrev pub owner_of : Option PlayerProfile → Option ℕ
owner_of none = none
owner_of (some p) = some p.user_id

pub record SameOwners (t t' : Profiles) : Type 0 where
  pub counts : (id : ℕ) → count_where (profile_of id) t' ≡ count_where (profile_of id) t
  pub owner : (i : ℕ) → owner_of (get t' i) ≡ owner_of (get t i)

pub SameOwners-refl : (t : Profiles) → SameOwners t t
SameOwners-refl t = record { counts = λ id. refl; owner = λ i. refl }

SameOwners-trans : (t u v : Profiles) → SameOwners t u → SameOwners u v → SameOwners t v
SameOwners-trans t u v h k = record {
  counts = λ id. k.counts id ∙ h.counts id;
  owner = λ i. k.owner i ∙ h.owner i;
}

written-SameOwners :
    (i : ℕ) (p : PlayerProfile) (design : ℕ) (t : Profiles) (o : Option PlayerProfile)
    → get t i ≡ o
    → owner_of o ≡ some p.user_id
    → SameOwners t (update t i (with_avatar design p))
written-SameOwners i p design t none e own = cc
written-SameOwners i p design t (some q) e own = record {
  counts =
      λ id. ground (arith, own, count_where-update (profile_of id) t i (with_avatar design p) q e);
  owner = λ j. ground (arith, own, e, get-update t i j (with_avatar design p) q e);
}

module _ (i : ℕ) (p : PlayerProfile) where
  -- The profile that is written is the row's own.
  abbrev pub IsOwner : Profiles → Type 0
  IsOwner t = owner_of (get t i) ≡ some p.user_id

  claim-SameOwners :
      (design : ℕ) (t after : Profiles)
      → IsOwner t
      → claim i p design t ≡ some after
      → SameOwners t after
  unfolding claim
  claim-SameOwners design t after own e =
      elim (Bool-cases (count_where (owns design) (delete t i) == 0)) [
        | inl free ↦
            let is_after : update t i (with_avatar design p) ≡ after = ground (arith, e) in
            rw (← is_after) (written-SameOwners i p design t (get t i) refl own)
        | inr taken ↦ absurd (ground (arith, e))
      ]

  answered-SameOwners :
      (design : ℕ) (t : Profiles) (o : Option Profiles)
      → IsOwner t
      → claim i p design t ≡ o
      → SameOwners t (answer_claim design p o t).1
  unfolding answer_claim
  answered-SameOwners design t none own e = SameOwners-refl t
  answered-SameOwners design t (some after) own e = claim-SameOwners design t after own e

  pub choose_avatar-SameOwners :
      (design : ℕ) (t : Profiles) → IsOwner t → SameOwners t (choose_avatar i p design t).1
  unfolding choose_avatar
  choose_avatar-SameOwners design t own = elim (Bool-cases (ltb design avatar_catalog_size)) [
    | inl small ↦ rw small (elim (Bool-cases (owns design p)) [
      | inl same ↦ rw same (SameOwners-refl t)
      | inr other ↦ rw other (answered-SameOwners design t _ own refl)
    ])
    | inr large ↦ rw large (SameOwners-refl t)
  ]

others-SameOwners : (claims : List (ℕ × ℕ)) (t : Profiles) → SameOwners t (others_claim claims t)
unfolding others_claim
others-SameOwners [] t = SameOwners-refl t
others-SameOwners ((i, design) ∷ claims) t = elim (Option-cases (get t i)) [
  | inl missing ↦ rw missing (others-SameOwners claims t)
  | inr (q, held) ↦ rw held (
      SameOwners-trans t (choose_avatar i q design t).1 _
        (choose_avatar-SameOwners i q design t (ground (arith, held)))
        (others-SameOwners claims (choose_avatar i q design t).1))
]

module _ (i : ℕ) (p : PlayerProfile) where
  flushed-SameOwners :
      (new : PlayerProfile) (design : ℕ) (t : Profiles) (o : Option Profiles)
      (rest : Result PlayerProfile × Profiles)
      → IsOwner i p t
      → SameOwners t rest.1
      → claim i p design t ≡ o
      → SameOwners t (after_attempt (flush_avatar new o) t rest).1
  unfolding flush_avatar after_attempt
  flushed-SameOwners new design t none rest own hr e = hr
  flushed-SameOwners new design t (some after) rest own hr e =
      claim-SameOwners i p design t after own e

  attempted-SameOwners :
      (index : ℕ) (designs : List ℕ) (t : Profiles) (rest : Result PlayerProfile × Profiles)
      → IsOwner i p t
      → SameOwners t rest.1
      → SameOwners t (after_attempt (attempt i p index designs t) t rest).1
  unfolding attempt after_attempt
  attempted-SameOwners index [] t rest own hr = SameOwners-refl t
  attempted-SameOwners index (x ∷ xs) t rest own hr =
      flushed-SameOwners _ (choice index x xs) t _ rest own hr refl

  pub assign_new_avatar-SameOwners :
      (rounds : List Round) (t : Profiles)
      → IsOwner i p t
      → SameOwners t (assign_new_avatar i p rounds t).1
  unfolding assign_new_avatar
  assign_new_avatar-SameOwners [] t own = SameOwners-refl t
  assign_new_avatar-SameOwners (r ∷ rounds) t own =
      let after = others-SameOwners r.meanwhile t in
      let own_after = after.owner i ∙ own in
      SameOwners-trans t (others_claim r.meanwhile t) _ after (
        attempted-SameOwners r.index (available_from avatar_catalog_size 0 t)
          (others_claim r.meanwhile t) (assign_new_avatar i p rounds (others_claim r.meanwhile t))
          own_after (assign_new_avatar-SameOwners rounds (others_claim r.meanwhile t) own_after))
