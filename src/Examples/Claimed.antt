-- ===== src/Examples/Claimed.antt =====
-- What the theorems on avatars say of two players.
use stranger_club.Base.{ℕ, Option, refl, none, some, [], ◌∷◌, arith}
use stranger_club.Db.Query.{get, lookup, count, count_where}
use stranger_club.Db.Status.{Position}
use stranger_club.Avatars.{PlayerProfile, Profiles, assign_new_avatar}
use stranger_club.Avatars.Unique.{OneOwner, assign_new_avatar-OneOwner}

abbrev new_profile : ℕ → Option ℕ → PlayerProfile
new_profile user_id design = record {
  user_id = user_id;
  display_name = none;
  phone = none;
  cricket_role = Position.no_preference;
  skill_rating = none;
  bio = none;
  avatar_design_id = design;
}

abbrev ann : PlayerProfile
ann = new_profile 7 (some 3)

abbrev bob : PlayerProfile
bob = new_profile 8 none

abbrev profiles : Profiles
profiles = record { rows = (1, ann) ∷ (2, bob) ∷ []; next_id = 3 }

profiles-OneOwner : OneOwner profiles
unfolding lookup get count count_where
profiles-OneOwner = record {
  table = record { keyed = (refl, (refl, tt)); below = λ i le. ground arith };
  unique = λ design. ground arith;
  in_catalog = λ design owned. ground arith;
}

assign_new_avatar-OneOwner_example :
    OneOwner
      (assign_new_avatar 2 bob
        (record { index = 0; meanwhile = (1, 0) ∷ [] } ∷ record { index = 5; meanwhile = [] } ∷ [])
        profiles).1
assign_new_avatar-OneOwner_example =
    assign_new_avatar-OneOwner 2 bob
      (record { index = 0; meanwhile = (1, 0) ∷ [] } ∷ record { index = 5; meanwhile = [] } ∷ [])
      profiles profiles-OneOwner
