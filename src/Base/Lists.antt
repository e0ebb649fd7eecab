-- ===== src/Base/Lists.antt =====
-- Lists of numbers, and predicates on lists.
use Prim.Native.Nat.{ℕ}
use mathlib.Core.Bool.{Bool, false, ◌||◌}
use mathlib.Core.List.{List, [], ◌∷◌, ◌++◌}
use mathlib.Core.Path.{◌≡◌, refl}
use mathlib.Core.List.{append-nil, append_assoc}
use stranger_club.Base.Tests.{◌==◌}

-- `x in xs`
abbrev pub elem : ℕ → List ℕ → Bool
elem x [] = false
elem x (y ∷ ys) = x == y || elem x ys

-- `ys` is `xs` with more at the end: what an append-only log grows by.
pub record Extends {ℓ} {A : Type ℓ} (xs ys : List A) : Type ℓ where
  pub added : List A
  pub is_added : ys ≡ xs ++ added

module _ {ℓ} {A : Type ℓ} where
  pub Extends-refl : (xs : List A) → Extends xs xs
  Extends-refl xs = record { added = []; is_added = rw append-nil }

  pub Extends-snoc : (xs : List A) (x : A) → Extends xs (xs ++ x ∷ [])
  Extends-snoc xs x = record { added = x ∷ []; is_added = refl }

  pub Extends-trans : {xs ys zs : List A} → Extends xs ys → Extends ys zs → Extends xs zs
  Extends-trans {xs} h k = record {
    added = h.added ++ k.added;
    is_added = rw (k.is_added, h.is_added) (append_assoc xs h.added k.added);
  }
