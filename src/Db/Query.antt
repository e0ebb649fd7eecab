-- ===== src/Db/Query.antt =====
-- A table keyed by its integer primary key, as the queries of services.py use it: rows in the
-- order of insertion, the next key of the sequence, `WHERE id = i`, `COUNT` and `LIMIT 1`.
pub mod Laws
pub mod Deletion
pub mod Bulk
use stranger_club.Base.{
  ℕ, suc, ◌+◌, ◌≤◌, ◌<◌, ◌≡◌, ◌≢◌, refl, Bool, true, false, Option, none, some, List, [], ◌∷◌, ◌++◌,
  ◌==◌, ltb, ◌||◌, ◌&&◌, if◌then◌else◌, indicator, arith,
}

pub record Table {ℓ} (A : Type ℓ) : Type ℓ where
  pub rows : List (ℕ × A)
  pub next_id : ℕ

module _ {ℓ} {A : Type ℓ} where
  unfoldable pub lookup : ℕ → List (ℕ × A) → Option A
  lookup i [] = none
  lookup i ((j, a) ∷ rows) = if j == i then some a else lookup i rows

  -- UPDATE ... WHERE id = i
  unfoldable pub set : ℕ → A → List (ℕ × A) → List (ℕ × A)
  set i a [] = []
  set i a ((j, b) ∷ rows) = if j == i then (j, a) ∷ rows else (j, b) ∷ set i a rows

  -- SELECT COUNT(id) ... WHERE p
  unfoldable pub count : (A → Bool) → List (ℕ × A) → ℕ
  count p [] = 0
  count p ((j, a) ∷ rows) = indicator (p a) + count p rows

  -- The first row that satisfies `p`, with its key.
  unfoldable pub find_first : (A → Bool) → List (ℕ × A) → Option (ℕ × A)
  find_first p [] = none
  find_first p ((j, a) ∷ rows) = if p a then some (j, a) else find_first p rows

  -- SELECT SUM(f) ... WHERE p
  unfoldable pub sum : (A → Bool) → (A → ℕ) → List (ℕ × A) → ℕ
  sum p f [] = 0
  sum p f ((j, a) ∷ rows) = (if p a then f a else 0) + sum p f rows

  -- SELECT id ... WHERE p
  unfoldable pub ids : (A → Bool) → List (ℕ × A) → List ℕ
  ids p [] = []
  ids p ((j, a) ∷ rows) = let rest = ids p rows in if p a then j ∷ rest else rest

  -- DELETE ... WHERE id = i
  unfoldable pub remove : ℕ → List (ℕ × A) → List (ℕ × A)
  remove i [] = []
  remove i ((j, a) ∷ rows) = let rest = remove i rows in if j == i then rest else (j, a) ∷ rest

  -- DELETE ... WHERE p
  unfoldable pub remove_all : (A → Bool) → List (ℕ × A) → List (ℕ × A)
  remove_all p [] = []
  remove_all p ((j, a) ∷ rows) = let rest = remove_all p rows in if p a then rest else (j, a) ∷ rest

  -- Whether row (i, a) comes before (j, b) under ORDER BY key, id.
  abbrev pub comes_before : (A → ℕ) → ℕ × A → ℕ × A → Bool
  comes_before key (i, a) (j, b) = ltb (key a) (key b) || (key a == key b && ltb i j)

  abbrev pub earlier : (A → ℕ) → ℕ × A → Option (ℕ × A) → ℕ × A
  earlier key x none = x
  earlier key x (some y) = if comes_before key y x then y else x

  -- SELECT ... WHERE p ORDER BY key, id LIMIT 1
  unfoldable pub earliest : (A → Bool) → (A → ℕ) → List (ℕ × A) → Option (ℕ × A)
  earliest p key [] = none
  earliest p key ((j, a) ∷ rows) =
      let best = earliest p key rows in if p a then some (earlier key (j, a) best) else best

  -- UPDATE ... WHERE p
  unfoldable pub set_all : (A → Bool) → (A → A) → List (ℕ × A) → List (ℕ × A)
  set_all p f [] = []
  set_all p f ((j, a) ∷ rows) = (j, if p a then f a else a) ∷ set_all p f rows

  abbrev pub later : (A → ℕ) → ℕ × A → Option (ℕ × A) → ℕ × A
  later key x none = x
  later key x (some y) = if ltb (key x.1) (key y.1) then y else x

  -- SELECT ... WHERE p ORDER BY key DESC LIMIT 1
  unfoldable pub latest : (A → Bool) → (A → ℕ) → List (ℕ × A) → Option (ℕ × A)
  latest p key [] = none
  latest p key ((j, a) ∷ rows) =
      let best = latest p key rows in if p a then some (later key (j, a) best) else best

  unfoldable pub get : Table A → ℕ → Option A
  unfolding lookup
  get t i = lookup i t.rows

  unfoldable pub update : Table A → ℕ → A → Table A
  unfolding set
  update t i a = record t { rows = set i a t.rows }

  unfoldable pub insert : Table A → A → Table A
  insert t a = record { rows = t.rows ++ (t.next_id, a) ∷ []; next_id = suc t.next_id }

  unfoldable pub count_where : (A → Bool) → Table A → ℕ
  unfolding count
  count_where p t = count p t.rows

  unfoldable pub first_where : (A → Bool) → Table A → Option (ℕ × A)
  unfolding find_first
  first_where p t = find_first p t.rows

  unfoldable pub sum_where : (A → Bool) → (A → ℕ) → Table A → ℕ
  unfolding sum
  sum_where p f t = sum p f t.rows

  unfoldable pub delete : Table A → ℕ → Table A
  unfolding remove
  delete t i = record t { rows = remove i t.rows }

  unfoldable pub earliest_where : (A → Bool) → (A → ℕ) → Table A → Option (ℕ × A)
  unfolding earliest
  earliest_where p key t = earliest p key t.rows

  unfoldable pub ids_where : (A → Bool) → Table A → List ℕ
  unfolding ids
  ids_where p t = ids p t.rows

  unfoldable pub update_where : (A → Bool) → (A → A) → Table A → Table A
  unfolding set_all
  update_where p f t = record t { rows = set_all p f t.rows }

  unfoldable pub latest_where : (A → Bool) → (A → ℕ) → Table A → Option (ℕ × A)
  unfolding latest
  latest_where p key t = latest p key t.rows

  unfoldable pub delete_where : (A → Bool) → Table A → Table A
  unfolding remove_all
  delete_where p t = record t { rows = remove_all p t.rows }
