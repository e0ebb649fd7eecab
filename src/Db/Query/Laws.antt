-- ===== src/Db/Query/Laws.antt =====
-- What the queries of a table return after a write.
use stranger_club.Base.{
  ℕ, suc, ◌+◌, ◌≤◌, ◌<◌, ◌≡◌, inl, inr, refl, Bool, true, false, none, some, List, [], ◌∷◌, ◌++◌,
  ◌==◌, if◌then◌else◌, indicator, arith, Bool-cases, Option-cases,
}
use stranger_club.Db.Query.{
  Table, lookup, set, count, find_first, get, update, insert, count_where, first_where, earliest,
  earliest_where, comes_before,
}

module _ {ℓ} {A : Type ℓ} where
  -- Every key is listed once.
  abbrev pub IsKeyed : List (ℕ × A) → Type ℓ
  IsKeyed [] = Unit
  IsKeyed ((i, a) ∷ rows) = (lookup i rows ≡ none) × IsKeyed rows

  -- No key is listed twice, and the next key of the sequence is above all of them.
  pub record IsTable (t : Table A) : Type ℓ where
    pub keyed : IsKeyed t.rows
    pub below : (i : ℕ) → t.next_id ≤ i → get t i ≡ none

  lookup-set :
      (i j : ℕ) (a : A) (rows : List (ℕ × A))
      → lookup j (set i a rows)
        ≡ (if i == j then elim (lookup j rows) [ none ↦ none | some _ ↦ some a ] else lookup j rows)
  unfolding lookup set
  lookup-set i j a [] = ground arith
  lookup-set i j a ((k, b) ∷ rows) = ground (arith, lookup-set i j a rows)

  lookup-snoc :
      (i j : ℕ) (a : A) (rows : List (ℕ × A))
      → lookup j (rows ++ (i, a) ∷ [])
        ≡ elim (lookup j rows) [ none ↦ if i == j then some a else none | some b ↦ some b ]
  unfolding lookup
  lookup-snoc i j a [] = ground arith
  lookup-snoc i j a ((k, b) ∷ rows) = ground (arith, lookup-snoc i j a rows)

  set-IsKeyed : (i : ℕ) (a : A) (rows : List (ℕ × A)) → IsKeyed rows → IsKeyed (set i a rows)
  unfolding set
  set-IsKeyed i a [] h = h
  set-IsKeyed i a ((k, b) ∷ rows) h =
      ground (arith, set-IsKeyed i a rows h.1, lookup-set i k a rows)

  snoc-IsKeyed :
      (i : ℕ) (a : A) (rows : List (ℕ × A))
      → IsKeyed rows
      → lookup i rows ≡ none
      → IsKeyed (rows ++ (i, a) ∷ [])
  unfolding lookup
  snoc-IsKeyed i a [] h e = (refl, tt)
  snoc-IsKeyed i a ((k, b) ∷ rows) h e =
      ground (arith, snoc-IsKeyed i a rows h.1, lookup-snoc i k a rows)

  count-set :
      (p : A → Bool) (i : ℕ) (a b : A) (rows : List (ℕ × A))
      → lookup i rows ≡ some b
      → count p (set i a rows) + indicator (p b) ≡ count p rows + indicator (p a)
  unfolding lookup set count
  count-set p i a b [] e = cc
  count-set p i a b ((k, c) ∷ rows) e = ground (arith, count-set p i a b rows)

  count-snoc :
      (p : A → Bool) (i : ℕ) (a : A) (rows : List (ℕ × A))
      → count p (rows ++ (i, a) ∷ []) ≡ count p rows + indicator (p a)
  unfolding count
  count-snoc p i a [] = omega arith
  count-snoc p i a ((k, b) ∷ rows) = omega (arith, count-snoc p i a rows)

  set_same : (i : ℕ) (a : A) (rows : List (ℕ × A)) → lookup i rows ≡ some a → set i a rows ≡ rows
  unfolding lookup set
  set_same i a [] e = refl
  set_same i a ((k, c) ∷ rows) e = ground (arith, set_same i a rows)

  find_first-lookup :
      (p : A → Bool) (i : ℕ) (a : A) (rows : List (ℕ × A))
      → IsKeyed rows
      → find_first p rows ≡ some (i, a)
      → (lookup i rows ≡ some a) × (p a ≡ true)
  unfolding lookup find_first
  find_first-lookup p i a [] h e = cc
  find_first-lookup p i a ((k, b) ∷ rows) h e = elim (Bool-cases (p b)) [
    | inl hit ↦ ground arith
    | inr miss ↦ ground (arith, find_first-lookup p i a rows h.1)
  ]

  find_first-none :
      (p : A → Bool) (rows : List (ℕ × A)) → find_first p rows ≡ none → count p rows ≡ 0
  unfolding find_first count
  find_first-none p [] e = refl
  find_first-none p ((k, b) ∷ rows) e = ground (arith, find_first-none p rows)

  pub count_pos :
      (p : A → Bool) (i : ℕ) (a : A) (rows : List (ℕ × A))
      → lookup i rows ≡ some a
      → p a ≡ true
      → 0 < count p rows
  unfolding lookup count
  count_pos p i a [] e h = cc
  count_pos p i a ((k, b) ∷ rows) e h = ground (arith, count_pos p i a rows)

  -- The laws over whole tables.
  pub get-update :
      (t : Table A) (i j : ℕ) (a b : A)
      → get t i ≡ some b
      → get (update t i a) j ≡ (if i == j then some a else get t j)
  unfolding get update
  get-update t i j a b e = ground (arith, lookup-set i j a t.rows)

  pub get-update_self :
      (t : Table A) (i : ℕ) (a b : A) → get t i ≡ some b → get (update t i a) i ≡ some a
  get-update_self t i a b e = ground (arith, get-update t i i a b e)

  pub next_id-update : (t : Table A) (i : ℕ) (a : A) → (update t i a).next_id ≡ t.next_id
  unfolding update
  next_id-update t i a = refl

  pub next_id-insert : (t : Table A) (a : A) → (insert t a).next_id ≡ suc t.next_id
  unfolding insert
  next_id-insert t a = refl

  -- Writing the row that is there changes nothing.
  pub update_same : (t : Table A) (i : ℕ) (a : A) → get t i ≡ some a → update t i a ≡ t
  unfolding get update
  update_same t i a e = ground (arith, set_same i a t.rows e)

  pub get-insert :
      (t : Table A) (j : ℕ) (a : A)
      → IsTable t
      → get (insert t a) j ≡ (if t.next_id == j then some a else get t j)
  unfolding get insert
  get-insert t j a h = ground (arith, lookup-snoc t.next_id j a t.rows, h.below t.next_id)

  pub get-lt : (t : Table A) (i : ℕ) (a : A) → IsTable t → get t i ≡ some a → i < t.next_id
  get-lt t i a h e = ground (arith, h.below i)

  pub update-IsTable : (t : Table A) (i : ℕ) (a : A) → IsTable t → IsTable (update t i a)
  unfolding get update
  update-IsTable t i a h = record {
    keyed = set-IsKeyed i a t.rows h.keyed;
    below = λ j le. ground (arith, lookup-set i j a t.rows, h.below j le);
  }

  pub insert-IsTable : (t : Table A) (a : A) → IsTable t → IsTable (insert t a)
  unfolding get insert
  insert-IsTable t a h = record {
    keyed = snoc-IsKeyed t.next_id a t.rows h.keyed (h.below t.next_id (omega arith));
    below = λ j le. ground (arith, lookup-snoc t.next_id j a t.rows, h.below j (omega arith));
  }

  pub count_where-update :
      (p : A → Bool) (t : Table A) (i : ℕ) (a b : A)
      → get t i ≡ some b
      → count_where p (update t i a) + indicator (p b) ≡ count_where p t + indicator (p a)
  unfolding get update count_where
  count_where-update p t i a b e = count-set p i a b t.rows e

  pub count_where-insert :
      (p : A → Bool) (t : Table A) (a : A)
      → count_where p (insert t a) ≡ count_where p t + indicator (p a)
  unfolding insert count_where
  count_where-insert p t a = count-snoc p t.next_id a t.rows

  pub count_where_pos :
      (p : A → Bool) (t : Table A) (i : ℕ) (a : A)
      → get t i ≡ some a
      → p a ≡ true
      → 0 < count_where p t
  unfolding get count_where
  count_where_pos p t i a e h = count_pos p i a t.rows e h

  pub first_where-get :
      (p : A → Bool) (t : Table A) (i : ℕ) (a : A)
      → IsTable t
      → first_where p t ≡ some (i, a)
      → (get t i ≡ some a) × (p a ≡ true)
  unfolding get first_where
  first_where-get p t i a h e = find_first-lookup p i a t.rows h.keyed e

  pub first_where-none : (p : A → Bool) (t : Table A) → first_where p t ≡ none → count_where p t ≡ 0
  unfolding first_where count_where
  first_where-none p t e = find_first-none p t.rows e

  earliest-none :
      (p : A → Bool) (key : A → ℕ) (j : ℕ) (b : A) (rows : List (ℕ × A))
      → earliest p key rows ≡ none
      → lookup j rows ≡ some b
      → p b ≡ true
      → ⊥
  unfolding earliest lookup
  earliest-none p key j b [] e h q = cc
  earliest-none p key j b ((k, c) ∷ rows) e h q = ground (arith, earliest-none p key j b rows)

  earliest-first :
      (p : A → Bool) (key : A → ℕ) (i j : ℕ) (a b : A) (rows : List (ℕ × A))
      → earliest p key rows ≡ some (i, a)
      → lookup j rows ≡ some b
      → p b ≡ true
      → comes_before key (j, b) (i, a) ≡ false
  unfolding earliest lookup
  earliest-first p key i j a b [] e h q = cc
  earliest-first p key i j a b ((k, c) ∷ rows) e h q = elim (Option-cases (earliest p key rows)) [
    | inl none_left ↦ ground (arith, earliest-none p key j b rows none_left)
    | inr (best, found) ↦ ground (arith, earliest-first p key best.0 j best.1 b rows)
  ]

  earliest-lookup :
      (p : A → Bool) (key : A → ℕ) (i : ℕ) (a : A) (rows : List (ℕ × A))
      → IsKeyed rows
      → earliest p key rows ≡ some (i, a)
      → (lookup i rows ≡ some a) × (p a ≡ true)
  unfolding earliest lookup
  earliest-lookup p key i a [] h e = cc
  earliest-lookup p key i a ((k, c) ∷ rows) h e = elim (Option-cases (earliest p key rows)) [
    | inl none_left ↦ ground arith
    | inr (best, found) ↦ ground (arith, earliest-lookup p key best.0 best.1 rows h.1)
  ]

  -- No row that satisfies `p` comes before the one that `earliest_where` gives.
  pub earliest_where-first :
      (p : A → Bool) (key : A → ℕ) (t : Table A) (i j : ℕ) (a b : A)
      → earliest_where p key t ≡ some (i, a)
      → get t j ≡ some b
      → p b ≡ true
      → comes_before key (j, b) (i, a) ≡ false
  unfolding earliest_where get
  earliest_where-first p key t i j a b e h q = earliest-first p key i j a b t.rows e h q

  pub earliest_where-get :
      (p : A → Bool) (key : A → ℕ) (t : Table A) (i : ℕ) (a : A)
      → IsTable t
      → earliest_where p key t ≡ some (i, a)
      → (get t i ≡ some a) × (p a ≡ true)
  unfolding earliest_where get
  earliest_where-get p key t i a h e = earliest-lookup p key i a t.rows h.keyed e
