-- ===== src/Db/Query/Bulk.antt =====
-- The laws of UPDATE over several rows, and of ORDER BY ... DESC LIMIT 1.
use stranger_club.Base.{
  ◌++◌, inl, inr, Bool-cases, ℕ, ◌≤◌, ◌≡◌, refl, Bool, true, false, ◌∙◌, Option, none, some, List,
  [], ◌∷◌, if◌then◌else◌, arith,
}
use stranger_club.Db.Query.{
  insert, first_where, find_first, Table, lookup, count, set_all, latest, get, count_where,
  update_where, latest_where, remove_all, delete_where,
}
use stranger_club.Db.Query.Laws.{IsKeyed, IsTable, count_pos}

module _ {ℓ} {A : Type ℓ} where
  -- The row that an UPDATE leaves in the place of another.
  abbrev pub updated_row : (A → Bool) → (A → A) → A → A
  updated_row p f a = if p a then f a else a

  abbrev pub updated_row? : (A → Bool) → (A → A) → Option A → Option A
  updated_row? p f none = none
  updated_row? p f (some a) = some (updated_row p f a)

  lookup-set_all :
      (p : A → Bool) (f : A → A) (i : ℕ) (rows : List (ℕ × A))
      → lookup i (set_all p f rows) ≡ updated_row? p f (lookup i rows)
  unfolding lookup set_all
  lookup-set_all p f i [] = refl
  lookup-set_all p f i ((j, a) ∷ rows) = ground (arith, lookup-set_all p f i rows)

  set_all-IsKeyed :
      (p : A → Bool) (f : A → A) (rows : List (ℕ × A)) → IsKeyed rows → IsKeyed (set_all p f rows)
  unfolding set_all
  set_all-IsKeyed p f [] k = tt
  set_all-IsKeyed p f ((j, a) ∷ rows) k =
      (ground (arith, lookup-set_all p f j rows, k.0), set_all-IsKeyed p f rows k.1)

  count-set_all :
      (q r p : A → Bool) (f : A → A) (rows : List (ℕ × A))
      → ((a : A) → q (updated_row p f a) ≡ r a)
      → count q (set_all p f rows) ≡ count r rows
  unfolding count set_all
  count-set_all q r p f [] h = refl
  count-set_all q r p f ((j, a) ∷ rows) h = ground (arith, h a, count-set_all q r p f rows h)

  count_never : (p : A → Bool) (rows : List (ℕ × A)) → ((a : A) → p a ≡ false) → count p rows ≡ 0
  unfolding count
  count_never p [] h = refl
  count_never p ((j, a) ∷ rows) h = ground (arith, h a, count_never p rows h)

  count-le :
      (p q : A → Bool) (rows : List (ℕ × A))
      → ((a : A) → p a ≡ true → q a ≡ true)
      → count p rows ≤ count q rows
  unfolding count
  count-le p q [] h = omega arith
  count-le p q ((j, a) ∷ rows) h = ground (arith, h a, count-le p q rows h)

  lookup-remove_all :
      (p : A → Bool) (i : ℕ) (rows : List (ℕ × A))
      → lookup i rows ≡ none
      → lookup i (remove_all p rows) ≡ none
  unfolding lookup remove_all
  lookup-remove_all p i [] e = e
  lookup-remove_all p i ((j, a) ∷ rows) e = ground (arith, lookup-remove_all p i rows)

  remove_all-IsKeyed :
      (p : A → Bool) (rows : List (ℕ × A)) → IsKeyed rows → IsKeyed (remove_all p rows)
  unfolding remove_all
  remove_all-IsKeyed p [] k = tt
  remove_all-IsKeyed p ((j, a) ∷ rows) k = elim (Bool-cases (p a)) [
    | inl e ↦ rw e (remove_all-IsKeyed p rows k.1)
    | inr e ↦ rw e (lookup-remove_all p j rows k.0, remove_all-IsKeyed p rows k.1)
  ]

  count-remove_all :
      (q p : A → Bool) (rows : List (ℕ × A)) → count q (remove_all p rows) ≤ count q rows
  unfolding count remove_all
  count-remove_all q p [] = omega arith
  count-remove_all q p ((j, a) ∷ rows) = ground (arith, count-remove_all q p rows)

  latest-lookup :
      (p : A → Bool) (key : A → ℕ) (i : ℕ) (a : A) (rows : List (ℕ × A))
      → IsKeyed rows
      → latest p key rows ≡ some (i, a)
      → (lookup i rows ≡ some a) × (p a ≡ true)
  unfolding latest lookup
  latest-lookup p key i a [] k e = cc
  latest-lookup p key i a ((j, b) ∷ rows) k e = grind (arith, latest-lookup p key i a rows k.1)

  latest-none :
      (p : A → Bool) (key : A → ℕ) (rows : List (ℕ × A))
      → latest p key rows ≡ none
      → count p rows ≡ 0
  unfolding latest count
  latest-none p key [] e = refl
  latest-none p key ((j, b) ∷ rows) e = ground (arith, latest-none p key rows)

  count_unique :
      (p : A → Bool) (i j : ℕ) (a b : A) (rows : List (ℕ × A))
      → count p rows ≤ 1
      → lookup i rows ≡ some a
      → p a ≡ true
      → lookup j rows ≡ some b
      → p b ≡ true
      → i ≡ j
  unfolding count lookup
  count_unique p i j a b [] small e h e' h' = cc
  count_unique p i j a b ((k, c) ∷ rows) small e h e' h' =
      ground (arith, count_pos p i a rows, count_pos p j b rows, count_unique p i j a b rows)

  pub get-update_where :
      (p : A → Bool) (f : A → A) (t : Table A) (i : ℕ)
      → get (update_where p f t) i ≡ updated_row? p f (get t i)
  unfolding get update_where
  get-update_where p f t i = lookup-set_all p f i t.rows

  pub update_where-IsTable :
      (p : A → Bool) (f : A → A) (t : Table A) → IsTable t → IsTable (update_where p f t)
  unfolding get update_where
  update_where-IsTable p f t h = record {
    keyed = set_all-IsKeyed p f t.rows h.keyed;
    below = λ i le. ground (arith, lookup-set_all p f i t.rows, h.below i le);
  }

  -- A count after an UPDATE, as a count before it.
  pub count_where-update_where :
      (q r p : A → Bool) (f : A → A) (t : Table A)
      → ((a : A) → q (updated_row p f a) ≡ r a)
      → count_where q (update_where p f t) ≡ count_where r t
  unfolding count_where update_where
  count_where-update_where q r p f t h = count-set_all q r p f t.rows h

  pub next_id-update_where :
      (p : A → Bool) (f : A → A) (t : Table A) → (update_where p f t).next_id ≡ t.next_id
  unfolding update_where
  next_id-update_where p f t = refl

  -- No row satisfies a test that an UPDATE turns off.
  pub count_where-update_where_off :
      (q p : A → Bool) (f : A → A) (t : Table A)
      → ((a : A) → q (updated_row p f a) ≡ false)
      → count_where q (update_where p f t) ≡ 0
  unfolding count_where update_where
  count_where-update_where_off q p f t h =
      count-set_all q (λ a. false) p f t.rows h ∙ count_never (λ a. false) t.rows (λ a. refl)

  pub count_where-le :
      (p q : A → Bool) (t : Table A)
      → ((a : A) → p a ≡ true → q a ≡ true)
      → count_where p t ≤ count_where q t
  unfolding count_where
  count_where-le p q t h = count-le p q t.rows h

  pub delete_where-IsTable : (p : A → Bool) (t : Table A) → IsTable t → IsTable (delete_where p t)
  unfolding get delete_where
  delete_where-IsTable p t h = record {
    keyed = remove_all-IsKeyed p t.rows h.keyed;
    below = λ i le. lookup-remove_all p i t.rows (h.below i le);
  }

  pub count_where-delete_where :
      (q p : A → Bool) (t : Table A) → count_where q (delete_where p t) ≤ count_where q t
  unfolding count_where delete_where
  count_where-delete_where q p t = count-remove_all q p t.rows

  pub latest_where-get :
      (p : A → Bool) (key : A → ℕ) (t : Table A) (i : ℕ) (a : A)
      → IsTable t
      → latest_where p key t ≡ some (i, a)
      → (get t i ≡ some a) × (p a ≡ true)
  unfolding get latest_where
  latest_where-get p key t i a h e = latest-lookup p key i a t.rows h.keyed e

  pub latest_where-none :
      (p : A → Bool) (key : A → ℕ) (t : Table A) → latest_where p key t ≡ none → count_where p t ≡ 0
  unfolding latest_where count_where
  latest_where-none p key t e = latest-none p key t.rows e

  -- Where at most one row satisfies a test, two that do are one.
  pub count_where_unique :
      (p : A → Bool) (t : Table A) (i j : ℕ) (a b : A)
      → count_where p t ≤ 1
      → get t i ≡ some a
      → p a ≡ true
      → get t j ≡ some b
      → p b ≡ true
      → i ≡ j
  unfolding get count_where
  count_where_unique p t i j a b small e h e' h' = count_unique p i j a b t.rows small e h e' h'

  find_first-snoc :
      (p : A → Bool) (k : ℕ) (a : A) (rows : List (ℕ × A))
      → count p rows ≡ 0
      → p a ≡ true
      → find_first p (rows ++ (k, a) ∷ []) ≡ some (k, a)
  unfolding find_first count
  find_first-snoc p k a [] none_yet h = rw h refl
  find_first-snoc p k a ((j, b) ∷ rows) none_yet h =
      ground (arith, none_yet, h, find_first-snoc p k a rows)

  -- Where no row satisfies a test, a new one that does is the first.
  pub first_where-insert :
      (p : A → Bool) (t : Table A) (a : A)
      → count_where p t ≡ 0
      → p a ≡ true
      → first_where p (insert t a) ≡ some (t.next_id, a)
  unfolding first_where insert count_where
  first_where-insert p t a none_yet h = find_first-snoc p t.next_id a t.rows none_yet h
