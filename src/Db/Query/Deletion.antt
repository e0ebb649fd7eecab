-- ===== src/Db/Query/Deletion.antt =====
-- What the queries of a table return after a DELETE, and after an UPDATE that finds no row.
use stranger_club.Base.{
  ℕ, ◌+◌, ◌≡◌, refl, Bool, none, some, List, [], ◌∷◌, ◌==◌, if◌then◌else◌, indicator, arith, inl,
  inr, Bool-cases,
}
use stranger_club.Db.Query.{Table, lookup, count, remove, set, update, get, count_where, delete}
use stranger_club.Db.Query.Laws.{IsKeyed, IsTable}

module _ {ℓ} {A : Type ℓ} where
  lookup-remove :
      (i j : ℕ) (rows : List (ℕ × A))
      → lookup j (remove i rows) ≡ (if i == j then none else lookup j rows)
  unfolding lookup remove
  lookup-remove i j [] = ground arith
  lookup-remove i j ((k, a) ∷ rows) = ground (arith, lookup-remove i j rows)

  -- Deleting a key that is not there changes no count.
  count-remove_absent :
      (p : A → Bool) (i : ℕ) (rows : List (ℕ × A))
      → lookup i rows ≡ none
      → count p (remove i rows) ≡ count p rows
  unfolding lookup remove count
  count-remove_absent p i [] e = refl
  count-remove_absent p i ((k, a) ∷ rows) e = ground (arith, count-remove_absent p i rows)

  count-remove :
      (p : A → Bool) (i : ℕ) (a : A) (rows : List (ℕ × A))
      → IsKeyed rows
      → lookup i rows ≡ some a
      → count p (remove i rows) + indicator (p a) ≡ count p rows
  unfolding lookup remove count
  count-remove p i a [] h e = cc
  count-remove p i a ((k, b) ∷ rows) h e =
      ground (arith, count-remove p i a rows h.1, count-remove_absent p i rows)

  remove-IsKeyed : (i : ℕ) (rows : List (ℕ × A)) → IsKeyed rows → IsKeyed (remove i rows)
  unfolding remove
  remove-IsKeyed i [] h = tt
  remove-IsKeyed i ((k, a) ∷ rows) h = elim (Bool-cases (k == i)) [
    | inl e ↦ rw e (remove-IsKeyed i rows h.1)
    | inr e ↦ rw e (ground (arith, lookup-remove i k rows, h.0), remove-IsKeyed i rows h.1)
  ]

  pub delete-IsTable : (t : Table A) (i : ℕ) → IsTable t → IsTable (delete t i)
  unfolding get delete
  delete-IsTable t i h = record {
    keyed = remove-IsKeyed i t.rows h.keyed;
    below = λ j le. ground (arith, lookup-remove i j t.rows, h.below j le);
  }

  pub get-delete : (t : Table A) (i j : ℕ) → get (delete t i) j ≡ (if i == j then none else get t j)
  unfolding get delete
  get-delete t i j = lookup-remove i j t.rows

  pub count_where-delete :
      (p : A → Bool) (t : Table A) (i : ℕ) (a : A)
      → IsTable t
      → get t i ≡ some a
      → count_where p (delete t i) + indicator (p a) ≡ count_where p t
  unfolding get delete count_where
  count_where-delete p t i a h e = count-remove p i a t.rows h.keyed e

  set_absent : (i : ℕ) (a : A) (rows : List (ℕ × A)) → lookup i rows ≡ none → set i a rows ≡ rows
  unfolding lookup set
  set_absent i a [] e = refl
  set_absent i a ((k, b) ∷ rows) e = ground (arith, set_absent i a rows)

  pub update_absent : (t : Table A) (i : ℕ) (a : A) → get t i ≡ none → update t i a ≡ t
  unfolding get update
  update_absent t i a e = ground (arith, set_absent i a t.rows e)
