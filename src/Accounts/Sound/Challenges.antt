-- ===== src/Accounts/Sound/Challenges.antt =====
-- The challenges under the writes of `request_otp` and `verify_otp`.
use stranger_club.Base.{
  ℕ, ◌+◌, ◌≤◌, ◌≡◌, refl, String, true, some, str_eq, eq_iff, indicator, arith, inl, inr,
  Bool-cases, Option-cases, subst,
}
use stranger_club.Db.Query.{Table, get, update, insert, count_where, update_where}
use stranger_club.Db.Query.Laws.{
  get-update, get-insert, update-IsTable, insert-IsTable, count_where-update, count_where-insert,
}
use stranger_club.Db.Query.Bulk.{
  updated_row, get-update_where, update_where-IsTable, count_where-le, count_where-update_where,
  count_where-update_where_off,
}
use stranger_club.Accounts.{OtpChallenge}
use stranger_club.Accounts.Otp.{otp_max_attempts, is_open_of, is_open, consumed}
use stranger_club.Accounts.Sound.{ChallengesSound}

-- A row is written over by one that is open only if it was, with at most five attempts.
pub written-ChallengesSound :
    (t : Table OtpChallenge) (i : ℕ) (c c' : OtpChallenge)
    → ChallengesSound t
    → get t i ≡ some c
    → c'.phone ≡ c.phone
    → (is_open c' ≡ true → is_open c ≡ true)
    → c'.attempts ≤ otp_max_attempts
    → ChallengesSound (update t i c')
written-ChallengesSound t i c c' h found same opens few = record {
  table = update-IsTable t i c' h.table;
  single =
      λ phone. ground (arith, h.single phone, count_where-update (is_open_of phone) t i c' c found);
  bounded = λ j b e. ground (arith, get-update t i j c' c found, h.bounded j b);
}

module _ (phone : String) (now : ℕ) (t : Table OtpChallenge) (h : ChallengesSound t) where
  abbrev closed : Table OtpChallenge
  closed = update_where (is_open_of phone) (consumed now) t

  -- After the UPDATE of `request_otp` its phone has no open challenge, and others have no new ones.
  closed-le :
      (other : String) → count_where (is_open_of other) closed ≤ count_where (is_open_of other) t
  closed-le other =
      let kept =
        λ (c : OtpChallenge). is_open_of other (updated_row (is_open_of phone) (consumed now) c) in
      rw
        (count_where-update_where (is_open_of other) kept (is_open_of phone) (consumed now) t
          (λ c. refl))
        (count_where-le kept (is_open_of other) t (λ c e. ground arith))

  closed-zero : count_where (is_open_of phone) closed ≡ 0
  closed-zero =
      count_where-update_where_off (is_open_of phone) (is_open_of phone) (consumed now) t
        (λ c. ground arith)

  closed_then-le :
      (c : OtpChallenge) (other : String)
      → c.phone ≡ phone
      → count_where (is_open_of other) closed + indicator (is_open_of other c) ≤ 1
  closed_then-le c other e = elim (Bool-cases (str_eq phone other)) [
    | inl same ↦
        subst (λ o. count_where (is_open_of o) closed + indicator (is_open_of o c) ≤ 1)
          ((eq_iff phone other).0 same) (ground (arith, closed-zero))
    | inr differ ↦ ground (arith, closed-le other, h.single other)
  ]

  closed-bounded :
      (j : ℕ) (b : OtpChallenge) → get closed j ≡ some b → b.attempts ≤ otp_max_attempts
  closed-bounded j b e =
      let at = get-update_where (is_open_of phone) (consumed now) t j in
      elim (Option-cases (get t j)) [
        | inl missing ↦ ground (arith, at, missing)
        | inr (a, held) ↦ ground (arith, at, held, h.bounded j a held)
      ]

  pub requested-ChallengesSound :
      (c : OtpChallenge) → c.phone ≡ phone → c.attempts ≡ 0 → ChallengesSound (insert closed c)
  requested-ChallengesSound c e z =
      let closed-IsTable = update_where-IsTable (is_open_of phone) (consumed now) t h.table in
      record {
        table = insert-IsTable closed c closed-IsTable;
        single = λ other.
            ground
              (arith, count_where-insert (is_open_of other) closed c, closed_then-le c other e);
        bounded =
            λ j b found. ground (arith, get-insert closed j c closed-IsTable, closed-bounded j b);
      }
