-- ===== src/Accounts/Sound/Sessions.antt =====
-- The sessions under the writes of a login and a logout.
use stranger_club.Base.{
  ℕ, ◌≤◌, ◌≡◌, String, Option, none, some, str_eq, eq_iff, arith, inl, inr, Bool-cases, subst,
}
use stranger_club.Db.Query.{get, update, delete, Table, insert, count_where}
use stranger_club.Db.Query.Laws.{
  update-IsTable, insert-IsTable, count_where-insert, count_where-update,
}
use stranger_club.Db.Query.Deletion.{delete-IsTable, count_where-delete}
use stranger_club.Db.Query.Bulk.{delete_where-IsTable, count_where-delete_where}
use stranger_club.Access.{LoginSession}
use stranger_club.Accounts.Login.{has_token, end_session}
use stranger_club.Accounts.Sound.{SessionsSound}

pub ended-SessionsSound :
    (hash : Option String) (t : Table LoginSession)
    → SessionsSound t
    → SessionsSound (end_session hash t)
ended-SessionsSound none t h = h
ended-SessionsSound (some hash) t h = record {
  table = delete_where-IsTable (has_token hash) t h.table;
  one_token = λ other.
      ground
        (arith, h.one_token other, count_where-delete_where (has_token other) (has_token hash) t);
}

pub started-SessionsSound :
    (t : Table LoginSession) (s : LoginSession)
    → SessionsSound t
    → count_where (has_token s.token_hash) t ≡ 0
    → SessionsSound (insert t s)
started-SessionsSound t s h free = record {
  table = insert-IsTable t s h.table;
  one_token = λ hash. elim (Bool-cases (str_eq s.token_hash hash)) [
    | inl same ↦
        subst (λ o. count_where (has_token o) (insert t s) ≤ 1) ((eq_iff s.token_hash hash).0 same)
          (ground (arith, count_where-insert (has_token s.token_hash) t s))
    | inr differ ↦ ground (arith, h.one_token hash, count_where-insert (has_token hash) t s)
  ];
}

-- A session is written over by one with the same token.
pub seen-SessionsSound :
    (t : Table LoginSession) (i : ℕ) (s s' : LoginSession)
    → SessionsSound t
    → get t i ≡ some s
    → s'.token_hash ≡ s.token_hash
    → SessionsSound (update t i s')
seen-SessionsSound t i s s' h held same = record {
  table = update-IsTable t i s' h.table;
  one_token = λ hash.
      ground (arith, h.one_token hash, same, count_where-update (has_token hash) t i s' s held);
}

pub deleted-SessionsSound :
    (t : Table LoginSession) (i : ℕ) (s : LoginSession)
    → SessionsSound t
    → get t i ≡ some s
    → SessionsSound (delete t i)
deleted-SessionsSound t i s h held = record {
  table = delete-IsTable t i h.table;
  one_token = λ hash.
      ground (arith, h.one_token hash, count_where-delete (has_token hash) t i s h.table held);
}
