-- ===== src/Accounts/Sound/Identity.antt =====
-- The accounts and profiles under the writes of signups, logins and edits.
use stranger_club.Base.{ℕ, ◌≤◌, Bool, ◌≡◌, String, true, none, some, arith, subst}
use stranger_club.Db.Query.{Table, get, update, insert, delete, count_where}
use stranger_club.Db.Query.Laws.{
  IsTable, get-update, get-insert, update-IsTable, insert-IsTable, count_where-update,
  count_where-insert,
}
use stranger_club.Db.Query.Deletion.{count_where-delete}
use stranger_club.Avatars.{PlayerProfile, profile_of, owns}
use stranger_club.Avatars.Unique.{OneOwner}
use stranger_club.Accounts.{Account, has_phone, has_email}
use stranger_club.Accounts.Sound.{IdentitySound}

-- A profile is written over by one of the same user with the same avatar.
pub edited-OneOwner :
    (t : Table PlayerProfile) (k : ℕ) (p p' : PlayerProfile)
    → OneOwner t
    → get t k ≡ some p
    → p'.avatar_design_id ≡ p.avatar_design_id
    → OneOwner (update t k p')
edited-OneOwner t k p p' h held same = record {
  table = update-IsTable t k p' h.table;
  unique =
      λ design. ground (arith, h.unique design, count_where-update (owns design) t k p' p held);
  in_catalog = λ design owned.
      ground (arith, h.in_catalog design, count_where-update (owns design) t k p' p held);
}

pub edited-IdentitySound :
    (u : Table Account) (t : Table PlayerProfile) (k : ℕ) (p p' : PlayerProfile)
    → IdentitySound u t
    → get t k ≡ some p
    → p'.avatar_design_id ≡ p.avatar_design_id
    → p'.user_id ≡ p.user_id
    → IdentitySound u (update t k p')
edited-IdentitySound u t k p p' h held same owner = record {
  table = h.table;
  avatars = edited-OneOwner t k p p' h.avatars held same;
  one_email = h.one_email;
  one_phone = h.one_phone;
  one_profile =
      λ id. ground (arith, h.one_profile id, count_where-update (profile_of id) t k p' p held);
}

-- An account is written over by one whose email and phone no other account has.
pub written-IdentitySound :
    (u : Table Account) (t : Table PlayerProfile) (id : ℕ) (a a' : Account)
    → IdentitySound u t
    → get u id ≡ some a
    → ((email : String)
        → has_email email a' ≡ true
        → count_where (has_email email) (delete u id) ≡ 0)
    → ((phone : String)
        → has_phone phone a' ≡ true
        → count_where (has_phone phone) (delete u id) ≡ 0)
    → IdentitySound (update u id a') t
written-IdentitySound u t id a a' h held emails phones = record {
  table = update-IsTable u id a' h.table;
  avatars = h.avatars;
  one_email = λ e. ground (
    arith,
    h.one_email e,
    emails e,
    count_where-delete (has_email e) u id a h.table held,
    count_where-update (has_email e) u id a' a held,
  );
  one_phone = λ p. ground (
    arith,
    h.one_phone p,
    phones p,
    count_where-delete (has_phone p) u id a h.table held,
    count_where-update (has_phone p) u id a' a held,
  );
  one_profile = λ j. ground (arith, h.one_profile j, get-update u id j a' a held);
}

-- Where one account at most satisfies a test, the others beside one that does fail it.
pub others_fail :
    (q : Account → Bool) (u : Table Account) (id : ℕ) (a : Account)
    → IsTable u
    → get u id ≡ some a
    → count_where q u ≤ 1
    → q a ≡ true
    → count_where q (delete u id) ≡ 0
others_fail q u id a t held few has = ground (arith, count_where-delete q u id a t held)

-- Where the email and the phone stay, they are still free.
pub kept-IdentitySound :
    (u : Table Account) (t : Table PlayerProfile) (id : ℕ) (a a' : Account)
    → IdentitySound u t
    → get u id ≡ some a
    → a'.email ≡ a.email
    → a'.phone ≡ a.phone
    → IdentitySound (update u id a') t
kept-IdentitySound u t id a a' h held same_email same_phone =
    written-IdentitySound u t id a a' h held
      (λ e has.
        others_fail (has_email e) u id a h.table held (h.one_email e)
          (subst (λ o. has_email e (record a' { email = o }) ≡ true) same_email has))
      (λ p has.
        others_fail (has_phone p) u id a h.table held (h.one_phone p)
          (subst (λ o. has_phone p (record a' { phone = o }) ≡ true) same_phone has))

-- An account is added with its profile.
pub added-IdentitySound :
    (u : Table Account) (t : Table PlayerProfile) (a : Account) (p : PlayerProfile)
    → IdentitySound u t
    → p.user_id ≡ u.next_id
    → p.avatar_design_id ≡ none
    → ((email : String) → has_email email a ≡ true → count_where (has_email email) u ≡ 0)
    → ((phone : String) → has_phone phone a ≡ true → count_where (has_phone phone) u ≡ 0)
    → IdentitySound (insert u a) (insert t p)
added-IdentitySound u t a p h owner bare emails phones = record {
  table = insert-IsTable u a h.table;
  avatars = record {
    table = insert-IsTable t p h.avatars.table;
    unique =
        λ design. ground (arith, h.avatars.unique design, count_where-insert (owns design) t p);
    in_catalog = λ design owned.
        ground (arith, h.avatars.in_catalog design, count_where-insert (owns design) t p);
  };
  one_email = λ e. ground (arith, h.one_email e, emails e, count_where-insert (has_email e) u a);
  one_phone = λ q. ground (arith, h.one_phone q, phones q, count_where-insert (has_phone q) u a);
  one_profile = λ id. ground (
    arith,
    h.one_profile id,
    get-insert u id a h.table,
    h.table.below u.next_id,
    count_where-insert (profile_of id) t p,
  );
}
