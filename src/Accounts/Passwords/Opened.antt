-- ===== src/Accounts/Passwords/Opened.antt =====
-- A password opens the account that was made with it.
use stranger_club.Base.{
  ℕ, if◌then◌else◌, ◌≡◌, refl, String, true, false, none, some, List, str_eq, eq_iff, sym, ◌∙◌,
  arith, inl, inr, Option-cases, subst,
}
use stranger_club.Db.Query.{get, count_where, first_where}
use stranger_club.Db.Query.Laws.{get-insert, first_where-get, first_where-none, count_where_pos}
use stranger_club.Db.Query.Bulk.{count_where_unique}
use stranger_club.Exec.{except_integrity, ◌>>=◌, Result, ok, err, run}
use stranger_club.Exec.Ends.{Ends-pure, Ends-require, Ends-modify, Ends-commit, Ends-run, Ends-gets}
use stranger_club.Avatars.{Round}
use stranger_club.Schemas.Emails.{lower, normalize_email, lower-normalize_email}
use stranger_club.Accounts.{Account, Accounts, Hashing, has_email}
use stranger_club.Accounts.Passwords.{
  insert_account, Signup, email_account, first_avatar, create_player_account, opens, authenticated,
  authenticate_player,
}
use stranger_club.Accounts.Sound.{Sound}
use stranger_club.Accounts.Sound.Members.{Ends-insert_account, create_player_account-Sound}

abbrev IfSignedUp : Hashing → ℕ → Signup → Accounts → Result ℕ → Accounts → Type 0
IfSignedUp h salt p d (ok id) w = get w.users id ≡ some (email_account h salt p)
IfSignedUp h salt p d (err e) w = w ≡ d

signed_up :
    (h : Hashing) (salt : ℕ) (before : Accounts) (p : Signup) (rounds : List Round) (d : Accounts)
    → Sound d
    → let (answer, w) = run (create_player_account h salt before p rounds) d in
      IfSignedUp h salt p d answer w
unfolding create_player_account first_avatar
signed_up h salt before p rounds d s = Ends-run {Q = IfSignedUp h salt p d} _ d (
    Ends-require _ _ _ _ refl λ unseen. Ends-gets _ _ _ (
      Ends-insert_account h salt p _ _ refl λ free. Ends-modify _ _ _ (
        Ends-commit _ _ (
          Ends-pure _ _ (
            ground (
              arith,
              get-insert d.users d.users.next_id (email_account h salt p) s.identity.table,
            ))))))

-- On sound accounts the account with an email is the one that a query by it finds.
found_by_email :
    (email : String) (id : ℕ) (a : Account) (w : Accounts)
    → Sound w
    → get w.users id ≡ some a
    → has_email email a ≡ true
    → first_where (has_email email) w.users ≡ some (id, a)
found_by_email email id a w s held has =
    elim (Option-cases (first_where (has_email email) w.users)) [
      | inl missing ↦ absurd (
          ground (
            arith,
            first_where-none (has_email email) w.users missing,
            count_where_pos (has_email email) w.users id a held has,
          ))
      | inr ((j, b), found) ↦
          let (held', has') =
            first_where-get (has_email email) w.users j b s.identity.table found in
          let same =
            count_where_unique (has_email email) w.users j id b a (s.identity.one_email email) held'
              has' held has in
          found ∙ ground (arith, same, held, held')
    ]

stored :
    (h : Hashing) (salt : ℕ) (p : Signup) (d : Accounts) (id : ℕ) (r : Result ℕ) (w : Accounts)
    → r ≡ ok id
    → IfSignedUp h salt p d r w
    → get w.users id ≡ some (email_account h salt p)
stored h salt p d id (ok j) w e held =
    subst (λ i. get w.users i ≡ some (email_account h salt p)) (cc e) held
stored h salt p d id (err e') w e held = cc

opened :
    (h : Hashing) (salt : ℕ) (p : Signup) (id : ℕ) (email password : String) (w : Accounts)
    → Sound w
    → str_eq (h.hash salt p.password) "" ≡ false
    → get w.users id ≡ some (email_account h salt p)
    → normalize_email email ≡ normalize_email p.email
    → authenticate_player h email password w
      ≡ (if h.verify (h.hash salt p.password) password then some id else none)
unfolding authenticate_player authenticated opens email_account
opened h salt p id email password w s full held same =
    let has : has_email (normalize_email email) (email_account h salt p) ≡ true =
      (eq_iff (lower (normalize_email p.email)) (normalize_email email)).1
        (lower-normalize_email p.email ∙ sym same) in
    rw (found_by_email (normalize_email email) id (email_account h salt p) w s held has)
      (ground (arith, full))

signs_up :
    (h : Hashing) (salt : ℕ) (before : Accounts) (p : Signup) (rounds : List Round) (d : Accounts)
    → count_where (has_email (normalize_email p.email)) before.users ≡ 0
    → count_where (has_email (normalize_email p.email)) d.users ≡ 0
    → (run (create_player_account h salt before p rounds) d).0 ≡ ok d.users.next_id
unfolding create_player_account insert_account run ◌>>=◌ except_integrity
signs_up h salt before p rounds d free_before free = rw (free_before, free) refl

-- On sound accounts, where no account has the email and a hash of Argon2 is not empty, a signup
-- succeeds, and on the accounts that it leaves a login with that email, in whatever case and between
-- whatever blanks, is accepted with exactly the passwords that agree with the hash, as the new account.
pub create-authenticate :
    (h : Hashing) (salt : ℕ) (before : Accounts) (p : Signup) (rounds : List Round) (d : Accounts)
    (email password : String)
    → Sound d
    → count_where (has_email (normalize_email p.email)) before.users ≡ 0
    → count_where (has_email (normalize_email p.email)) d.users ≡ 0
    → str_eq (h.hash salt p.password) "" ≡ false
    → normalize_email email ≡ normalize_email p.email
    → let (answer, w) = run (create_player_account h salt before p rounds) d in
      answer ≡ ok d.users.next_id
      × authenticate_player h email password w
        ≡ (if h.verify (h.hash salt p.password) password then some d.users.next_id else none)
create-authenticate h salt before p rounds d email password s free_before free full same =
    let w = (run (create_player_account h salt before p rounds) d).1 in
    let made = signs_up h salt before p rounds d free_before free in
    (
      made,
      opened h salt p d.users.next_id email password w
          (create_player_account-Sound h salt before p rounds d s) full
          (stored h salt p d d.users.next_id _ w made (signed_up h salt before p rounds d s)) same,
    )
