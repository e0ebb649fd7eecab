-- ===== src/Accounts/Sound/Members.antt =====
-- Signups, logins and edits of a profile keep the accounts sound.
use stranger_club.Base.{
  ℕ, ◌≡◌, refl, Bool, true, false, some, List, eq_iff, subst, arith, sym, ◌==◌, ==→eq, ◌∙◌,
}
use stranger_club.Db.Query.{get, insert, count_where}
use stranger_club.Db.Query.Laws.{get-insert}
use stranger_club.Exec.{
  Error, Result, err, Session, Exec, integrity_error, gets, require, modify, commit, pure, run,
  ◌>>=◌, ◌>>◌, except_integrity,
}
use stranger_club.Exec.Ends.{
  Ends, Ends-pure, Ends-require, Ends-modify, Ends-commit, Ends-run, Ends-gets,
}
use stranger_club.Avatars.{Profiles, Round, assign_new_avatar}
use stranger_club.Avatars.Unique.{OneOwner, assign_new_avatar-OneOwner}
use stranger_club.Avatars.Owners.{SameOwners, owner_of, assign_new_avatar-SameOwners}
use stranger_club.Schemas.Emails.{normalize_email, lower-normalize_email}
use stranger_club.Accounts.{Accounts, Hashing, has_email}
use stranger_club.Accounts.Passwords.{
  Signup, email_taken, email_account, signup_profile, insert_account, first_avatar,
  create_player_account,
}
use stranger_club.Accounts.Sound.{Sound}
use stranger_club.Accounts.Sound.Identity.{added-IdentitySound}
use stranger_club.Accounts.Sound.Codes.{LeavesSound}

-- Avatars change, and every profile stays with its user.
pub avatars-Sound :
    (d : Accounts) (t : Profiles)
    → Sound d
    → OneOwner t
    → SameOwners d.profiles t
    → Sound (record d { profiles = t })
avatars-Sound d t s h same = record {
  challenges = s.challenges;
  identity = record {
    table = s.identity.table;
    avatars = h;
    one_email = s.identity.one_email;
    one_phone = s.identity.one_phone;
    one_profile = λ id. same.counts id ∙ s.identity.one_profile id;
  };
  sessions = s.sessions;
}

module _ (h : Hashing) (salt : ℕ) (p : Signup) where
  abbrev pub with_account : Accounts → Accounts
  with_account d = record d {
    users = insert d.users (email_account h salt p);
    profiles = insert d.profiles (signup_profile d.users.next_id p);
  }

  inserted-Sound :
      (d : Accounts)
      → Sound d
      → count_where (has_email (normalize_email p.email)) d.users ≡ 0
      → Sound (with_account d)
  unfolding email_account signup_profile
  inserted-Sound d s free = record {
    challenges = s.challenges;
    identity =
        added-IdentitySound d.users d.profiles (email_account h salt p)
          (signup_profile d.users.next_id p) s.identity refl refl
          (λ email has.
            subst (λ e. count_where (has_email e) d.users ≡ 0)
              (sym (lower-normalize_email p.email) ∙ (eq_iff _ email).0 has) free)
          (λ phone has. cc);
    sessions = s.sessions;
  }

module _ {ℓ} {A : Type ℓ} {Q : Result A → Accounts → Type 0} where
  -- A test, a write that is committed, and the `except` that answers a conflict.
  tested-Ends :
      (b : Bool) (e : Error) (n : Accounts → ℕ) (f : ℕ → Accounts → Accounts)
      (k : ℕ → Exec Accounts A) (s : Session Accounts)
      → Q (err e) s.committed
      → (b ≡ true
          → let d = f (n s.working) s.working in
            Ends Q (k (n s.working)) (record { committed = d; working = d }))
      → Ends Q
          (except_integrity e
              (require b integrity_error >> (gets n >>= λ i. modify (f i) >> (commit >> pure i)))
            >>= k)
          s
  unfolding except_integrity ◌>>=◌
  tested-Ends true e n f k s failed rest = record { holds = (rest refl).holds }
  tested-Ends false e n f k s failed rest = record { holds = failed }

  pub Ends-insert_account :
      (h : Hashing) (salt : ℕ) (p : Signup) (k : ℕ → Exec Accounts A) (s : Session Accounts)
      → Q (err email_taken) s.committed
      → (count_where (has_email (normalize_email p.email)) s.working.users ≡ 0
          → let d = with_account h salt p s.working in
            Ends Q (k s.working.users.next_id) (record { committed = d; working = d }))
      → Ends Q (except_integrity email_taken (insert_account h salt p) >>= k) s
  unfolding insert_account except_integrity ◌>>=◌
  Ends-insert_account h salt p k s failed rest = record {
    holds =
        (tested-Ends (count_where (has_email (normalize_email p.email)) s.working.users == 0)
          email_taken (λ d. d.users.next_id)
          (λ id d. record d {
            users = insert d.users (email_account h salt p);
            profiles = insert d.profiles (signup_profile id p);
          })
          k s failed (λ free. rest (==→eq _ 0 free))).holds;
  }

signed_up-Sound :
    (h : Hashing) (salt : ℕ) (p : Signup) (rounds : List Round) (d : Accounts)
    → Sound d
    → count_where (has_email (normalize_email p.email)) d.users ≡ 0
    → Sound (
        first_avatar d.profiles.next_id
          (signup_profile d.users.next_id p)
          rounds
          (with_account h salt p d))
unfolding first_avatar
signed_up-Sound h salt p rounds d s free =
    let w = with_account h salt p d in
    let row = signup_profile d.users.next_id p in
    let sound = inserted-Sound h salt p d s free in
    let own : owner_of (get w.profiles d.profiles.next_id) ≡ some row.user_id =
      ground (arith, get-insert d.profiles d.profiles.next_id row s.identity.avatars.table) in
    avatars-Sound w (assign_new_avatar d.profiles.next_id row rounds w.profiles).1 sound
      (assign_new_avatar-OneOwner d.profiles.next_id row rounds w.profiles sound.identity.avatars)
      (assign_new_avatar-SameOwners d.profiles.next_id row rounds w.profiles own)

pub create_player_account-Sound :
    (h : Hashing) (salt : ℕ) (before : Accounts) (p : Signup) (rounds : List Round) (d : Accounts)
    → Sound d
    → Sound (run (create_player_account h salt before p rounds) d).1
unfolding create_player_account
create_player_account-Sound h salt before p rounds d s = Ends-run {Q = LeavesSound} _ d (
    Ends-require _ _ _ _ s λ unseen. Ends-gets _ _ _ (
      Ends-insert_account h salt p _ _ s λ free.
        Ends-modify _ _ _
          (Ends-commit _ _ (Ends-pure _ _ (signed_up-Sound h salt p rounds d s free)))))
