-- ===== src/Accounts/Passwords.antt =====
-- Accounts with an email and a password in backend/app/services_player.py:
-- `create_player_account` and `authenticate_player`.
pub mod Opened
use stranger_club.Base.{
  ℕ, String, Bool, true, false, not, ◌&&◌, Option, none, some, List, ◌==◌, str_eq, if◌then◌else◌,
}
use stranger_club.Db.Query.{insert, count_where, first_where}
use stranger_club.Exec.{
  Error, api_error, integrity_error, Exec, pure, gets, require, modify, commit, ◌>>=◌, ◌>>◌,
  except_integrity,
}
use stranger_club.Avatars.{PlayerProfile, Round, assign_new_avatar}
use stranger_club.Schemas.Emails.{normalize_email}
use stranger_club.Accounts.{Account, Accounts, Hashing, has_email, new_profile}

abbrev pub email_taken : Error
email_taken = api_error 409 "EMAIL_TAKEN"

-- schemas.PlayerSignupRequest, after its validators
pub record Signup : Type 0 where
  pub name : String
  pub email : String
  pub phone : String
  pub password : String

unfoldable pub email_account : Hashing → ℕ → Signup → Account
email_account h salt p = record {
  phone = none;
  phone_verified_at = none;
  email = some (normalize_email p.email);
  password_hash = some (h.hash salt p.password);
  is_active = true;
  last_login_at = none;
}

unfoldable pub signup_profile : ℕ → Signup → PlayerProfile
signup_profile id p = record (new_profile id) { display_name = some p.name; phone = some p.phone }

-- The INSERT of both rows, under `uq_users_email_lower`.
unfoldable pub insert_account : Hashing → ℕ → Signup → Exec Accounts ℕ
insert_account h salt p = do
  taken ← gets (λ d. count_where (has_email (normalize_email p.email)) d.users)
  require (taken == 0) integrity_error
  id ← gets (λ d. d.users.next_id)
  modify (λ d. record d {
    users = insert d.users (email_account h salt p);
    profiles = insert d.profiles (signup_profile id p);
  })
  commit
  pure id

-- The first avatar; that none is left is no failure of the signup.
unfoldable pub first_avatar : ℕ → PlayerProfile → List Round → Accounts → Accounts
first_avatar key profile rounds d = record d {
  profiles = (assign_new_avatar key profile rounds d.profiles).1;
}

-- `create_player_account`; `before` is the database that the first query reads, which takes no lock.
unfoldable pub create_player_account :
    Hashing → (salt : ℕ) (before : Accounts) → Signup → List Round → Exec Accounts ℕ
create_player_account h salt before p rounds = do
  require (count_where (has_email (normalize_email p.email)) before.users == 0) email_taken
  key ← gets (λ d. d.profiles.next_id)
  id ← except_integrity email_taken (insert_account h salt p)
  modify (first_avatar key (signup_profile id p) rounds)
  commit
  pure id

abbrev pub verifies : Hashing → Option String → String → Bool
verifies h none password = false
verifies h (some hash) password = not (str_eq hash "") && h.verify hash password

-- Whether a password opens an account: `user.is_active and user.password_hash` and the hash agrees.
unfoldable pub opens : Hashing → String → Account → Bool
opens h password a = a.is_active && verifies h a.password_hash password

unfoldable pub authenticated : Hashing → String → Option (ℕ × Account) → Option ℕ
authenticated h password none = none
authenticated h password (some (id, a)) = if opens h password a then some id else none

-- `authenticate_player`
unfoldable pub authenticate_player : Hashing → String → String → Accounts → Option ℕ
authenticate_player h email password d =
    authenticated h password (first_where (has_email (normalize_email email)) d.users)
