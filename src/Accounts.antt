-- ===== src/Accounts.antt =====
-- The accounts of players: the rows of `users`, `player_profiles`, `otp_challenges` and
-- `player_sessions` in backend/app/models.py, on which services_player.py and
-- routers/player_auth.py work.
pub mod Otp
pub mod Passwords
pub mod Profile
pub mod Login
pub mod Sound
pub mod Site
use stranger_club.Base.{
  ℕ, String, Bool, true, false, not, ◌&&◌, Option, none, some, str_eq, is_some, leb,
}
use stranger_club.Db.Query.{Table, get, insert, update, count_where, first_where}
use stranger_club.Db.Status.{Position}
use stranger_club.Exec.{Error, api_error}
use stranger_club.Access.{LoginSession}
use stranger_club.Avatars.{PlayerProfile}
use stranger_club.Schemas.Emails.{lower}

pub record OtpChallenge : Type 0 where
  pub phone : String
  pub code_hash : String
  pub expires_at : ℕ
  pub attempts : ℕ
  pub consumed_at : Option ℕ
  pub created_at : ℕ

-- A row of `users`; its key is the id.
pub record Account : Type 0 where
  pub phone : Option String
  pub phone_verified_at : Option ℕ
  pub email : Option String
  pub password_hash : Option String
  pub is_active : Bool
  pub last_login_at : Option ℕ

pub record Accounts : Type 0 where
  pub challenges : Table OtpChallenge
  pub users : Table Account
  pub profiles : Table PlayerProfile
  pub sessions : Table LoginSession

-- SHA-256 (`token_hash`) and Argon2 (`PASSWORD_HASHER`), whose `hash` draws a salt.
pub record Hashing : Type 0 where
  pub token_hash : String → String
  pub hash : (salt : ℕ) → String → String
  pub verify : String → String → Bool

-- `column = text` where the column is nullable: NULL equals nothing.
abbrev pub text_is : Option String → String → Bool
text_is none s = false
text_is (some t) s = str_eq t s

abbrev pub lowered : Option String → Option String
lowered none = none
lowered (some email) = some (lower email)

-- `WHERE phone = ...`
abbrev pub has_phone : String → Account → Bool
has_phone phone a = text_is a.phone phone

-- `WHERE lower(email) = ...`
abbrev pub has_email : String → Account → Bool
has_email email a = text_is (lowered a.email) email

-- `is_active` of the account of a session, which its foreign key makes exist.
abbrev pub active_account : Option Account → Bool
active_account none = false
active_account (some a) = a.is_active

abbrev pub active_users : Table Account → ℕ → Bool
active_users t id = active_account (get t id)

-- A PlayerProfile with the defaults of its columns.
abbrev pub new_profile : ℕ → PlayerProfile
new_profile user_id = record {
  user_id = user_id;
  display_name = none;
  phone = none;
  cricket_role = Position.no_preference;
  skill_rating = none;
  bio = none;
  avatar_design_id = none;
}
