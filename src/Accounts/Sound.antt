-- ===== src/Accounts/Sound.antt =====
-- What holds of the accounts at all times.
pub mod Challenges
pub mod Identity
pub mod Sessions
pub mod Codes
pub mod Members
pub mod Edits
use stranger_club.Base.{ℕ, ◌≤◌, ◌≡◌, String, some, indicator, is_some}
use stranger_club.Db.Query.{Table, get, count_where}
use stranger_club.Db.Query.Laws.{IsTable}
use stranger_club.Avatars.{PlayerProfile, profile_of}
use stranger_club.Avatars.Unique.{OneOwner}
use stranger_club.Access.{LoginSession}
use stranger_club.Accounts.{OtpChallenge, Account, Accounts, has_phone, has_email}
use stranger_club.Accounts.Otp.{otp_max_attempts, is_open_of}
use stranger_club.Accounts.Login.{has_token}

-- A phone has one open challenge at most, and no code is tried more than five times.
pub record ChallengesSound (t : Table OtpChallenge) : Type 0 where
  pub table : IsTable t
  pub single : (phone : String) → count_where (is_open_of phone) t ≤ 1
  pub bounded : (i : ℕ) (c : OtpChallenge) → get t i ≡ some c → c.attempts ≤ otp_max_attempts

-- An email and a phone belong to one account at most, whatever their case, and every account has
-- exactly one profile.
pub record IdentitySound (users : Table Account) (profiles : Table PlayerProfile) : Type 0 where
  pub table : IsTable users
  pub avatars : OneOwner profiles
  pub one_email : (email : String) → count_where (has_email email) users ≤ 1
  pub one_phone : (phone : String) → count_where (has_phone phone) users ≤ 1
  pub one_profile :
      (id : ℕ) → count_where (profile_of id) profiles ≡ indicator (is_some (get users id))

pub record SessionsSound (t : Table LoginSession) : Type 0 where
  pub table : IsTable t
  pub one_token : (hash : String) → count_where (has_token hash) t ≤ 1

pub record Sound (d : Accounts) : Type 0 where
  pub challenges : ChallengesSound d.challenges
  pub identity : IdentitySound d.users d.profiles
  pub sessions : SessionsSound d.sessions
