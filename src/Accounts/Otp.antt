-- ===== src/Accounts/Otp.antt =====
-- One-time codes in backend/app/services_player.py: `request_otp` and `verify_otp`.
pub mod Verified
pub mod Requested
use stranger_club.Base.{
  ℕ, suc, ◌+◌, ◌*◌, String, Bool, true, false, not, ◌&&◌, Option, none, some, leb, str_eq, is_some,
  if◌then◌else◌,
}
use stranger_club.Db.Query.{Table, get, update, insert, first_where, latest_where, update_where}
use stranger_club.Db.Status.{Position}
use stranger_club.Exec.{
  Error, api_error, Exec, pure, raise, gets, require, modify, commit, rollback, ◌>>=◌, ◌>>◌,
}
use stranger_club.Avatars.{PlayerProfile}
use stranger_club.Accounts.{OtpChallenge, Account, Accounts, Hashing, has_phone, new_profile}

-- OTP_EXPIRY_MINUTES, in microseconds
abbrev pub otp_expiry : ℕ
otp_expiry = 5 * 60 * 1000000

abbrev pub otp_max_attempts : ℕ
otp_max_attempts = 5

abbrev pub is_open : OtpChallenge → Bool
is_open c = not (is_some c.consumed_at)

abbrev pub is_open_of : String → OtpChallenge → Bool
is_open_of phone c = str_eq c.phone phone && is_open c

abbrev pub consumed : ℕ → OtpChallenge → OtpChallenge
consumed now c = record c { consumed_at = some now }

unfoldable pub new_challenge : Hashing → ℕ → String → String → OtpChallenge
new_challenge h now phone code = record {
  phone = phone;
  code_hash = h.token_hash code;
  expires_at = now + otp_expiry;
  attempts = 0;
  consumed_at = none;
  created_at = now;
}

-- `request_otp`, with the code that is drawn; the message that is sent is I/O.
unfoldable pub request_otp : Hashing → ℕ → String → String → Exec Accounts (Unit {0})
request_otp h now phone code = do
  modify
      (λ d. record d { challenges = update_where (is_open_of phone) (consumed now) d.challenges })
  modify (λ d. record d { challenges = insert d.challenges (new_challenge h now phone code) })
  commit

abbrev pub invalid_otp : Error
invalid_otp = api_error 401 "INVALID_OTP"

abbrev pub otp_locked : Error
otp_locked = api_error 429 "OTP_LOCKED"

-- A refusal that keeps what has been written.
abbrev pub commit_and_raise {ℓ} : {A : Type ℓ} → Error → Exec Accounts A
commit_and_raise e = commit >> raise e

abbrev pub attempted : OtpChallenge → OtpChallenge
attempted c = record c { attempts = suc c.attempts }

abbrev pub write_challenge : ℕ → OtpChallenge → Accounts → Accounts
write_challenge i c d = record d { challenges = update d.challenges i c }

unfoldable pub phone_account : ℕ → String → Account
phone_account now phone = record {
  phone = some phone;
  phone_verified_at = some now;
  email = none;
  password_hash = none;
  is_active = true;
  last_login_at = none;
}

-- The account of a phone that has been verified: the one that has it, or a new one.
unfoldable pub sign_in_by_phone : ℕ → String → Option (ℕ × Account) → Exec Accounts ℕ
sign_in_by_phone now phone none = do
  id ← gets (λ d. d.users.next_id)
  modify (λ d. record d { users = insert d.users (phone_account now phone) })
  modify (λ d. record d { profiles = insert d.profiles (new_profile id) })
  commit
  pure id
sign_in_by_phone now phone (some (id, a)) = do
  modify (λ d. record d {
    users = update d.users id (record a { phone_verified_at = some now; last_login_at = some now });
  })
  commit
  pure id

-- The comparison of the code, once the attempt has been counted.
unfoldable pub check_code : Hashing → ℕ → String → String → ℕ → OtpChallenge → Exec Accounts ℕ
check_code h now phone code i c =
    if not (str_eq c.code_hash (h.token_hash code)) then commit_and_raise invalid_otp else do
      modify (write_challenge i (consumed now c))
      user ← gets (λ d. first_where (has_phone phone) d.users)
      sign_in_by_phone now phone user

-- `verify_otp` on the challenge that it found.
unfoldable pub verify_challenge :
    Hashing → ℕ → String → String → Option (ℕ × OtpChallenge) → Exec Accounts ℕ
verify_challenge h now phone code none = commit_and_raise invalid_otp
verify_challenge h now phone code (some (i, c)) =
    if leb c.expires_at now
    then commit_and_raise invalid_otp
    else if leb otp_max_attempts c.attempts
    then commit_and_raise otp_locked
    else do modify (write_challenge i (attempted c)); check_code h now phone code i (attempted c)

unfoldable pub verify_otp : Hashing → ℕ → String → String → Exec Accounts ℕ
verify_otp h now phone code = do
  rollback
  challenge ← gets (λ d. latest_where (is_open_of phone) (λ c. c.created_at) d.challenges)
  verify_challenge h now phone code challenge
