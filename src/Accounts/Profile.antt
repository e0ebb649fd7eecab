-- ===== src/Accounts/Profile.antt =====
-- `update_profile` in backend/app/routers/player_auth.py. A field that is left out is `none`, a null
-- is `some none`.
pub mod Updated
use stranger_club.Base.{
  ℕ, String, Bool, true, false, not, ◌||◌, Option, none, some, ◌==◌, is_some, or_default,
  if◌then◌else◌,
}
use stranger_club.Db.Query.{Table, get, update, delete, count_where, first_where}
use stranger_club.Db.Status.{Position}
use stranger_club.Exec.{
  integrity_error, runtime_error, Exec, pure, or_raise, gets, require, modify, commit, ◌>>=◌, ◌>>◌,
  except_integrity,
}
use stranger_club.Avatars.{PlayerProfile, profile_of}
use stranger_club.Schemas.Emails.{lower}
use stranger_club.Accounts.{Account, Accounts, has_email, text_is}
use stranger_club.Accounts.Passwords.{email_taken}

-- schemas.PlayerProfileUpdate, after its validators; a null email is an email that is left out.
pub record ProfileUpdate : Type 0 where
  pub display_name : Option (Option String)
  pub cricket_role : Option (Option Position)
  pub skill_rating : Option (Option ℕ)
  pub bio : Option (Option String)
  pub phone : Option (Option String)
  pub email : Option String

-- What `model_dump(exclude_unset=True)` keeps beside the email.
abbrev pub has_fields : ProfileUpdate → Bool
has_fields p =
    is_some p.display_name
    || is_some p.cricket_role
    || is_some p.skill_rating
    || is_some p.bio
    || is_some p.phone

abbrev pub role_or : Option (Option Position) → Position → Position
role_or none role = role
role_or (some none) role = role
role_or (some (some new)) role = new

-- `cricket_role` is NOT NULL.
abbrev pub is_null_role : Option (Option Position) → Bool
is_null_role (some none) = true
is_null_role _ = false

unfoldable pub edited_profile : ProfileUpdate → PlayerProfile → PlayerProfile
edited_profile p row = record row {
  display_name = or_default p.display_name row.display_name;
  cricket_role = role_or p.cricket_role row.cricket_role;
  skill_rating = or_default p.skill_rating row.skill_rating;
  bio = or_default p.bio row.bio;
  phone = or_default p.phone row.phone;
}

-- The email that is written, if it is given and new.
unfoldable pub new_email : ProfileUpdate → Account → Option String
new_email p player = elim p.email [
  | none ↦ none
  | some email ↦ if text_is player.email email then none else some email
]

-- `WHERE lower(email) = ... AND id != ...`
abbrev pub email_is_free : ℕ → Option String → Accounts → Bool
email_is_free id none d = true
email_is_free id (some email) d = count_where (has_email email) (delete d.users id) == 0

-- `uq_users_email_lower` beside the other accounts
abbrev pub index_is_free : ℕ → Option String → Accounts → Bool
index_is_free id none d = true
index_is_free id (some email) d = count_where (has_email (lower email)) (delete d.users id) == 0

abbrev pub with_email : Option String → Account → Account
with_email none a = a
with_email (some email) a = record a { email = some email }

abbrev pub edit_row :
    ProfileUpdate → Option (ℕ × PlayerProfile) → Table PlayerProfile → Table PlayerProfile
edit_row p none t = t
edit_row p (some (k, row)) t = update t k (edited_profile p row)

-- The flush of both rows, under `uq_users_email_lower` and the NOT NULL of `cricket_role`.
unfoldable pub flush_profile :
    ℕ → ProfileUpdate → Account → Option (ℕ × PlayerProfile) → Exec Accounts (Unit {0})
flush_profile id p player row = do
  free ← gets (index_is_free id (new_email p player))
  require free integrity_error
  require (not (is_null_role p.cricket_role)) integrity_error
  modify (λ d. record d {
    users = update d.users id (with_email (new_email p player) player);
    profiles = edit_row p row d.profiles;
  })

-- `update_profile`; `before` is the database that the query on emails reads, which takes no lock.
unfoldable pub update_profile :
    (id : ℕ) (before : Accounts) → ProfileUpdate → Exec Accounts PlayerProfile
update_profile id before p = do
  player? ← gets (λ d. get d.users id)
  player ← or_raise player? runtime_error
  row ← gets (λ d. first_where (profile_of id) d.profiles)
  require (email_is_free id (new_email p player) before) email_taken
  require (not (has_fields p) || is_some row) runtime_error
  except_integrity email_taken (flush_profile id p player row)
  commit
  found ← or_raise row runtime_error
  pure (edited_profile p found.1)
