-- ===== src/Examples/Joined.antt =====
-- What the theorems on accounts say of two players, with a hash that keeps what it is given.
use stranger_club.Base.{
  ◌*◌, ◌+◌, ◌<◌, ℕ, ◌≤◌, ◌≡◌, refl, String, true, none, some, List, [], ◌∷◌, arith, indicator,
  is_some, if◌then◌else◌, str_eq,
}
use stranger_club.Db.Query.{
  latest, update_where, latest_where, delete, update, find_first, first_where, insert, lookup,
  count, get, count_where,
}
use stranger_club.Exec.{except_integrity, ◌>>=◌, ok, err, run}
use stranger_club.Accounts.{Accounts, Account, Hashing, OtpChallenge, has_email, has_phone}
use stranger_club.Accounts.Otp.{
  phone_account, sign_in_by_phone, check_code, new_challenge, verify_challenge, otp_max_attempts,
  invalid_otp, request_otp, verify_otp, is_open_of,
}
use stranger_club.Accounts.Otp.Verified.{IfVerified, verify_otp-Verified}
use stranger_club.Accounts.Otp.Requested.{request-verify}
use stranger_club.Accounts.Passwords.{
  signup_profile, authenticated, email_account, insert_account, Signup, email_taken,
  create_player_account, authenticate_player,
}
use stranger_club.Accounts.Passwords.Opened.{create-authenticate}
use stranger_club.Accounts.Sound.Members.{create_player_account-Sound}
use stranger_club.Accounts.Passwords.{first_avatar, insert_account, email_account}
use stranger_club.Db.Query.{lookup, insert, count}
use stranger_club.Db.Status.{Position}
use stranger_club.Exec.{◌>>=◌, except_integrity}
use stranger_club.Base.{strip, strip_left, strip_right}
use stranger_club.Accounts.Profile.{
  flush_profile, new_email, edited_profile, ProfileUpdate, update_profile,
}
use stranger_club.Accounts.Profile.Updated.{
  IfUpdated, update_profile-Updated, update_profile-null_role,
}
use stranger_club.Accounts.Login.{has_token}
use stranger_club.Accounts.Login.Limit.{
  Guess, try_login, answer_count, after_logins, answer_count_lem,
}
use stranger_club.RateLimit.{
  upserted, increment, limit_answer, enforce_rate_limit, Buckets, rate_limited,
}
use stranger_club.Accounts.Sound.{Sound}
use stranger_club.Accounts.Site.{
  handled, limited, serve, Request, otp_request, otp_verify, player_signup, serve_all,
}
use stranger_club.Accounts.Site.Safety.{serve_all-Sound}
use stranger_club.Accounts.Site.Invariants.{empty_site, empty-Sound, open-attempts, one_account}
use stranger_club.Avatars.{assign_new_avatar, owns, profile_of}
use stranger_club.Schemas.Emails.{lower_character, lower, normalize_email}

abbrev pub hashing : Hashing
hashing = record { token_hash = λ s. s; hash = λ salt p. p; verify = str_eq }

abbrev signup : Signup
signup = record { name = "Ann"; email = "Ann@Club.in"; phone = "9876543210"; password = "secret77" }

abbrev empty_accounts : Accounts
empty_accounts = empty_site.accounts

-- A player signs up by email, and another asks for a code, mistypes it, and gives it.
abbrev joining : List Request
joining =
    player_signup true 1 "ip" 0 empty_accounts signup []
      (record { existing = none; token_hash = "t1"; csrf_token = "c1" })
    ∷ otp_request true 2 "ip" "9000000000" "123456"
    ∷ otp_verify true 3 "ip" "9000000000" "111111"
        (record { existing = none; token_hash = "t2"; csrf_token = "c2" })
    ∷ otp_verify true 4 "ip" "9000000000" "123456"
        (record { existing = none; token_hash = "t3"; csrf_token = "c3" })
    ∷ []

abbrev joined : Accounts
joined = (serve_all hashing joining empty_site).accounts

joined-Sound : Sound joined
joined-Sound = serve_all-Sound hashing joining empty_site empty-Sound

open-attempts_example :
    ((phone : String) → count_where (is_open_of phone) joined.challenges ≤ 1)
    × ((i : ℕ) (c : OtpChallenge)
        → get joined.challenges i ≡ some c
        → c.attempts ≤ otp_max_attempts)
open-attempts_example = open-attempts hashing joining

one_account_example :
    ((email : String) → count_where (has_email email) joined.users ≤ 1)
    × ((phone : String) → count_where (has_phone phone) joined.users ≤ 1)
    × ((id : ℕ)
        → count_where (profile_of id) joined.profiles ≡ indicator (is_some (get joined.users id)))
    × ((design : ℕ) → count_where (owns design) joined.profiles ≤ 1)
    × ((hash : String) → count_where (has_token hash) joined.sessions ≤ 1)
one_account_example = one_account hashing joining

request-verify_example :
    let sent = (run (request_otp hashing 10 "9000000000" "654321") joined).1 in
    let (answer, w) = run (verify_otp hashing 20 "9000000000" "654321") sent in
    ((id : ℕ) × (answer ≡ ok id))
    × ((later : ℕ) (code' : String)
        → (run (verify_otp hashing later "9000000000" code') w).0 ≡ err invalid_otp)
request-verify_example =
    request-verify hashing 10 20 "9000000000" "654321" joined joined-Sound (ground arith)

-- A player has asked for a code, and gives it.
abbrev asking : List Request
asking = otp_request true 2 "ip" "9000000000" "123456" ∷ []

abbrev asked : Accounts
asked = (serve_all hashing asking empty_site).accounts

asked-Sound : Sound asked
asked-Sound = serve_all-Sound hashing asking empty_site empty-Sound

verify_otp-Verified_example :
    let (answer, w) = run (verify_otp hashing 20 "9000000000" "123456") asked in
    IfVerified hashing 20 "9000000000" "123456" asked answer w
verify_otp-Verified_example =
    verify_otp-Verified hashing 20 "9000000000" "123456" asked asked-Sound.challenges.table
      asked-Sound.identity.table

abbrev null_role : ProfileUpdate
null_role = record {
  display_name = none;
  cricket_role = some none;
  skill_rating = none;
  bio = none;
  phone = none;
  email = none;
}

abbrev account : Account
account = record {
  phone = none;
  phone_verified_at = none;
  email = some "ann@club.in";
  password_hash = some "secret77";
  is_active = true;
  last_login_at = none;
}

-- Ten logins of one client, without an account.
abbrev guess : ℕ → Guess
guess now = record {
  now = now;
  email = "ann@club.in";
  password = "guess";
  cookies = record { existing = none; token_hash = "t1"; csrf_token = "c1" };
}

abbrev guesses : List Guess
guesses =
    guess 2 ∷ guess 3 ∷ guess 4 ∷ guess 5 ∷ guess 6 ∷ guess 7 ∷ guess 8 ∷ guess 9 ∷ guess 10 ∷ []

answer_count_lem_example :
    let s : Accounts × Buckets = (empty_accounts, λ key. none) in
    (answer_count hashing 401 "ip" (guess 1 ∷ guesses) s ≡ 8)
    × (answer_count hashing 429 "ip" (guess 1 ∷ guesses) s ≡ 2)
    × (8 ≤ 10
        → (g : Guess) → g.now < 1 + 900 * 1000000
        → (try_login hashing "ip" g (after_logins hashing "ip" (guess 1 ∷ guesses) s)).0
          ≡ err rate_limited)
unfolding authenticate_player authenticated first_where find_first
answer_count_lem_example =
    answer_count_lem hashing "ip" (guess 1) guesses empty_accounts (λ key. none) refl (ground arith)
      (ground arith)

create-authenticate_example :
    let (answer, w) =
      run (create_player_account hashing 0 empty_accounts signup []) empty_accounts in
    answer ≡ ok 1
    × authenticate_player hashing " ANN@club.IN" "secret77" w
      ≡ (if str_eq "secret77" "secret77" then some 1 else none)
unfolding count_where count normalize_email lower lower_character strip strip_left strip_right
create-authenticate_example =
    create-authenticate hashing 0 empty_accounts signup [] empty_accounts " ANN@club.IN" "secret77"
      empty-Sound refl refl refl refl

abbrev signed_up : Accounts
signed_up = (run (create_player_account hashing 0 empty_accounts signup []) empty_accounts).1

signed_up-Sound : Sound signed_up
signed_up-Sound =
    create_player_account-Sound hashing 0 empty_accounts signup [] empty_accounts empty-Sound

abbrev edit : ProfileUpdate
edit = record {
  display_name = some (some "Annie");
  cricket_role = none;
  skill_rating = none;
  bio = some (some "Opening bat");
  phone = some none;
  email = some "annie@club.in";
}

update_profile-Updated_example :
    let (answer, w) = run (update_profile 1 signed_up edit) signed_up in
    IfUpdated signed_up 1 edit answer w
update_profile-Updated_example = update_profile-Updated 1 signed_up edit signed_up signed_up-Sound

update_profile-null_role_example :
    run (update_profile 1 signed_up null_role) signed_up ≡ (err email_taken, signed_up)
unfolding create_player_account insert_account run ◌>>=◌ except_integrity count_where get lookup
    insert email_account first_avatar normalize_email lower strip
update_profile-null_role_example =
    update_profile-null_role 1 signed_up null_role account signed_up signed_up-Sound refl refl refl

-- The edit of the profile succeeds, and so does the code that is given.
edited_test :
    (run (update_profile 1 signed_up edit) signed_up).0
    ≡ ok (record {
      user_id = 1;
      display_name = some "Annie";
      phone = none;
      cricket_role = Position.no_preference;
      skill_rating = none;
      bio = some "Opening bat";
      avatar_design_id = none;
    })
unfolding update_profile edited_profile new_email flush_profile create_player_account insert_account
    run ◌>>=◌ except_integrity count_where count get update delete lookup insert first_where
    find_first email_account first_avatar normalize_email lower lower_character strip
    assign_new_avatar signup_profile
edited_test = refl

verified_test : (run (verify_otp hashing 20 "9000000000" "123456") asked).0 ≡ ok 1
unfolding verify_otp verify_challenge latest_where serve_all serve limited enforce_rate_limit
    limit_answer increment upserted handled request_otp update_where new_challenge check_code
    sign_in_by_phone phone_account run ◌>>=◌ except_integrity get update lookup insert first_where
    find_first count_where count latest
verified_test = refl
