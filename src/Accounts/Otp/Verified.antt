-- ===== src/Accounts/Otp/Verified.antt =====
-- What `verify_otp` finds and leaves, on every branch.
use stranger_club.Base.{
  suc, ℕ, ◌≤◌, ◌<◌, ◌≡◌, ◌≢◌, refl, String, Bool, true, false, not, Option, none, some, str_eq,
  eq_iff, leb→le, leb→lt, arith,
}
use stranger_club.Db.Query.{Table, get, update, count_where, first_where, latest_where}
use stranger_club.Db.Query.Laws.{IsTable, get-update, get-update_self, get-insert, first_where-get}
use stranger_club.Db.Query.Bulk.{latest_where-get, latest_where-none}
use stranger_club.Exec.{Error, Result, ok, err, Session, run}
use stranger_club.Exec.Ends.{
  Ends, Ends-pure, Ends-raise, Ends-if, Ends-modify, Ends-commit, Ends-rollback, Ends-run,
  Ends-gets,
}
use stranger_club.Accounts.{OtpChallenge, Account, Accounts, Hashing, has_phone}
use stranger_club.Accounts.Otp.{
  otp_max_attempts, is_open_of, consumed, invalid_otp, otp_locked, attempted, write_challenge,
  phone_account, sign_in_by_phone, check_code, verify_challenge, verify_otp, commit_and_raise,
}

not-true : {b : Bool} → not b ≡ true → b ≡ false
not-true {b} h = ground arith

not-false : {b : Bool} → not b ≡ false → b ≡ true
not-false {b} h = ground arith

-- A challenge for the phone that a code can still be tried on.
pub record Tried (d : Accounts) (now : ℕ) (phone : String) (i : ℕ) (c : OtpChallenge) : Type 0 where
  pub found : get d.challenges i ≡ some c
  pub of_phone : is_open_of phone c ≡ true
  pub alive : now < c.expires_at
  pub left : c.attempts < otp_max_attempts

-- The code was right: its challenge is spent, and the account with the phone is signed in.
pub record Verified (h : Hashing) (now : ℕ) (phone code : String) (d : Accounts) (id : ℕ)
    (w : Accounts) : Type 0 where
  pub i : ℕ
  pub challenge : OtpChallenge
  pub tried : Tried d now phone i challenge
  pub right : challenge.code_hash ≡ h.token_hash code
  pub spent :
      get w.challenges i
      ≡ some (record challenge { attempts = suc challenge.attempts; consumed_at = some now })
  pub others : (j : ℕ) → j ≢ i → get w.challenges j ≡ get d.challenges j
  pub user : Account
  pub in_users : get w.users id ≡ some user
  pub has_it : has_phone phone user ≡ true
  pub verified : user.phone_verified_at ≡ some now
  pub other_users : (j : ℕ) → j ≢ id → get w.users j ≡ get d.users j

-- Why a code is refused, and what that leaves.
pub data Refused (h : Hashing) (now : ℕ) (phone code : String) (d : Accounts) (e : Error)
    (w : Accounts) : Type 0 where
  missing :
      count_where (is_open_of phone) d.challenges ≡ 0
      → e ≡ invalid_otp
      → w ≡ d
      → Refused h now phone code d e w
  expired :
      (i : ℕ) (c : OtpChallenge)
      → get d.challenges i ≡ some c
      → is_open_of phone c ≡ true
      → c.expires_at ≤ now
      → e ≡ invalid_otp
      → w ≡ d
      → Refused h now phone code d e w
  locked :
      (i : ℕ) (c : OtpChallenge)
      → get d.challenges i ≡ some c
      → is_open_of phone c ≡ true
      → otp_max_attempts ≤ c.attempts
      → e ≡ otp_locked
      → w ≡ d
      → Refused h now phone code d e w
  missed :
      (i : ℕ) (c : OtpChallenge)
      → Tried d now phone i c
      → str_eq c.code_hash (h.token_hash code) ≡ false
      → e ≡ invalid_otp
      → w ≡ write_challenge i (attempted c) d
      → Refused h now phone code d e w

abbrev pub IfVerified : Hashing → ℕ → String → String → Accounts → Result ℕ → Accounts → Type 0
IfVerified h now phone code d (ok id) w = Verified h now phone code d id w
IfVerified h now phone code d (err e) w = Refused h now phone code d e w

module _ (h : Hashing) (now : ℕ) (phone code : String) (d : Accounts) (t : IsTable d.challenges)
    (u : IsTable d.users) where
  Refused-Ends :
      (e : Error) (s : Session Accounts)
      → Refused h now phone code d e s.working
      → Ends (IfVerified h now phone code d) (commit_and_raise {A = ℕ} e) s
  Refused-Ends e s r = Ends-commit _ _ (Ends-raise e _ r)

  module _ (i : ℕ) (c : OtpChallenge) (tried : Tried d now phone i c)
      (right : c.code_hash ≡ h.token_hash code) where
    abbrev spent_table : Table OtpChallenge
    spent_table = update (update d.challenges i (attempted c)) i (consumed now (attempted c))

    signed_in :
        (w : Accounts) (id : ℕ) (user : Account)
        → w.challenges ≡ spent_table
        → get w.users id ≡ some user
        → has_phone phone user ≡ true
        → user.phone_verified_at ≡ some now
        → ((j : ℕ) → j ≢ id → get w.users j ≡ get d.users j)
        → Verified h now phone code d id w
    signed_in w id user e held has_it verified others =
        let once = get-update_self d.challenges i (attempted c) c tried.found in
        record {
          i = i;
          challenge = c;
          tried = tried;
          right = right;
          spent = rw e (
              get-update_self (update d.challenges i (attempted c)) i (consumed now (attempted c))
                (attempted c) once);
          others = λ j other. rw e (
              ground (
                arith,
                get-update (update d.challenges i (attempted c)) i j (consumed now (attempted c))
                    (attempted c) once,
                get-update d.challenges i j (attempted c) c tried.found,
              ));
          user = user;
          in_users = held;
          has_it = has_it;
          verified = verified;
          other_users = others;
        }

    abbrev spent : Accounts
    spent = record d { challenges = spent_table }

    sign_in-Ends :
        (o : Option (ℕ × Account))
        → first_where (has_phone phone) d.users ≡ o
        → Ends
            (IfVerified h now phone code d)
            (sign_in_by_phone now phone o)
            (record { committed = d; working = spent })
    unfolding sign_in_by_phone phone_account
    sign_in-Ends none e = Ends-gets _ _ _ (
        Ends-modify _ _ _ (
          Ends-modify _ _ _ (
            Ends-commit _ _ (
              Ends-pure _ _ (
                signed_in _ d.users.next_id (phone_account now phone) refl
                  (ground (arith, get-insert d.users d.users.next_id (phone_account now phone) u))
                  ((eq_iff phone phone).1 refl) refl
                  (λ j other. ground (arith, get-insert d.users j (phone_account now phone) u)))))))
    sign_in-Ends (some (id, a)) e =
        let (held, has_it) = first_where-get (has_phone phone) d.users id a u e in
        let a' : Account = record a { phone_verified_at = some now; last_login_at = some now } in
        Ends-modify _ _ _ (
          Ends-commit _ _ (
            Ends-pure _ _ (
              signed_in _ id a' refl (get-update_self d.users id a' a held) has_it refl
                (λ j other. ground (arith, get-update d.users id j a' a held)))))

  module _ (i : ℕ) (c : OtpChallenge) (tried : Tried d now phone i c) where
    check-Ends :
        Ends
          (IfVerified h now phone code d)
          (check_code h now phone code i (attempted c))
          (record { committed = d; working = write_challenge i (attempted c) d })
    unfolding check_code
    check-Ends =
        Ends-if (not (str_eq c.code_hash (h.token_hash code))) _ _ _
          (λ wrong. Refused-Ends _ _ (missed i c tried (not-true wrong) refl refl))
          (λ right. Ends-modify _ _ _ (
            Ends-gets _ _ _ (
              sign_in-Ends i c tried ((eq_iff c.code_hash (h.token_hash code)).0 (not-false right))
                _ refl)))

  challenge-Ends :
      (o : Option (ℕ × OtpChallenge))
      → latest_where (is_open_of phone) (λ c. c.created_at) d.challenges ≡ o
      → Ends
          (IfVerified h now phone code d)
          (verify_challenge h now phone code o)
          (record { committed = d; working = d })
  unfolding verify_challenge
  challenge-Ends none e =
      Refused-Ends _ _ (
        missing (latest_where-none (is_open_of phone) (λ c. c.created_at) d.challenges e) refl refl)
  challenge-Ends (some (i, c)) e =
      let (found, open_one) =
        latest_where-get (is_open_of phone) (λ c. c.created_at) d.challenges i c t e in
      Ends-if _ _ _ _
        (λ late. Refused-Ends _ _ (expired i c found open_one (leb→le _ _ late) refl refl))
        (λ early.
          Ends-if _ _ _ _
            (λ over. Refused-Ends _ _ (locked i c found open_one (leb→le _ _ over) refl refl))
            (λ under. Ends-modify _ _ _ (
              check-Ends i c (record {
                found = found;
                of_phone = open_one;
                alive = leb→lt _ _ early;
                left = leb→lt _ _ under;
              }))))

  verify-Ends :
      Ends
        (IfVerified h now phone code d)
        (verify_otp h now phone code)
        (record { committed = d; working = d })
  unfolding verify_otp
  verify-Ends = Ends-rollback _ _ (Ends-gets _ _ _ (challenge-Ends _ refl))

-- Where the keys of the challenges and users are distinct, a code is accepted only for an unspent,
-- unexpired challenge of the phone with the code's hash that has been tried fewer than five times:
-- that challenge is spent, no other changes, and the account that is signed in has the phone, now
-- verified, and no other account changes. A refusal has one of four reasons, and changes nothing but
-- the count of attempts where the code was compared.
pub verify_otp-Verified :
    (h : Hashing) (now : ℕ) (phone code : String) (d : Accounts)
    → IsTable d.challenges
    → IsTable d.users
    → let (answer, w) = run (verify_otp h now phone code) d in
      IfVerified h now phone code d answer w
verify_otp-Verified h now phone code d t u = Ends-run _ d (verify-Ends h now phone code d t u)
