-- ===== src/Accounts/Otp/Requested.antt =====
-- A code that has been requested, then verified, then sent once more.
use stranger_club.Base.{
  ◌+◌, ap, ℕ, ◌<◌, ◌≡◌, refl, String, true, some, eq_iff, arith, ◌==◌, inl, inr, Bool-cases,
}
use stranger_club.Db.Query.{get, count_where, update_where}
use stranger_club.Db.Query.Laws.{IsTable, get-insert, insert-IsTable, count_where-insert}
use stranger_club.Db.Query.Bulk.{
  update_where-IsTable, count_where_unique, next_id-update_where, count_where-update_where_off,
}
use stranger_club.Exec.{Error, Result, ok, err, run, ◌>>=◌}
use stranger_club.Accounts.{OtpChallenge, Accounts, Hashing}
use stranger_club.Accounts.Otp.{
  otp_expiry, invalid_otp, is_open_of, consumed, new_challenge, request_otp, verify_otp,
}
use stranger_club.Accounts.Otp.Verified.{
  verify_otp-Verified, Verified, Refused, missing, expired, locked, missed, IfVerified,
}
use stranger_club.Accounts.Sound.{Sound}
use stranger_club.Accounts.Sound.Codes.{request_otp-Sound, verify_otp-Sound}

-- The one challenge of a phone that is open.
pub record OnlyOpen (phone : String) (i : ℕ) (c : OtpChallenge) (d : Accounts) : Type 0 where
  pub challenges : IsTable d.challenges
  pub users : IsTable d.users
  pub found : get d.challenges i ≡ some c
  pub of_phone : is_open_of phone c ≡ true
  pub count : count_where (is_open_of phone) d.challenges ≡ 1

module _ (h : Hashing) (asked : ℕ) (phone code : String) (d : Accounts) where
  abbrev pub requested : Accounts
  requested = (run (request_otp h asked phone code) d).1

  pub request_otp-OnlyOpen :
      IsTable d.challenges
      → IsTable d.users
      → OnlyOpen phone d.challenges.next_id (new_challenge h asked phone code) requested
  unfolding request_otp run ◌>>=◌ new_challenge
  request_otp-OnlyOpen t u =
      let closed = update_where (is_open_of phone) (consumed asked) d.challenges in
      let fresh = new_challenge h asked phone code in
      let closed-IsTable =
        update_where-IsTable (is_open_of phone) (consumed asked) d.challenges t in
      record {
        challenges = insert-IsTable closed fresh closed-IsTable;
        users = u;
        found = ground (
          arith,
          get-insert closed d.challenges.next_id fresh closed-IsTable,
          next_id-update_where (is_open_of phone) (consumed asked) d.challenges,
        );
        of_phone = ground (arith, (eq_iff phone phone).1 refl);
        count = ground (
          arith,
          (eq_iff phone phone).1 refl,
          count_where-insert (is_open_of phone) closed fresh,
          count_where-update_where_off (is_open_of phone) (is_open_of phone) (consumed asked)
              d.challenges (λ c. ground arith),
        );
      }

module _ (h : Hashing) (now : ℕ) (phone code : String) (i : ℕ) (c : OtpChallenge) (d : Accounts)
    (only : OnlyOpen phone i c d) where
  abbrev pub verified : Accounts
  verified = (run (verify_otp h now phone code) d).1

  -- The open challenge is the one that a verification finds.
  is_only :
      (j : ℕ) (b : OtpChallenge)
      → get d.challenges j ≡ some b
      → is_open_of phone b ≡ true
      → (j ≡ i) × (b ≡ c)
  is_only j b found of_phone =
      let same =
        count_where_unique (is_open_of phone) d.challenges j i b c (ground (arith, only.count))
          found of_phone only.found only.of_phone in
      (same, ground (arith, same, found, only.found))

  -- The right code, in time and before five attempts, is not refused.
  not-Refused :
      (e : Error) (w : Accounts)
      → now < c.expires_at
      → c.attempts ≡ 0
      → c.code_hash ≡ h.token_hash code
      → Refused h now phone code d e w
      → ⊥
  not-Refused e w early fresh right (missing zero_open _ _) = ground (arith, zero_open, only.count)
  not-Refused e w early fresh right (expired j b found open_one late _ _) =
      ground (arith, is_only j b found open_one)
  not-Refused e w early fresh right (locked j b found open_one over _ _) =
      ground (arith, is_only j b found open_one)
  not-Refused e w early fresh right (missed j b tried wrong _ _) =
      ground
        (arith, is_only j b tried.found tried.of_phone, (eq_iff b.code_hash (h.token_hash code)).1)

  accepted :
      (r : Result ℕ) (w : Accounts)
      → now < c.expires_at
      → c.attempts ≡ 0
      → c.code_hash ≡ h.token_hash code
      → IfVerified h now phone code d r w
      → (id : ℕ) × (r ≡ ok id)
  accepted (ok id) w early fresh right v = (id, refl)
  accepted (err e) w early fresh right v = absurd (not-Refused e w early fresh right v)

  -- Once it is spent no challenge of the phone is open.
  none_left :
      (id : ℕ) (w : Accounts)
      → Verified h now phone code d id w
      → (j : ℕ) (b : OtpChallenge) → get w.challenges j ≡ some b
      → is_open_of phone b ≡ true
      → ⊥
  none_left id w v j b found open_one =
      let (same, _) = is_only v.i v.challenge v.tried.found v.tried.of_phone in
      elim (Bool-cases (j == v.i)) [
        | inl here ↦ ground (arith, v.spent, found, open_one)
        | inr other ↦
            let before = v.others j (ground (arith, other)) in
            ground (arith, is_only j b (ground (arith, before, found)) open_one)
      ]

module _ (h : Hashing) (now : ℕ) (phone code : String) (i : ℕ) (c : OtpChallenge) (d : Accounts)
    (only : OnlyOpen phone i c d) where
  -- A second verification finds no open challenge.
  replayed :
      (later : ℕ) (code' : String) (id : ℕ) (w w' : Accounts) (r : Result ℕ)
      → Verified h now phone code d id w
      → IfVerified h later phone code' w r w'
      → r ≡ err invalid_otp
  replayed later code' id w w' (ok other) v again = absurd (
      none_left h now phone code i c d only id w v again.i again.challenge again.tried.found
        again.tried.of_phone)
  replayed later code' id w w' (err e) v (missing _ is _) = ap err is
  replayed later code' id w w' (err e) v (expired _ _ _ _ _ is _) = ap err is
  replayed later code' id w w' (err e) v (locked j b found open_one _ _ _) =
      absurd (none_left h now phone code i c d only id w v j b found open_one)
  replayed later code' id w w' (err e) v (missed _ _ _ _ is _) = ap err is

  accepted_then_refused :
      (r : Result ℕ) (w : Accounts)
      → Sound w
      → (id : ℕ) × (r ≡ ok id)
      → IfVerified h now phone code d r w
      → (later : ℕ) (code' : String) → (run (verify_otp h later phone code') w).0 ≡ err invalid_otp
  accepted_then_refused (ok id) w s is v later code' =
      replayed later code' id w _ _ v
        (verify_otp-Verified h later phone code' w s.challenges.table s.identity.table)
  accepted_then_refused (err e) w s is v later code' = cc (is.1)

-- On sound accounts, a code that has been requested is accepted within five minutes, and once it has
-- been, every later code for that phone is refused until another is requested.
pub request-verify :
    (h : Hashing) (asked now : ℕ) (phone code : String) (d : Accounts)
    → Sound d
    → now < asked + otp_expiry
    → let sent = (run (request_otp h asked phone code) d).1 in
      let (answer, w) = run (verify_otp h now phone code) sent in
      ((id : ℕ) × (answer ≡ ok id))
      × ((later : ℕ) (code' : String)
          → (run (verify_otp h later phone code') w).0 ≡ err invalid_otp)
unfolding new_challenge
request-verify h asked now phone code d s early =
    let sent = (run (request_otp h asked phone code) d).1 in
    let fresh = new_challenge h asked phone code in
    let only = request_otp-OnlyOpen h asked phone code d s.challenges.table s.identity.table in
    let sound = request_otp-Sound h asked phone code d s in
    let v = verify_otp-Verified h now phone code sent sound.challenges.table sound.identity.table in
    let w = (run (verify_otp h now phone code) sent).1 in
    let first =
      accepted h now phone code d.challenges.next_id fresh sent only _ w early refl refl v in
    (
      first,
      accepted_then_refused h now phone code d.challenges.next_id fresh sent only _ w
          (verify_otp-Sound h now phone code sent sound) first v,
    )
