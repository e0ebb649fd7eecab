-- ===== src/Accounts/Sound/Codes.antt =====
-- `request_otp` and `verify_otp` keep the accounts sound.
use stranger_club.Base.{
  ℕ, ◌≡◌, refl, String, not, Option, none, some, leb, str_eq, eq_iff, subst, leb→lt,
}
use stranger_club.Db.Query.{get, update, count_where, first_where, latest_where}
use stranger_club.Db.Query.Laws.{get-update_self, first_where-get, first_where-none}
use stranger_club.Db.Query.Bulk.{latest_where-get}
use stranger_club.Exec.{Result, Session, run, ◌>>=◌}
use stranger_club.Exec.Ends.{
  Ends, Ends-pure, Ends-raise, Ends-if, Ends-modify, Ends-commit, Ends-rollback, Ends-run,
  Ends-gets,
}
use stranger_club.Accounts.{OtpChallenge, Account, Accounts, Hashing, has_phone, new_profile}
use stranger_club.Accounts.Otp.{
  otp_max_attempts, is_open_of, consumed, new_challenge, request_otp, attempted, write_challenge,
  phone_account, sign_in_by_phone, check_code, verify_challenge, verify_otp,
}
use stranger_club.Accounts.Sound.{ChallengesSound, Sound}
use stranger_club.Accounts.Sound.Challenges.{written-ChallengesSound, requested-ChallengesSound}
use stranger_club.Accounts.Sound.Identity.{kept-IdentitySound, added-IdentitySound}

abbrev pub LeavesSound {ℓ} : {A : Type ℓ} → Result A → Accounts → Type 0
LeavesSound r w = Sound w

pub request_otp-Sound :
    (h : Hashing) (now : ℕ) (phone code : String) (d : Accounts)
    → Sound d
    → Sound (run (request_otp h now phone code) d).1
unfolding request_otp run ◌>>=◌ new_challenge
request_otp-Sound h now phone code d s = record {
  challenges =
      requested-ChallengesSound phone now d.challenges s.challenges (new_challenge h now phone code)
        refl refl;
  identity = s.identity;
  sessions = s.sessions;
}

module _ (now : ℕ) (phone : String) where
  sign_in-Sound :
      (o : Option (ℕ × Account)) (s : Session Accounts)
      → Sound s.working
      → first_where (has_phone phone) s.working.users ≡ o
      → Ends LeavesSound (sign_in_by_phone now phone o) s
  unfolding sign_in_by_phone phone_account
  sign_in-Sound none s h e = Ends-gets _ _ _ (
      Ends-modify _ _ _ (
        Ends-modify _ _ _ (
          Ends-commit _ _ (
            Ends-pure _ _ (record {
              challenges = h.challenges;
              identity =
                  added-IdentitySound s.working.users s.working.profiles _
                    (new_profile s.working.users.next_id) h.identity refl refl (λ email has. cc)
                    (λ other has.
                      subst (λ p. count_where (has_phone p) s.working.users ≡ 0)
                        ((eq_iff phone other).0 has)
                        (first_where-none (has_phone phone) s.working.users e));
              sessions = h.sessions;
            })))))
  sign_in-Sound (some (id, a)) s h e =
      let (held, _) = first_where-get (has_phone phone) s.working.users id a h.identity.table e in
      Ends-modify _ _ _ (
        Ends-commit _ _ (
          Ends-pure _ _ (record {
            challenges = h.challenges;
            identity =
                kept-IdentitySound s.working.users s.working.profiles id a _ h.identity held refl
                  refl;
            sessions = h.sessions;
          })))

  written-Sound :
      (i : ℕ) (c' : OtpChallenge) (d : Accounts)
      → ChallengesSound (update d.challenges i c')
      → Sound d
      → Sound (write_challenge i c' d)
  written-Sound i c' d h s = record { challenges = h; identity = s.identity; sessions = s.sessions }

  module _ (h : Hashing) (code : String) where
    check-Sound :
        (i : ℕ) (c : OtpChallenge) (s : Session Accounts)
        → Sound s.working
        → get s.working.challenges i ≡ some c
        → Ends LeavesSound (check_code h now phone code i c) s
    unfolding check_code
    check-Sound i c s sound held =
        Ends-if (not (str_eq c.code_hash (h.token_hash code))) _ _ _
          (λ wrong. Ends-commit _ _ (Ends-raise _ _ sound))
          (λ right. Ends-modify _ _ _ (
            Ends-gets _ _ _ (
              sign_in-Sound _ _
                (written-Sound i (consumed now c) s.working
                  (written-ChallengesSound s.working.challenges i c (consumed now c)
                    sound.challenges held refl (λ e. cc) (sound.challenges.bounded i c held))
                  sound)
                refl)))

    verified-Sound :
        (o : Option (ℕ × OtpChallenge)) (s : Session Accounts)
        → Sound s.working
        → latest_where (is_open_of phone) (λ c. c.created_at) s.working.challenges ≡ o
        → Ends LeavesSound (verify_challenge h now phone code o) s
    unfolding verify_challenge
    verified-Sound none s sound e = Ends-commit _ _ (Ends-raise _ _ sound)
    verified-Sound (some (i, c)) s sound e =
        let (found, _) =
          latest_where-get (is_open_of phone) (λ c. c.created_at) s.working.challenges i c
            sound.challenges.table e in
        Ends-if (leb c.expires_at now) _ _ _ (λ late. Ends-commit _ _ (Ends-raise _ _ sound))
          (λ early.
            Ends-if (leb otp_max_attempts c.attempts) _ _ _
              (λ over. Ends-commit _ _ (Ends-raise _ _ sound))
              (λ under. Ends-modify _ _ _ (
                check-Sound i (attempted c) _
                  (written-Sound i (attempted c) s.working
                    (written-ChallengesSound s.working.challenges i c (attempted c) sound.challenges
                      found refl (λ e. e) (leb→lt _ _ under))
                    sound)
                  (get-update_self s.working.challenges i (attempted c) c found))))

pub verify_otp-Sound :
    (h : Hashing) (now : ℕ) (phone code : String) (d : Accounts)
    → Sound d
    → Sound (run (verify_otp h now phone code) d).1
unfolding verify_otp
verify_otp-Sound h now phone code d s =
    Ends-run _ d (Ends-rollback _ _ (Ends-gets _ _ _ (verified-Sound now phone h code _ _ s refl)))
