-- ===== src/Accounts/Sound/Edits.antt =====
-- Edits of a profile and new sessions keep the accounts sound.
use stranger_club.Base.{
  ℕ, ◌≡◌, refl, String, Bool, true, false, not, Option, none, some, eq_iff, subst, ==→eq,
}
use stranger_club.Db.Query.{get, update, delete, count_where, first_where}
use stranger_club.Db.Query.Laws.{first_where-get}
use stranger_club.Exec.{
  Error, Result, err, Session, Exec, integrity_error, require, modify, run, ◌>>=◌, ◌>>◌,
  except_integrity,
}
use stranger_club.Exec.Ends.{
  Ends, Ends-pure, Ends-require, Ends-modify, Ends-commit, Ends-run, Ends-found, Ends-gets,
}
use stranger_club.Avatars.{PlayerProfile, profile_of}
use stranger_club.Schemas.Emails.{lower}
use stranger_club.Accounts.{Account, Accounts, has_email, has_phone}
use stranger_club.Accounts.Passwords.{email_taken}
use stranger_club.Accounts.Profile.{
  ProfileUpdate, is_null_role, edited_profile, new_email, index_is_free, with_email, edit_row,
  flush_profile, update_profile,
}
use stranger_club.Accounts.Login.{
  Cookies, end_session, new_session, start_player_session, finish_login,
}
use stranger_club.Accounts.Sound.{IdentitySound, Sound}
use stranger_club.Accounts.Sound.Identity.{
  edited-IdentitySound, written-IdentitySound, kept-IdentitySound, others_fail,
}
use stranger_club.Accounts.Sound.Sessions.{ended-SessionsSound, started-SessionsSound}
use stranger_club.Accounts.Sound.Codes.{LeavesSound}

module _ (id : ℕ) (player : Account) (d : Accounts) (s : Sound d)
    (held : get d.users id ≡ some player) where
  email-IdentitySound :
      (o : Option String)
      → index_is_free id o d ≡ true
      → IdentitySound (update d.users id (with_email o player)) d.profiles
  email-IdentitySound none free =
      kept-IdentitySound d.users d.profiles id player player s.identity held refl refl
  email-IdentitySound (some email) free =
      written-IdentitySound d.users d.profiles id player (record player { email = some email })
        s.identity held
        (λ e has.
          subst (λ o. count_where (has_email o) (delete d.users id) ≡ 0)
            ((eq_iff (lower email) e).0 has) (==→eq _ 0 free))
        (λ phone has.
          others_fail (has_phone phone) d.users id player s.identity.table held
            (s.identity.one_phone phone) has)

  edited-Sound :
      (p : ProfileUpdate) (row : Option (ℕ × PlayerProfile)) (o : Option String)
      → index_is_free id o d ≡ true
      → first_where (profile_of id) d.profiles ≡ row
      → Sound (record d {
        users = update d.users id (with_email o player);
        profiles = edit_row p row d.profiles;
      })
  unfolding edited_profile
  edited-Sound p none o free e = record {
    challenges = s.challenges;
    identity = email-IdentitySound o free;
    sessions = s.sessions;
  }
  edited-Sound p (some (k, row)) o free e =
      let (stored, _) =
        first_where-get (profile_of id) d.profiles k row s.identity.avatars.table e in
      record {
        challenges = s.challenges;
        identity =
            edited-IdentitySound (update d.users id (with_email o player)) d.profiles k row
              (edited_profile p row) (email-IdentitySound o free) stored refl refl;
        sessions = s.sessions;
      }

module _ {ℓ} {A : Type ℓ} {Q : Result A → Accounts → Type 0} where
  two_tests-Ends :
      (b c : Bool) (e : Error) (f : Accounts → Accounts) (k : Unit {0} → Exec Accounts A)
      (s : Session Accounts)
      → Q (err e) s.committed
      → (b ≡ true → c ≡ true → Ends Q (k tt) (record s { working = f s.working }))
      → Ends Q
          (except_integrity e (require b integrity_error >> (require c integrity_error >> modify f))
            >>= k)
          s
  unfolding except_integrity ◌>>=◌
  two_tests-Ends true true e f k s failed rest = record { holds = (rest refl refl).holds }
  two_tests-Ends true false e f k s failed rest = record { holds = failed }
  two_tests-Ends false c e f k s failed rest = record { holds = failed }

  pub Ends-flush_profile :
      (id : ℕ) (p : ProfileUpdate) (player : Account) (row : Option (ℕ × PlayerProfile))
      (k : Unit {0} → Exec Accounts A) (s : Session Accounts)
      → Q (err email_taken) s.committed
      → (index_is_free id (new_email p player) s.working ≡ true
          → not (is_null_role p.cricket_role) ≡ true
          → Ends Q (k tt) (record s {
            working = record s.working {
              users = update s.working.users id (with_email (new_email p player) player);
              profiles = edit_row p row s.working.profiles;
            };
          }))
      → Ends Q (except_integrity email_taken (flush_profile id p player row) >>= k) s
  unfolding flush_profile except_integrity ◌>>=◌
  Ends-flush_profile id p player row k s failed rest = record {
    holds =
        (two_tests-Ends (index_is_free id (new_email p player) s.working)
          (not (is_null_role p.cricket_role)) email_taken
          (λ d. record d {
            users = update d.users id (with_email (new_email p player) player);
            profiles = edit_row p row d.profiles;
          })
          k s failed rest).holds;
  }

pub update_profile-Sound :
    (id : ℕ) (before : Accounts) (p : ProfileUpdate) (d : Accounts)
    → Sound d
    → Sound (run (update_profile id before p) d).1
unfolding update_profile
update_profile-Sound id before p d s = Ends-run {Q = LeavesSound} _ d (
    Ends-gets _ _ _ (
      Ends-found _ _ _ _ s λ player held. Ends-gets _ _ _ (
        Ends-require _ _ _ _ s λ unseen. Ends-require _ _ _ _ s λ has_row.
          Ends-flush_profile id p player (first_where (profile_of id) d.profiles) _ _ s λ free role.
            let sound = edited-Sound id player d s held p _ _ free refl in
            Ends-commit _ _ (Ends-found _ _ _ _ sound λ found e. Ends-pure _ _ sound))))

module _ (now id : ℕ) (c : Cookies) where
  start-Sound :
      (s : Session Accounts)
      → Sound s.committed
      → Sound s.working
      → Ends LeavesSound (start_player_session now id c) s
  unfolding start_player_session new_session
  start-Sound s h w = Ends-gets _ _ _ (
      Ends-found _ _ _ _ h λ user held. Ends-modify _ _ _ (
        Ends-gets _ _ _ (
          Ends-require _ _ _ _ h λ free. Ends-modify _ _ _ (
            Ends-commit _ _ (
              Ends-pure _ _ (record {
                challenges = w.challenges;
                identity = w.identity;
                sessions =
                    started-SessionsSound (end_session c.existing s.working.sessions) _
                      (ended-SessionsSound c.existing s.working.sessions w.sessions)
                      (==→eq _ 0 free);
              }))))))

  pub start_player_session-Sound :
      (d : Accounts) → Sound d → Sound (run (start_player_session now id c) d).1
  start_player_session-Sound d s = Ends-run {Q = LeavesSound} _ d (start-Sound _ s s)

  pub finish_login-Sound : (d : Accounts) → Sound d → Sound (run (finish_login now id c) d).1
  unfolding finish_login
  finish_login-Sound d s = Ends-run {Q = LeavesSound} _ d (
      Ends-gets _ _ _ (
        Ends-found _ _ _ _ s λ user held. Ends-modify _ _ _ (
          let sound : Sound
              (record d { users = update d.users id (record user { last_login_at = some now }) }) =
            record {
              challenges = s.challenges;
              identity = kept-IdentitySound d.users d.profiles id user _ s.identity held refl refl;
              sessions = s.sessions;
            } in
          Ends-commit _ _ (start-Sound _ sound sound))))
