-- ===== src/Accounts/Site/Safety.antt =====
-- The accounts over sequences of requests.
use stranger_club.Base.{
  ℕ, ◌≡◌, refl, String, Bool, Option, none, some, List, [], ◌∷◌, inl, inr, Bool-cases, arith,
}
use stranger_club.Db.Query.{Table, get, first_where}
use stranger_club.Db.Query.Laws.{first_where-get}
use stranger_club.Exec.{Result, ok, err, Exec, run}
use stranger_club.Access.{LoginSession, is_alive, check_session, auth_context}
use stranger_club.Avatars.{PlayerProfile, Profiles, profile_of, choose_avatar, assign_new_avatar}
use stranger_club.Avatars.Unique.{OneOwner, choose_avatar-OneOwner, assign_new_avatar-OneOwner}
use stranger_club.Avatars.Owners.{
  SameOwners, IsOwner, choose_avatar-SameOwners, assign_new_avatar-SameOwners,
}
use stranger_club.Accounts.{Accounts, Hashing}
use stranger_club.Accounts.Login.{Cookies, finished, player_login}
use stranger_club.Accounts.Sound.{SessionsSound, Sound}
use stranger_club.Accounts.Sound.Sessions.{
  ended-SessionsSound, seen-SessionsSound, deleted-SessionsSound,
}
use stranger_club.Accounts.Sound.Codes.{request_otp-Sound, verify_otp-Sound}
use stranger_club.Accounts.Sound.Members.{avatars-Sound, create_player_account-Sound}
use stranger_club.Accounts.Sound.Edits.{
  update_profile-Sound, start_player_session-Sound, finish_login-Sound,
}
use stranger_club.Accounts.Site.{
  active_users, Site, Route, on_ok, done, limited, handled, then_session, as_player, with_csrf,
  on_profile, own_profile, Request, end_own_session, serve, serve_all,
}

abbrev pub KeepsSound : Route → Type 0
KeepsSound route = (site : Site) → Sound site.accounts → Sound (route site).1.accounts

on_ok-Sound {ℓ} :
    {A : Type ℓ} (r : Result A) (k : A → Route) (site : Site)
    → ((a : A) → KeepsSound (k a))
    → Sound site.accounts
    → Sound (on_ok r k site).1.accounts
on_ok-Sound (ok a) k site h s = h a site s
on_ok-Sound (err e) k site h s = s

done-KeepsSound : KeepsSound done
done-KeepsSound site s = s

limited-KeepsSound :
    (up : Bool) (now : ℕ) (key : String) (limit : ℕ) (route : Route)
    → KeepsSound route
    → KeepsSound (limited up now key limit route)
unfolding limited
limited-KeepsSound up now key limit route h site s = on_ok-Sound _ _ _ (λ _. h) s

handled-KeepsSound {ℓ} :
    {A : Type ℓ} (m : Exec Accounts A) (k : A → Route)
    → ((d : Accounts) → Sound d → Sound (run m d).1)
    → ((a : A) → KeepsSound (k a))
    → KeepsSound (handled m k)
unfolding handled
handled-KeepsSound m k h hk site s = on_ok-Sound _ k _ hk (h site.accounts s)

then_session-KeepsSound : (now : ℕ) (c : Cookies) (id : ℕ) → KeepsSound (then_session now c id)
unfolding then_session
then_session-KeepsSound now c id =
    handled-KeepsSound _ _ (start_player_session-Sound now id c) (λ _. done-KeepsSound)

seen-Sound :
    (now : ℕ) (active : ℕ → Bool) (o : Option (ℕ × LoginSession)) (t : Table LoginSession)
    → SessionsSound t
    → ((i : ℕ) (s : LoginSession) → o ≡ some (i, s) → get t i ≡ some s)
    → SessionsSound (check_session now active o t).1
unfolding check_session
seen-Sound now active none t h found = h
seen-Sound now active (some (i, s)) t h found = elim (Bool-cases (is_alive now active s)) [
  | inl e ↦ rw e (seen-SessionsSound t i s _ h (found i s refl) refl)
  | inr e ↦ rw e (deleted-SessionsSound t i s h (found i s refl))
]

pub auth_context-Sound :
    (now : ℕ) (active : ℕ → Bool) (hash : Option String) (t : Table LoginSession)
    → SessionsSound t
    → SessionsSound (auth_context now active hash t).1
unfolding auth_context
auth_context-Sound now active none t h = h
auth_context-Sound now active (some hash) t h =
    seen-Sound now active _ t h (λ i s e. (first_where-get _ t i s h.table e).0)

abbrev pub with_sessions : Accounts → Table LoginSession → Accounts
with_sessions d t = record d { sessions = t }

pub sessions-Sound :
    (d : Accounts) (t : Table LoginSession) → Sound d → SessionsSound t → Sound (with_sessions d t)
sessions-Sound d t s h = record { challenges = s.challenges; identity = s.identity; sessions = h }

as_player-KeepsSound :
    (now : ℕ) (hash : Option String) (k : LoginSession → Route)
    → ((s : LoginSession) → KeepsSound (k s))
    → KeepsSound (as_player now hash k)
unfolding as_player
as_player-KeepsSound now hash k h site s = on_ok-Sound _ k _ h (
    sessions-Sound site.accounts _ s (
      auth_context-Sound now (active_users site.accounts.users) hash site.accounts.sessions
        s.sessions))

with_csrf-KeepsSound :
    (header : String) (k : ℕ → Route) (session : LoginSession)
    → ((id : ℕ) → KeepsSound (k id))
    → KeepsSound (with_csrf header k session)
unfolding with_csrf
with_csrf-KeepsSound header k session h site s = on_ok-Sound _ k site h s

-- A change of one's own profile that keeps the owners of avatars and of profiles.
own_profile-KeepsSound :
    (change : ℕ → PlayerProfile → Profiles → Result PlayerProfile × Profiles)
    → ((k : ℕ) (p : PlayerProfile) (t : Profiles) → OneOwner t → OneOwner (change k p t).1)
    → ((k : ℕ) (p : PlayerProfile) (t : Profiles) → IsOwner k p t → SameOwners t (change k p t).1)
    → (id : ℕ) → KeepsSound (own_profile change id)
unfolding own_profile
own_profile-KeepsSound change one same id site s =
    row-Sound (first_where (profile_of id) site.accounts.profiles) refl
  where
    row-Sound :
        (o : Option (ℕ × PlayerProfile))
        → first_where (profile_of id) site.accounts.profiles ≡ o
        → Sound (on_profile change o site).1.accounts
    row-Sound none e = s
    row-Sound (some (k, p)) e =
        let t = site.accounts.profiles in
        let (held, _) = first_where-get (profile_of id) t k p s.identity.avatars.table e in
        on_ok-Sound _ _ _ (λ _. done-KeepsSound)
          (avatars-Sound site.accounts (change k p t).1 s (one k p t s.identity.avatars)
            (same k p t (ground (arith, held))))

finished-Sound :
    (now : ℕ) (c : Cookies) (r : Result ℕ) (d : Accounts) → Sound d → Sound (finished now c r d).1
finished-Sound now c (ok id) d s = finish_login-Sound now id c d s
finished-Sound now c (err e) d s = s

end_own_session-KeepsSound : (session : LoginSession) → KeepsSound (end_own_session session)
unfolding end_own_session
end_own_session-KeepsSound session site s =
    sessions-Sound site.accounts _ s
      (ended-SessionsSound (some session.token_hash) site.accounts.sessions s.sessions)

pub serve-KeepsSound : (h : Hashing) (r : Request) → KeepsSound (serve h r)
unfolding serve player_login
serve-KeepsSound h (Request.otp_request up now client phone code) = limited-KeepsSound _ _ _ _ _ (
    limited-KeepsSound _ _ _ _ _
      (handled-KeepsSound _ _ (request_otp-Sound h now phone code) (λ _. done-KeepsSound)))
serve-KeepsSound h (Request.otp_verify up now client phone code c) =
    limited-KeepsSound _ _ _ _ _
      (handled-KeepsSound _ _ (verify_otp-Sound h now phone code) (then_session-KeepsSound now c))
serve-KeepsSound h (Request.player_signup up now client salt before p rounds c) =
    limited-KeepsSound _ _ _ _ _ (
      handled-KeepsSound _ _ (create_player_account-Sound h salt before p rounds)
        (then_session-KeepsSound now c))
serve-KeepsSound h (Request.login up now client email password c) =
    λ site s. on_ok-Sound _ _ _ (λ _. done-KeepsSound) (finished-Sound now c _ site.accounts s)
serve-KeepsSound h (Request.logout now hash csrf) =
    as_player-KeepsSound now hash _
      (λ session. with_csrf-KeepsSound csrf _ session (λ id. end_own_session-KeepsSound session))
serve-KeepsSound h (Request.patch_profile now hash csrf before p) =
    as_player-KeepsSound now hash _ (λ session.
      with_csrf-KeepsSound csrf _ session
        (λ id. handled-KeepsSound _ _ (update_profile-Sound id before p) (λ _. done-KeepsSound)))
serve-KeepsSound h (Request.generate_avatar up now hash csrf key rounds) =
    as_player-KeepsSound now hash _ (λ session. with_csrf-KeepsSound csrf _ session (λ id.
      limited-KeepsSound _ _ _ _ _ (
        own_profile-KeepsSound (λ k p t. assign_new_avatar k p rounds t)
          (λ k p t. assign_new_avatar-OneOwner k p rounds t)
          (λ k p t. assign_new_avatar-SameOwners k p rounds t) id)))
serve-KeepsSound h (Request.put_avatar up now hash csrf key design) =
    as_player-KeepsSound now hash _ (λ session. with_csrf-KeepsSound csrf _ session (λ id.
      limited-KeepsSound _ _ _ _ _ (
        own_profile-KeepsSound (λ k p t. choose_avatar k p design t)
          (λ k p t. choose_avatar-OneOwner k p design t)
          (λ k p t. choose_avatar-SameOwners k p design t) id)))

pub serve_all-Sound :
    (h : Hashing) (rs : List Request) (site : Site)
    → Sound site.accounts
    → Sound (serve_all h rs site).accounts
unfolding serve_all
serve_all-Sound h [] site s = s
serve_all-Sound h (r ∷ rs) site s =
    serve_all-Sound h rs (serve h r site).1 (serve-KeepsSound h r site s)
