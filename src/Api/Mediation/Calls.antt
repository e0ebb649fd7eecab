-- ===== src/Api/Mediation/Calls.antt =====
-- Each route of Api, and what it does to the database.
use stranger_club.Base.{
  ◌∙◌, ap, subst, ℕ, String, Bool, true, false, Option, none, some, ◌≡◌, refl, strip,
}
use stranger_club.Db.{Db}
use stranger_club.Db.Query.Laws.{IsTable}
use stranger_club.Db.Rows.{Organizer, User}
use stranger_club.Db.Status.{ActorType}
use stranger_club.Exec.{Result, ok, err, Exec, run}
use stranger_club.Payments.{
  store_payment_proof, Submission, replay, stored, prepared, prepare_payment_proof,
}
use stranger_club.Payments.Preparation.{
  IfPrepared, prepare_payment_proof-IfPrepared, prepare_payment_proof-keeps,
}
use stranger_club.Access.{require_csrf}
use stranger_club.Accounts.Site.{hour}
use stranger_club.RateLimit.{enforce_rate_limit}
use stranger_club.Club.{
  serve_edit, Request, opens, edits, configures, uploads_qr, registers, cancels, promotes,
  stores_proof, reviews, serve,
}
use stranger_club.Api.{
  Upload, Imaging, Env, cancel_registration, create_registration, Server, Endpoint, Credentials,
  check, perform, organizer_route, player_route, limited_route, get_public_match, own_registration,
  submit, store,
}
use stranger_club.Api.Routes.{
  call, Call, create_event, update_event, configure, upload_qr, confirm_payment, reject_payment,
  promote, cancel, register, cancel_own, upload_payment,
}
use stranger_club.Api.Mediation.{
  active_users, active_organizers, Allowed, Authenticated, Mediated, by_organizer, by_player,
  unchanged, performed,
}
use stranger_club.Api.Mediation.Sessions.{organizer_lem, user_lem, csrf_token_lem}
use stranger_club.Api.Mediation.Rows.{
  event_owner, registration_owner, payment_owner, own_lem, public_lem,
}

module _ (c : Credentials) (server : Server) where
  check-Mediated {ℓ} :
      {A : Type ℓ}
      → (r : Result A) (k : A → Endpoint) (w : Server) → w.db ≡ server.db
      → ((a : A) → r ≡ ok a → Mediated c server (k a w).1)
      → Mediated c server (check r k w).1
  check-Mediated (ok a) k w same rest = rest a refl
  check-Mediated (err e) k w same rest = unchanged same

perform-cases {ℓ} :
    {A : Type ℓ}
    → (r : Result A) (d : Db) (server : Server)
    → (check r (λ _ w. (ok tt, w)) (record server { db = d })).1.db ≡ d
perform-cases (ok a) d server = refl
perform-cases (err e) d server = refl

perform-db {ℓ} :
    {A : Type ℓ} → (m : Exec Db A) (server : Server) → (perform m server).1.db ≡ (run m server.db).1
perform-db m server = perform-cases (run m server.db).0 (run m server.db).1 server

module _ (c : Credentials) (server : Server) where
  -- A route of an organizer, whose access check admits what the handler does.
  organizer_route-Mediated {ℓ κ} :
      {A : Type ℓ}
      → {B : Type κ} → (access : Organizer → Db → Result A) (handler : Organizer → A → Exec Db B)
      → (q : Organizer → A → Request)
      → ((o : Organizer) (a : A)
          → access o server.db ≡ ok a
          → Allowed (by_organizer o) (q o a) server.db
            × ((run (handler o a) server.db).1 ≡ serve (q o a) server.db))
      → Mediated c server (organizer_route c access handler server).1
  unfolding organizer_route
  organizer_route-Mediated access handler q admits = check-Mediated c server _ _ _ refl λ (s, o) is.
      check-Mediated c server (access o server.db) _ _ refl λ a granted.
        check-Mediated c server (require_csrf c.csrf s) _ _ refl λ id token.
          let (allowed, does) = admits o a granted in
          performed (by_organizer o)
            (organizer_lem c (active_organizers server.organizers) _ server.organizers
              server.organizer_sessions s o refl is (csrf_token_lem c.csrf s id token))
            (q o a) allowed (perform-db (handler o a) _ ∙ does)

  -- A route of a player, whatever follows the check of the session.
  player_route-Mediated :
      (k : User → Endpoint)
      → ((u : User) (w : Server)
          → w.db ≡ server.db
          → Authenticated c (by_player u) server
          → Mediated c server (k u w).1)
      → Mediated c server (player_route c k server).1
  unfolding player_route
  player_route-Mediated k rest = check-Mediated c server _ _ _ refl λ (s, u) is.
      check-Mediated c server (require_csrf c.csrf s) _ _ refl λ id token. rest u _ refl (
        user_lem c (active_users server.site.accounts.users) _ server.site.accounts.users
          server.site.accounts.sessions s u refl is (csrf_token_lem c.csrf s id token))

  limited_route-Mediated :
      (up : Bool) (now : ℕ) (key : String) (limit : ℕ) (k : Endpoint) (w : Server)
      → w.db ≡ server.db
      → ((v : Server) → v.db ≡ server.db → Mediated c server (k v).1)
      → Mediated c server (limited_route up now key limit k w).1
  unfolding limited_route
  limited_route-Mediated up now key limit k w same rest =
      let (allowed, buckets) = enforce_rate_limit up now key limit hour w.site.buckets in
      let v = record w { site = record w.site { buckets = buckets } } in
      check-Mediated c server allowed (λ _. k) v same λ go is. rest v same

module _ (c : Credentials) (server : Server) (env : Env) where
  store-Mediated :
      (user : User) (r : Submission) (w : Server)
      → Authenticated c (by_player user) server
      → w.db ≡ server.db
      → IfPrepared server.db user.id (ok r)
      → Mediated c server (store env r w).1
  unfolding serve
  store-Mediated user replay w who same sent = unchanged same
  store-Mediated user stored w who same sent = unchanged same
  store-Mediated user (prepared input) w who same sent =
      performed (by_player user) who (stores_proof env input) sent (
        perform-db (store_payment_proof env input) w
        ∙ ap (λ d. (run (store_payment_proof env input) d).1) same)

  submit-Mediated :
      (imaging : Imaging) (key : String) (upload : Upload) (utr : Option String) (user : User)
      → Authenticated c (by_player user) server
      → (w : Server) → w.db ≡ server.db
      → Mediated c server (submit env imaging key upload utr user w).1
  unfolding submit
  submit-Mediated imaging key upload utr user who w same =
      let (r, d) = run (prepare_payment_proof env imaging key upload utr user.id) w.db in
      let kept = prepare_payment_proof-keeps env imaging key upload utr user.id w.db ∙ same in
      check-Mediated c server r (store env) (record w { db = d }) kept
        λ sent is.
          store-Mediated user sent (record w { db = d }) who kept
            (subst (λ x. IfPrepared server.db user.id x) is
              (subst (λ x. IfPrepared x user.id r) same
                (prepare_payment_proof-IfPrepared env imaging key upload utr user.id w.db)))

abbrev pub credentials : Call → Credentials
credentials (create_event c _ _) = c
credentials (update_event c _ _) = c
credentials (configure c _ _) = c
credentials (upload_qr c _ _ _ _) = c
credentials (confirm_payment c _ _) = c
credentials (reject_payment c _ _ _) = c
credentials (promote c _) = c
credentials (cancel c _ _) = c
credentials (register c _ _ _ _ _) = c
credentials (cancel_own c _ _) = c
credentials (upload_payment c _ _ _ _ _ _ _) = c

-- Where the keys of events and of registrations are distinct, a request leaves the database as it
-- was, or does to it what a request of Club does that the account of its session may make in its own
-- name: an organizer opens events, and changes those that the organizer owns or, as a platform admin,
-- any; a player registers, and cancels and pays for the player's own registrations. The session is
-- stored and alive, its account exists, and its CSRF token came with the request.
pub call-Mediated :
    (q : Call) (server : Server)
    → IsTable server.db.matches
    → IsTable server.db.registrations
    → Mediated (credentials q) server (call q server).1
unfolding call submit serve
call-Mediated (create_event c env payload) server t u =
    organizer_route-Mediated c server _ _ (λ o _. opens env payload o) λ o a granted. (refl, refl)
call-Mediated (update_event c m payload) server t u =
    organizer_route-Mediated c server _ _ (λ o _. edits m payload o)
      λ o a granted.
        let (held, own) = event_owner m o server.db a granted in
        ((refl, own), rw (held, serve_edit) refl)
call-Mediated (configure c m payload) server t u =
    organizer_route-Mediated c server _ _ (λ o _. configures m payload o)
      λ o a granted. ((refl, (event_owner m o server.db a granted).1), refl)
call-Mediated (upload_qr c env imaging m upload) server t u =
    organizer_route-Mediated c server _ _ (λ o _. uploads_qr env imaging m upload o)
      λ o a granted. ((refl, (event_owner m o server.db a granted).1), refl)
call-Mediated (confirm_payment c env p) server t u =
    organizer_route-Mediated c server _ _ (λ o _. reviews env p true o.id none)
      λ o a granted. ((refl, payment_owner p o server.db a granted), refl)
call-Mediated (reject_payment c env p reason) server t u =
    organizer_route-Mediated c server _ _ (λ o _. reviews env p false o.id (some (strip reason)))
      λ o a granted. ((refl, payment_owner p o server.db a granted), refl)
call-Mediated (promote c i) server t u =
    organizer_route-Mediated c server _ _ (λ o _. promotes i o.id)
      λ o a granted. ((refl, registration_owner i o server.db a granted), refl)
call-Mediated (cancel c env i) server t u =
    organizer_route-Mediated c server _ _ (λ o _. cancels env i ActorType.organizer (some o.id))
      λ o a granted. ((refl, refl, registration_owner i o server.db a granted), refl)
call-Mediated (register c up client env public_id payload) server t u =
    player_route-Mediated c server _ λ user w same who.
      limited_route-Mediated c server up c.now _ 20 _ w same λ v same'.
        check-Mediated c server (get_public_match public_id v.db) _ v same' λ (m, match) found.
          performed (by_player user) who (registers env m match payload user)
            (
              refl,
              public_lem public_id server.db m match
                  (subst (λ d. get_public_match public_id d ≡ ok (m, match)) same' found) t,
            )
            (perform-db (create_registration env m match payload user) v
              ∙ ap (λ d. (run (create_registration env m match payload user) d).1) same')
call-Mediated (cancel_own c env key) server t u =
    player_route-Mediated c server _ λ user w same who.
      check-Mediated c server (own_registration user key w.db) _ w same λ i found.
        performed (by_player user) who (cancels env i ActorType.player (some user.id))
          (
            refl,
            refl,
            own_lem user key server.db i
                (subst (λ d. own_registration user key d ≡ ok i) same found) u,
          )
          (perform-db (cancel_registration env i ActorType.player (some user.id)) w
            ∙ ap (λ d. (run (cancel_registration env i ActorType.player (some user.id)) d).1) same)
call-Mediated (upload_payment c up client env imaging key upload utr) server t u =
    player_route-Mediated c server _ λ user w same who.
      limited_route-Mediated c server up c.now _ 20 _ w same
        λ v same'. submit-Mediated c server env imaging key upload utr user who v same'
