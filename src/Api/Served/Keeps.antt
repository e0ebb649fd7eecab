-- ===== src/Api/Served/Keeps.antt =====
-- The accounts under the routes of Api.
use stranger_club.Base.{
  ◌≡◌, refl, ◌≡◌, ℕ, String, Bool, Option, none, some, inl, inr, Bool-cases, ◌==◌,
}
use stranger_club.Db.{Db}
use stranger_club.Db.Query.{count_where}
use stranger_club.Db.Rows.{User, Organizer}
use stranger_club.Env.{Env, Imaging, Upload}
use stranger_club.Exec.{Result, ok, err, Exec, run}
use stranger_club.RateLimit.{enforce_rate_limit}
use stranger_club.Access.{auth_context, require_csrf}
use stranger_club.Accounts.{active_users, Hashing}
use stranger_club.Accounts.Login.{LimiterUp, login_is_closed, has_token}
use stranger_club.Accounts.Sound.{Sound}
use stranger_club.Accounts.Site.{hour}
use stranger_club.Accounts.Site.Safety.{auth_context-Sound, sessions-Sound}
use stranger_club.Payments.{Submission, replay, stored, prepared, store_payment_proof}
use stranger_club.Api.{
  active_organizers, OrganizerAccount, Server, Endpoint, Credentials, check, perform,
  organizer_route, player_route, limited_route, submit, store, get_public_match, own_registration,
}
use stranger_club.Api.Routes.{
  Call, create_event, update_event, configure, upload_qr, confirm_payment, reject_payment, promote,
  cancel, register, cancel_own, upload_payment, call,
}
use stranger_club.Api.Organizers.{
  organizer_login, organizer_logout, answer_login, open_session, organizer_key,
  authenticate_organizer,
}

abbrev pub KeepsAccounts : Endpoint → Type 0
KeepsAccounts e = (server : Server) → Sound server.site.accounts → Sound (e server).1.site.accounts

check-KeepsAccounts {ℓ} :
    {A : Type ℓ}
    → (r : Result A) (k : A → Endpoint) → ((a : A) → KeepsAccounts (k a))
    → KeepsAccounts (check r k)
check-KeepsAccounts (ok a) k h server s = h a server s
check-KeepsAccounts (err e) k h server s = s

perform-KeepsAccounts {ℓ} : {A : Type ℓ} → (m : Exec Db A) → KeepsAccounts (perform m)
perform-KeepsAccounts m server s =
    check-KeepsAccounts (run m server.db).0 _ (λ a w t. t)
      (record server { db = (run m server.db).1 }) s

organizer_route-KeepsAccounts {ℓ κ} :
    {A : Type ℓ}
    → {B : Type κ}
    → (c : Credentials) (access : Organizer → Db → Result A) (handler : Organizer → A → Exec Db B)
    → KeepsAccounts (organizer_route c access handler)
unfolding organizer_route
organizer_route-KeepsAccounts c access handler server s =
    check-KeepsAccounts _ _
      (λ (session, o). check-KeepsAccounts (access o server.db) _ λ a.
        check-KeepsAccounts (require_csrf c.csrf session) _
          λ id. perform-KeepsAccounts (handler o a))
      _ s

player_route-KeepsAccounts :
    (c : Credentials) (k : User → Endpoint)
    → ((u : User) → KeepsAccounts (k u))
    → KeepsAccounts (player_route c k)
unfolding player_route
player_route-KeepsAccounts c k h server s =
    check-KeepsAccounts _ _
      (λ (session, u). check-KeepsAccounts (require_csrf c.csrf session) _ λ id. h u) _
      (sessions-Sound server.site.accounts _ s (
        auth_context-Sound c.now (active_users server.site.accounts.users) c.hash
          server.site.accounts.sessions s.sessions))

limited_route-KeepsAccounts :
    (up : Bool) (now : ℕ) (key : String) (limit : ℕ) (k : Endpoint)
    → KeepsAccounts k
    → KeepsAccounts (limited_route up now key limit k)
unfolding limited_route
limited_route-KeepsAccounts up now key limit k h server s =
    let (allowed, buckets) = enforce_rate_limit up now key limit hour server.site.buckets in
    check-KeepsAccounts allowed (λ _. k) (λ _. h)
      (record server { site = record server.site { buckets = buckets } }) s

store-KeepsAccounts : (env : Env) (r : Submission) → KeepsAccounts (store env r)
store-KeepsAccounts env replay server s = s
store-KeepsAccounts env stored server s = s
store-KeepsAccounts env (prepared input) server s =
    perform-KeepsAccounts (store_payment_proof env input) server s

submit-KeepsAccounts :
    (env : Env) (imaging : Imaging) (key : String) (upload : Upload) (utr : Option String)
    (user : User)
    → KeepsAccounts (submit env imaging key upload utr user)
unfolding submit
submit-KeepsAccounts env imaging key upload utr user server s =
    check-KeepsAccounts _ (store env) (store-KeepsAccounts env) _ s

pub call-KeepsAccounts : (q : Call) → KeepsAccounts (call q)
unfolding call
call-KeepsAccounts (create_event c env payload) = organizer_route-KeepsAccounts c _ _
call-KeepsAccounts (update_event c m payload) = organizer_route-KeepsAccounts c _ _
call-KeepsAccounts (configure c m payload) = organizer_route-KeepsAccounts c _ _
call-KeepsAccounts (upload_qr c env imaging m upload) = organizer_route-KeepsAccounts c _ _
call-KeepsAccounts (confirm_payment c env p) = organizer_route-KeepsAccounts c _ _
call-KeepsAccounts (reject_payment c env p reason) = organizer_route-KeepsAccounts c _ _
call-KeepsAccounts (promote c i) = organizer_route-KeepsAccounts c _ _
call-KeepsAccounts (cancel c env i) = organizer_route-KeepsAccounts c _ _
call-KeepsAccounts (register c up client env public_id payload) =
    player_route-KeepsAccounts c _ λ user. limited_route-KeepsAccounts up c.now _ 20 _ λ server.
      check-KeepsAccounts (get_public_match public_id server.db) _
        (λ (m, match). perform-KeepsAccounts _) server
call-KeepsAccounts (cancel_own c env key) = player_route-KeepsAccounts c _ λ user server.
    check-KeepsAccounts (own_registration user key server.db) _ (λ i. perform-KeepsAccounts _)
      server
call-KeepsAccounts (upload_payment c up client env imaging key upload utr) =
    player_route-KeepsAccounts c _ λ user.
      limited_route-KeepsAccounts up c.now _ 20 _
        (submit-KeepsAccounts env imaging key upload utr user)

-- A route that touches neither the events nor the accounts.
abbrev pub LeavesBoth : Endpoint → Type 0
LeavesBoth e =
    (server : Server)
    → ((e server).1.db ≡ server.db) × ((e server).1.site.accounts ≡ server.site.accounts)

login_answer-LeavesBoth :
    (up : LimiterUp) (now : ℕ) (key token_hash csrf : String) (o : Option (ℕ × OrganizerAccount))
    → LeavesBoth (answer_login up now key token_hash csrf o)
unfolding open_session
login_answer-LeavesBoth up now key token_hash csrf none server = (refl, refl)
login_answer-LeavesBoth up now key token_hash csrf (some (id, a)) server =
    elim (Bool-cases (count_where (has_token token_hash) server.organizer_sessions == 0)) [
      | inl fresh ↦ rw fresh (refl, refl)
      | inr taken ↦ rw taken (refl, refl)
    ]

pub organizer_login-LeavesBoth :
    (h : Hashing) (up : LimiterUp) (now : ℕ) (client username password token_hash csrf : String)
    → LeavesBoth (organizer_login h up now client username password token_hash csrf)
unfolding organizer_login
organizer_login-LeavesBoth h up now client username password token_hash csrf server =
    elim (Bool-cases (login_is_closed up now (organizer_key client) server.site.buckets)) [
      | inl closed ↦ rw closed (refl, refl)
      | inr opened ↦ rw opened (
          login_answer-LeavesBoth up now (organizer_key client) token_hash csrf
            (authenticate_organizer h username password server.organizers) server)
    ]

check-LeavesBoth {ℓ} :
    {A : Type ℓ}
    → (r : Result A) (k : A → Endpoint) → ((a : A) → LeavesBoth (k a))
    → LeavesBoth (check r k)
check-LeavesBoth (ok a) k h server = h a server
check-LeavesBoth (err e) k h server = (refl, refl)

pub organizer_logout-LeavesBoth : (c : Credentials) → LeavesBoth (organizer_logout c)
unfolding organizer_logout
organizer_logout-LeavesBoth c server =
    check-LeavesBoth _ _
      (λ (session, o). check-LeavesBoth (require_csrf c.csrf session) _ λ id w. (refl, refl))
      (record server {
        organizer_sessions =
            (auth_context c.now (active_organizers server.organizers) c.hash
              server.organizer_sessions).1;
      })
