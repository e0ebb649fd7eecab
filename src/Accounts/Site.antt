-- ===== src/Accounts/Site.antt =====
-- The routes of backend/app/routers/player_auth.py: the rate limits, the session that names the
-- player, and the handler, one request after the other.
pub mod Safety
pub mod Invariants
use Prim.Native.String.{◌++◌}
use stranger_club.Base.{ℕ, ◌*◌, String, Bool, true, false, Option, none, some, List, [], ◌∷◌}
use stranger_club.Db.Query.{Table, get, delete, first_where, delete_where}
use stranger_club.Exec.{Error, api_error, Result, ok, err, runtime_error, Exec, run}
use stranger_club.RateLimit.{Buckets, enforce_rate_limit}
use stranger_club.Access.{LoginSession, auth_context, require_csrf}
use stranger_club.Avatars.{PlayerProfile, Round, profile_of, choose_avatar, assign_new_avatar}
use stranger_club.Accounts.{active_users, Accounts, Hashing}
use stranger_club.Accounts.Otp.{request_otp, verify_otp}
use stranger_club.Accounts.Passwords.{Signup, create_player_account}
use stranger_club.Accounts.Profile.{ProfileUpdate, update_profile}
use stranger_club.Accounts.Login.{Cookies, LimiterUp, has_token, start_player_session, player_login}

pub record Site : Type 0 where
  pub accounts : Accounts
  pub buckets : Buckets

abbrev pub Route : Type 0
Route = Site → Result (Unit {0}) × Site

-- An error ends the request.
abbrev pub on_ok {ℓ} : {A : Type ℓ} → Result A → (A → Route) → Route
on_ok (ok a) k site = k a site
on_ok (err e) k site = (err e, site)

abbrev pub done : Route
done site = (ok tt, site)

abbrev pub hour : ℕ
hour = 3600 * 1000000

-- `enforce_rate_limit_db` at the head of a route
unfoldable pub limited : Bool → ℕ → String → ℕ → Route → Route
limited up now key limit route site =
    let (allowed, buckets) = enforce_rate_limit up now key limit hour site.buckets in
    on_ok allowed (λ _. route) (record site { buckets = buckets })

-- A handler of services_player.py on the accounts, and what follows it.
unfoldable pub handled {ℓ} : {A : Type ℓ} → Exec Accounts A → (A → Route) → Route
handled m k site = let (r, d) = run m site.accounts in on_ok r k (record site { accounts = d })

-- The session that a user who has just been authenticated gets.
unfoldable pub then_session : ℕ → Cookies → ℕ → Route
then_session now c id = handled (start_player_session now id c) (λ _. done)

-- `player_auth_context`, whose writes are committed
unfoldable pub as_player : ℕ → Option String → (LoginSession → Route) → Route
as_player now hash k site =
    let (found, sessions) =
      auth_context now (active_users site.accounts.users) hash site.accounts.sessions in
    on_ok found k (record site { accounts = record site.accounts { sessions = sessions } })

-- `require_player_csrf`
unfoldable pub with_csrf : String → (ℕ → Route) → LoginSession → Route
with_csrf header k s = on_ok (require_csrf header s) k

abbrev pub with_profiles : Site → Table PlayerProfile → Site
with_profiles site t = record site { accounts = record site.accounts { profiles = t } }

-- A change of the player's own profile; that there is none is a 500.
abbrev pub on_profile :
    (ℕ → PlayerProfile → Table PlayerProfile → Result PlayerProfile × Table PlayerProfile)
    → Option (ℕ × PlayerProfile)
    → Route
on_profile change none site = (err runtime_error, site)
on_profile change (some (k, p)) site =
    let (r, t) = change k p site.accounts.profiles in on_ok r (λ _. done) (with_profiles site t)

unfoldable pub own_profile :
    (ℕ → PlayerProfile → Table PlayerProfile → Result PlayerProfile × Table PlayerProfile)
    → ℕ
    → Route
own_profile change id site =
    on_profile change (first_where (profile_of id) site.accounts.profiles) site

unfoldable pub end_own_session : LoginSession → Route
end_own_session s site = (
  ok tt,
  record site {
    accounts = record site.accounts {
      sessions = delete_where (has_token s.token_hash) site.accounts.sessions;
    };
  },
)

abbrev pub otp_request_route : Hashing → Bool → ℕ → (client phone code : String) → Route
otp_request_route h up now client phone code = limited up now ("otp_request_ip:" ++ client) 10 (
    limited up now ("otp_request_phone:" ++ phone) 5
      (handled (request_otp h now phone code) (λ _. done)))

abbrev pub otp_verify_route : Hashing → Bool → ℕ → (client phone code : String) → Cookies → Route
otp_verify_route h up now client phone code c =
    limited up now ("otp_verify_ip:" ++ client) 20
      (handled (verify_otp h now phone code) (then_session now c))

abbrev pub signup_route :
    Hashing → Bool → ℕ → String → ℕ → Accounts → Signup → List Round → Cookies → Route
signup_route h up now client salt before p rounds c =
    limited up now ("player_signup_ip:" ++ client) 10
      (handled (create_player_account h salt before p rounds) (then_session now c))

abbrev pub login_route :
    Hashing → LimiterUp → ℕ → (client email password : String) → Cookies → Route
login_route h up now client email password c site =
    let (r, d, buckets) =
      player_login h up now client email password c site.accounts site.buckets in
    on_ok r (λ _. done) (record { accounts = d; buckets = buckets })

abbrev pub logout_route : ℕ → Option String → String → Route
logout_route now hash csrf = as_player now hash (λ s. with_csrf csrf (λ id. end_own_session s) s)

abbrev pub patch_profile_route : ℕ → Option String → String → Accounts → ProfileUpdate → Route
patch_profile_route now hash csrf before p =
    as_player now hash (with_csrf csrf (λ id. handled (update_profile id before p) (λ _. done)))

abbrev pub generate_avatar_route :
    Bool → ℕ → Option String → String → (ℕ → String) → List Round → Route
generate_avatar_route up now hash csrf key rounds = as_player now hash (
    with_csrf csrf
      (λ id. limited up now (key id) 20 (own_profile (λ k p t. assign_new_avatar k p rounds t) id)))

abbrev pub put_avatar_route : Bool → ℕ → Option String → String → (ℕ → String) → ℕ → Route
put_avatar_route up now hash csrf key design = as_player now hash (
    with_csrf csrf
      (λ id. limited up now (key id) 20 (own_profile (λ k p t. choose_avatar k p design t) id)))

-- The requests, with what they draw and what they find of the limiter.
pub data Request : Type 0 where
  otp_request : (up : Bool) (now : ℕ) (client phone code : String) → Request
  otp_verify : (up : Bool) (now : ℕ) (client phone code : String) → Cookies → Request
  player_signup :
      (up : Bool) (now : ℕ) (client : String) (salt : ℕ)
      → Accounts
      → Signup
      → List Round
      → Cookies
      → Request
  login : LimiterUp → (now : ℕ) (client email password : String) → Cookies → Request
  logout : (now : ℕ) → Option String → (csrf : String) → Request
  patch_profile : (now : ℕ) → Option String → (csrf : String) → Accounts → ProfileUpdate → Request
  generate_avatar :
      (up : Bool) (now : ℕ)
      → Option String
      → (csrf : String) (key : ℕ → String) → List Round
      → Request
  put_avatar :
      (up : Bool) (now : ℕ)
      → Option String
      → (csrf : String) (key : ℕ → String) (design : ℕ) → Request

unfoldable pub serve : Hashing → Request → Route
serve h (otp_request up now client phone code) = otp_request_route h up now client phone code
serve h (otp_verify up now client phone code c) = otp_verify_route h up now client phone code c
serve h (player_signup up now client salt before p rounds c) =
    signup_route h up now client salt before p rounds c
serve h (login up now client email password c) = login_route h up now client email password c
serve h (logout now hash csrf) = logout_route now hash csrf
serve h (patch_profile now hash csrf before p) = patch_profile_route now hash csrf before p
serve h (generate_avatar up now hash csrf key rounds) =
    generate_avatar_route up now hash csrf key rounds
serve h (put_avatar up now hash csrf key design) = put_avatar_route up now hash csrf key design

unfoldable pub serve_all : Hashing → List Request → Site → Site
serve_all h [] site = site
serve_all h (r ∷ rs) site = serve_all h rs (serve h r site).1
