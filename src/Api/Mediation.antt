-- ===== src/Api/Mediation.antt =====
-- Who may do what: the requests of Club that an account may make, and what a request with the
-- credentials of an account does to the database.
pub mod Sessions
pub mod Rows
pub mod Calls
use stranger_club.Base.{
  Option-cases, ◌∙◌, ap, sym, subst, ℕ, String, Bool, true, false, Option, none, some, ◌≡◌, refl,
  arith, option_is, str_eq, inl, inr, Bool-cases, strip, if◌then◌else◌,
}
use stranger_club.Db.{Db}
use stranger_club.Db.Query.{Table, get, first_where}
use stranger_club.Db.Query.Laws.{IsTable, first_where-get}
use stranger_club.Db.Rows.{Match, Registration, Payment, Organizer, User}
use stranger_club.Db.Status.{ActorType}
use stranger_club.Exec.{Error, Result, ok, err, Exec, run}
use stranger_club.Payments.{
  store_payment_proof, Submission, replay, stored, prepared, prepare_payment_proof,
}
use stranger_club.Payments.{has_public_id}
use stranger_club.Payments.Preparation.{
  IfPrepared, IsOwnRow, prepare_payment_proof-IfPrepared, prepare_payment_proof-keeps,
}
use stranger_club.Access.{
  LoginSession, is_alive, check_session, auth_context, require_csrf, organizer_owns_event,
  event_of_registration, event_of_payment, require_event_access, require_registration_access,
  require_payment_access, granted, resource_not_found, event_not_found,
}
use stranger_club.Accounts.{active_users, Account}
use stranger_club.Accounts.Site.{hour}
use stranger_club.RateLimit.{enforce_rate_limit}
use stranger_club.Club.{
  serve_edit, Request, opens, edits, configures, uploads_qr, registers, cancels, promotes,
  stores_proof, reviews, serve,
}
use stranger_club.Api.{
  active_organizers, Upload, Imaging, Env, cancel_registration, create_registration,
  OrganizerAccount, Server, Endpoint, Credentials, check, perform, organizer_row, organizer_of,
  organizer_route, user_row, user_of, player_route, limited_route, is_public, get_public_match,
  own_registration, submit, store,
}
use stranger_club.Api.Routes.{
  call, Call, create_event, update_event, configure, upload_qr, confirm_payment, reject_payment,
  promote, cancel, register, cancel_own, upload_payment,
}

pub data Caller : Type 0 where
  by_organizer : Organizer → Caller
  by_player : User → Caller

abbrev pub Owns : Organizer → Option Match → Type 0
Owns o none = ⊥
Owns o (some match) = organizer_owns_event o match ≡ true

abbrev pub IsOf : User → Option Registration → Type 0
IsOf user none = ⊥
IsOf user (some r) = option_is r.user_id user.id ≡ true

-- What an account may ask for, in its own name.
abbrev pub Allowed : Caller → Request → Db → Type 0
Allowed (by_organizer o) (opens env payload o') d = o' ≡ o
Allowed (by_organizer o) (edits m payload o') d = (o' ≡ o) × Owns o (get d.matches m)
Allowed (by_organizer o) (configures m payload o') d = (o' ≡ o) × Owns o (get d.matches m)
Allowed (by_organizer o) (uploads_qr env imaging m upload o') d =
    (o' ≡ o) × Owns o (get d.matches m)
Allowed (by_organizer o) (reviews env p approve id reason) d =
    (id ≡ o.id) × Owns o (event_of_payment (get d.payments p) d)
Allowed (by_organizer o) (promotes i id) d =
    (id ≡ o.id) × Owns o (event_of_registration (get d.registrations i) d)
Allowed (by_organizer o) (cancels env i type id) d =
    (type ≡ ActorType.organizer)
    × (id ≡ some o.id)
    × Owns o (event_of_registration (get d.registrations i) d)
Allowed (by_player u) (registers env m match payload user) d =
    (user ≡ u) × (get d.matches m ≡ some match)
Allowed (by_player u) (cancels env i type id) d =
    (type ≡ ActorType.player) × (id ≡ some u.id) × IsOf u (get d.registrations i)
Allowed (by_player u) (stores_proof env input) d =
    (input.user_id ≡ u.id)
    × IsOwnRow u.id (first_where (has_public_id input.registration_key) d.registrations)
Allowed _ _ d = ⊥

-- A session that is stored, has not run out, is of an account that is active now, and whose CSRF token the
-- request has.
pub record LiveSession (c : Credentials) (active : ℕ → Bool) (sessions : Table LoginSession)
    (account : ℕ) : Type 0 where
  pub hash : String
  pub sent : c.hash ≡ some hash
  pub i : ℕ
  pub session : LoginSession
  pub found : first_where (λ s. str_eq s.token_hash hash) sessions ≡ some (i, session)
  pub alive : is_alive c.now active session ≡ true
  pub token : str_eq c.csrf session.csrf_token ≡ true
  pub of_account : session.account ≡ account

abbrev pub Authenticated : Credentials → Caller → Server → Type 0
Authenticated c (by_organizer o) server =
    LiveSession c (active_organizers server.organizers) server.organizer_sessions o.id
    × ((a : OrganizerAccount) × (get server.organizers o.id ≡ some a) × (o.role ≡ a.role))
Authenticated c (by_player u) server =
    LiveSession c (active_users server.site.accounts.users) server.site.accounts.sessions u.id
    × ((a : Account) × (get server.site.accounts.users u.id ≡ some a) × (u.phone ≡ a.phone))

-- What a request with these credentials does to the database.
pub data Mediated (c : Credentials) (server : Server) (w : Server) : Type 0 where
  unchanged : w.db ≡ server.db → Mediated c server w
  performed :
      (caller : Caller)
      → Authenticated c caller server
      → (q : Request) → Allowed caller q server.db
      → w.db ≡ serve q server.db
      → Mediated c server w
