-- ===== src/Api/Served.antt =====
-- Sequences of requests to the whole server: organizers and players log in and out, and act.
pub mod Keeps
use stranger_club.Base.{
  ℕ, String, Bool, Option, none, some, List, [], ◌∷◌, ◌≡◌, refl, ◌≤◌, sym, subst, ◌++◌,
}
use stranger_club.Db.{Db, confirmed_count}
use stranger_club.Db.Query.{Table, get, count_where}
use stranger_club.Db.Rows.{Match, User}
use stranger_club.Exec.{Result, ok, err, Exec, run}
use stranger_club.RateLimit.{enforce_rate_limit}
use stranger_club.Access.{LoginSession, auth_context, require_csrf}
use stranger_club.Spec.{Steps, here}
use stranger_club.Registrations.Refinement.{Steps-trans}
use stranger_club.Club.{empty}
use stranger_club.Club.Sound as Held
use stranger_club.Club.Served.{serve-Steps}
use stranger_club.Club.Safety.{empty-Sound}
use stranger_club.Accounts.{Accounts, Hashing}
use stranger_club.Accounts.Login.{LimiterUp}
use stranger_club.Accounts.Sound.{Sound}
use stranger_club.Accounts.Site as Site
use stranger_club.Accounts.Site.{hour}
use stranger_club.Accounts.Site.Safety.{auth_context-Sound, sessions-Sound, serve-KeepsSound}
use stranger_club.Accounts.Site.Invariants as Fresh
use stranger_club.Accounts.Site.Invariants.{empty_site}
use stranger_club.Payments.{
  Submission, replay, stored, prepared, prepare_payment_proof, store_payment_proof,
}
use stranger_club.Api.{
  OrganizerAccount, Server, Endpoint, Credentials, check, perform, organizer_route, player_route,
  limited_route, submit, store,
}
use stranger_club.Api.Routes.{Call, call}
use stranger_club.Api.Served.Keeps.{
  call-KeepsAccounts, organizer_login-LeavesBoth, organizer_logout-LeavesBoth,
}
use stranger_club.Api.Organizers.{organizer_login, organizer_logout}
use stranger_club.Api.Mediation.{Mediated, unchanged, performed}
use stranger_club.Club.Sound.{Steps-Sound}
use stranger_club.Api.Mediation.Calls.{call-Mediated}

pub data Visit : Type 0 where
  calls : Call → Visit
  visits_account : Site.Request → Visit
  logs_in : LimiterUp → ℕ → (client username password token_hash csrf : String) → Visit
  logs_out : Credentials → Visit

abbrev with_site : Server → Site.Site → Server
with_site server site = record server { site = site }

-- The server after a request.
unfoldable pub visit : Hashing → Visit → Server → Server
visit h (calls q) server = (call q server).1
visit h (visits_account r) server = with_site server (Site.serve h r server.site).1
visit h (logs_in up now client username password token_hash csrf) server =
    (organizer_login h up now client username password token_hash csrf server).1
visit h (logs_out c) server = (organizer_logout c server).1

unfoldable pub visit_all : Hashing → List Visit → Server → Server
visit_all h [] server = server
visit_all h (v ∷ vs) server = visit_all h vs (visit h v server)

-- A server on which nothing has happened but that organizers have accounts.
abbrev pub new_server : Table OrganizerAccount → Server
new_server organizers = record {
  db = empty;
  organizers = organizers;
  organizer_sessions = record { rows = []; next_id = 1 };
  site = empty_site;
}

call-Steps :
    (q : Call) (server : Server) → Held.Sound server.db → Steps server.db (call q server).1.db
call-Steps q server h =
    mediated _ _ _ h (call-Mediated q server h.tables.matches h.tables.registrations)
  where
    mediated :
        (c : Credentials) (before after : Server)
        → Held.Sound before.db
        → Mediated c before after
        → Steps before.db after.db
    mediated c before after h (unchanged same) = subst (λ d. Steps before.db d) (sym same) here
    mediated c before after h (performed caller who q allowed does) =
        subst (λ d. Steps before.db d) (sym does) (serve-Steps q before.db h)

-- What holds of the server at all times.
pub record ServerSound (server : Server) : Type 0 where
  pub events : Held.Sound server.db
  pub accounts : Sound server.site.accounts

left :
    (server w : Server)
    → ServerSound server
    → (w.db ≡ server.db) × (w.site.accounts ≡ server.site.accounts)
    → Steps server.db w.db × Sound w.site.accounts
left server w s (same, same') =
    (subst (λ d. Steps server.db d) (sym same) here, subst (λ d. Sound d) (sym same') s.accounts)

visit-Steps :
    (h : Hashing) (v : Visit) (server : Server)
    → ServerSound server
    → Steps server.db (visit h v server).db × Sound (visit h v server).site.accounts
unfolding visit
visit-Steps h (calls q) server s =
    (call-Steps q server s.events, call-KeepsAccounts q server s.accounts)
visit-Steps h (visits_account r) server s = (here, serve-KeepsSound h r server.site s.accounts)
visit-Steps h (logs_in up now client username password token_hash csrf) server s =
    left server (organizer_login h up now client username password token_hash csrf server).1 s
      (organizer_login-LeavesBoth h up now client username password token_hash csrf server)
visit-Steps h (logs_out c) server s =
    left server (organizer_logout c server).1 s (organizer_logout-LeavesBoth c server)

visit_all-Steps :
    (h : Hashing) (vs : List Visit) (server : Server)
    → ServerSound server
    → Steps server.db (visit_all h vs server).db × Sound (visit_all h vs server).site.accounts
unfolding visit_all
visit_all-Steps h [] server s = (here, s.accounts)
visit_all-Steps h (v ∷ vs) server s =
    let (first, kept) = visit-Steps h v server s in
    let (rest, end) =
      visit_all-Steps h vs (visit h v server)
        (record { events = Steps-Sound first s.events; accounts = kept }) in
    (Steps-trans first rest, end)

-- After any sequence of requests to a server on which nothing has happened, whatever the accounts of
-- its organizers: logins, logouts, signups and codes, and the requests of sessions, true or forged,
-- the database has made moves of the specification only, and what holds of events, registrations,
-- payments and proofs, and of accounts, profiles, codes and sessions, holds.
pub visit_all-ServerSound :
    (h : Hashing) (vs : List Visit) (organizers : Table OrganizerAccount)
    → let w = visit_all h vs (new_server organizers) in Steps empty w.db × ServerSound w
visit_all-ServerSound h vs organizers =
    let (moves, kept) =
      visit_all-Steps h vs (new_server organizers)
        (record { events = empty-Sound; accounts = Fresh.empty-Sound }) in
    (moves, record { events = Steps-Sound moves empty-Sound; accounts = kept })
