-- ===== src/Api/Mediation/Sessions.antt =====
-- The session and the account that `auth_context` and `player_auth_context` find.
use stranger_club.Base.{
  ap, sym, subst, ℕ, String, true, Option, none, some, ◌≡◌, refl, arith, str_eq, inl, inr,
  Bool-cases,
}
use stranger_club.Db.Query.{Table, get, first_where}
use stranger_club.Db.Rows.{Organizer, User}
use stranger_club.Exec.{Result, ok, err}
use stranger_club.Access.{LoginSession, is_alive, check_session, auth_context, require_csrf}
use stranger_club.Accounts.{Account}
use stranger_club.Api.{
  OrganizerAccount, Credentials, organizer_row, organizer_of, user_row, user_of,
}
use stranger_club.Api.Mediation.{Bool, LiveSession}

session_of :
    (c : Credentials) (active : ℕ → Bool) (o : Option (ℕ × LoginSession))
    (sessions : Table LoginSession) (s : LoginSession) (hash : String)
    → c.hash ≡ some hash
    → first_where (λ s. str_eq s.token_hash hash) sessions ≡ o
    → (check_session c.now active o sessions).0 ≡ ok s
    → str_eq c.csrf s.csrf_token ≡ true
    → LiveSession c active sessions s.account
unfolding check_session
session_of c active none sessions s hash sent found is token = cc (is)
session_of c active (some (i, old)) sessions s hash sent found is token =
    elim (Bool-cases (is_alive c.now active old)) [
      | inl alive ↦
          let same : record old { last_seen_at = c.now } ≡ s = cc (is, alive) in
          record {
            hash = hash;
            sent = sent;
            i = i;
            session = old;
            found = found;
            alive = alive;
            token = subst (λ x. str_eq c.csrf x.csrf_token ≡ true) (sym same) token;
            of_account = ap (λ x. x.account) same;
          }
      | inr dead ↦ absurd (cc (is, dead))
    ]

live :
    (c : Credentials) (active : ℕ → Bool) (h : Option String) (sessions : Table LoginSession)
    (s : LoginSession)
    → c.hash ≡ h
    → (auth_context c.now active h sessions).0 ≡ ok s
    → str_eq c.csrf s.csrf_token ≡ true
    → LiveSession c active sessions s.account
unfolding auth_context
live c active none sessions s sent is token = cc is
live c active (some hash) sessions s sent is token =
    session_of c active (first_where (λ s. str_eq s.token_hash hash) sessions) sessions s hash sent
      refl is token

pub csrf_token_lem :
    (csrf : String) (s : LoginSession) (id : ℕ)
    → require_csrf csrf s ≡ ok id
    → str_eq csrf s.csrf_token ≡ true
unfolding require_csrf
csrf_token_lem csrf s id is = ground (arith, is)

organizer_parts :
    (s : LoginSession) (row : Option OrganizerAccount) (s' : LoginSession) (o : Organizer)
    → organizer_row s row ≡ ok (s', o)
    → (s ≡ s') × (s.account ≡ o.id) × ((a : OrganizerAccount) × (row ≡ some a) × (o.role ≡ a.role))
organizer_parts s none s' o is = cc is
organizer_parts s (some a) s' o is = (cc is, cc is, (a, refl, cc is))

pub organizer_lem :
    (c : Credentials) (active : ℕ → Bool) (r : Result LoginSession) (t : Table OrganizerAccount)
    (sessions : Table LoginSession) (s : LoginSession) (o : Organizer)
    → (auth_context c.now active c.hash sessions).0 ≡ r
    → organizer_of r t ≡ ok (s, o)
    → str_eq c.csrf s.csrf_token ≡ true
    → LiveSession c active sessions o.id
      × ((a : OrganizerAccount) × (get t o.id ≡ some a) × (o.role ≡ a.role))
organizer_lem c active (err e) t sessions s o found is token = cc is
organizer_lem c active (ok s') t sessions s o found is token =
    let (same, named, row) = organizer_parts s' (get t s'.account) s o is in
    (
      subst (λ id. LiveSession c active sessions id) named
          (live c active c.hash sessions s' refl found
            (subst (λ x. str_eq c.csrf x.csrf_token ≡ true) (sym same) token)),
      (row.0, subst (λ id. get t id ≡ some row.0) named row.1, row.2),
    )

user_parts :
    (s : LoginSession) (row : Option Account) (s' : LoginSession) (u : User)
    → user_row s row ≡ ok (s', u)
    → (s ≡ s') × (s.account ≡ u.id) × ((a : Account) × (row ≡ some a) × (u.phone ≡ a.phone))
user_parts s none s' u is = cc is
user_parts s (some a) s' u is = (cc is, cc is, (a, refl, cc is))

pub user_lem :
    (c : Credentials) (active : ℕ → Bool) (r : Result LoginSession) (t : Table Account)
    (sessions : Table LoginSession) (s : LoginSession) (u : User)
    → (auth_context c.now active c.hash sessions).0 ≡ r
    → user_of r t ≡ ok (s, u)
    → str_eq c.csrf s.csrf_token ≡ true
    → LiveSession c active sessions u.id
      × ((a : Account) × (get t u.id ≡ some a) × (u.phone ≡ a.phone))
user_lem c active (err e) t sessions s u found is token = cc is
user_lem c active (ok s') t sessions s u found is token =
    let (same, named, row) = user_parts s' (get t s'.account) s u is in
    (
      subst (λ id. LiveSession c active sessions id) named
          (live c active c.hash sessions s' refl found
            (subst (λ x. str_eq c.csrf x.csrf_token ≡ true) (sym same) token)),
      (row.0, subst (λ id. get t id ≡ some row.0) named row.1, row.2),
    )
