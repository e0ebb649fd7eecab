-- ===== src/Access/Sessions.antt =====
-- What a cookie authenticates, in `auth_context` and `player_auth_context` of backend/app/deps.py.
use stranger_club.Base.{
  ◌&&◌, leb, eq_iff, not, ℕ, String, ◌≡◌, ◌≢◌, ◌≤◌, ◌<◌, ◌⊎◌, refl, Bool, true, false, Option, none,
  some, str_eq, arith, inl, inr, Bool-cases,
}
use stranger_club.Db.Query.{Table, get, first_where}
use stranger_club.Db.Query.Laws.{IsTable, first_where-get, get-update, get-update_self}
use stranger_club.Db.Query.Deletion.{get-delete}
use stranger_club.Exec.{api_error, Result, ok, err}
use stranger_club.Access.{LoginSession, is_alive, check_session, auth_context}

-- The session that a cookie finds.
abbrev pub Finds : String → Table LoginSession → ℕ → LoginSession → Type 0
Finds hash sessions i s = first_where (λ s. str_eq s.token_hash hash) sessions ≡ some (i, s)

-- What a check of a cookie answers and leaves behind.
pub record Seen (now : ℕ) (active : ℕ → Bool) (hash : String) (before : Table LoginSession)
    (s : LoginSession) (after : Table LoginSession) : Type 0 where
  pub i : ℕ
  pub old : LoginSession
  pub stored : get before i ≡ some old
  pub of_cookie : old.token_hash ≡ hash
  pub in_time : now < old.expires_at
  pub is_active : active old.account ≡ true
  pub same_token : s.token_hash ≡ old.token_hash
  pub same_account : s.account ≡ old.account
  pub same_csrf : s.csrf_token ≡ old.csrf_token
  pub same_expiry : s.expires_at ≡ old.expires_at
  pub seen_now : s.last_seen_at ≡ now
  pub written : get after i ≡ some s
  pub others : (j : ℕ) → j ≢ i → get after j ≡ get before j

abbrev pub IfAuthenticated :
    ℕ → (ℕ → Bool) → String → Table LoginSession → Result LoginSession → Table LoginSession → Type 0
IfAuthenticated now active hash before (ok s) after = Seen now active hash before s after
IfAuthenticated now active hash before (err e) after =
    (e ≡ api_error 401 "UNAUTHORIZED")
    × (((first_where (λ s. str_eq s.token_hash hash) before ≡ none) × (after ≡ before))
        ⊎ ((i : ℕ) × (s : LoginSession) × Finds hash before i s
            × ((s.expires_at ≤ now) ⊎ (active s.account ≡ false))
            × (get after i ≡ none)
            × ((j : ℕ) → j ≢ i → get after j ≡ get before j)))

run_out :
    (now expires_at : ℕ) (active : Bool)
    → (not (leb expires_at now) && active) ≡ false
    → (expires_at ≤ now) ⊎ (active ≡ false)
run_out now expires_at false dead = inr refl
run_out now expires_at true dead = inl (ground (arith, dead))

checked :
    (now : ℕ) (active : ℕ → Bool) (hash : String) (sessions : Table LoginSession)
    (o : Option (ℕ × LoginSession))
    → IsTable sessions
    → first_where (λ s. str_eq s.token_hash hash) sessions ≡ o
    → let (answer, after) = check_session now active o sessions in
      IfAuthenticated now active hash sessions answer after
unfolding check_session
checked now active hash sessions none t e = (refl, inl (e, refl))
checked now active hash sessions (some (i, s)) t e =
    let (held, own) = first_where-get (λ s. str_eq s.token_hash hash) sessions i s t e in
    elim (Bool-cases (is_alive now active s)) [
      | inl alive ↦
          let s' : LoginSession = record s { last_seen_at = now } in
          rw alive (record {
            i = i;
            old = s;
            stored = held;
            of_cookie = (eq_iff s.token_hash hash).0 own;
            in_time = ground (arith, alive);
            is_active = ground (arith, alive);
            same_token = refl;
            same_account = refl;
            same_csrf = refl;
            same_expiry = refl;
            seen_now = refl;
            written = get-update_self sessions i s' s held;
            others = λ j other. ground (arith, get-update sessions i j s' s held);
          })
      | inr dead ↦ rw dead (
        refl,
        inr (
          i,
          s,
          e,
          run_out now s.expires_at (active s.account) dead,
          ground (arith, get-delete sessions i i),
          λ j other. ground (arith, get-delete sessions i j),
        ),
      )
    ]

-- Where the keys of the sessions are distinct, a cookie authenticates only by a stored session with
-- its hash that has not run out and whose account is active now; the answer is that session, with
-- its account and CSRF token, marked as seen now, and so is its row, and no other session changes.
-- Otherwise the answer is 401: no session has the hash, and nothing changes, or the session has run
-- out or its account is not active, and it alone is deleted.
pub auth_context-IfAuthenticated :
    (now : ℕ) (active : ℕ → Bool) (hash : String) (sessions : Table LoginSession)
    → IsTable sessions
    → let (answer, after) = auth_context now active (some hash) sessions in
      IfAuthenticated now active hash sessions answer after
unfolding auth_context
auth_context-IfAuthenticated now active hash sessions t =
    checked now active hash sessions (first_where (λ s. str_eq s.token_hash hash) sessions) t refl
