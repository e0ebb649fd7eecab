-- ===== src/Accounts/Login/Limit.antt =====
-- How many wrong passwords a client can try.
use stranger_club.Base.{
  ap, ◌∙◌, ℕ, suc, ◌+◌, ◌*◌, ◌-◌, ◌≤◌, ◌<◌, ◌≡◌, refl, String, true, false, ◌==◌, Option, none,
  some, List, [], ◌∷◌, indicator, arith, leb, inl, inr, Bool-cases,
}
use stranger_club.Exec.{Result, ok, err, api_error}
use stranger_club.RateLimit.{
  Bucket, Buckets, rate_limited, write_bucket, peek_rate_limit, record_rate_limit_attempt,
  increment, upserted,
}
use stranger_club.RateLimit.Window.{AllWithin, fewer, number, counted, own_bucket}
use stranger_club.Accounts.{Accounts, Hashing}
use stranger_club.Accounts.Passwords.{authenticate_player}
use stranger_club.Accounts.Login.{
  LimiterUp, Cookies, login_failure_limit, login_failure_window, login_is_closed, after_failure,
  limited_login, player_key, player_login, invalid_credentials,
}

abbrev pub all_up : LimiterUp
all_up = record { peek = true; record_attempt = true; reset = true }

-- A login that a client tries.
pub record Guess : Type 0 where
  pub now : ℕ
  pub email : String
  pub password : String
  pub cookies : Cookies

abbrev pub times_of : List Guess → List ℕ
times_of [] = []
times_of (g ∷ gs) = g.now ∷ times_of gs

abbrev pub AllWrong : Hashing → Accounts → List Guess → Type 0
AllWrong h d [] = Unit
AllWrong h d (g ∷ gs) = (authenticate_player h g.email g.password d ≡ none) × AllWrong h d gs

abbrev pub has_status : ℕ → Result String → ℕ
has_status status (ok csrf) = 0
has_status status (err (api_error s code)) = indicator (s == status)
has_status status (err other) = 0

-- What the server answers to a login of the client, and what it leaves.
abbrev pub try_login :
    Hashing → String → Guess → Accounts × Buckets → Result String × Accounts × Buckets
try_login h client g (d, buckets) =
    player_login h all_up g.now client g.email g.password g.cookies d buckets

-- How many of the logins, one after the other, are answered with a status.
unfoldable pub answer_count : Hashing → ℕ → String → List Guess → Accounts × Buckets → ℕ
answer_count h status client [] s = 0
answer_count h status client (g ∷ gs) s =
    let (answer, d', buckets') = try_login h client g s in
    let rest = answer_count h status client gs (d', buckets') in has_status status answer + rest

unfoldable pub after_logins :
    Hashing → String → List Guess → Accounts × Buckets → Accounts × Buckets
after_logins h client [] s = s
after_logins h client (g ∷ gs) s =
    let (answer, d', buckets') = try_login h client g s in after_logins h client gs (d', buckets')

-- Within the window of a bucket its count is what a login looks at.
peeked :
    (now : ℕ) (key : String) (buckets : Buckets) (b : Bucket)
    → buckets key ≡ some b
    → now < b.window_start + login_failure_window
    → login_is_closed all_up now key buckets ≡ leb login_failure_limit b.count
unfolding login_is_closed peek_rate_limit
peeked now key buckets b e within = rw e (ground arith)

unseen :
    (now : ℕ) (key : String) (buckets : Buckets)
    → buckets key ≡ none
    → login_is_closed all_up now key buckets ≡ false
unfolding login_is_closed peek_rate_limit
unseen now key buckets e = rw e (ground arith)

fresh :
    (now : ℕ) (o : Option Bucket)
    → o ≡ none
    → upserted now login_failure_window o ≡ record { window_start = now; count = 1 }
unfolding upserted
fresh now o e = rw e refl

module _ (h : Hashing) (client : String) (g : Guess) (d : Accounts) (buckets : Buckets) where
  closed_login :
      login_is_closed all_up g.now (player_key client) buckets ≡ true
      → try_login h client g (d, buckets) ≡ (err rate_limited, d, buckets)
  unfolding player_login limited_login
  closed_login closed = rw closed refl

  wrong_login :
      login_is_closed all_up g.now (player_key client) buckets ≡ false
      → authenticate_player h g.email g.password d ≡ none
      → try_login h client g (d, buckets) ≡ (
        err invalid_credentials,
        d,
        write_bucket
            (player_key client)
            (some (upserted g.now login_failure_window (buckets (player_key client))))
            buckets,
      )
  unfolding player_login limited_login after_failure record_rate_limit_attempt increment
  wrong_login opened wrong = rw (opened, wrong) refl

-- What a client's logins are answered, once `count` of them have failed in the window.
record Limited (h : Hashing) (client : String) (start count : ℕ) (gs : List Guess) (d : Accounts)
    (buckets : Buckets) : Type 0 where
  pub looked :
      answer_count h 401 client gs (d, buckets)
      ≡ fewer (login_failure_limit - count) (number (times_of gs))
  pub refused :
      answer_count h 429 client gs (d, buckets)
      ≡ number (times_of gs) - (login_failure_limit - count)
  pub shut :
      login_failure_limit ≤ count + number (times_of gs)
      → (g : Guess) → g.now < start + login_failure_window
      → (try_login h client g (after_logins h client gs (d, buckets))).0 ≡ err rate_limited

-- One login more, then the others.
next_state :
    (h : Hashing) (client : String) (g : Guess) (gs : List Guess) (s : Accounts × Buckets)
    (answer : Result String) (d' : Accounts) (buckets' : Buckets)
    → try_login h client g s ≡ (answer, d', buckets')
    → after_logins h client (g ∷ gs) s ≡ after_logins h client gs (d', buckets')
unfolding after_logins
next_state h client g gs s answer d' buckets' step =
    ap (λ r. after_logins h client gs (r.1, r.2)) step

within-Limited :
    (h : Hashing) (client : String) (start : ℕ) (gs : List Guess) (d : Accounts) (buckets : Buckets)
    (b : Bucket)
    → buckets (player_key client) ≡ some b
    → b.window_start ≡ start
    → AllWithin start login_failure_window (times_of gs)
    → AllWrong h d gs
    → Limited h client start b.count gs d buckets
unfolding answer_count after_logins
within-Limited h client start [] d buckets b e s times wrong = record {
  looked = ground arith;
  refused = ground arith;
  shut = λ full g early.
      let closed = peeked g.now (player_key client) buckets b e (ground (arith, early)) in
      cc (closed_login h client g d buckets (ground (arith, closed, full)));
}
within-Limited h client start (g ∷ gs) d buckets b e s times wrong =
    let key = player_key client in
    let within : g.now < b.window_start + login_failure_window = ground (arith, times.0) in
    let closed = peeked g.now key buckets b e within in
    elim (Bool-cases (leb login_failure_limit b.count)) [
      | inl over ↦
          let ih = within-Limited h client start gs d buckets b e s times.1 wrong.1 in
          let step = closed_login h client g d buckets (closed ∙ over) in
          record {
            looked = rw step (ground (arith, over, ih.looked));
            refused = rw step (ground (arith, over, ih.refused));
            shut = λ full g' early.
                ap (λ s. (try_login h client g' s).0)
                  (next_state h client g gs (d, buckets) _ d buckets step)
                ∙ ih.shut (ground (arith, over)) g' early;
          }
      | inr under ↦
          let after = record b { count = suc b.count } in
          let ih =
            within-Limited h client start gs d (write_bucket key (some after) buckets) after
              (own_bucket key (some after) buckets) s times.1 wrong.1 in
          let step =
            wrong_login h client g d buckets (closed ∙ under) wrong.0
            ∙ ap (λ u. (err invalid_credentials, d, write_bucket key (some u) buckets))
                (counted g.now login_failure_window (buckets key) b e within) in
          record {
            looked = rw step (ground (arith, under, ih.looked));
            refused = rw step (ground (arith, under, ih.refused));
            shut = λ full g' early.
                ap (λ s. (try_login h client g' s).0)
                  (next_state h client g gs (d, buckets) _ d (write_bucket key (some after) buckets)
                    step)
                ∙ ih.shut (ground (arith, full)) g' early;
          }
    ]

-- Of the logins of a client without a bucket that are made with wrong passwords within one window of
-- the first, while the database is up, exactly the first eight, or all if there are fewer, are
-- answered 401, and all the others 429. Once there are eight, any further login of the client within
-- the window is answered 429, whatever its email and password.
pub answer_count_lem :
    (h : Hashing) (client : String) (first : Guess) (gs : List Guess) (d : Accounts)
    (buckets : Buckets)
    → buckets (player_key client) ≡ none
    → AllWithin first.now login_failure_window (times_of gs)
    → AllWrong h d (first ∷ gs)
    → let n = number (times_of (first ∷ gs)) in
      let s : Accounts × Buckets = (d, buckets) in
      (answer_count h 401 client (first ∷ gs) s ≡ fewer 8 n)
      × (answer_count h 429 client (first ∷ gs) s ≡ n - 8)
      × (8 ≤ n
          → (g : Guess) → g.now < first.now + 900 * 1000000
          → (try_login h client g (after_logins h client (first ∷ gs) s)).0 ≡ err rate_limited)
unfolding answer_count after_logins
answer_count_lem h client first gs d buckets e times wrong =
    let key = player_key client in
    let b : Bucket = record { window_start = first.now; count = 1 } in
    let ih =
      within-Limited h client first.now gs d (write_bucket key (some b) buckets) b
        (own_bucket key (some b) buckets) refl times wrong.1 in
    let step =
      wrong_login h client first d buckets (unseen first.now key buckets e) wrong.0
      ∙ ap (λ u. (err invalid_credentials, d, write_bucket key (some u) buckets))
          (fresh first.now (buckets key) e) in
    (
      rw step (ground (arith, ih.looked)),
      rw step (ground (arith, ih.refused)),
      λ full g early.
          ap (λ s. (try_login h client g s).0)
            (next_state h client first gs (d, buckets) _ d (write_bucket key (some b) buckets) step)
          ∙ ih.shut (ground (arith, full)) g early,
    )
