-- ===== src/Accounts/Site/Invariants.antt =====
-- What holds of the accounts after any sequence of requests on an empty site.
use stranger_club.Base.{ℕ, ◌≤◌, ◌≡◌, refl, String, none, some, List, [], indicator, is_some, arith}
use stranger_club.Db.Query.{get, lookup, count, count_where}
use stranger_club.Accounts.{OtpChallenge, Accounts, Hashing, has_email, has_phone}
use stranger_club.Accounts.Otp.{otp_max_attempts, is_open_of}
use stranger_club.Avatars.{owns, profile_of}
use stranger_club.Accounts.Login.{has_token}
use stranger_club.Accounts.Sound.{Sound}
use stranger_club.Accounts.Site.{Site, Request, serve_all}
use stranger_club.Accounts.Site.Safety.{serve_all-Sound}

abbrev pub empty_site : Site
empty_site = record {
  accounts = record {
    challenges = record { rows = []; next_id = 1 };
    users = record { rows = []; next_id = 1 };
    profiles = record { rows = []; next_id = 1 };
    sessions = record { rows = []; next_id = 1 };
  };
  buckets = λ key. none;
}

pub empty-Sound : Sound empty_site.accounts
unfolding lookup get count count_where
empty-Sound = record {
  challenges = record {
    table = record { keyed = tt; below = λ i le. refl };
    single = λ phone. omega arith;
    bounded = λ i c e. cc;
  };
  identity = record {
    table = record { keyed = tt; below = λ i le. refl };
    avatars = record {
      table = record { keyed = tt; below = λ i le. refl };
      unique = λ design. omega arith;
      in_catalog = λ design owned. absurd (omega (arith, owned));
    };
    one_email = λ email. omega arith;
    one_phone = λ phone. omega arith;
    one_profile = λ id. refl;
  };
  sessions = record {
    table = record { keyed = tt; below = λ i le. refl };
    one_token = λ hash. omega arith;
  };
}

module _ (h : Hashing) (rs : List Request) where
  abbrev pub reached : Accounts
  reached = (serve_all h rs empty_site).accounts

  -- After any sequence of requests on an empty site, a phone has at most one open code, and no code
  -- counts more than five attempts.
  pub open-attempts :
      ((phone : String) → count_where (is_open_of phone) reached.challenges ≤ 1)
      × ((i : ℕ) (c : OtpChallenge)
          → get reached.challenges i ≡ some c
          → c.attempts ≤ otp_max_attempts)
  open-attempts =
      let s = serve_all-Sound h rs empty_site empty-Sound in
      (s.challenges.single, s.challenges.bounded)

  -- After any sequence of requests on an empty site, stale queries on emails among them, an email, in
  -- whatever case, and a phone belong to at most one account, every account has exactly one profile
  -- and no other profile exists, no avatar has two owners, and no token two sessions.
  pub one_account :
      ((email : String) → count_where (has_email email) reached.users ≤ 1)
      × ((phone : String) → count_where (has_phone phone) reached.users ≤ 1)
      × ((id : ℕ)
          → count_where (profile_of id) reached.profiles
            ≡ indicator (is_some (get reached.users id)))
      × ((design : ℕ) → count_where (owns design) reached.profiles ≤ 1)
      × ((hash : String) → count_where (has_token hash) reached.sessions ≤ 1)
  one_account =
      let s = serve_all-Sound h rs empty_site empty-Sound in
      (
        s.identity.one_email, s.identity.one_phone, s.identity.one_profile,
        s.identity.avatars.unique, s.sessions.one_token,
      )
