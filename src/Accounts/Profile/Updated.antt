-- ===== src/Accounts/Profile/Updated.antt =====
-- What an edit of a profile leaves, and what a null role answers.
use stranger_club.Base.{
  ◌==◌, eq_iff, ap, Bool-cases, or_default, ◌∙◌, sym, ℕ, ◌≡◌, ◌≢◌, refl, Bool, true, false, not,
  none, some, arith, inl, inr, Option-cases,
}
use stranger_club.Db.Query.{delete, get, update, first_where}
use stranger_club.Db.Query.Laws.{
  count_where_pos, get-update, get-update_self, first_where-get, first_where-none,
}
use stranger_club.Db.Query.Bulk.{count_where_unique}
use stranger_club.Db.Query.Deletion.{get-delete}
use stranger_club.Exec.{Result, ok, err, run, except_integrity, ◌>>=◌}
use stranger_club.Exec.Ends.{Ends-pure, Ends-require, Ends-commit, Ends-run, Ends-found, Ends-gets}
use stranger_club.Exec.Passes.{Passes-found}
use stranger_club.Avatars.{PlayerProfile, profile_of}
use stranger_club.Accounts.{Account, Accounts}
use stranger_club.Accounts.Passwords.{email_taken}
use stranger_club.Accounts.Profile.{
  count_where, lower, role_or, has_email, text_is, Position, String, Option, ProfileUpdate,
  is_null_role, edited_profile, new_email, index_is_free, with_email, update_profile, flush_profile,
}
use stranger_club.Accounts.Sound.{Sound}
use stranger_club.Accounts.Sound.Edits.{Ends-flush_profile}

-- What a given field, or one that is left out, does to the value that was stored.
abbrev pub Writes {ℓ} : {A : Type ℓ} → Option A → A → A → Type ℓ
Writes none old new = new ≡ old
Writes (some given) old new = new ≡ given

-- The same for the role, of which a null is none.
abbrev pub WritesRole : Option (Option Position) → Position → Position → Type 0
WritesRole none old new = new ≡ old
WritesRole (some none) old new = ⊥
WritesRole (some (some given)) old new = new ≡ given

-- The same for the email, of which a null is one that is left out.
abbrev pub WritesEmail : Option String → Option String → Option String → Type 0
WritesEmail none old new = new ≡ old
WritesEmail (some given) old new = new ≡ some given

-- `old` and `row` are the profile before and after, `player` and `player'` the account.
pub record Updated (d : Accounts) (id : ℕ) (p : ProfileUpdate) (row : PlayerProfile) (w : Accounts)
    : Type 0 where
  pub k : ℕ
  pub old : PlayerProfile
  pub found : get d.profiles k ≡ some old
  pub own : old.user_id ≡ id
  pub stored : get w.profiles k ≡ some row
  pub still_own : row.user_id ≡ id
  pub display_name : Writes p.display_name old.display_name row.display_name
  pub role : WritesRole p.cricket_role old.cricket_role row.cricket_role
  pub skill_rating : Writes p.skill_rating old.skill_rating row.skill_rating
  pub bio : Writes p.bio old.bio row.bio
  pub phone : Writes p.phone old.phone row.phone
  pub same_avatar : row.avatar_design_id ≡ old.avatar_design_id
  pub player : Account
  pub player' : Account
  pub in_users : get d.users id ≡ some player
  pub kept_in_users : get w.users id ≡ some player'
  pub email : WritesEmail p.email player.email player'.email
  pub no_twin :
      (given : String) (j : ℕ) (b : Account)
      → p.email ≡ some given
      → j ≢ id
      → get w.users j ≡ some b
      → has_email (lower given) b ≡ false
  pub same_account : player' ≡ record player { email = player'.email }
  pub others : (j : ℕ) → j ≢ id → get w.users j ≡ get d.users j
  pub other_profiles : (j : ℕ) → j ≢ k → get w.profiles j ≡ get d.profiles j
  pub same_sessions : w.sessions ≡ d.sessions
  pub same_challenges : w.challenges ≡ d.challenges

abbrev pub IfUpdated : Accounts → ℕ → ProfileUpdate → Result PlayerProfile → Accounts → Type 0
IfUpdated d id p (ok row) w = Updated d id p row w
IfUpdated d id p (err e) w = w ≡ d

no_null : {b : Bool} → not b ≡ true → b ≡ false
no_null {b} h = ground arith

written {ℓ} : {A : Type ℓ} → (o : Option A) (old : A) → Writes o old (or_default o old)
written none old = refl
written (some given) old = refl

written_role :
    (o : Option (Option Position)) (old : Position)
    → is_null_role o ≡ false
    → WritesRole o old (role_or o old)
written_role none old h = refl
written_role (some none) old h = absurd (cc (h))
written_role (some (some given)) old h = refl

text_is_lem : (o : Option String) (s : String) → text_is o s ≡ true → o ≡ some s
text_is_lem none s h = cc h
text_is_lem (some t) s h = ap some ((eq_iff t s).0 h)

same_account_lem :
    (o : Option String) (a : Account) → with_email o a ≡ record a { email = (with_email o a).email }
same_account_lem none a = refl
same_account_lem (some given) a = refl

written_email :
    (o : Option String) (p : ProfileUpdate) (a : Account)
    → p.email ≡ o
    → WritesEmail o a.email (with_email (new_email p a) a).email
unfolding new_email
written_email none p a e = rw e refl
written_email (some given) p a e = elim (Bool-cases (text_is a.email given)) [
  | inl same ↦ rw (e, same) (text_is_lem a.email given same)
  | inr differ ↦ rw (e, differ) refl
]

module _ (id : ℕ) (p : ProfileUpdate) (d : Accounts) (s : Sound d) (player : Account)
    (held : get d.users id ≡ some player) where
  -- No other account has the email, whether it is new or the one that is stored.
  no_twin_lem :
      (given : String) (j : ℕ) (b : Account)
      → p.email ≡ some given
      → index_is_free id (new_email p player) d ≡ true
      → j ≢ id
      → get d.users j ≡ some b
      → has_email (lower given) b ≡ false
  unfolding new_email
  no_twin_lem given j b e free other held' = elim (Bool-cases (has_email (lower given) b)) [
    | inr other_email ↦ other_email
    | inl twin ↦ elim (Bool-cases (text_is player.email given)) [
      | inl same ↦
          let named : has_email (lower given) player ≡ true =
            rw (text_is_lem player.email given same) ((eq_iff _ _).1 refl) in
          absurd (
            other (
              count_where_unique (has_email (lower given)) d.users j id b player
                (s.identity.one_email (lower given)) held' twin held named))
      | inr differ ↦
          let unused : (count_where (has_email (lower given)) (delete d.users id) == 0) ≡ true =
            cc (free, e, differ) in
          absurd (
            ground (
              arith,
              unused,
              count_where_pos (has_email (lower given)) (delete d.users id) j b
                  (ground (arith, other, get-delete d.users id j, held')) twin,
            ))
    ]
  ]

  abbrev edited_accounts : ℕ → PlayerProfile → Accounts
  edited_accounts k old = record d {
    users = update d.users id (with_email (new_email p player) player);
    profiles = update d.profiles k (edited_profile p old);
  }

  edited_row :
      (k : ℕ) (old : PlayerProfile)
      → first_where (profile_of id) d.profiles ≡ some (k, old)
      → index_is_free id (new_email p player) d ≡ true
      → is_null_role p.cricket_role ≡ false
      → Updated d id p (edited_profile p old) (edited_accounts k old)
  unfolding edited_profile
  edited_row k old e free role =
      let (found, own) =
        first_where-get (profile_of id) d.profiles k old s.identity.avatars.table e in
      let player' = with_email (new_email p player) player in
      let same : old.user_id ≡ id = ground (arith, own) in
      let others : (j : ℕ) → j ≢ id → get (update d.users id player') j ≡ get d.users j =
        λ j other. ground (arith, get-update d.users id j player' player held) in
      record {
        k = k;
        old = old;
        found = found;
        own = same;
        stored = get-update_self d.profiles k (edited_profile p old) old found;
        still_own = same;
        display_name = written p.display_name old.display_name;
        role = written_role p.cricket_role old.cricket_role role;
        skill_rating = written p.skill_rating old.skill_rating;
        bio = written p.bio old.bio;
        phone = written p.phone old.phone;
        same_avatar = refl;
        player = player;
        player' = player';
        in_users = held;
        kept_in_users = get-update_self d.users id player' player held;
        email = written_email p.email p player refl;
        no_twin =
            λ given j b e other at. no_twin_lem given j b e free other (sym (others j other) ∙ at);
        same_account = same_account_lem (new_email p player) player;
        others = others;
        other_profiles =
            λ j other. ground (arith, get-update d.profiles k j (edited_profile p old) old found);
        same_sessions = refl;
        same_challenges = refl;
      }

-- On sound accounts a player has a profile.
has_profile :
    (id : ℕ) (player : Account) (d : Accounts)
    → Sound d
    → get d.users id ≡ some player
    → (row : ℕ × PlayerProfile) × (first_where (profile_of id) d.profiles ≡ some row)
has_profile id player d s held = elim (Option-cases (first_where (profile_of id) d.profiles)) [
  | inl missing ↦ absurd (
      ground (
        arith,
        held,
        s.identity.one_profile id,
        first_where-none (profile_of id) d.profiles missing,
      ))
  | inr found ↦ found
]

-- On sound accounts, an edit of a profile that succeeds leaves in the player's own profile each of
-- the display name, role, skill rating, bio and phone as it was given, or as it was where it was left
-- out, and in the player's account the email that was given, which no other account has in any case
-- of its letters; no role was given as null, nothing else of the two rows and no other profile,
-- account, session or code changes. One that fails changes nothing.
pub update_profile-Updated :
    (id : ℕ) (before : Accounts) (p : ProfileUpdate) (d : Accounts)
    → Sound d
    → let (answer, w) = run (update_profile id before p) d in IfUpdated d id p answer w
unfolding update_profile
update_profile-Updated id before p d s = Ends-run {Q = IfUpdated d id p} _ d (
    Ends-gets _ _ _ (
      Ends-found _ _ _ _ refl λ player held.
        let ((k, old), e) = has_profile id player d s held in
        Ends-gets _ _ _ (
          Ends-require _ _ _ _ refl λ unseen. Ends-require _ _ _ _ refl λ has_row.
            Ends-flush_profile id p player (first_where (profile_of id) d.profiles) _ _ refl
              λ free role. Ends-commit _ _ (
                rw e (
                  Passes-found _ (k, old) _ _ _ refl
                    (Ends-pure _ _
                      (edited_row id p d s player held k old e free (no_null role))))))))

-- On sound accounts, an edit that gives a null for the role and no email answers 409 EMAIL_TAKEN and
-- changes nothing.
pub update_profile-null_role :
    (id : ℕ) (before : Accounts) (p : ProfileUpdate) (player : Account) (d : Accounts)
    → Sound d
    → get d.users id ≡ some player
    → p.cricket_role ≡ some none
    → p.email ≡ none
    → run (update_profile id before p) d ≡ (err email_taken, d)
unfolding update_profile flush_profile new_email run ◌>>=◌ except_integrity
update_profile-null_role id before p player d s held null_role no_email =
    let ((k, old), e) = has_profile id player d s held in
    rw (held, e, no_email, null_role) (ground arith)
