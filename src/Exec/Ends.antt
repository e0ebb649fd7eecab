-- ===== src/Exec/Ends.antt =====
-- How a handler ends: one rule for each action, with the session that the rest begins in.
use stranger_club.Base.{◌≡◌, refl, Bool, true, false, Option, none, some, if◌then◌else◌}
use stranger_club.Exec.{
  Error, integrity_error, Result, ok, err, Session, Exec, pure, raise, or_raise, gets, require,
  modify, commit, rollback, ◌>>=◌, except_integrity, run, on_integrity, continue,
}

-- From `s` the handler ends with an answer and a database that satisfy `Q`.
pub record Ends {ℓ} {S : Type 0} {A : Type ℓ} (Q : Result A → S → Type 0) (m : Exec S A)
    (s : Session S) : Type 0 where
  pub holds : Q (m s).0 (m s).1.committed

module _ {ℓ} {S : Type 0} {A : Type ℓ} (Q : Result A → S → Type 0) (e : Error) where
  -- What an answer means before the handler of IntegrityError has turned it into `e`.
  abbrev pub BeforeExcept : Result A → S → Type 0
  BeforeExcept (ok a) d = Q (ok a) d
  BeforeExcept (err integrity_error) d = Q (err e) d
  BeforeExcept (err other) d = Q (err other) d

  except_cases :
      (r : Result A) (s : Session S)
      → BeforeExcept r s.committed
      → Q (on_integrity e r s).0 (on_integrity e r s).1.committed
  except_cases (ok a) s h = h
  except_cases (err integrity_error) s h = h
  except_cases (err other) s h = h

module _ {ℓ} {S : Type 0} {A : Type ℓ} {Q : Result A → S → Type 0} where
  pub Ends-pure : (a : A) (s : Session S) → Q (ok a) s.committed → Ends Q (pure a) s
  unfolding ◌>>=◌
  Ends-pure a s h = record { holds = h }

  pub Ends-raise : (e : Error) (s : Session S) → Q (err e) s.committed → Ends Q (raise e) s
  unfolding ◌>>=◌
  Ends-raise e s h = record { holds = h }

  pub Ends-if :
      (b : Bool) (m n : Exec S A) (s : Session S)
      → (b ≡ true → Ends Q m s)
      → (b ≡ false → Ends Q n s)
      → Ends Q (if b then m else n) s
  Ends-if true m n s km kn = km refl
  Ends-if false m n s km kn = kn refl

  pub Ends-require :
      (b : Bool) (e : Error) (k : Unit {0} → Exec S A) (s : Session S)
      → Q (err e) s.committed
      → (b ≡ true → Ends Q (k tt) s)
      → Ends Q (require b e >>= k) s
  unfolding ◌>>=◌
  Ends-require true e k s failed rest = record { holds = (rest refl).holds }
  Ends-require false e k s failed rest = record { holds = failed }

  pub Ends-modify :
      (f : S → S) (k : Unit {0} → Exec S A) (s : Session S)
      → Ends Q (k tt) (record s { working = f s.working })
      → Ends Q (modify f >>= k) s
  unfolding ◌>>=◌
  Ends-modify f k s rest = record { holds = rest.holds }

  pub Ends-commit :
      (k : Unit {0} → Exec S A) (s : Session S)
      → Ends Q (k tt) (record s { committed = s.working })
      → Ends Q (commit >>= k) s
  unfolding ◌>>=◌
  Ends-commit k s rest = record { holds = rest.holds }

  pub Ends-rollback :
      (k : Unit {0} → Exec S A) (s : Session S)
      → Ends Q (k tt) (record s { working = s.committed })
      → Ends Q (rollback >>= k) s
  unfolding ◌>>=◌
  Ends-rollback k s rest = record { holds = rest.holds }

  pub Ends-except :
      (e : Error) (m : Exec S A) (s : Session S)
      → Ends (BeforeExcept Q e) m s
      → Ends Q (except_integrity e m) s
  unfolding except_integrity
  Ends-except e m s h = record { holds = let (r, s') = m s in except_cases Q e r s' h.holds }

  pub Ends-run :
      (m : Exec S A) (d : S)
      → Ends Q m (record { committed = d; working = d })
      → Q (run m d).0 (run m d).1
  unfolding run
  Ends-run m d h = h.holds

module _ {ℓ κ} {S : Type 0} {A : Type ℓ} {B : Type κ} {Q : Result B → S → Type 0} where
  pub Ends-found :
      (o : Option A) (e : Error) (k : A → Exec S B) (s : Session S)
      → Q (err e) s.committed
      → ((a : A) → o ≡ some a → Ends Q (k a) s)
      → Ends Q (or_raise o e >>= k) s
  unfolding ◌>>=◌
  Ends-found none e k s failed rest = record { holds = failed }
  Ends-found (some a) e k s failed rest = record { holds = (rest a refl).holds }

  pub Ends-gets :
      (f : S → A) (k : A → Exec S B) (s : Session S)
      → Ends Q (k (f s.working)) s
      → Ends Q (gets f >>= k) s
  unfolding ◌>>=◌
  Ends-gets f k s rest = record { holds = rest.holds }

  pub Ends-pure-bind :
      (a : A) (k : A → Exec S B) (s : Session S) → Ends Q (k a) s → Ends Q (pure a >>= k) s
  unfolding ◌>>=◌
  Ends-pure-bind a k s rest = record { holds = rest.holds }

module _ {ℓ κ μ} {S : Type 0} {A : Type ℓ} {B : Type κ} {C : Type μ}
    (Q : Result C → S → Type 0) where
  continue_assoc :
      (r : Result A) (f : A → Exec S B) (k : B → Exec S C) (s : Session S)
      → let (r', s') = continue r (λ a. f a >>= k) s in
        Q r' s'.committed → let (q, t) = (continue r f >>= k) s in Q q t.committed
  unfolding ◌>>=◌
  continue_assoc (ok a) f k s h = h
  continue_assoc (err e) f k s h = h

module _ {ℓ κ μ} {S : Type 0} {A : Type ℓ} {B : Type κ} {C : Type μ}
    {Q : Result C → S → Type 0} where
  -- A sub-procedure opens into its actions.
  pub Ends-assoc :
      (m : Exec S A) (f : A → Exec S B) (k : B → Exec S C) (s : Session S)
      → Ends Q (m >>= λ a. f a >>= k) s
      → Ends Q (m >>= f >>= k) s
  unfolding ◌>>=◌
  Ends-assoc m f k s h = record { holds = let (r, s') = m s in continue_assoc Q r f k s' h.holds }

module _ {S : Type 0} {Q : Result (Unit {0}) → S → Type 0} where
  pub Ends-saved : (s : Session S) → Q (ok tt) s.working → Ends Q commit s
  unfolding ◌>>=◌
  Ends-saved s h = record { holds = h }
