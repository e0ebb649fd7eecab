-- ===== src/Exec.antt =====
-- A request handler of backend/app/services.py against its SQLAlchemy session: `working` is what
-- the open transaction sees, `committed` what the database keeps if the session closes here. A
-- handler that raises has not undone its writes; they are lost unless it had committed them.
pub mod Ends
pub mod Passes
use stranger_club.Base.{ℕ, String, Bool, true, false, Option, none, some}

pub data Error : Type 0 where
  -- `api_error(status_code, code, message)`; the message is not modelled
  api_error : ℕ → String → Error
  -- `sqlalchemy.exc.IntegrityError`: a constraint of models.py refuses a flush
  integrity_error : Error
  -- any other exception, which ends as a 500
  runtime_error : Error

pub data Result {ℓ} (A : Type ℓ) : Type ℓ where
  ok : A → Result A
  err : Error → Result A

pub record Session (S : Type 0) : Type 0 where
  pub committed : S
  pub working : S

abbrev pub Exec {ℓ} : Type 0 → Type ℓ → Type ℓ
Exec S A = Session S → Result A × Session S

module _ {ℓ} {S : Type 0} {A : Type ℓ} where
  pub pure : A → Exec S A
  pure a s = (ok a, s)

  pub raise : Error → Exec S A
  raise e s = (err e, s)

  pub or_raise : Option A → Error → Exec S A
  or_raise none e s = (err e, s)
  or_raise (some a) e s = (ok a, s)

  pub gets : (S → A) → Exec S A
  gets f s = (ok (f s.working), s)

module _ {S : Type 0} where
  -- `if not b: raise e`
  pub require : Bool → Error → Exec S (Unit {0})
  require true e s = (ok tt, s)
  require false e s = (err e, s)

  pub modify : (S → S) → Exec S (Unit {0})
  modify f s = (ok tt, record s { working = f s.working })

  pub commit : Exec S (Unit {0})
  commit s = (ok tt, record s { committed = s.working })

  pub rollback : Exec S (Unit {0})
  rollback s = (ok tt, record s { working = s.committed })

module _ {ℓ κ} {S : Type 0} {A : Type ℓ} {B : Type κ} where
  abbrev pub continue : Result A → (A → Exec S B) → Exec S B
  continue (ok a) f s = f a s
  continue (err e) f s = (err e, s)

  infixl 5 ◌>>=◌ ◌>>◌
  -- opening this opens the actions above too
  unfoldable pub ◌>>=◌ : Exec S A → (A → Exec S B) → Exec S B
  unfolding pure raise or_raise gets require modify commit rollback
  ◌>>=◌ m f s = let (r, s') = m s in continue r f s'

  abbrev pub ◌>>◌ : Exec S A → Exec S B → Exec S B
  m >> k = m >>= λ _. k

module _ {ℓ} {S : Type 0} {A : Type ℓ} where
  abbrev on_integrity : Error → Result A → Session S → Result A × Session S
  on_integrity e (ok a) s = (ok a, s)
  on_integrity e (err integrity_error) s = (err e, record s { working = s.committed })
  on_integrity e (err other) s = (err other, s)

  -- `try: m; except IntegrityError: session.rollback(); raise e`
  unfoldable pub except_integrity : Error → Exec S A → Exec S A
  except_integrity e m s = let (r, s') = m s in on_integrity e r s'

  -- A whole request: its answer, and the database after the session has closed.
  unfoldable pub run : Exec S A → S → Result A × S
  run m d = let (r, s) = m (record { committed = d; working = d }) in (r, s.committed)
