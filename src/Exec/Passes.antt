-- ===== src/Exec/Passes.antt =====
-- How a handler ends where a test or a lookup is known beforehand: the rules that go forward.
use stranger_club.Base.{◌≡◌, Bool, true, false, Option, some}
use stranger_club.Exec.{Error, Result, err, Session, Exec, or_raise, require, ◌>>=◌}
use stranger_club.Exec.Ends.{Ends}

module _ {ℓ} {S : Type 0} {A : Type ℓ} {Q : Result A → S → Type 0} where
  pub Passes-require :
      (b : Bool) (e : Error) (k : Unit {0} → Exec S A) (s : Session S)
      → b ≡ true
      → Ends Q (k tt) s
      → Ends Q (require b e >>= k) s
  unfolding ◌>>=◌
  Passes-require true e k s h rest = record { holds = rest.holds }
  Passes-require false e k s h rest = cc

  pub Refuses-require :
      (b : Bool) (e : Error) (k : Unit {0} → Exec S A) (s : Session S)
      → b ≡ false
      → Q (err e) s.committed
      → Ends Q (require b e >>= k) s
  unfolding ◌>>=◌
  Refuses-require true e k s h failed = cc
  Refuses-require false e k s h failed = record { holds = failed }

module _ {ℓ κ} {S : Type 0} {A : Type ℓ} {B : Type κ} {Q : Result B → S → Type 0} where
  pub Passes-found :
      (o : Option A) (a : A) (e : Error) (k : A → Exec S B) (s : Session S)
      → o ≡ some a
      → Ends Q (k a) s
      → Ends Q (or_raise o e >>= k) s
  unfolding ◌>>=◌
  Passes-found o a e k s h rest = rw h (record { holds = rest.holds })
