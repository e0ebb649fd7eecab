-- ===== src/Payments/Preparation.antt =====
-- The phase of `submit_payment_proof` before the lock, action by action.
use stranger_club.Base.{ℕ, String, ◌≡◌, refl, Option, none, some, true, option_is}
use stranger_club.Db.{Db, is_pending_of}
use stranger_club.Db.Query.{first_where}
use stranger_club.Env.{Env, Imaging, Upload}
use stranger_club.Exec.{Error, Result, ok, err, Session, Exec, ◌>>=◌, run}
use stranger_club.Exec.Ends.{Ends, Ends-pure, Ends-if, Ends-require, Ends-run, Ends-gets}
use stranger_club.Uploads.Ends.{Ends-read_and_validate_image, Ends-persist_image}
use stranger_club.Uploads.Utr.{validate_utr}
use stranger_club.Db.Rows.{Registration}
use stranger_club.Payments.{
  Submission, replay, stored, prepared, has_public_id, is_replay, lift, persist_upload,
  prepare_payment_proof,
}
use stranger_club.Payments.Guards.{Ends-open, Ends-load}

module _ {ℓ} {A : Type ℓ} {B : Type 0} {Q : Result A → Db → Type 0} where
  Ends-lift :
      (r : Result B) (k : B → Exec Db A) (s : Session Db)
      → ((e : Error) → Q (err e) s.committed)
      → ((b : B) → Ends Q (k b) s)
      → Ends Q (lift r >>= k) s
  unfolding lift ◌>>=◌
  Ends-lift (ok b) k s failed rest = record { holds = (rest b).holds }
  Ends-lift (err e) k s failed rest = record { holds = failed e }

-- What the phase hands on: a proof for a registration of the user who sends it.
abbrev pub IsOwnRow : ℕ → Option (ℕ × Registration) → Type 0
IsOwnRow user_id none = ⊥
IsOwnRow user_id (some (i, r)) = option_is r.user_id user_id ≡ true

abbrev pub IfPrepared : Db → ℕ → Result Submission → Type 0
IfPrepared d user_id (ok (prepared input)) =
    (input.user_id ≡ user_id)
    × IsOwnRow user_id (first_where (has_public_id input.registration_key) d.registrations)
IfPrepared d user_id (ok replay) = Unit
IfPrepared d user_id (ok stored) = Unit
IfPrepared d user_id (err e) = Unit

own_row :
    (user_id i : ℕ) (r : Registration) (row : Option (ℕ × Registration))
    → row ≡ some (i, r)
    → option_is r.user_id user_id ≡ true
    → IsOwnRow user_id row
own_row user_id i r row e own = rw e own

prepare-Ends :
    (env : Env) (imaging : Imaging) (key : String) (upload : Upload) (utr : Option String)
    (user_id : ℕ) (d : Db)
    → Ends
        (λ r w. (w ≡ d) × IfPrepared d user_id r)
        (prepare_payment_proof env imaging key upload utr user_id)
        (record { committed = d; working = d })
unfolding prepare_payment_proof persist_upload
prepare-Ends env imaging key upload utr user_id d =
    Ends-lift (validate_utr utr) _ _ (λ e. (refl, tt))
      λ reference.
        Ends-load _ _ _ (λ e. (refl, tt))
          λ i r p pay loaded paid.
            Ends-require _ _ _ _ (refl, tt)
              λ owner.
                Ends-open _ _ _ (λ e. (refl, tt))
                  λ is_open.
                    Ends-read_and_validate_image _ _ _ _ _ (λ e. (refl, tt))
                      λ image. Ends-gets _ _ _ (
                        Ends-if
                          (is_replay user_id image.digest (first_where (is_pending_of p) d.proofs))
                          _ _ _ (λ same. Ends-pure _ _ (refl, tt))
                          λ other.
                            Ends-require _ _ _ _ (refl, tt)
                              λ unverified.
                                Ends-persist_image _ _ _ _ (λ e. (refl, tt))
                                  λ name.
                                    Ends-pure _ _
                                      (refl, (refl, own_row user_id i r _ loaded owner)))

-- Whatever its input, and whether it raises or returns, the unlocked phase of
-- `submit_payment_proof` leaves the database as it was.
pub prepare_payment_proof-keeps :
    (env : Env) (imaging : Imaging) (key : String) (upload : Upload) (utr : Option String)
    (user_id : ℕ) (d : Db)
    → (run (prepare_payment_proof env imaging key upload utr user_id) d).1 ≡ d
prepare_payment_proof-keeps env imaging key upload utr user_id d =
    (Ends-run _ d (prepare-Ends env imaging key upload utr user_id d)).0

pub prepare_payment_proof-IfPrepared :
    (env : Env) (imaging : Imaging) (key : String) (upload : Upload) (utr : Option String)
    (user_id : ℕ) (d : Db)
    → IfPrepared d user_id (run (prepare_payment_proof env imaging key upload utr user_id) d).0
prepare_payment_proof-IfPrepared env imaging key upload utr user_id d =
    (Ends-run _ d (prepare-Ends env imaging key upload utr user_id d)).1
