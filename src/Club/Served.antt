-- ===== src/Club/Served.antt =====
-- A served request, and a sequence of them, against the moves of Spec.
use stranger_club.Base.{ℕ, ◌≡◌, refl, Option, none, some, List, [], ◌∷◌}
use stranger_club.Db.{Db}
use stranger_club.Db.Query.{get}
use stranger_club.Db.Rows.{Match, Organizer}
use stranger_club.Exec.{run}
use stranger_club.Events.Manage.{
  create_match, EventUpdate, update_match, update_payment_configuration,
  set_payment_configuration_qr,
}
use stranger_club.Events.Refinement.{
  create_match-Refines, update_match-Refines, update_payment_configuration-Refines,
  set_payment_configuration_qr-Refines,
}
use stranger_club.Registrations.{create_registration, cancel_registration, promote_waitlisted}
use stranger_club.Registrations.Refinement.{
  Steps-trans, create_registration-Refines, cancel_registration-Refines, promote_waitlisted-Refines,
}
use stranger_club.Payments.{store_payment_proof}
use stranger_club.Payments.Decisions.{review_payment}
use stranger_club.Payments.Refinement.{store_payment_proof-Refines}
use stranger_club.Payments.Verdicts.{review_payment-Refines}
use stranger_club.Payments.Preparation.{prepare_payment_proof-keeps}
use stranger_club.Spec.{Steps, here}
use stranger_club.Club.{
  Request, opens, edits, configures, uploads_qr, registers, cancels, promotes, uploads_proof,
  stores_proof, reviews, serve_edit, serve, serve_all,
}
use stranger_club.Club.Sound.{Sound, Steps-Sound, Refines-Steps}

edit-Steps :
    (m : ℕ) (payload : EventUpdate) (organizer : Organizer) (match : Option Match) (d : Db)
    → get d.matches m ≡ match
    → Steps d (serve_edit m payload organizer match d)
unfolding serve_edit
edit-Steps m payload organizer none d e = here
edit-Steps m payload organizer (some match) d e =
    Refines-Steps (run (update_match m match payload organizer) d).0
      (update_match-Refines m match payload organizer d e)

pub serve-Steps : (q : Request) (d : Db) → Sound d → Steps d (serve q d)
unfolding serve
serve-Steps (opens env payload organizer) d h =
    Refines-Steps (run (create_match env payload organizer) d).0
      (create_match-Refines env payload organizer d)
serve-Steps (edits m payload organizer) d h = edit-Steps m payload organizer _ d refl
serve-Steps (configures m payload organizer) d h =
    Refines-Steps (run (update_payment_configuration m payload organizer) d).0
      (update_payment_configuration-Refines m payload organizer d)
serve-Steps (uploads_qr env imaging m upload organizer) d h =
    Refines-Steps (run (set_payment_configuration_qr env imaging m upload organizer) d).0
      (set_payment_configuration_qr-Refines env imaging m upload organizer d)
serve-Steps (registers env m stale payload user) d h =
    Refines-Steps (run (create_registration env m stale payload user) d).0
      (create_registration-Refines env m stale payload user d)
serve-Steps (cancels env i t a) d h =
    Refines-Steps (run (cancel_registration env i t a) d).0
      (cancel_registration-Refines env i t a d)
serve-Steps (promotes i a) d h =
    Refines-Steps (run (promote_waitlisted i a) d).0 (promote_waitlisted-Refines i a d)
serve-Steps (uploads_proof env imaging key upload utr user_id) d h =
    rw (prepare_payment_proof-keeps env imaging key upload utr user_id d) here
serve-Steps (stores_proof env input) d h =
    Refines-Steps (run (store_payment_proof env input) d).0
      (store_payment_proof-Refines env input d h.tables.registrations h.tables.payments)
serve-Steps (reviews env p approve a reason) d h =
    Refines-Steps (run (review_payment env p approve a reason) d).0
      (review_payment-Refines env p approve a reason d)

-- On a sound database, any sequence of requests, those that fail among them, makes moves of the
-- specification only.
pub serve_all-Steps : (qs : List Request) (d : Db) → Sound d → Steps d (serve_all qs d)
unfolding serve_all
serve_all-Steps [] d h = here
serve_all-Steps (q ∷ qs) d h =
    Steps-trans (serve-Steps q d h)
      (serve_all-Steps qs (serve q d) (Steps-Sound (serve-Steps q d h) h))
