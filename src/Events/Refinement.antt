-- ===== src/Events/Refinement.antt =====
-- The handlers of an organizer's event against the moves of Spec.
use stranger_club.Base.{
  Bool, ◌&&◌, leb, true, Option, none, or_default, arith, ℕ, ◌≡◌, refl, some, leb, leb→le,
}
use stranger_club.Db.{Db, confirmed_count}
use stranger_club.Db.Query.{get}
use stranger_club.Db.Rows.{Match, Organizer}
use stranger_club.Env.{Env, Imaging, Upload}
use stranger_club.Exec.{run}
use stranger_club.Exec.Ends.{
  Ends, Ends-pure, Ends-require, Ends-modify, Ends-commit, Ends-found, Ends-gets, Ends-run,
}
use stranger_club.Lifecycle.Ends.{Ends-audit}
use stranger_club.Uploads.Ends.{Ends-read_and_validate_image, Ends-persist_image}
use stranger_club.Events.Counts.{match_counts}
use stranger_club.Db.Status.{EventStatus}
use stranger_club.Events.Manage.{
  combine, match_is_valid, new_match, status_allowed, MatchCreate, create_match, EventUpdate,
  updated_match, update_match, PaymentConfigurationUpdate, update_payment_configuration,
  set_payment_configuration_qr,
}
use stranger_club.Spec.{IsValidMatch, logged, opened, configured, edited, here, next, Refines}

-- The guards and the constraints of the columns are what a valid event has.
checked-IsValidMatch :
    (match : Match)
    → leb match.registration_deadline (combine match.date match.start_time) ≡ true
    → match_is_valid match ≡ true
    → IsValidMatch match
checked-IsValidMatch match in_time valid = record {
  closes = leb→le match.registration_deadline (combine match.date match.start_time) in_time;
  capacity = ground arith;
  fee = ground arith;
}

second : (a b : Bool) → (a && b) ≡ true → b ≡ true
second a b h = ground arith

create_match-Ends :
    (env : Env) (payload : MatchCreate) (organizer : Organizer) (d : Db)
    → Ends (Refines d) (create_match env payload organizer) (record { committed = d; working = d })
unfolding create_match new_match
create_match-Ends env payload organizer d = Ends-require _ _ _ _ refl λ in_time. Ends-gets _ _ _ (
    Ends-require _ _ _ _ refl λ valid. Ends-gets _ _ _ (
      Ends-modify _ _ _ (
        Ends-gets _ _ _ (
          Ends-require _ _ _ _ refl λ alone. Ends-modify _ _ _ (
            Ends-audit _ _ _ (
              Ends-commit _ _ (
                Ends-pure _ _ (
                  next
                    (next
                      (next here (
                        opened _ (
                          checked-IsValidMatch (new_match env payload organizer) in_time
                            (second _ _ valid))))
                      (configured _))
                    (logged _)))))))))

moved_status :
    (from : EventStatus) (to : Option EventStatus)
    → status_allowed from to ≡ true
    → status_allowed from (some (or_default to from)) ≡ true
moved_status from none h = ground arith
moved_status from (some to) h = h

update_match-Ends :
    (m : ℕ) (match : Match) (payload : EventUpdate) (organizer : Organizer) (d : Db)
    → get d.matches m ≡ some match
    → Ends
        (Refines d)
        (update_match m match payload organizer)
        (record { committed = d; working = d })
unfolding update_match match_counts updated_match
update_match-Ends m match payload organizer d e = Ends-require _ _ _ _ refl λ allowed.
    Ends-modify _ _ _ (
      Ends-require _ _ _ _ refl λ ends_later. Ends-require _ _ _ _ refl λ in_time. Ends-gets _ _ _ (
        Ends-require _ _ _ _ refl λ room. Ends-audit _ _ _ (
          Ends-require _ _ _ _ refl λ valid. Ends-commit _ _ (
            Ends-pure _ _ (
              next
                (next here (
                  edited m match _ e
                    (leb→le (confirmed_count d m) (updated_match payload match).capacity room)
                    (record {
                      identifier = refl;
                      owner = refl;
                      status = moved_status match.status payload.status allowed;
                      valid = λ v. checked-IsValidMatch (updated_match payload match) in_time valid;
                    })))
                (logged _))))))

update_payment_configuration-Ends :
    (m : ℕ) (payload : PaymentConfigurationUpdate) (organizer : Organizer) (d : Db)
    → Ends
        (Refines d)
        (update_payment_configuration m payload organizer)
        (record { committed = d; working = d })
unfolding update_payment_configuration
update_payment_configuration-Ends m payload organizer d = Ends-gets _ _ _ (
    Ends-found _ _ _ _ refl λ config found. Ends-modify _ _ _ (
      Ends-audit _ _ _
        (Ends-commit _ _ (Ends-pure _ _ (next (next here (configured _)) (logged _))))))

set_payment_configuration_qr-Ends :
    (env : Env) (imaging : Imaging) (m : ℕ) (upload : Upload) (organizer : Organizer) (d : Db)
    → Ends
        (Refines d)
        (set_payment_configuration_qr env imaging m upload organizer)
        (record { committed = d; working = d })
unfolding set_payment_configuration_qr
set_payment_configuration_qr-Ends env imaging m upload organizer d = Ends-gets _ _ _ (
    Ends-found _ _ _ _ refl λ config found.
      Ends-read_and_validate_image _ _ _ _ _ (λ e. refl)
        λ image.
          Ends-persist_image _ _ _ _ (λ e. refl)
            λ key. Ends-modify _ _ _ (
              Ends-audit _ _ _
                (Ends-commit _ _ (Ends-pure _ _ (next (next here (configured _)) (logged _))))))

pub create_match-Refines :
    (env : Env) (payload : MatchCreate) (organizer : Organizer) (d : Db)
    → let (answer, w) = run (create_match env payload organizer) d in Refines d answer w
create_match-Refines env payload organizer d =
    Ends-run _ d (create_match-Ends env payload organizer d)

-- An edit of an event whose row is the stored one makes moves of the specification only when it
-- returns, and leaves the database as it was when it raises.
pub update_match-Refines :
    (m : ℕ) (match : Match) (payload : EventUpdate) (organizer : Organizer) (d : Db)
    → get d.matches m ≡ some match
    → let (answer, w) = run (update_match m match payload organizer) d in Refines d answer w
update_match-Refines m match payload organizer d e =
    Ends-run _ d (update_match-Ends m match payload organizer d e)

pub update_payment_configuration-Refines :
    (m : ℕ) (payload : PaymentConfigurationUpdate) (organizer : Organizer) (d : Db)
    → let (answer, w) = run (update_payment_configuration m payload organizer) d in
      Refines d answer w
update_payment_configuration-Refines m payload organizer d =
    Ends-run _ d (update_payment_configuration-Ends m payload organizer d)

pub set_payment_configuration_qr-Refines :
    (env : Env) (imaging : Imaging) (m : ℕ) (upload : Upload) (organizer : Organizer) (d : Db)
    → let (answer, w) = run (set_payment_configuration_qr env imaging m upload organizer) d in
      Refines d answer w
set_payment_configuration_qr-Refines env imaging m upload organizer d =
    Ends-run _ d (set_payment_configuration_qr-Ends env imaging m upload organizer d)
