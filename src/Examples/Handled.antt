-- ===== src/Examples/Handled.antt =====
-- What the theorems on single handlers say of the small club.
use stranger_club.Base.{
  [], ◌∷◌, ◌≤◌, ◌≡◌, refl, some, none, true, arith, strip, length, is_alphanumeric, all_characters,
}
use stranger_club.Db.{Db}
use stranger_club.Db.Query.{earliest_where}
use stranger_club.Db.Status.{RegistrationStatus, ActorType}
use stranger_club.Db.Rows.{User}
use stranger_club.Env.{Imaging, Upload}
use stranger_club.Exec.{run, ok, err}
use stranger_club.Lifecycle.{invalid_transition}
use stranger_club.Events.Manage.{EventUpdate}
use stranger_club.Registrations.{
  create_registration, cancel_registration, promote_waitlisted, registration_exists,
}
use stranger_club.Registrations.Waitlist.{IfPromoted, promote_waitlisted-Promoted}
use stranger_club.Registrations.Creation.{
  IfCreated, create_registration-Created, create_registration-no_phone,
}
use stranger_club.Registrations.Cancellation.{IfRepeated, cancel_registration-repeated}
use stranger_club.Payments.{not_found, store_payment_proof}
use stranger_club.Payments.Decisions.{review_payment}
use stranger_club.Payments.Review.{Settled, outcome, review_payment-stuck, review_payment-settles}
use stranger_club.Uploads.Utr.{matches_utr, check_utr, validate_utr, validate_utr_accepts}
use stranger_club.Club.{serve_all, empty}
use stranger_club.Club.Safety.{served-Sound}
use stranger_club.Examples.{
  env, player, form, proof_of, opening, filling, refusal, event, registration, payment, proof,
  configuration, served,
}

abbrev d : Db
d = serve_all opening empty

abbrev full : Db
full = serve_all filling empty

abbrev refused : Db
refused = serve_all refusal empty

abbrev imaging : Imaging
imaging = record { decode = λ bytes. some "PNG"; sha256 = λ bytes. "reg-1" }

abbrev upload : Upload
upload = record { suffix = ".png"; content_type = some "image/png"; content = 1 ∷ 2 ∷ [] }

review_payment-settles_example :
    let (answer, w) = run (review_payment (env 4 "") 1 true 1 none) d in
    (answer ≡ ok 1)
    × Settled (outcome true 0 2) 1 4 1 1 1 (registration RegistrationStatus.pending) w
unfolding served
review_payment-settles_example =
    review_payment-settles (env 4 "") 1 true 1 none d payment 1 (proof "a.png" 3)
      (registration RegistrationStatus.pending) event refl refl refl refl refl
      (served-Sound opening).tables.proofs refl

review_payment-stuck_example :
    run (review_payment (env 6 "") 1 true 1 none) refused ≡ (err invalid_transition, refused)
unfolding served
review_payment-stuck_example =
    review_payment-stuck (env 6 "") 1 true 1 none refused payment 2 (proof "b.png" 5)
      (registration RegistrationStatus.rejected) event refl refl refl refl refl refl

promote_waitlisted-Promoted_example :
    let (answer, w) = run (promote_waitlisted 3 1) full in IfPromoted full 3 answer w
promote_waitlisted-Promoted_example =
    promote_waitlisted-Promoted 3 1 full (served-Sound filling).tables.registrations

create_registration-Created_example :
    let (answer, w) = run (create_registration (env 8 "reg-9") 1 event form (player 9)) d in
    IfCreated d 1 (player 9) answer w
create_registration-Created_example =
    create_registration-Created (env 8 "reg-9") 1 event form (player 9) d
      (served-Sound opening).tables.registrations (served-Sound opening).tables.payments

abbrev no_phone : User
no_phone = record { id = 11; phone = none }

create_registration-no_phone_example :
    run (create_registration (env 8 "reg-9") 1 event form no_phone) d ≡ (err registration_exists, d)
unfolding served
create_registration-no_phone_example =
    create_registration-no_phone (env 8 "reg-9") 1 event event form no_phone d 1 configuration
      (omega arith) refl refl refl refl

cancel_registration-repeated_example :
    let (answer, w) = run (cancel_registration (env 8 "") 1 ActorType.player (some 7)) d in
    IfRepeated 1 answer w
cancel_registration-repeated_example =
    cancel_registration-repeated (env 8 "") 1 ActorType.player (some 7) d

abbrev larger : EventUpdate
larger = record {
  name = none;
  date = none;
  start_time = none;
  end_time = none;
  venue = none;
  capacity = some 4;
  fee = none;
  registration_deadline = none;
  status = none;
}

validate_utr_accepts_example :
    (strip "UTR123456" ≡ "UTR123456")
    × (all_characters is_alphanumeric "UTR123456" ≡ true)
    × (6 ≤ length "UTR123456")
    × (length "UTR123456" ≤ 30)
    × (validate_utr (some "UTR123456") ≡ ok (some "UTR123456"))
unfolding validate_utr check_utr matches_utr strip length is_alphanumeric all_characters
validate_utr_accepts_example = validate_utr_accepts "UTR123456" "UTR123456" refl

-- The waitlisted player takes the place that was given up.
promoted_test :
    (run (promote_waitlisted 3 1) full).0
    ≡ ok (record (registration RegistrationStatus.pending) {
      public_id = "reg-3";
      user_id = some 9;
      created_at = 6;
    })
unfolding served promote_waitlisted earliest_where
promoted_test = refl

created_test : (run (create_registration (env 8 "reg-9") 1 event form (player 9)) d).0 ≡ ok 2
unfolding served
created_test = refl

stored_test :
    (run (store_payment_proof (env 4 "") (proof_of "a.png" "other" 7)) d).0 ≡ err not_found
unfolding served
stored_test = refl
