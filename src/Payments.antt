-- ===== src/Payments.antt =====
-- Payments in backend/app/services.py: `submit_payment_proof`.
pub mod Decisions
pub mod Guards
pub mod Refinement
pub mod Verdicts
pub mod Preparation
pub mod Review
use stranger_club.Base.{
  ℕ, String, Bool, true, false, not, ◌&&◌, Option, none, some, List, [], ◌∷◌, ◌==◌, leb, str_eq,
  or_default, option_is, if◌then◌else◌, map,
}
use stranger_club.Db.{Db, audit, is_payment_of, is_pending_of}
use stranger_club.Db.Query.{Table, get, update, insert, count_where, first_where, ids_where}
use stranger_club.Db.Status.{
  RegistrationStatus, PaymentStatus, ProofStatus, ActorType, registration_is, payment_is,
}
use stranger_club.Db.Rows.{Match, Registration, Payment, PaymentProof, Json, num, text, nums}
use stranger_club.Env.{Env, Imaging, Upload}
use stranger_club.Exec.{
  integrity_error, Error, api_error, runtime_error, Result, ok, err, Exec, pure, raise, or_raise,
  gets, require, modify, commit, rollback, ◌>>=◌, ◌>>◌,
}
use stranger_club.Lifecycle.{write_payment, transition_registration, transition_payment}
use stranger_club.Events.Counts.{match_counts}
use stranger_club.Events.Refresh.{refresh_full_status}
use stranger_club.Uploads.{
  Image, byte_length, max_upload_bytes, read_and_validate_image, persist_image,
}
use stranger_club.Uploads.Utr.{validate_utr}
use stranger_club.Registrations.{event_entry}

abbrev pub not_found : Error
not_found = api_error 404 "RESOURCE_NOT_FOUND"

abbrev pub already_verified : Error
already_verified = api_error 409 "PAYMENT_ALREADY_VERIFIED"

-- `assert_registration_owner`
abbrev pub assert_registration_owner : Registration → ℕ → Exec Db (Unit {0})
assert_registration_owner r user_id = require (option_is r.user_id user_id) not_found

-- `_assert_registration_open_for_payment`: the error that it raises, if it raises one.
unfoldable pub closed_for_payment : RegistrationStatus → Option Error
closed_for_payment RegistrationStatus.waitlisted = some (api_error 409 "EVENT_FULL")
closed_for_payment RegistrationStatus.confirmed = some already_verified
closed_for_payment RegistrationStatus.cancelled = some (api_error 409 "INVALID_STATE_TRANSITION")
closed_for_payment _ = none

unfoldable pub assert_open_for_payment : RegistrationStatus → Exec Db (Unit {0})
assert_open_for_payment s = elim (closed_for_payment s) [ none ↦ pure tt | some e ↦ raise e ]

abbrev pub has_public_id : String → Registration → Bool
has_public_id key r = str_eq r.public_id key

-- `_load_registration_for_payment`, and the payment of the registration
unfoldable pub load_registration_for_payment : String → Exec Db (ℕ × Registration × ℕ × Payment)
load_registration_for_payment key = do
  registration? ← gets (λ d. first_where (has_public_id key) d.registrations)
  (i, r) ← or_raise registration? not_found
  payment? ← gets (λ d. first_where (is_payment_of i) d.payments)
  (p, pay) ← or_raise payment? runtime_error
  pure (i, r, p, pay)

-- Whether the pending proof, if there is one, is this very upload by this very user.
abbrev pub is_replay : ℕ → String → Option (ℕ × PaymentProof) → Bool
is_replay user_id digest none = false
is_replay user_id digest (some (q, proof)) =
    proof.submitted_by_user_id == user_id && str_eq proof.screenshot_hash digest

-- What the part of `submit_payment_proof` before the lock hands on.
pub record Prepared : Type 0 where
  pub registration_key : String
  pub user_id : ℕ
  pub utr : Option String
  pub image : Image
  pub storage_key : String

pub data Submission : Type 0 where
  -- the request is a replay, and nothing is written
  replay : Submission
  stored : Submission
  prepared : Prepared → Submission

unfoldable pub lift : {A : Type 0} → Result A → Exec Db A
lift (ok a) = pure a
lift (err e) = raise e

unfoldable pub persist_upload :
    Env → String → ℕ → Option String → Image → Payment → Exec Db Submission
persist_upload env key user_id utr image pay = do
  require (not (payment_is pay.status PaymentStatus.verified)) already_verified
  storage_key ← persist_image env image
  pure (
      prepared (record {
        registration_key = key;
        user_id = user_id;
        utr = utr;
        image = image;
        storage_key = storage_key;
      }))

-- `submit_payment_proof` up to the lock: it reads the database and writes the image only.
unfoldable pub prepare_payment_proof :
    Env → Imaging → String → Upload → Option String → ℕ → Exec Db Submission
prepare_payment_proof env imaging key upload utr user_id = do
  utr ← lift (validate_utr utr)
  (_, r, p, pay) ← load_registration_for_payment key
  assert_registration_owner r user_id
  assert_open_for_payment r.status
  image ← read_and_validate_image imaging upload max_upload_bytes
  pending ← gets (λ d. first_where (is_pending_of p) d.proofs)
  if is_replay user_id image.digest pending
      then pure replay
      else persist_upload env key user_id utr image pay

abbrev pub superseded_at : ℕ → PaymentProof → PaymentProof
superseded_at now proof = record proof { status = ProofStatus.superseded; superseded_at = some now }

abbrev pub supersede : ℕ → Option (ℕ × PaymentProof) → Table PaymentProof → Table PaymentProof
supersede now none t = t
supersede now (some (q, proof)) t = update t q (superseded_at now proof)

unfoldable pub new_proof : Env → ℕ → Prepared → PaymentProof
new_proof env payment_id input = record {
  payment_id = payment_id;
  storage_key = input.storage_key;
  screenshot_hash = input.image.digest;
  file_size = byte_length input.image.content;
  content_type = input.image.content_type;
  utr_reference = input.utr;
  uploaded_at = env.now;
  submitted_by_user_id = input.user_id;
  status = ProofStatus.pending;
  reviewed_by_organizer_id = none;
  reviewed_at = none;
  rejection_reason = none;
  superseded_at = none;
}

-- `_find_duplicate_proofs_by_hash`: the proofs of other payments with the same screenshot.
unfoldable pub find_duplicate_proofs_by_hash : String → ℕ → Db → List ℕ
find_duplicate_proofs_by_hash digest payment_id d =
    ids_where (λ q. str_eq q.screenshot_hash digest && not (q.payment_id == payment_id)) d.proofs

unfoldable pub advance_payment : ℕ → ℕ → ℕ → Payment → Exec Db Payment
advance_payment user_id proof_id p pay =
    if payment_is pay.status PaymentStatus.submitted
    then pure pay
    else transition_payment p pay PaymentStatus.submitted "PAYMENT_PROOF_SUBMITTED" ActorType.player
        (some user_id) (("proof_id", num proof_id) ∷ [])

abbrev pub submitted_payment : Env → Payment → Payment
submitted_payment env pay = record pay {
  submitted_at = some (or_default pay.submitted_at env.now);
  rejection_reason = none;
}

unfoldable pub write_proof :
    Env → ℕ → Payment → Option (ℕ × PaymentProof) → Prepared → Exec Db Submission
write_proof env p pay pending input = do
  modify (λ d. record d { proofs = supersede env.now pending d.proofs })
  duplicates ← gets (find_duplicate_proofs_by_hash input.image.digest p)
  proof_id ← gets (λ d. d.proofs.next_id)
  same_key ← gets (λ d. count_where (λ q. str_eq q.storage_key input.storage_key) d.proofs)
  require (same_key == 0) integrity_error
  modify (λ d. record d { proofs = insert d.proofs (new_proof env p input) })
  moved ← advance_payment input.user_id proof_id p pay
  modify (write_payment p (submitted_payment env moved))
  audit (
      event_entry "PAYMENT_PROOF_SUBMITTED" "payment_proof" proof_id
        (("payment_id", num p)
          ∷ ("screenshot_hash", text input.image.digest)
          ∷ ("duplicate_of", nums duplicates)
          ∷ [])
        ActorType.player (some input.user_id))
  commit
  pure stored

unfoldable pub keep_replay : Exec Db Submission
keep_replay = do commit; pure replay

-- `submit_payment_proof` from the lock on, with every guard checked again.
unfoldable pub store_payment_proof : Env → Prepared → Exec Db Submission
store_payment_proof env input = do
  rollback
  (_, r, p, pay) ← load_registration_for_payment input.registration_key
  assert_open_for_payment r.status
  require (not (payment_is pay.status PaymentStatus.verified)) already_verified
  pending ← gets (λ d. first_where (is_pending_of p) d.proofs)
  if is_replay input.user_id input.image.digest pending
      then keep_replay
      else write_proof env p pay pending input
