-- ===== src/Registrations/Cancellation.antt =====
-- `cancel_registration` called twice.
use stranger_club.Base.{ℕ, ◌≡◌, refl, true, Option, some, arith}
use stranger_club.Db.{Db}
use stranger_club.Db.Query.{get, update}
use stranger_club.Db.Query.Laws.{get-update_self}
use stranger_club.Db.Status.{RegistrationStatus, ActorType, registration_is, event_in}
use stranger_club.Db.Rows.{Match, Registration}
use stranger_club.Env.{Env}
use stranger_club.Exec.{Result, ok, err, run}
use stranger_club.Exec.Ends.{
  Ends, Ends-pure, Ends-raise, Ends-if, Ends-modify, Ends-commit, Ends-rollback, Ends-run,
  Ends-found, Ends-gets,
}
use stranger_club.Exec.Passes.{Passes-found}
use stranger_club.Lifecycle.Ends.{Ends-transition_registration}
use stranger_club.Events.Refresh.{Refreshed-rows, Ends-refresh}
use stranger_club.Registrations.{
  cancellable_event_statuses, cancel_active, refuse_started, cancel_standing, keep_cancelled,
  cancel_registration,
}
use stranger_club.Registrations.Refinement.{Ends-leave_team}

-- The answer to a cancellation is the row that is stored, and it is CANCELLED.
pub record Cancelled (i : ℕ) (row : Registration) (w : Db) : Type 0 where
  pub stored : get w.registrations i ≡ some row
  pub status : row.status ≡ RegistrationStatus.cancelled

abbrev pub IfCancelled : Db → ℕ → Result Registration → Db → Type 0
IfCancelled d i (ok row) w = Cancelled i row w
IfCancelled d i (err e) w = w ≡ d

is_cancelled :
    (s : RegistrationStatus)
    → registration_is s RegistrationStatus.cancelled ≡ true
    → s ≡ RegistrationStatus.cancelled
is_cancelled s h = ground arith

cancelled :
    (env : Env) (d w : Db) (i : ℕ) (r : Registration)
    → get d.registrations i ≡ some r
    → w.registrations
      ≡ update
          (update d.registrations i (record r { status = RegistrationStatus.cancelled }))
          i
          (record r { status = RegistrationStatus.cancelled; cancelled_at = some env.now })
    → Cancelled i
        (record r { status = RegistrationStatus.cancelled; cancelled_at = some env.now })
        w
cancelled env d w i r found e = record {
  stored = rw e (
      get-update_self _ i _ (record r { status = RegistrationStatus.cancelled })
        (get-update_self d.registrations i _ r found));
  status = refl;
}

active-Ends :
    (env : Env) (i : ℕ) (r : Registration) (match : Match) (t : ActorType) (a : Option ℕ) (d : Db)
    → get d.registrations i ≡ some r
    → Ends
        (IfCancelled d i)
        (cancel_active env i r match t a)
        (record { committed = d; working = d })
unfolding cancel_active
active-Ends env i r match t a d found =
    Ends-transition_registration _ _ _ _ _ _ _ _ _ refl λ allowed. Ends-modify _ _ _ (
      Ends-gets _ _ _ (
        Ends-leave_team _ _ _ _ _ refl
          (Ends-refresh _ _ _ _ λ w moves.
            Ends-commit _ _ (Ends-pure _ _ (cancelled env d w i r found (Refreshed-rows moves).0)))
          λ id entry. Ends-refresh _ _ _ _ λ w moves.
            Ends-commit _ _ (Ends-pure _ _ (cancelled env d w i r found (Refreshed-rows moves).0))))

cancel-Ends :
    (env : Env) (i : ℕ) (t : ActorType) (a : Option ℕ) (d : Db)
    → Ends (IfCancelled d i) (cancel_registration env i t a) (record { committed = d; working = d })
unfolding cancel_registration keep_cancelled cancel_standing refuse_started
cancel-Ends env i t a d = Ends-rollback _ _ (
    Ends-gets _ _ _ (
      Ends-found _ _ _ _ refl λ r found.
        Ends-if (registration_is r.status RegistrationStatus.cancelled) (keep_cancelled r)
          (cancel_standing env i r t a) _
          (λ gone.
            Ends-commit _ _
              (Ends-pure _ _ (record { stored = found; status = is_cancelled r.status gone })))
          λ stands. Ends-gets _ _ _ (
            Ends-found _ _ _ _ refl λ match held.
              Ends-if (event_in match.status cancellable_event_statuses)
                (cancel_active env i r match t a) refuse_started _
                (λ cancellable. active-Ends env i r match t a d found)
                λ begun. Ends-commit _ _ (Ends-raise _ _ refl))))

again :
    (env : Env) (i : ℕ) (t : ActorType) (a : Option ℕ) (row : Registration) (w : Db)
    → Cancelled i row w
    → run (cancel_registration env i t a) w ≡ (ok row, w)
unfolding cancel_registration keep_cancelled
again env i t a row w h =
    let (answer, same) =
      Ends-run {Q = λ a v. (a ≡ ok row) × (v ≡ w)} (cancel_registration env i t a) w (
        Ends-rollback _ _ (
          Ends-gets _ _ _ (
            Passes-found _ row _ _ _ h.stored (
              Ends-if (registration_is row.status RegistrationStatus.cancelled) (keep_cancelled row)
                (cancel_standing env i row t a) _
                (λ gone. Ends-commit _ _ (Ends-pure _ _ (refl, refl)))
                λ stands. absurd (ground (arith, h.status)))))) in
    ground arith

abbrev pub IfRepeated : ℕ → Result Registration → Db → Type 0
IfRepeated i (ok row) w =
    (env : Env) (t : ActorType) (a : Option ℕ) → run (cancel_registration env i t a) w ≡ (ok row, w)
IfRepeated i (err e) w = Unit

repeated :
    (d : Db) (i : ℕ) (answer : Result Registration) (w : Db)
    → IfCancelled d i answer w
    → IfRepeated i answer w
repeated d i (ok row) w h = λ env t a. again env i t a row w h
repeated d i (err e) w h = tt

-- After a cancellation that succeeded, a repeated one, by whoever and whenever, answers the same
-- row and changes nothing.
pub cancel_registration-repeated :
    (env : Env) (i : ℕ) (t : ActorType) (a : Option ℕ) (d : Db)
    → let (answer, w) = run (cancel_registration env i t a) d in IfRepeated i answer w
cancel_registration-repeated env i t a d =
    let (answer, w) = run (cancel_registration env i t a) d in
    repeated d i answer w (Ends-run _ d (cancel-Ends env i t a d))
