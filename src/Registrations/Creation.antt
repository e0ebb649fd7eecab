-- ===== src/Registrations/Creation.antt =====
-- What `create_registration` stores and refuses under its locks.
use stranger_club.Base.{ℕ, String, ◌≡◌, ◌≤◌, ◌<◌, refl, true, none, some, [], ◌∷◌, arith, ◌==◌}
use stranger_club.Db.{Db, is_active_of, confirmed_count}
use stranger_club.Db.Query.{get, insert, count_where, first_where}
use stranger_club.Db.Query.Laws.{IsTable, get-insert}
use stranger_club.Db.Status.{EventStatus, RegistrationStatus, PaymentStatus, event_in}
use stranger_club.Db.Rows.{Match, EventPaymentConfiguration, Registration, Payment, User}
use stranger_club.Env.{Env}
use stranger_club.Exec.{Result, ok, err, run}
use stranger_club.Exec.Ends.{
  Ends, BeforeExcept, Ends-pure, Ends-require, Ends-commit, Ends-rollback, Ends-except, Ends-run,
  Ends-found, Ends-gets, Ends-assoc,
}
use stranger_club.Exec.Passes.{Passes-require, Refuses-require, Passes-found}
use stranger_club.Lifecycle.Ends.{Ends-audit}
use stranger_club.Events.Counts.{match_counts}
use stranger_club.Registrations.{
  RegistrationCreate, insert_registration, snapshot_payment, initial_status, new_registration,
  write_new_registration, create_registration, registration_exists,
}
use stranger_club.Registrations.Refinement.{Ends-insert_registration, Ends-insert_payment}

-- What a registration by `user` for event `m` found in `d` and left in `w`.
pub record Created (d : Db) (m : ℕ) (user : User) (i : ℕ) (w : Db) : Type 0 where
  pub match : Match
  pub held : get d.matches m ≡ some match
  pub config_id : ℕ
  pub config : EventPaymentConfiguration
  pub configured : first_where (λ c. c.match_id == m) d.configurations ≡ some (config_id, config)
  pub row : Registration
  pub stored : get w.registrations i ≡ some row
  pub event : row.match_id ≡ m
  pub player : row.user_id ≡ some user.id
  pub phone : user.phone ≡ some row.phone
  pub full : match.capacity ≤ confirmed_count d m → row.status ≡ RegistrationStatus.waitlisted
  pub room : confirmed_count d m < match.capacity → row.status ≡ RegistrationStatus.pending
  pub payment : Payment
  pub paid : get w.payments d.payments.next_id ≡ some payment
  pub owner : payment.registration_id ≡ i
  pub awaiting : payment.status ≡ PaymentStatus.awaiting_proof
  pub fee : payment.amount_due ≡ match.fee
  pub payee : payment.payee_upi_id_snapshot ≡ config.payee_upi_id
  pub payee_name : payment.payee_name_snapshot ≡ config.payee_name
  pub qr : payment.qr_source_snapshot ≡ config.qr_source
  pub qr_key : payment.qr_storage_key_snapshot ≡ config.qr_storage_key

abbrev pub IfCreated : Db → ℕ → User → Result ℕ → Db → Type 0
IfCreated d m user (ok i) w = Created d m user i w
IfCreated d m user (err e) w = w ≡ d

created :
    (env : Env) (d w : Db) (m : ℕ) (match : Match) (c : ℕ) (config : EventPaymentConfiguration)
    (payload : RegistrationCreate) (user : User) (phone : String)
    → IsTable d.registrations
    → IsTable d.payments
    → get d.matches m ≡ some match
    → first_where (λ c. c.match_id == m) d.configurations ≡ some (c, config)
    → user.phone ≡ some phone
    → w.registrations
      ≡ insert d.registrations (
          new_registration env m payload user.id phone
            (initial_status (confirmed_count d m) match.capacity))
    → w.payments ≡ insert d.payments (snapshot_payment d.registrations.next_id match config)
    → Created d m user d.registrations.next_id w
unfolding new_registration snapshot_payment
created env d w m match c config payload user phone ir ip held configured given er ep = record {
  match = match;
  held = held;
  config_id = c;
  config = config;
  configured = configured;
  row =
      new_registration env m payload user.id phone
        (initial_status (confirmed_count d m) match.capacity);
  stored = rw er (
      ground (
        arith,
        get-insert d.registrations d.registrations.next_id
            (new_registration env m payload user.id phone
              (initial_status (confirmed_count d m) match.capacity))
            ir,
      ));
  event = refl;
  player = refl;
  phone = given;
  full = λ le. ground arith;
  room = λ lt. ground arith;
  payment = snapshot_payment d.registrations.next_id match config;
  paid = rw ep (
      ground (
        arith,
        get-insert d.payments d.payments.next_id
            (snapshot_payment d.registrations.next_id match config) ip,
      ));
  owner = refl;
  awaiting = refl;
  fee = refl;
  payee = refl;
  payee_name = refl;
  qr = refl;
  qr_key = refl;
}

create-Ends :
    (env : Env) (m : ℕ) (stale : Match) (payload : RegistrationCreate) (user : User) (d : Db)
    → IsTable d.registrations
    → IsTable d.payments
    → Ends
        (IfCreated d m user)
        (create_registration env m stale payload user)
        (record { committed = d; working = d })
unfolding create_registration match_counts write_new_registration
create-Ends env m stale payload user d ir ip = Ends-require _ _ _ _ refl λ is_open.
    Ends-rollback _ _ (
      Ends-gets _ _ _ (
        Ends-found _ _ _ _ refl λ match found. Ends-gets _ _ _ (
          Ends-found _ _ _ _ refl λ config configured. Ends-gets _ _ _ (
            Ends-except _ _ _ (
              Ends-found _ _ _ _ refl λ phone given. Ends-insert_registration _ _ _ _ refl λ free.
                Ends-insert_payment _ _ _ refl (
                  Ends-audit _ _ _ (
                    Ends-commit _ _ (
                      Ends-pure _ _ (
                        created env d _ m match config.0 config.1 payload user phone ir ip found
                          configured given refl refl)))))))))

-- On tables whose keys are distinct, a registration that succeeds stores a row of the player with
-- the phone of the account, WAITLISTED exactly if the event is full under the lock and PENDING
-- otherwise, and a payment AWAITING_PROOF that copies the fee of the stored event, and the payee, the
-- payee's name and the QR code of its stored payment configuration; one that fails changes nothing.
pub create_registration-Created :
    (env : Env) (m : ℕ) (stale : Match) (payload : RegistrationCreate) (user : User) (d : Db)
    → IsTable d.registrations
    → IsTable d.payments
    → let (answer, w) = run (create_registration env m stale payload user) d in
      IfCreated d m user answer w
create_registration-Created env m stale payload user d ir ip =
    Ends-run _ d (create-Ends env m stale payload user d ir ip)

module _ (env : Env) (m : ℕ) (stale match : Match) (payload : RegistrationCreate) (user : User)
    (d : Db) (c : ℕ) (config : EventPaymentConfiguration)
    (in_time : env.now ≤ stale.registration_deadline)
    (is_open : event_in stale.status (EventStatus.open_ ∷ EventStatus.full ∷ []) ≡ true)
    (held : get d.matches m ≡ some match)
    (configured : first_where (λ c. c.match_id == m) d.configurations ≡ some (c, config)) where
  -- The guards pass, and the handler comes to its INSERTs.
  inserts-Ends :
      Ends
        (BeforeExcept (λ a w. (a ≡ err registration_exists) × (w ≡ d)) registration_exists)
        (write_new_registration env m match config payload user
          (initial_status (confirmed_count d m) match.capacity))
        (record { committed = d; working = d })
      → run (create_registration env m stale payload user) d ≡ (err registration_exists, d)
  unfolding create_registration match_counts
  inserts-Ends rest =
      let (answer, same) =
        Ends-run {Q = λ a w. (a ≡ err registration_exists) × (w ≡ d)}
          (create_registration env m stale payload user) d
          (Passes-require _ _ _ _ (ground arith) (
            Ends-rollback _ _ (
              Ends-gets _ _ _ (
                Passes-found _ match _ _ _ held (
                  Ends-gets _ _ _ (
                    Passes-found _ (c, config) _ _ _ configured
                      (Ends-gets _ _ _ (Ends-except _ _ _ rest)))))))) in
      ground arith

  -- A player with an active registration for an event that has a payment configuration, and that
  -- the router saw open and in time, gets 409 REGISTRATION_EXISTS, and nothing changes.
  pub create_registration-exists :
      0 < count_where (is_active_of m user.id) d.registrations
      → run (create_registration env m stale payload user) d ≡ (err registration_exists, d)
  unfolding write_new_registration insert_registration new_registration
  create_registration-exists active = inserts-Ends (
      Ends-found _ _ _ _ (refl, refl)
        λ phone given. Ends-assoc _ _ _ _ (
          Ends-gets _ _ _
            (Ends-assoc _ _ _ _ (Refuses-require _ _ _ _ (ground arith) (refl, refl)))))

  -- A player whose account has no phone gets 409 REGISTRATION_EXISTS from an event that has a
  -- payment configuration, and that the router saw open and in time, whether or not a registration
  -- exists, and nothing changes.
  pub create_registration-no_phone :
      user.phone ≡ none
      → run (create_registration env m stale payload user) d ≡ (err registration_exists, d)
  unfolding write_new_registration
  create_registration-no_phone missing =
      inserts-Ends (Ends-found _ _ _ _ (refl, refl) λ phone given. absurd (ground arith))
