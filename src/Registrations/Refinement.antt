-- ===== src/Registrations/Refinement.antt =====
-- `create_registration`, `cancel_registration` and `promote_waitlisted` against the moves of Spec.
use stranger_club.Base.{arith, [], ◌∷◌, ℕ, ◌≡◌, refl, inl, inr, true, Option, none, some, ==→eq}
use stranger_club.Db.{confirmed_count, Db, is_active_of}
use stranger_club.Db.Query.{get, insert, delete, count_where}
use stranger_club.Db.Query.Laws.{get-update_self}
use stranger_club.Db.Status.{
  EventStatus, RegistrationStatus, ActorType, registration_in, registration_is, event_in,
}
use stranger_club.Lifecycle.{valid_registration_transitions, write_registration}
use stranger_club.Db.Rows.{Match, Registration, Payment, TeamMember, User, AuditLog}
use stranger_club.Env.{Env}
use stranger_club.Exec.{integrity_error, Result, err, Session, Exec, pure, commit, ◌>>=◌, ◌>>◌, run}
use stranger_club.Exec.Ends.{
  Ends, Ends-pure, Ends-raise, Ends-if, Ends-require, Ends-modify, Ends-commit, Ends-rollback,
  Ends-except, Ends-run, Ends-found, Ends-gets, Ends-pure-bind, Ends-assoc,
}
use stranger_club.Lifecycle.Ends.{log, Ends-audit, Ends-transition_registration}
use stranger_club.Events.Counts.{match_counts}
use stranger_club.Events.Manage.{status_allowed}
use stranger_club.Events.Refresh.{
  full_status, refresh_full_status, Refreshed, kept, switched, Ends-refresh,
}
use stranger_club.Registrations.{
  RegistrationCreate, insert_registration, insert_payment, new_registration, write_new_registration,
  create_registration, delete_team_membership, leave_team, cancel_active, refuse_started,
  cancel_standing, keep_cancelled, cancel_registration, promote_waitlisted,
  cancellable_event_statuses,
}
use stranger_club.Spec.{
  logged, restatused, registered, moved, stamped, left_team, Steps, here, next, Refines,
}

pub Steps-trans : {d w x : Db} → Steps d w → Steps w x → Steps d x
Steps-trans h here = h
Steps-trans h (next r s) = next (Steps-trans h r) s

full_status-allowed :
    (s : EventStatus) (confirmed capacity : ℕ)
    → event_in s (EventStatus.open_ ∷ EventStatus.full ∷ []) ≡ true
    → status_allowed s (some (full_status confirmed capacity)) ≡ true
full_status-allowed EventStatus.open_ confirmed capacity h = ground arith
full_status-allowed EventStatus.full confirmed capacity h = ground arith
full_status-allowed EventStatus.draft confirmed capacity h = cc
full_status-allowed EventStatus.ongoing confirmed capacity h = cc
full_status-allowed EventStatus.completed confirmed capacity h = cc
full_status-allowed EventStatus.cancelled confirmed capacity h = cc

pub Refreshed-Steps :
    (m : ℕ) (match : Match) {d w : Db}
    → get d.matches m ≡ some match
    → Refreshed m match d w
    → Steps d w
Refreshed-Steps m match e (kept _) = here
Refreshed-Steps m match {d} e (switched moves) =
    next
      (next here (
        restatused m match _ e refl (record {
          identifier = refl;
          owner = refl;
          status = full_status-allowed match.status (confirmed_count d m) match.capacity moves;
          valid = λ v. record { closes = v.closes; capacity = v.capacity; fee = v.fee };
        })))
      (logged _)

module _ {ℓ} {A : Type ℓ} {Q : Result A → Db → Type 0} where
  pub Ends-insert_registration :
      (u : ℕ) (r : Registration) (k : ℕ → Exec Db A) (s : Session Db)
      → Q (err integrity_error) s.committed
      → (count_where (is_active_of r.match_id u) s.working.registrations ≡ 0
          → Ends Q (k s.working.registrations.next_id) (record s {
            working = record s.working { registrations = insert s.working.registrations r };
          }))
      → Ends Q (insert_registration u r >>= k) s
  unfolding insert_registration
  Ends-insert_registration u r k s failed rest = Ends-assoc _ _ k s (
      Ends-gets _ _ s (
        Ends-assoc _ _ k s (
          Ends-require _ _ _ s failed λ free. Ends-assoc _ _ k s (
            Ends-gets _ _ s (
              Ends-assoc _ _ k s (
                Ends-require _ _ _ s failed λ fresh. Ends-assoc _ _ k s (
                  Ends-gets _ _ s (
                    Ends-assoc _ _ k s
                      (Ends-modify _ _ s (Ends-pure-bind _ k _ (rest (==→eq _ 0 free))))))))))))

  pub Ends-insert_payment :
      (p : Payment) (k : Unit {0} → Exec Db A) (s : Session Db)
      → Q (err integrity_error) s.committed
      → Ends Q
          (k tt)
          (record s { working = record s.working { payments = insert s.working.payments p } })
      → Ends Q (insert_payment p >>= k) s
  unfolding insert_payment
  Ends-insert_payment p k s failed rest = Ends-assoc _ _ k s (
      Ends-gets _ _ s (
        Ends-assoc _ _ k s (
          Ends-require _ _ _ s failed λ unpaid.
            Ends-assoc _ _ k s (Ends-require _ _ _ s failed λ consistent. Ends-modify _ k s rest))))

  -- Leaving a team only deletes memberships and logs it, or raises.
  pub Ends-leave_team :
      (t : ActorType) (a : Option ℕ) (member : Option (ℕ × TeamMember)) (k : Unit {0} → Exec Db A)
      (s : Session Db)
      → Q (err integrity_error) s.committed
      → Ends Q (k tt) s
      → ((id : ℕ) (entry : AuditLog)
          → Ends Q (k tt) (record s {
            working = record (log entry s.working) { members = delete s.working.members id };
          }))
      → Ends Q (leave_team t a member >>= k) s
  unfolding leave_team delete_team_membership
  Ends-leave_team t a none k s failed stay leave = Ends-pure-bind tt k s stay
  Ends-leave_team t a (some (id, m)) k s failed stay leave = Ends-assoc _ _ k s (
      Ends-audit _ _ s (
        Ends-assoc _ _ k _ (
          Ends-gets _ _ _ (
            Ends-assoc _ _ k _
              (Ends-require _ _ _ _ failed λ idle. Ends-modify _ k _ (leave id _))))))

create_registration-Ends :
    (env : Env) (m : ℕ) (stale : Match) (payload : RegistrationCreate) (user : User) (d : Db)
    → Ends
        (Refines d)
        (create_registration env m stale payload user)
        (record { committed = d; working = d })
unfolding create_registration match_counts write_new_registration new_registration
create_registration-Ends env m stale payload user d = Ends-require _ _ _ _ refl λ is_open.
    Ends-rollback _ _ (
      Ends-gets _ _ _ (
        Ends-found _ _ _ _ refl λ match found. Ends-gets _ _ _ (
          Ends-found _ _ _ _ refl λ config configured. Ends-gets _ _ _ (
            Ends-except _ _ _ (
              Ends-found _ _ _ _ refl λ phone given. Ends-insert_registration _ _ _ _ refl λ free.
                Ends-insert_payment _ _ _ refl (
                  Ends-audit _ _ _ (
                    Ends-commit _ _ (
                      Ends-pure _ _ (
                        next
                          (next here (
                            registered m user.id config.0 match config.1 _ found configured refl
                              refl refl free))
                          (logged _))))))))))

-- The end that the handlers share: the refresh of the event's status, and the commit.
pub refresh_and_commit {ℓ} :
    {A : Type ℓ} (m : ℕ) (match : Match) (x : A) (d : Db) (s : Session Db)
    → Steps d s.working
    → get s.working.matches m ≡ some match
    → Ends (Refines d) (refresh_full_status m match >> (commit >> pure x)) s
refresh_and_commit m match x d s steps e =
    Ends-refresh _ _ _ _ λ w moves.
      Ends-commit _ _ (Ends-pure _ _ (Steps-trans steps (Refreshed-Steps m match e moves)))

abbrev cancelled_row : Env → Registration → Registration
cancelled_row env r = record r {
  status = RegistrationStatus.cancelled;
  cancelled_at = some env.now;
}

cancel-Steps :
    (env : Env) (i : ℕ) (r : Registration) (d : Db) (entry : AuditLog)
    → get d.registrations i ≡ some r
    → registration_in RegistrationStatus.cancelled (valid_registration_transitions r.status) ≡ true
    → Steps d (
        write_registration i
          (cancelled_row env r)
          (log entry (write_registration i (record r { status = RegistrationStatus.cancelled }) d)))
cancel-Steps env i r d entry e allowed =
    next (next (next here (moved i r _ e allowed (inl refl) refl refl)) (logged entry))
      (stamped i _ (cancelled_row env r) (get-update_self d.registrations i _ r e) refl refl refl)

cancel_active-Ends :
    (env : Env) (i : ℕ) (r : Registration) (match : Match) (t : ActorType) (a : Option ℕ) (d : Db)
    → get d.registrations i ≡ some r
    → get d.matches r.match_id ≡ some match
    → Ends (Refines d) (cancel_active env i r match t a) (record { committed = d; working = d })
unfolding cancel_active
cancel_active-Ends env i r match t a d e f =
    Ends-transition_registration _ _ _ _ _ _ _ _ _ refl λ allowed. Ends-modify _ _ _ (
      Ends-gets _ _ _ (
        Ends-leave_team _ _ _ _ _ refl
          (refresh_and_commit _ match _ d _ (cancel-Steps env i r d _ e allowed) f)
          λ id entry.
            refresh_and_commit _ match _ d _
              (next (next (cancel-Steps env i r d _ e allowed) (left_team id)) (logged entry)) f))

cancel_registration-Ends :
    (env : Env) (i : ℕ) (t : ActorType) (a : Option ℕ) (d : Db)
    → Ends (Refines d) (cancel_registration env i t a) (record { committed = d; working = d })
unfolding cancel_registration keep_cancelled cancel_standing refuse_started
cancel_registration-Ends env i t a d = Ends-rollback _ _ (
    Ends-gets _ _ _ (
      Ends-found _ _ _ _ refl λ r found.
        Ends-if (registration_is r.status RegistrationStatus.cancelled) (keep_cancelled r)
          (cancel_standing env i r t a) _ (λ gone. Ends-commit _ _ (Ends-pure _ _ here))
          λ stands. Ends-gets _ _ _ (
            Ends-found _ _ _ _ refl λ match held.
              Ends-if (event_in match.status cancellable_event_statuses)
                (cancel_active env i r match t a) refuse_started _
                (λ cancellable. cancel_active-Ends env i r match t a d found held)
                λ begun. Ends-commit _ _ (Ends-raise _ _ refl))))

promote_waitlisted-Ends :
    (i : ℕ) (a : ℕ) (d : Db)
    → Ends (Refines d) (promote_waitlisted i a) (record { committed = d; working = d })
unfolding promote_waitlisted match_counts
promote_waitlisted-Ends i a d = Ends-gets _ _ _ (
    Ends-found _ _ _ _ refl λ preliminary there. Ends-rollback _ _ (
      Ends-gets _ _ _ (
        Ends-found _ _ _ _ refl λ r found. Ends-gets _ _ _ (
          Ends-found _ _ _ _ refl λ match held. Ends-require _ _ _ _ refl λ waits. Ends-gets _ _ _ (
            Ends-found _ _ _ _ refl λ first oldest. Ends-require _ _ _ _ refl λ in_order.
              Ends-gets _ _ _ (
                Ends-require _ _ _ _ refl λ room.
                  Ends-transition_registration _ _ _ _ _ _ _ _ _ refl λ allowed.
                    refresh_and_commit _ match _ d _
                      (next (next here (moved i r _ found allowed (inr refl) refl refl)) (logged _))
                      held))))))

-- A registration that returns has made moves of the specification only, and one that raises
-- leaves the database as it was.
pub create_registration-Refines :
    (env : Env) (m : ℕ) (stale : Match) (payload : RegistrationCreate) (user : User) (d : Db)
    → let (answer, w) = run (create_registration env m stale payload user) d in Refines d answer w
create_registration-Refines env m stale payload user d =
    Ends-run _ d (create_registration-Ends env m stale payload user d)

-- A cancellation that returns has made moves of the specification only, and one that raises
-- leaves the database as it was.
pub cancel_registration-Refines :
    (env : Env) (i : ℕ) (t : ActorType) (a : Option ℕ) (d : Db)
    → let (answer, w) = run (cancel_registration env i t a) d in Refines d answer w
cancel_registration-Refines env i t a d = Ends-run _ d (cancel_registration-Ends env i t a d)

pub promote_waitlisted-Refines :
    (i a : ℕ) (d : Db) → let (answer, w) = run (promote_waitlisted i a) d in Refines d answer w
promote_waitlisted-Refines i a d = Ends-run _ d (promote_waitlisted-Ends i a d)
