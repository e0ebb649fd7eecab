-- ===== src/Access/Ownership.antt =====
-- The ownership checks of backend/app/deps.py.
use stranger_club.Base.{ℕ, ◌≡◌, some}
use stranger_club.Db.{Db}
use stranger_club.Db.Query.{get}
use stranger_club.Db.Rows.{Organizer}
use stranger_club.Exec.{api_error}
use stranger_club.Access.{
  event_not_found, resource_not_found, require_event_access, require_registration_access,
  require_payment_access, require_proof_access, require_team_access, require_team_member_access,
  require_fixture_access, event_of_payment, event_of_team,
}
use stranger_club.Access.Granted.{
  EventOfRegistration, EventOfPayment, EventOfProof, EventOfTeam, EventOfMember, EventOfFixture,
  IfGranted, looked_up, registration_event, payment_event, team_event, event_of_payment_lem,
}

module _ (o : Organizer) (d : Db) where
  event-IfGranted :
      (m : ℕ)
      → IfGranted o
          (get d.matches m)
          (λ a match. a ≡ match)
          event_not_found
          (require_event_access m o d)
  unfolding require_event_access
  event-IfGranted m =
      looked_up o (λ a match. a ≡ match) event_not_found (λ a. some a) (get d.matches m)
        (λ a match is. cc (is)) (λ a match is. cc (is))

  registration-IfGranted :
      (i : ℕ)
      → IfGranted o
          (get d.registrations i)
          (EventOfRegistration d)
          resource_not_found
          (require_registration_access i o d)
  unfolding require_registration_access
  registration-IfGranted i =
      looked_up o (EventOfRegistration d) resource_not_found (λ r. get d.matches r.match_id)
        (get d.registrations i) (λ r match is. is) (λ r match is. is)

  payment-IfGranted :
      (p : ℕ)
      → IfGranted o
          (get d.payments p)
          (EventOfPayment d)
          resource_not_found
          (require_payment_access p o d)
  unfolding require_payment_access
  payment-IfGranted p =
      looked_up o (EventOfPayment d) resource_not_found (λ pay. event_of_payment (some pay) d)
        (get d.payments p) (λ pay match is. registration_event d _ match is)
        (event_of_payment_lem d)

  proof-IfGranted :
      (q : ℕ)
      → IfGranted o
          (get d.proofs q)
          (EventOfProof d)
          resource_not_found
          (require_proof_access q o d)
  unfolding require_proof_access
  proof-IfGranted q =
      looked_up o (EventOfProof d) resource_not_found
        (λ proof. event_of_payment (get d.payments proof.payment_id) d) (get d.proofs q)
        (λ proof match is. payment_event d _ match is)
        (λ proof match of. rw (of.1) (event_of_payment_lem d of.0 match of.2))

  team-IfGranted :
      (t : ℕ)
      → IfGranted o (get d.teams t) (EventOfTeam d) resource_not_found (require_team_access t o d)
  unfolding require_team_access
  team-IfGranted t =
      looked_up o (EventOfTeam d) resource_not_found (λ team. get d.matches team.event_id)
        (get d.teams t) (λ team match is. is) (λ team match is. is)

  member-IfGranted :
      (i : ℕ)
      → IfGranted o
          (get d.members i)
          (EventOfMember d)
          resource_not_found
          (require_team_member_access i o d)
  unfolding require_team_member_access
  member-IfGranted i =
      looked_up o (EventOfMember d) resource_not_found
        (λ m. event_of_team (get d.teams m.team_id) d) (get d.members i)
        (λ m match is. team_event d _ match is) (λ m match of. rw (of.1) (of.2))

  fixture-IfGranted :
      (f : ℕ)
      → IfGranted o
          (get d.fixtures f)
          (EventOfFixture d)
          resource_not_found
          (require_fixture_access f o d)
  unfolding require_fixture_access
  fixture-IfGranted f =
      looked_up o (EventOfFixture d) resource_not_found (λ fixture. get d.matches fixture.event_id)
        (get d.fixtures f) (λ fixture match is. is) (λ fixture match is. is)

-- Each of the seven access checks grants the stored row where it belongs, along its foreign keys, to
-- an event that the organizer owns, or to any event if the organizer is a platform admin; it answers
-- 404 otherwise, and the same for a missing row as for a row of another's event.
pub access-IfGranted :
    (o : Organizer) (d : Db) (m i p q t j f : ℕ)
    → IfGranted o
        (get d.matches m)
        (λ a match. a ≡ match)
        (api_error 404 "EVENT_NOT_FOUND")
        (require_event_access m o d)
      × IfGranted o
          (get d.registrations i)
          (EventOfRegistration d)
          (api_error 404 "RESOURCE_NOT_FOUND")
          (require_registration_access i o d)
      × IfGranted o
          (get d.payments p)
          (EventOfPayment d)
          (api_error 404 "RESOURCE_NOT_FOUND")
          (require_payment_access p o d)
      × IfGranted o
          (get d.proofs q)
          (EventOfProof d)
          (api_error 404 "RESOURCE_NOT_FOUND")
          (require_proof_access q o d)
      × IfGranted o
          (get d.teams t)
          (EventOfTeam d)
          (api_error 404 "RESOURCE_NOT_FOUND")
          (require_team_access t o d)
      × IfGranted o
          (get d.members j)
          (EventOfMember d)
          (api_error 404 "RESOURCE_NOT_FOUND")
          (require_team_member_access j o d)
      × IfGranted o
          (get d.fixtures f)
          (EventOfFixture d)
          (api_error 404 "RESOURCE_NOT_FOUND")
          (require_fixture_access f o d)
access-IfGranted o d m i p q t j f = (
  event-IfGranted o d m,
  registration-IfGranted o d i,
  payment-IfGranted o d p,
  proof-IfGranted o d q,
  team-IfGranted o d t,
  member-IfGranted o d j,
  fixture-IfGranted o d f,
)
