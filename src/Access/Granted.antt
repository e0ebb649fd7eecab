-- ===== src/Access/Granted.antt =====
-- What the ownership checks of backend/app/deps.py grant: the events that an organizer manages, and
-- the events of the rows.
use stranger_club.Base.{
  subst, ℕ, ◌≡◌, ◌⊎◌, refl, true, false, Option, none, some, arith, inl, inr, Bool-cases, ◌||◌,
  option_is,
}
use stranger_club.Db.{Db}
use stranger_club.Db.Query.{get}
use stranger_club.Db.Status.{Role}
use stranger_club.Db.Rows.{
  Match, Registration, Payment, PaymentProof, Team, TeamMember, Fixture, Organizer,
}
use stranger_club.Exec.{Error, Result, ok, err}
use stranger_club.Access.{
  is_platform_admin, organizer_owns_event, granted, event_of_registration, event_of_payment,
  event_of_team,
}

-- A platform admin manages every event, another organizer the events of which they are the owner.
abbrev pub Manages : Organizer → Match → Type 0
Manages o match = (o.role ≡ Role.platform_admin) ⊎ (match.owner_organizer_id ≡ some o.id)

-- The events of the rows, along the foreign keys.
abbrev pub EventOfRegistration : Db → Registration → Match → Type 0
EventOfRegistration d r match = get d.matches r.match_id ≡ some match

abbrev pub EventOfPayment : Db → Payment → Match → Type 0
EventOfPayment d pay match =
    (r : Registration) × (get d.registrations pay.registration_id ≡ some r)
    × EventOfRegistration d r match

abbrev pub EventOfProof : Db → PaymentProof → Match → Type 0
EventOfProof d proof match =
    (pay : Payment) × (get d.payments proof.payment_id ≡ some pay) × EventOfPayment d pay match

abbrev pub EventOfTeam : Db → Team → Match → Type 0
EventOfTeam d team match = get d.matches team.event_id ≡ some match

abbrev pub EventOfMember : Db → TeamMember → Match → Type 0
EventOfMember d m match =
    (team : Team) × (get d.teams m.team_id ≡ some team) × EventOfTeam d team match

abbrev pub EventOfFixture : Db → Fixture → Match → Type 0
EventOfFixture d fixture match = get d.matches fixture.event_id ≡ some match

-- What an access check answers: the stored row, of an event that the organizer manages, or the error
-- `e`, and then there is no such row.
abbrev pub IfGranted :
    {A : Type 0} → Organizer → Option A → (A → Match → Type 0) → Error → Result A → Type 0
IfGranted {A} o row Of e (ok a) = (row ≡ some a) × ((match : Match) × Of a match × Manages o match)
IfGranted {A} o row Of e (err e') =
    (e' ≡ e) × ((a : A) (match : Match) → row ≡ some a → Of a match → ¬ Manages o match)

owner_is :
    (role : Role) (owner : Option ℕ) (id : ℕ)
    → (is_platform_admin role || option_is owner id) ≡ true
    → (role ≡ Role.platform_admin) ⊎ (owner ≡ some id)
owner_is Role.platform_admin owner id h = inl refl
owner_is Role.organizer none id h = cc
owner_is Role.organizer (some k) id h = inr (ground (arith, h))

owner_is_not :
    (role : Role) (owner : Option ℕ) (id : ℕ)
    → (is_platform_admin role || option_is owner id) ≡ false
    → ¬ ((role ≡ Role.platform_admin) ⊎ (owner ≡ some id))
owner_is_not Role.platform_admin owner id h m = absurd (cc (h))
owner_is_not Role.organizer owner id h (inl admin) = absurd (cc (admin))
owner_is_not Role.organizer owner id h (inr own) = absurd (ground (arith, h, own))

-- An access check looks up a row and grants it by its event.
pub looked_up :
    {A : Type 0} (o : Organizer) (Of : A → Match → Type 0) (e : Error) (event : A → Option Match)
    (row : Option A)
    → ((a : A) (match : Match) → event a ≡ some match → Of a match)
    → ((a : A) (match : Match) → Of a match → event a ≡ some match)
    → IfGranted o row Of e (elim row [ none ↦ err e | some a ↦ granted e o (event a) a ])
unfolding granted organizer_owns_event
looked_up o Of e event none of_event event_of = (refl, λ a match is. absurd (cc (is)))
looked_up o Of e event (some a) of_event event_of = with_event (event a) refl
  where
    with_event :
        (found : Option Match) → event a ≡ found → IfGranted o (some a) Of e (granted e o found a)
    with_event none missing =
        (refl, λ b match is of manages. absurd (cc (event_of b match of, missing, is)))
    with_event (some match) found =
        elim (Bool-cases (is_platform_admin o.role || option_is match.owner_organizer_id o.id)) [
          | inl own ↦ rw own (
            refl,
            (match, of_event a match found, owner_is o.role match.owner_organizer_id o.id own),
          )
          | inr other ↦ rw other (
            refl,
            λ b match' is of manages.
                let same : match' ≡ match = cc (event_of b match' of, found, is) in
                owner_is_not o.role match.owner_organizer_id o.id other
                  (subst (λ m. Manages o m) same manages),
          )
        ]

pub registration_event :
    (d : Db) (row : Option Registration) (match : Match)
    → event_of_registration row d ≡ some match
    → (r : Registration) × (row ≡ some r) × EventOfRegistration d r match
registration_event d none match is = cc is
registration_event d (some r) match is = (r, refl, is)

pub payment_event :
    (d : Db) (row : Option Payment) (match : Match)
    → event_of_payment row d ≡ some match
    → (pay : Payment) × (row ≡ some pay) × EventOfPayment d pay match
payment_event d none match is = cc is
payment_event d (some pay) match is = (pay, refl, registration_event d _ match is)

pub team_event :
    (d : Db) (row : Option Team) (match : Match)
    → event_of_team row d ≡ some match
    → (team : Team) × (row ≡ some team) × EventOfTeam d team match
team_event d none match is = cc is
team_event d (some team) match is = (team, refl, is)

pub event_of_payment_lem :
    (d : Db) (pay : Payment) (match : Match)
    → EventOfPayment d pay match
    → event_of_payment (some pay) d ≡ some match
event_of_payment_lem d pay match (r, held, of) = rw held of
