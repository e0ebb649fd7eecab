-- ===== src/Api/Mediation/Rows.antt =====
-- The rows that the access checks of the routes admit.
use stranger_club.Base.{
  Option-cases, subst, ℕ, String, Option, none, some, ◌≡◌, arith, option_is, str_eq, inl, inr,
  Bool-cases,
}
use stranger_club.Db.{Db}
use stranger_club.Db.Query.{get, first_where}
use stranger_club.Db.Query.Laws.{IsTable, first_where-get}
use stranger_club.Db.Rows.{Match, Registration, Payment, Organizer, User}
use stranger_club.Exec.{Error, ok}
use stranger_club.Access.{
  event_of_registration, event_of_payment, require_event_access, require_registration_access,
  require_payment_access, granted, resource_not_found,
}
use stranger_club.Api.{is_public, get_public_match, own_registration}
use stranger_club.Api.Mediation.{Owns, IsOf}

owner :
    (o : Organizer) (match : Option Match) {A : Type 0} (e : Error) (a b : A)
    → granted e o match a ≡ ok b
    → Owns o match
unfolding granted
owner o none e a b is = cc is
owner o (some match) e a b is = ground (arith, is)

pub event_owner :
    (m : ℕ) (o : Organizer) (d : Db) (row : Match)
    → require_event_access m o d ≡ ok row
    → (get d.matches m ≡ some row) × Owns o (get d.matches m)
unfolding require_event_access granted
event_owner m o d row is = elim (Option-cases (get d.matches m)) [
  | inl missing ↦ absurd (ground (arith, missing, is))
  | inr (match, held) ↦ rw held (ground (arith, held, is), ground (arith, held, is))
]

pub registration_owner :
    (i : ℕ) (o : Organizer) (d : Db) (r : Registration)
    → require_registration_access i o d ≡ ok r
    → Owns o (event_of_registration (get d.registrations i) d)
unfolding require_registration_access
registration_owner i o d r is = elim (Option-cases (get d.registrations i)) [
  | inl missing ↦ absurd (ground (arith, missing, is))
  | inr (row, held) ↦
      rw held (owner o (get d.matches row.match_id) resource_not_found row r (cc (held, is)))
]

pub payment_owner :
    (p : ℕ) (o : Organizer) (d : Db) (pay : Payment)
    → require_payment_access p o d ≡ ok pay
    → Owns o (event_of_payment (get d.payments p) d)
unfolding require_payment_access
payment_owner p o d pay is = elim (Option-cases (get d.payments p)) [
  | inl missing ↦ absurd (ground (arith, missing, is))
  | inr (row, held) ↦
      rw held (owner o (event_of_payment (some row) d) resource_not_found row pay (cc (held, is)))
]

pub own_lem :
    (u : User) (key : String) (d : Db) (i : ℕ)
    → own_registration u key d ≡ ok i
    → IsTable d.registrations
    → IsOf u (get d.registrations i)
unfolding own_registration
own_lem u key d i is t =
    elim (Option-cases (first_where (λ r. str_eq r.public_id key) d.registrations)) [
      | inl missing ↦ absurd (cc (missing, is))
      | inr ((j, r), found) ↦
          let held =
            (first_where-get (λ r. str_eq r.public_id key) d.registrations j r t found).0 in
          elim (Bool-cases (option_is r.user_id u.id)) [
            | inl mine ↦
                let same : j ≡ i = cc (found, is, mine) in
                subst (λ x. IsOf u (get d.registrations x)) same (rw held mine)
            | inr other ↦ absurd (cc (found, is, other))
          ]
    ]

pub public_lem :
    (public_id : String) (d : Db) (m : ℕ) (match : Match)
    → get_public_match public_id d ≡ ok (m, match)
    → IsTable d.matches
    → get d.matches m ≡ some match
unfolding get_public_match
public_lem public_id d m match is t =
    elim (Option-cases (first_where (is_public public_id) d.matches)) [
      | inl missing ↦ absurd (cc (missing, is))
      | inr ((j, row), found) ↦
          let held = (first_where-get (is_public public_id) d.matches j row t found).0 in
          cc (held, found, is)
    ]
