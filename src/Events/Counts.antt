-- ===== src/Events/Counts.antt =====
-- `match_counts` and `event_summary`: what an event's page shows, counted from the rows.
use stranger_club.Base.{ℕ, ◌-◌, String, Bool, false, ◌&&◌, Option, none, some, ◌==◌}
use stranger_club.Db.{Db, in_event_as, confirmed_count}
use stranger_club.Db.Query.{get, count_where, sum_where}
use stranger_club.Db.Status.{RegistrationStatus, PaymentStatus, payment_is}
use stranger_club.Db.Rows.{Match, Registration, Payment}

pub record MatchCounts : Type 0 where
  pub confirmed : ℕ
  pub pending : ℕ
  pub waitlisted : ℕ
  pub payment_submitted : ℕ
  pub collected_amount : ℕ

-- `.join(Registration).where(Registration.match_id == match_id)` for a payment's registration.
abbrev pub joins_event : ℕ → Option Registration → Bool
joins_event m none = false
joins_event m (some r) = r.match_id == m

abbrev pub pays_event_as : Db → ℕ → PaymentStatus → Payment → Bool
pays_event_as d m s p =
    joins_event m (get d.registrations p.registration_id) && payment_is p.status s

unfoldable pub match_counts : ℕ → Db → MatchCounts
match_counts m d = record {
  confirmed = confirmed_count d m;
  pending = count_where (in_event_as m RegistrationStatus.pending) d.registrations;
  waitlisted = count_where (in_event_as m RegistrationStatus.waitlisted) d.registrations;
  payment_submitted = count_where (pays_event_as d m PaymentStatus.submitted) d.payments;
  collected_amount =
      sum_where (pays_event_as d m PaymentStatus.verified) (λ p. p.amount_due) d.payments;
}

pub record EventSummary : Type 0 where
  pub event_id : String
  pub capacity : ℕ
  pub counts : MatchCounts
  pub available : ℕ

-- `max(0, capacity - confirmed)` is the subtraction of ℕ.
unfoldable pub event_summary : ℕ → Match → Db → EventSummary
unfolding match_counts
event_summary m match d = record {
  event_id = match.public_id;
  capacity = match.capacity;
  counts = match_counts m d;
  available = match.capacity - (match_counts m d).confirmed;
}
