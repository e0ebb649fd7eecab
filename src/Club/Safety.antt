-- ===== src/Club/Safety.antt =====
-- The database after a sequence of requests.
use stranger_club.Base.{◌+◌, ℕ, ◌≡◌, ◌≤◌, refl, [], true, some, List, arith, indicator}
use stranger_club.Db.{is_active_of, confirmed_count}
use stranger_club.Db.Query.{Table, get, count_where, lookup, count}
use stranger_club.Db.Query.Laws.{IsTable}
use stranger_club.Db.Rows.{Match, Registration, Payment}
use stranger_club.Db.Status.{PaymentStatus, payment_is}
use stranger_club.Events.Counts.{event_summary, match_counts}
use stranger_club.Spec.{IsValidMatch}
use stranger_club.Spec.Proofs.{pending_count}
use stranger_club.Spec.Agreement.{agrees}
use stranger_club.Club.{Request, serve_all, empty}
use stranger_club.Club.Sound.{Sound, Steps-Sound}
use stranger_club.Club.Served.{serve_all-Steps}

empty_table : (A : Type 0) → Table A
empty_table A = record { rows = []; next_id = 1 }

empty-IsTable : {A : Type 0} → IsTable (empty_table A)
unfolding lookup get empty_table
empty-IsTable = record { keyed = tt; below = λ i le. refl }

pub empty-Sound : Sound empty
unfolding lookup get count count_where empty_table
empty-Sound = record {
  tables = record {
    matches = empty-IsTable;
    registrations = empty-IsTable;
    payments = empty-IsTable;
    proofs = empty-IsTable;
  };
  capacity = record { at = λ m match e. ground arith; unplaced = λ m le. refl };
  unique = record { at = λ m u. ground arith };
  proofs = record { at = λ p pay e. ground arith; unplaced = λ p le. refl };
  statuses = record {
    at = λ p pay r e f. ground arith;
    owned = λ p pay e. ground arith;
    one = λ p q pay other e f same. ground arith;
  };
  events = record { at = λ m match e. absurd (ground arith) };
}

pub served-Sound : (requests : List Request) → Sound (serve_all requests empty)
served-Sound requests = Steps-Sound (serve_all-Steps requests empty empty-Sound) empty-Sound

-- After any sequence of requests on an empty database, stale event rows and prepared uploads of
-- any kind among them, no event has more confirmed players than its capacity.
pub confirmed-capacity :
    (requests : List Request) (m : ℕ) (match : Match)
    → get (serve_all requests empty).matches m ≡ some match
    → confirmed_count (serve_all requests empty) m ≤ match.capacity
confirmed-capacity requests m match e = (served-Sound requests).capacity.at m match e

-- After any sequence of requests on an empty database, every event closes its registration no
-- later than it starts, has a capacity of at least 2 and costs at least 1.
pub event-IsValidMatch :
    (requests : List Request) (m : ℕ) (match : Match)
    → get (serve_all requests empty).matches m ≡ some match
    → IsValidMatch match
event-IsValidMatch requests m match e = (served-Sound requests).events.at m match e

-- After any sequence of requests on an empty database, the places that an event's summary shows as
-- available and its confirmed players add up to its capacity.
pub available-confirmed :
    (requests : List Request) (m : ℕ) (match : Match)
    → let d = serve_all requests empty in
      get d.matches m ≡ some match
      → (event_summary m match d).available + (event_summary m match d).counts.confirmed
        ≡ match.capacity
unfolding event_summary match_counts
available-confirmed requests m match e =
    omega (arith, (served-Sound requests).capacity.at m match e)

-- After any sequence of requests on an empty database, a player has at most one registration for
-- an event that is not cancelled.
pub one_active_registration :
    (requests : List Request) (m user : ℕ)
    → count_where (is_active_of m user) (serve_all requests empty).registrations ≤ 1
one_active_registration requests m user = (served-Sound requests).unique.at m user

-- After any sequence of requests on an empty database, a payment has exactly one pending proof
-- when it is SUBMITTED, and none otherwise.
pub pending-submitted :
    (requests : List Request) (p : ℕ) (pay : Payment)
    → get (serve_all requests empty).payments p ≡ some pay
    → pending_count (serve_all requests empty) p
      ≡ indicator (payment_is pay.status PaymentStatus.submitted)
pending-submitted requests p pay e = (served-Sound requests).proofs.at p pay e

-- After any sequence of requests on an empty database, the status of a registration agrees with
-- that of its payment: a confirmed one is verified, a pending one is not, a waitlisted one awaits
-- a proof or is rejected, and a rejected one is rejected or has a new proof.
pub registration-payment :
    (requests : List Request) (p : ℕ) (pay : Payment) (r : Registration)
    → get (serve_all requests empty).payments p ≡ some pay
    → get (serve_all requests empty).registrations pay.registration_id ≡ some r
    → agrees r.status pay.status ≡ true
registration-payment requests p pay r e f = (served-Sound requests).statuses.at p pay r e f
