-- ===== src/Examples/Served.antt =====
-- What the theorems on sequences of requests say of the small club.
use stranger_club.Base.{◌≤◌, ◌≡◌, refl, true, Extends}
use stranger_club.Db.{confirmed_count, is_active_of}
use stranger_club.Db.Query.{count_where}
use stranger_club.Db.Status.{RegistrationStatus, PaymentStatus}
use stranger_club.Spec.Proofs.{pending_count}
use stranger_club.Spec.Agreement.{agrees}
use stranger_club.Spec.Events.{StillHeld}
use stranger_club.Spec.History.{StillPaid, StillProves, StillRegistered}
use stranger_club.Club.{serve_all, empty}
use stranger_club.Club.Safety.{
  confirmed-capacity, one_active_registration, pending-submitted, registration-payment,
}
use stranger_club.Club.History.{
  audit_log-Extends, payment-StillPaid, proof-StillProves, registration-StillRegistered,
  event-StillHeld,
}
use stranger_club.Examples.{opening, approval, event, registration, payment, proof, served, filling}

confirmed-capacity_example : confirmed_count (serve_all opening empty) 1 ≤ 2
unfolding served
confirmed-capacity_example = confirmed-capacity opening 1 event refl

one_active_registration_example :
    count_where (is_active_of 1 7) (serve_all filling empty).registrations ≤ 1
one_active_registration_example = one_active_registration filling 1 7

pending-submitted_example : pending_count (serve_all opening empty) 1 ≡ 1
unfolding served
pending-submitted_example = pending-submitted opening 1 payment refl

registration-payment_example : agrees RegistrationStatus.pending PaymentStatus.submitted ≡ true
unfolding served
registration-payment_example =
    registration-payment opening 1 payment (registration RegistrationStatus.pending) refl refl

audit_log-Extends_example :
    Extends
      (serve_all opening empty).audit_log
      (serve_all approval (serve_all opening empty)).audit_log
audit_log-Extends_example = audit_log-Extends opening approval

payment-StillPaid_example : StillPaid payment 1 (serve_all approval (serve_all opening empty))
unfolding served
payment-StillPaid_example = payment-StillPaid opening approval 1 payment refl

proof-StillProves_example :
    StillProves (proof "a.png" 3) 1 (serve_all approval (serve_all opening empty))
unfolding served
proof-StillProves_example = proof-StillProves opening approval 1 (proof "a.png" 3) refl

registration-StillRegistered_example :
    StillRegistered
      (registration RegistrationStatus.pending)
      1
      (serve_all approval (serve_all opening empty))
unfolding served
registration-StillRegistered_example =
    registration-StillRegistered opening approval 1 (registration RegistrationStatus.pending) refl

event-StillHeld_example : StillHeld event 1 (serve_all approval (serve_all opening empty))
unfolding served
event-StillHeld_example = event-StillHeld opening approval 1 event refl
