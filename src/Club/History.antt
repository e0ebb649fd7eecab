-- ===== src/Club/History.antt =====
-- A database before and after further requests.
use stranger_club.Base.{arith, ℕ, ◌≡◌, sym, ◌∙◌, some, List, Extends, Extends-refl, Extends-trans}
use stranger_club.Db.{Db}
use stranger_club.Db.Query.{get}
use stranger_club.Db.Rows.{Match, Payment, Registration, PaymentProof}
use stranger_club.Spec.{Steps, here, next}
use stranger_club.Spec.History.{
  Step-Extends, StillPaid, Step-StillPaid, still_paid, StillProves, Step-StillProves, still_proves,
  StillRegistered, Step-StillRegistered, still_registered,
}
use stranger_club.Spec.Events.{StillHeld, Step-StillHeld, still_held}
use stranger_club.Club.{Request, serve_all, empty}
use stranger_club.Club.Sound.{Sound, Steps-Sound}
use stranger_club.Club.Served.{serve_all-Steps}
use stranger_club.Club.Safety.{served-Sound}

Steps-Extends : {d w : Db} → Steps d w → Extends d.audit_log w.audit_log
Steps-Extends {d} here = Extends-refl d.audit_log
Steps-Extends (next r s) = Extends-trans (Steps-Extends r) (Step-Extends s)

then_paid :
    {d w : Db} {p : ℕ} {pay : Payment}
    → (h : StillPaid pay p d) → StillPaid h.row p w
    → StillPaid pay p w
then_paid h k = record {
  row = k.row;
  found = k.found;
  same = record {
    registration = k.same.registration ∙ h.same.registration;
    amount = k.same.amount ∙ h.same.amount;
    payee = k.same.payee ∙ h.same.payee;
    name = k.same.name ∙ h.same.name;
    source = k.same.source ∙ h.same.source;
    key = k.same.key ∙ h.same.key;
  };
  verified = λ v. k.verified (h.verified v);
}

then_proves :
    {d w : Db} {q : ℕ} {proof : PaymentProof}
    → (h : StillProves proof q d) → StillProves h.row q w
    → StillProves proof q w
then_proves {d} {w} {q} {proof} h k = record {
  row = k.row;
  found = k.found;
  same = record {
    payment = k.same.payment ∙ h.same.payment;
    key = k.same.key ∙ h.same.key;
    hash = k.same.hash ∙ h.same.hash;
    size = k.same.size ∙ h.same.size;
    reference = k.same.reference ∙ h.same.reference;
    uploaded = k.same.uploaded ∙ h.same.uploaded;
    sender = k.same.sender ∙ h.same.sender;
  };
  settled = λ done. k.settled (λ e. done (sym (h.settled done) ∙ e)) ∙ h.settled done;
}

then_registered :
    {d w : Db} {i : ℕ} {r : Registration}
    → (h : StillRegistered r i d) → StillRegistered h.row i w
    → StillRegistered r i w
then_registered h k = record {
  row = k.row;
  found = k.found;
  event = k.event ∙ h.event;
  player = k.player ∙ h.player;
  cancelled = λ c. k.cancelled (h.cancelled c);
  rejected = λ c. k.rejected (h.rejected c);
}

then_held :
    {d w : Db} {m : ℕ} {match : Match}
    → (h : StillHeld match m d) → StillHeld h.row m w
    → StillHeld match m w
then_held h k = record {
  row = k.row;
  found = k.found;
  identifier = k.identifier ∙ h.identifier;
  owner = k.owner ∙ h.owner;
  later = omega (arith, h.later, k.later);
  completed = λ c. k.completed (h.completed c);
  cancelled = λ c. k.cancelled (h.cancelled c);
}

module _ {d : Db} (sound : Sound d) where
  Steps-StillHeld :
      {w : Db}
      → Steps d w
      → (m : ℕ) (match : Match) → get d.matches m ≡ some match
      → StillHeld match m w
  Steps-StillHeld here m match e = still_held match m d e
  Steps-StillHeld (next r s) m match e =
      let h = Steps-StillHeld r m match e in
      then_held h (Step-StillHeld s (Steps-Sound r sound).tables m h.row h.found)

  Steps-StillPaid :
      {w : Db}
      → Steps d w
      → (p : ℕ) (pay : Payment) → get d.payments p ≡ some pay
      → StillPaid pay p w
  Steps-StillPaid here p pay e = still_paid pay p d e
  Steps-StillPaid (next r s) p pay e =
      let h = Steps-StillPaid r p pay e in
      then_paid h (Step-StillPaid s (Steps-Sound r sound).tables p h.row h.found)

  Steps-StillProves :
      {w : Db}
      → Steps d w
      → (q : ℕ) (proof : PaymentProof) → get d.proofs q ≡ some proof
      → StillProves proof q w
  Steps-StillProves here q proof e = still_proves proof q d e
  Steps-StillProves (next r s) q proof e =
      let h = Steps-StillProves r q proof e in
      then_proves h (Step-StillProves s (Steps-Sound r sound).tables q h.row h.found)

  Steps-StillRegistered :
      {w : Db}
      → Steps d w
      → (i : ℕ) (r : Registration) → get d.registrations i ≡ some r
      → StillRegistered r i w
  Steps-StillRegistered here i r e = still_registered r i d e
  Steps-StillRegistered (next rs s) i r e =
      let h = Steps-StillRegistered rs i r e in
      then_registered h (Step-StillRegistered s (Steps-Sound rs sound).tables i h.row h.found)

-- Requests only add to the end of the audit log.
pub audit_log-Extends :
    (before after : List Request)
    → let d = serve_all before empty in Extends d.audit_log (serve_all after d).audit_log
audit_log-Extends before after =
    Steps-Extends (serve_all-Steps after (serve_all before empty) (served-Sound before))

-- A payment is never deleted: whatever is requested later, its row has the registration, amount,
-- payee and QR code that it was created with, and is VERIFIED if it has once been.
pub payment-StillPaid :
    (before after : List Request) (p : ℕ) (pay : Payment)
    → let d = serve_all before empty in
      get d.payments p ≡ some pay → StillPaid pay p (serve_all after d)
payment-StillPaid before after p pay e =
    let sound = served-Sound before in
    Steps-StillPaid sound (serve_all-Steps after (serve_all before empty) sound) p pay e

-- A payment proof is never deleted: whatever is requested later, its row has the same payment,
-- stored image, hash, size, reference, time and sender, and its status is final once it is no
-- longer PENDING.
pub proof-StillProves :
    (before after : List Request) (q : ℕ) (proof : PaymentProof)
    → let d = serve_all before empty in
      get d.proofs q ≡ some proof → StillProves proof q (serve_all after d)
proof-StillProves before after q proof e =
    let sound = served-Sound before in
    Steps-StillProves sound (serve_all-Steps after (serve_all before empty) sound) q proof e

-- A registration is never deleted or handed to another event or player, and whatever is requested
-- later it stays CANCELLED or REJECTED once it is.
pub registration-StillRegistered :
    (before after : List Request) (i : ℕ) (r : Registration)
    → let d = serve_all before empty in
      get d.registrations i ≡ some r → StillRegistered r i (serve_all after d)
registration-StillRegistered before after i r e =
    let sound = served-Sound before in
    Steps-StillRegistered sound (serve_all-Steps after (serve_all before empty) sound) i r e

-- An event is never deleted or handed to another organizer, and it never goes back: from DRAFT
-- to OPEN or FULL, to ONGOING, to COMPLETED or CANCELLED, and the last two are final.
pub event-StillHeld :
    (before after : List Request) (m : ℕ) (match : Match)
    → let d = serve_all before empty in
      get d.matches m ≡ some match → StillHeld match m (serve_all after d)
event-StillHeld before after m match e =
    let sound = served-Sound before in
    Steps-StillHeld sound (serve_all-Steps after (serve_all before empty) sound) m match e
