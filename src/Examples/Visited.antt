-- ===== src/Examples/Visited.antt =====
-- What the theorems on the server say of one organizer.
use stranger_club.Base.{ℕ, true, none, some, List, [], ◌∷◌}
use stranger_club.Db.Query.{Table}
use stranger_club.Db.Status.{Role}
use stranger_club.Accounts.Login.{LimiterUp}
use stranger_club.Spec.{Steps}
use stranger_club.Club.{empty}
use stranger_club.Api.{OrganizerAccount, Server, Credentials}
use stranger_club.Api.Routes.{Call, create_event, update_event, call}
use stranger_club.Api.Mediation.{Mediated}
use stranger_club.Api.Mediation.Calls.{call-Mediated}
use stranger_club.Api.Served.{
  Visit, calls, logs_in, visit_all, new_server, ServerSound, visit_all-ServerSound,
}
use stranger_club.Examples.{env, payload}
use stranger_club.Examples.Joined.{hashing}

abbrev host_account : OrganizerAccount
host_account = record {
  username = "host";
  password_hash = "secret77";
  role = Role.organizer;
  is_active = true;
}

abbrev hosts : Table OrganizerAccount
hosts = record { rows = (1, host_account) ∷ []; next_id = 2 }

abbrev all_up : LimiterUp
all_up = record { peek = true; record_attempt = true; reset = true }

abbrev sent : ℕ → Credentials
sent now = record { now = now; hash = some "t1"; csrf = "c1" }

-- The organizer logs in and opens an event, and a request without a session does not.
abbrev visits : List Visit
visits =
    logs_in all_up 1 "ip" "host" "secret77" "t1" "c1"
    ∷ calls (create_event (sent 2) (env 2 "event-1") payload)
    ∷ calls (create_event (record { now = 3; hash = none; csrf = "c1" }) (env 3 "event-2") payload)
    ∷ []

visit_all-ServerSound_example :
    let w = visit_all hashing visits (new_server hosts) in Steps empty w.db × ServerSound w
visit_all-ServerSound_example = visit_all-ServerSound hashing visits hosts

abbrev opened : Server
opened = visit_all hashing visits (new_server hosts)

opened-ServerSound : ServerSound opened
opened-ServerSound = (visit_all-ServerSound hashing visits hosts).1

abbrev renaming : Call
renaming = update_event (sent 4) 1 (record {
  name = some "Monday match";
  date = none;
  start_time = none;
  end_time = none;
  venue = none;
  capacity = none;
  fee = none;
  registration_deadline = none;
  status = none;
})

call-Mediated_example : Mediated (sent 4) opened (call renaming opened).1
call-Mediated_example =
    call-Mediated renaming opened opened-ServerSound.events.tables.matches
      opened-ServerSound.events.tables.registrations
