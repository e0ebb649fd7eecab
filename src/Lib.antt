-- ===== src/Lib.antt =====
-- Stranger Club: a FastAPI backend (backend/app) by which organizers open events, players register
-- for them, and organizers review the payments that players make outside the system and prove with
-- screenshots. This library models the handlers of backend/app/services.py that carry this core,
-- over the rows of backend/app/models.py.
--
-- How the parts interact: a router loads the rows that it checks access with and calls a handler;
-- the handler takes its row locks (begin_serialized_write, lock_row), loads its rows again, checks
-- its guards, moves statuses by transition_registration and transition_payment, which write the
-- audit log, refreshes the event between OPEN and FULL, and commits. The status of a registration,
-- of its payment and of the payment's proofs move together.
--
-- Files. Base: Boolean tests on numbers, append-only lists and ASCII text. Db: the database as one
-- table for each class of models.py (Db/Rows, Db/Status), with the queries of services.py
-- (Db/Query) and their laws (Db/Query/Laws). Exec: a handler as a function of a session that holds
-- the committed database and the open transaction, with commit, rollback, HTTP errors and
-- IntegrityError; Exec/Ends and Exec/Passes give one proof rule for each action. Env: the clock,
-- uuid4, the object store, Pillow and SHA-256, which are parameters. Lifecycle: the transition
-- tables, transition_registration and transition_payment. Events: match_counts, event_summary
-- (Counts), _refresh_full_status (Refresh), create_match, update_match,
-- update_payment_configuration and set_payment_configuration_qr (Manage). Registrations:
-- create_registration, cancel_registration, promote_waitlisted. Teams and Teams/Members: the
-- teams, their members and the roster lock. Fixtures: create_fixture and update_fixture. Results:
-- create_match_result and update_match_result. Results/Participants: set_match_participants.
-- Avatars: assign_new_avatar and choose_avatar, whose five rounds are a list of any length in the
-- model. RateLimit: backend/app/rate_limit.py. Access: the ownership checks and session contexts
-- of backend/app/deps.py, with what they grant in Access/Granted, Access/Ownership and
-- Access/Sessions; a context reads is_active of the account as it is now. Realtime:
-- InProcessBroadcaster of backend/app/realtime.py; Realtime/Postgres: PostgresBroadcaster, whose
-- threads decide under the lock and put their commands on the queue in a later step, in Listening
-- at once and in Races overtaken. Schemas: normalize_email, normalize_phone and clean_name of
-- backend/app/schemas.py. Accounts: the rows of users, profiles, codes and sessions; Accounts/Otp
-- and Accounts/Passwords: backend/app/services_player.py; Accounts/Profile, Accounts/Login and
-- Accounts/Site: the handlers of backend/app/routers/player_auth.py and the routes that put
-- limits, session and handler together. Accounts/Sound has the well-formedness of the accounts,
-- and a child for each group of handlers. Uploads: read_and_validate_image, persist_image,
-- validate_utr. Payments: submit_payment_proof in its two phases, prepare_payment_proof before the
-- lock and store_payment_proof from the lock on. Payments/Decisions: review_payment.
--
-- Specification. Spec lists the moves that a transaction may make on the database, each with its
-- condition; its children hold one invariant each (Tables, Capacity, Uniqueness, Proofs,
-- Agreement, Events) and the relation of a row to its later self (History, Events). The files
-- called Refinement, and Payments/Verdicts, relate the handlers to these moves. Club serves
-- sequences of requests and puts the invariants together (Served, Sound, Safety, History). Api
-- composes the sessions, access checks, limits and handlers, and Api/Routes has the routes of the
-- routers admin.py, registrations.py and payments.py; Api/Organizers is routers/auth.py,
-- Api/Mediation has the requests that an account may make, and Api/Served serves sequences of
-- requests to the whole server. Examples holds a small club on which the theorems are applied.
--
-- Assumptions. Requests are served one after the other. The row locks of the source order only
-- requests that lock the same row, and a review (match and payment), a cancellation (registration)
-- and a new proof (payment) of one registration lock different rows, so that on PostgreSQL their
-- reads and writes can interleave in ways that are not modelled. What a handler reads before its
-- lock is an argument: the event row of create_registration may be stale in any way, and a proof
-- may be stored long after it was prepared. update_match takes no lock in the source, and the
-- model lets it run alone too. The hashes of tokens and passwords are parameters (Hashing), and
-- the queries of player_auth.py and services_player.py that take no lock read a database that is
-- an argument. Numbers are unbounded, dates and times are counts of microseconds, and strip acts
-- on ASCII. The constraints of models.py that an INSERT or UPDATE of these handlers can violate
-- are tests that raise IntegrityError where the session flushes. The texts of error messages, the
-- log lines and the columns that no modelled code reads are left out, and so is an explicit null
-- in an EventUpdate.
--
-- Not modelled: the routers teams.py and fixtures.py, whose handlers are modelled, the event
-- updates that the routers publish, the JSON responses, the validators of schemas.py that
-- constrain a payload and do not change it, the delivery of codes, the storage clients, the
-- migrations, the scripts and the frontend.
pub mod Base
pub mod Db
pub mod Exec
pub mod Env
pub mod Events
pub mod Uploads
pub mod Payments
pub mod Lifecycle
pub mod Registrations
pub mod Spec
pub mod Teams
pub mod Fixtures
pub mod RateLimit
pub mod Access
pub mod Accounts
pub mod Realtime
pub mod Avatars
pub mod Results
pub mod Schemas
pub mod Club
pub mod Api
pub mod Examples
