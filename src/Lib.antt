-- ===== src/Lib.antt =====
-- A model of the LabourBaba backend (src/, TypeScript): who may see and do what, the lifecycles of
-- jobs, worker requirements and bookings, the booking service's verification of a worker's code
-- and its cancellations, the dispatch waves, the refresh sessions, the
-- notification outbox and the payments, with the theorems that make them correct.
--
-- The services run in database transactions and pass the transaction on: bookingServices.ts calls
-- `bookingStateService.transition` and `jobStateService.transition`, which lock a row, consult a
-- table of rules, update the row and append an audit record. In the model a service takes the
-- database (Store/Rows.antt, a record of tables, each a list of rows) and the time, and gives back
-- an error (Store/Failure.antt) or a value with the new database; `commit` (Base/Results.antt)
-- rolls the database back on an error, as `$transaction` does. A row lock is held to the end of the
-- transaction, so transactions that touch the same rows come one after the other: a run is a list
-- of calls, in any order and by anybody. `rotateSession`,
-- `createOrder` and `refundPayment` are not one transaction each; their parts are steps of their own
-- that other requests come in between of. A webhook of the payment provider reads its payment without
-- a lock; its transaction is one step here, and Payment/Examples.antt runs what a commit in between
-- can do.
--
-- Base/       Boolean tests, tables (find?, update_where, count_where), texts, results
-- Access/     src/type/userRole.ts and src/policies/: Role, Decision, a module for each policy file,
--             the query scopes (Filter), and Scopes, the scopes against the policies
-- Job/        src/features/jobs/jobStateMachine.ts: Status, Table, Machine (`jobStateService`);
--             Diagram is the specification; Laws, Effect, Outcome,
--             History
-- Requirement/ src/features/jobs/requirementStateMachine.ts: Status, Capacity, Table, Machine,
--             Reconcile (`reconcileCapacity`, `updateDemand`); Laws, Places
-- Booking/    src/features/booking/bookingStateMachine.ts: Status, Table, Machine; Diagram, Laws,
--             Effect, Outcome, Evidence; bookingServices.ts: Otp (`verifyOtp`); Verify, Kept, Guesses,
--             Attempts; Cancel (`cancelBooking`); Release; Complete (`completeBooking`,
--             `confirmComplete`); Completed; Authority
-- Dispatch/   src/features/dispatch/wavePlanner.ts: Wave (`planDispatchWave`); Plan; dispatchServices.ts:
--             Accept (`acceptDispatch`), Decline (`declineDispatch`); Reserve, Accepted, Overwrite
-- Session/    src/features/auth/session.service.ts: Table, Service (the one-query operations), Rotate
--             (`rotateSession`); Steps interleaves the requests, Families and Reachable hold the
--             invariant, Theft and Success what follows; Token (the raw token), Tokens
-- Outbox/     src/services/outboxService.ts: Table, Service (enqueue, claim, settle, recover), Channels
--             (delivery by channel, pruning); Lease, Steps, Sound, Reachable, Lost and Retry
-- Payment/    src/features/payment/paymentServices.ts: Status, Table, Machine, Webhook, Order (`createOrder`)
--             and Refund (`refundPayment`) in parts; Signature; Steps interleaves them; Sound, Writes,
--             Hooks, Handled, Requests, Claims, Intents and Reachable hold the invariant; Money,
--             Capture, Redelivery and Replay what follows
-- Examples modules hold the theorems at concrete inputs.
--
-- Function names are those of the source in snake case. Identifiers, hashes, secrets and times are
-- natural numbers: the code only compares them. A status or role column holds a string: a
-- constructor for each string the program names and `other` for any further text. The comparison of
-- a secret with its hash by bcrypt is a parameter. There is no fuel: the modelled code has no
-- unbounded loop, and a run is structural recursion on the list of calls.
--
-- Not modelled: the reads with which the code falls back on a client without raw SQL (the real
-- client has it), logging, metrics and metadata columns; HTTP, sockets, queues, push messages, file
-- storage and the payment provider, which are third-party services. Left for now: the search for
-- candidates of a dispatch, login, the services on jobs, reviews, chats, skills, workers and
-- devices, the rate limiters and the location freshness.
pub mod Base
pub mod Access
pub mod Store
pub mod Job
pub mod Booking
pub mod Dispatch
pub mod Requirement
pub mod Session
pub mod Outbox
pub mod Payment
