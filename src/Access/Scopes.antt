-- ===== src/Access/Scopes.antt =====
-- The query scopes against the policies: the rows that the database returns to an actor are the
-- rows that the policy lets the actor read.
use labour_baba_backend.Base.{ℕ, ◌≡◌, ◌≢◌, ◌&&◌, Option, none, some, arith, ◌==◌, text}
use labour_baba_backend.Access.Role.{Actor, lower_is_unique}
use labour_baba_backend.Access.Filter.{Parties, nil_id, is_asked, meets_all}
use labour_baba_backend.Access.BookingPolicy
use labour_baba_backend.Access.PaymentPolicy
use labour_baba_backend.Access.ReviewPolicy
use labour_baba_backend.Access.ChatPolicy
use labour_baba_backend.Access.JobPolicy
use labour_baba_backend.Access.JobPolicy.{JobResource}
use labour_baba_backend.Access.RequirementPolicy
use labour_baba_backend.Access.RequirementPolicy.{RequirementResource}
use labour_baba_backend.Access.DispatchPolicy
use labour_baba_backend.Access.DispatchPolicy.{DispatchResource}

-- For every actor of every role, asked for one booking or for all, the booking query returns a
-- row with a real id exactly when it is the one asked for and `canRead` allows it.
pub booking_scope-can_read :
    (actor : Actor) (asked : Option ℕ) (b : Parties)
    → b.id ≢ nil_id
    → meets_all b (BookingPolicy.scope_read actor asked)
      ≡ (is_asked asked b.id && (BookingPolicy.can_read actor b).allowed)
unfolding BookingPolicy.scope_read BookingPolicy.can_read
booking_scope-can_read actor none b real = ground arith
booking_scope-can_read actor (some n) b real = ground arith

-- For every actor, asked for one job or for all, the job query returns a row with a real id
-- exactly when it is the one asked for and `canRead` allows it; a worker reads a job through a
-- booking or a dispatch on it.
pub job_scope-can_read :
    (actor : Actor) (asked : Option ℕ) (job : JobResource)
    → job.id ≢ nil_id
    → JobPolicy.meets_all job (JobPolicy.scope_read actor asked)
      ≡ (is_asked asked job.id && (JobPolicy.can_read actor job).allowed)
unfolding JobPolicy.scope_read JobPolicy.can_read
job_scope-can_read actor none job real = ground arith
job_scope-can_read actor (some n) job real = ground arith

-- For every actor, asked for one requirement or for all, the requirement query returns a row with
-- a real id exactly when it is the one asked for and `canRead` allows it.
pub requirement_scope-can_read :
    (actor : Actor) (asked : Option ℕ) (req : RequirementResource)
    → req.id ≢ nil_id
    → RequirementPolicy.meets_all req (RequirementPolicy.scope_read actor asked)
      ≡ (is_asked asked req.id && (RequirementPolicy.can_read actor req).allowed)
unfolding RequirementPolicy.scope_read RequirementPolicy.can_read
requirement_scope-can_read actor none req real = ground arith
requirement_scope-can_read actor (some n) req real = ground arith

-- For every actor, asked for the dispatches of one requirement or for all, the dispatch query
-- returns a row with a real id exactly when it is of that requirement and `canRead` allows it.
pub dispatch_scope-can_read :
    (actor : Actor) (asked : Option ℕ) (d : DispatchResource)
    → d.id ≢ nil_id
    → DispatchPolicy.meets_all d (DispatchPolicy.scope_read actor asked)
      ≡ (is_asked asked d.requirement_id && (DispatchPolicy.can_read actor d).allowed)
unfolding DispatchPolicy.scope_read DispatchPolicy.can_read
dispatch_scope-can_read actor none d real = ground arith
dispatch_scope-can_read actor (some n) d real = ground arith

-- The query for the booking behind a chat finds a booking with a real id exactly when it is the
-- one named and the actor may read its conversation; sending a message is allowed exactly when
-- joining the room is.
pub chat_scope-can_send :
    (actor : Actor) (booking_id : ℕ) (b : Parties)
    → b.id ≢ nil_id
    → (meets_all b (ChatPolicy.scope_booking actor booking_id)
        ≡ (b.id == booking_id && (ChatPolicy.can_read_conversation actor b).allowed))
      × ((ChatPolicy.can_send_message actor b).allowed ≡ (ChatPolicy.can_join_room actor b).allowed)
unfolding ChatPolicy.scope_booking ChatPolicy.can_read_conversation ChatPolicy.can_send_message
    ChatPolicy.can_join_room
chat_scope-can_send actor booking_id b real =
    let one = lower_is_unique actor.role (text "customer") (text "worker") in
    (ground (arith, one), ground arith)

-- The query for a booking's review returns it to an actor exactly when it is that booking's and the
-- review policy lets the actor read it, for a review with a real id that names its booking's
-- parties. The query for a booking's payment returns it exactly when it is that booking's and the
-- payment policy lets the actor read it, for a payment with a real id.
pub review_payment_scopes-can_read :
    (actor : Actor) (booking_id : ℕ) (b : Parties) (r : ReviewPolicy.Review)
    (p : PaymentPolicy.Payment)
    → r.id ≢ nil_id
    → r.customer_id ≡ b.customer_id
    → r.worker_id ≡ b.worker_id
    → p.id ≢ nil_id
    → (ReviewPolicy.meets_all r (ReviewPolicy.scope_booking_review actor booking_id)
        ≡ (r.booking_id == booking_id && (ReviewPolicy.can_read_booking_review actor b).allowed))
      × (PaymentPolicy.meets_all p (PaymentPolicy.scope_read actor booking_id)
          ≡ (p.booking_id == booking_id && (PaymentPolicy.can_read actor p.booking).allowed))
unfolding ReviewPolicy.scope_booking_review ReviewPolicy.can_read_booking_review
    PaymentPolicy.scope_read PaymentPolicy.can_read
review_payment_scopes-can_read actor booking_id b r p real customers workers real' =
    (ground arith, ground arith)
