-- ===== src/Access/Examples.antt =====
-- The theorems on access at concrete inputs.
use labour_baba_backend.Base.{refl, ◌≡◌, none, some, [], ◌∷◌, arith, text}
use labour_baba_backend.Access.Role.{Actor, customer, worker}
use labour_baba_backend.Access.Filter.{Parties, meets_all}
use labour_baba_backend.Access.BookingPolicy
use labour_baba_backend.Access.PaymentPolicy
use labour_baba_backend.Access.ReviewPolicy
use labour_baba_backend.Access.ChatPolicy
use labour_baba_backend.Access.JobPolicy
use labour_baba_backend.Access.JobPolicy.{JobResource}
use labour_baba_backend.Access.RequirementPolicy
use labour_baba_backend.Access.RequirementPolicy.{RequirementResource}
use labour_baba_backend.Access.DispatchPolicy
use labour_baba_backend.Access.DispatchPolicy.{DispatchResource}
use labour_baba_backend.Access.Scopes.{
  booking_scope-can_read, job_scope-can_read, requirement_scope-can_read, dispatch_scope-can_read,
  chat_scope-can_send, review_payment_scopes-can_read,
}

abbrev owner : Actor
owner = record { id = 12; role = customer }

abbrev helper : Actor
helper = record { id = 11; role = worker }

abbrev parties : Parties
parties = record { id = 7; customer_id = 12; worker_id = 11 }

abbrev job : JobResource
job = record {
  id = 3;
  customer_id = 12;
  status = text "BOOKED";
  booking = 11 ∷ [];
  job_requirement = (14 ∷ []) ∷ [];
}

abbrev requirement : RequirementResource
requirement = record { id = 5; job_customer = some 12; job_dispatch = 11 ∷ []; booking = [] }

abbrev dispatch : DispatchResource
dispatch = record { id = 9; requirement_id = 5; worker_id = 11 }

booking_scope-can_read_example :
    meets_all parties (BookingPolicy.scope_read owner (some 7))
    ≡ (BookingPolicy.can_read owner parties).allowed
booking_scope-can_read_example = booking_scope-can_read owner (some 7) parties (λ h. ground arith)

job_scope-can_read_example :
    JobPolicy.meets_all job (JobPolicy.scope_read helper none)
    ≡ (JobPolicy.can_read helper job).allowed
job_scope-can_read_example = job_scope-can_read helper none job (λ h. ground arith)

requirement_scope-can_read_example :
    RequirementPolicy.meets_all requirement (RequirementPolicy.scope_read helper (some 5))
    ≡ (RequirementPolicy.can_read helper requirement).allowed
requirement_scope-can_read_example =
    requirement_scope-can_read helper (some 5) requirement (λ h. ground arith)

dispatch_scope-can_read_example :
    DispatchPolicy.meets_all dispatch (DispatchPolicy.scope_read helper (some 5))
    ≡ (DispatchPolicy.can_read helper dispatch).allowed
dispatch_scope-can_read_example =
    dispatch_scope-can_read helper (some 5) dispatch (λ h. ground arith)

chat_scope-can_send_example :
    (meets_all parties (ChatPolicy.scope_booking owner 7)
      ≡ (ChatPolicy.can_read_conversation owner parties).allowed)
    × ((ChatPolicy.can_send_message owner parties).allowed
        ≡ (ChatPolicy.can_join_room owner parties).allowed)
chat_scope-can_send_example = chat_scope-can_send owner 7 parties (λ h. ground arith)

abbrev review : ReviewPolicy.Review
review = record { id = 21; booking_id = 7; customer_id = 12; worker_id = 11 }

abbrev payment : PaymentPolicy.Payment
payment = record { id = 31; booking_id = 7; booking = parties }

review_payment_scopes-can_read_example :
    (ReviewPolicy.meets_all review (ReviewPolicy.scope_booking_review owner 7)
      ≡ (ReviewPolicy.can_read_booking_review owner parties).allowed)
    × (PaymentPolicy.meets_all payment (PaymentPolicy.scope_read owner 7)
        ≡ (PaymentPolicy.can_read owner parties).allowed)
review_payment_scopes-can_read_example =
    review_payment_scopes-can_read owner 7 parties review payment (λ h. ground arith) refl refl
      (λ h. ground arith)
