-- ===== src/Booking/Authority.antt =====
-- Who may act on a booking, in words of its parties: the contract of the policies and of the
-- checks that bookingServices.ts makes for a caller without an actor.
use labour_baba_backend.Base.{ok, ℕ, ◌≡◌, ◌⊎◌, true, Option, none, some, arith}
use labour_baba_backend.Access.Role.{Role, Actor, customer, worker, admin, same_role}
use labour_baba_backend.Access.Decision.{assert_policy}
use labour_baba_backend.Access.BookingPolicy.{can_verify_otp, can_confirm_completion, can_cancel}
use labour_baba_backend.Booking.Otp
use labour_baba_backend.Booking.Cancel
use labour_baba_backend.Booking.Complete.{authorize_confirm}
use labour_baba_backend.Store.Rows.{BookingRow}

-- an administrator, or the booking's worker
abbrev pub MayVerify : Option Actor → ℕ → BookingRow → Type 0
MayVerify none worker_id b = b.worker_id ≡ worker_id
MayVerify (some a) worker_id b = (a.role ≡ admin) ⊎ ((a.role ≡ worker) × (b.worker_id ≡ a.id))

-- an administrator, or a party to the booking
abbrev pub MayCancel : Option Actor → ℕ → BookingRow → Type 0
MayCancel none user_id b = (b.customer_id ≡ user_id) ⊎ (b.worker_id ≡ user_id)
MayCancel (some a) user_id b =
    (a.role ≡ admin)
    ⊎ (((a.role ≡ customer) × (b.customer_id ≡ a.id)) ⊎ ((a.role ≡ worker) × (b.worker_id ≡ a.id)))

-- the booking's customer
abbrev pub MayConfirm : Option Actor → ℕ → BookingRow → Type 0
MayConfirm none customer_id b = b.customer_id ≡ customer_id
MayConfirm (some a) customer_id b = (a.role ≡ customer) × (b.customer_id ≡ a.id)

same_role-eq :
    (r s : Role) → (s ≡ customer) ⊎ ((s ≡ worker) ⊎ (s ≡ admin)) → same_role r s ≡ true → r ≡ s
same_role-eq r s known h = ground arith

pub authorize-MayVerify :
    (actor : Option Actor) (worker_id : ℕ) (b : BookingRow)
    → Otp.authorize actor worker_id b ≡ ok tt
    → MayVerify actor worker_id b
unfolding Otp.authorize can_verify_otp assert_policy
authorize-MayVerify none worker_id b h = ground arith
authorize-MayVerify (some a) worker_id b h = ground (arith, same_role-eq a.role)

pub authorize-MayCancel :
    (actor : Option Actor) (user_id : ℕ) (b : BookingRow)
    → Cancel.authorize actor user_id b ≡ ok tt
    → MayCancel actor user_id b
unfolding Cancel.authorize can_cancel assert_policy
authorize-MayCancel none user_id b h = ground arith
authorize-MayCancel (some a) user_id b h = ground (arith, same_role-eq a.role)

pub authorize_confirm-MayConfirm :
    (actor : Option Actor) (customer_id : ℕ) (b : BookingRow)
    → authorize_confirm actor customer_id b ≡ ok tt
    → MayConfirm actor customer_id b
unfolding authorize_confirm can_confirm_completion assert_policy
authorize_confirm-MayConfirm none customer_id b h = ground arith
authorize_confirm-MayConfirm (some a) customer_id b h = ground (arith, same_role-eq a.role)
