-- ===== src/Payment/Status.antt =====
-- The payment statuses and the map of legal transitions, src/features/payment/paymentServices.ts.
use labour_baba_backend.Base.{any, Bool, true, false, List, [], ◌∷◌}

pub data PaymentStatus : Type 0 where
  pending completed failed refund_pending refunded refund_failed refund_unknown : PaymentStatus

abbrev pub same_status : PaymentStatus → PaymentStatus → Bool
same_status pending pending = true
same_status completed completed = true
same_status failed failed = true
same_status refund_pending refund_pending = true
same_status refunded refunded = true
same_status refund_failed refund_failed = true
same_status refund_unknown refund_unknown = true
same_status _ _ = false

-- `LEGAL_PAYMENT_TRANSITIONS`
abbrev pub legal_payment_transitions : PaymentStatus → List PaymentStatus
legal_payment_transitions pending = completed ∷ failed ∷ []
legal_payment_transitions completed = refund_pending ∷ []
legal_payment_transitions refund_pending = refunded ∷ refund_failed ∷ refund_unknown ∷ []
legal_payment_transitions refund_unknown = refunded ∷ refund_pending ∷ refund_failed ∷ []
legal_payment_transitions refund_failed = refund_pending ∷ []
legal_payment_transitions failed = pending ∷ []
legal_payment_transitions refunded = []

-- `allowedNext.includes(toStatus)`
abbrev pub is_legal : PaymentStatus → PaymentStatus → Bool
is_legal from to = any (same_status to) (legal_payment_transitions from)

-- COMPLETED, REFUND_PENDING, REFUND_FAILED or REFUND_UNKNOWN
abbrev pub is_refundable : PaymentStatus → Bool
is_refundable completed = true
is_refundable refund_pending = true
is_refundable refund_failed = true
is_refundable refund_unknown = true
is_refundable _ = false

-- The `code` of a `PaymentError`.
pub data PaymentError : Type 0 where
  payment_invalid_state_transition payment_not_authorized payment_not_payable : PaymentError
  payment_rate_missing payment_already_completed payment_persistence_failed : PaymentError
  payment_order_creation_failed payment_order_creation_in_progress : PaymentError
  provider_error payment_not_found : PaymentError
  webhook_secret_not_configured webhook_missing_signature : PaymentError
  webhook_invalid_signature webhook_invalid_body : PaymentError
  refund_not_authorized refund_no_payment refund_missing_capture_ref : PaymentError
  refund_already_pending refund_reconciliation_required refund_invalid_state : PaymentError
  refund_failed_error refund_unknown_error policy_refused : PaymentError
