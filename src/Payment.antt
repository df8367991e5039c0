-- ===== src/Payment.antt =====
-- Payments: src/features/payment/paymentServices.ts.
pub mod Status
pub mod Table
pub mod Machine
pub mod Webhook
pub mod Signature
pub mod Order
pub mod Refund
pub mod Sound
pub mod Writes
pub mod Hooks
pub mod Handled
pub mod Redelivery
pub mod Steps
pub mod Requests
pub mod Claims
pub mod Intents
pub mod Reachable
pub mod Capture
pub mod Money
pub mod Replay
pub mod Examples
