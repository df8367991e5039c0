-- ===== src/Booking.antt =====
-- The booking lifecycle and the booking service, src/features/booking.
pub mod Status
pub mod Table
pub mod Machine
pub mod Diagram
pub mod Laws
pub mod Effect
pub mod Outcome
pub mod Evidence
pub mod Otp
pub mod Verify
pub mod Kept
pub mod Guesses
pub mod Attempts
pub mod Cancel
pub mod Release
pub mod Complete
pub mod Authority
pub mod Completed
pub mod CompleteExamples
pub mod CancelExamples
pub mod Examples
