-- ===== src/Dispatch.antt =====
-- Dispatch of jobs to workers, src/features/dispatch.
pub mod Wave
pub mod Plan
pub mod Accept
pub mod Reserve
pub mod Accepted
pub mod Decline
pub mod Overwrite
pub mod AcceptExamples
pub mod Examples
