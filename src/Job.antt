-- ===== src/Job.antt =====
-- The job lifecycle, src/features/jobs/jobStateMachine.ts.
pub mod Status
pub mod Table
pub mod Machine
pub mod Diagram
pub mod Laws
pub mod Effect
pub mod Outcome
pub mod History
pub mod Examples
