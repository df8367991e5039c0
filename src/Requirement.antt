-- ===== src/Requirement.antt =====
-- The requirement lifecycle and its capacity, src/features/jobs/requirementStateMachine.ts.
pub mod Status
pub mod Capacity
pub mod Table
pub mod Machine
pub mod Reconcile
pub mod Laws
pub mod Places
pub mod Examples
