-- ===== src/Access.antt =====
-- Who may do what: the roles (src/type/userRole.ts) and the attribute-based policies
-- (src/policies). A policy decides on a row in hand; a scope is the `where` of the query that
-- the database runs for the same actor.
pub mod Role
pub mod Decision
pub mod Filter
pub mod BookingPolicy
pub mod WorkerPolicy
pub mod PaymentPolicy
pub mod ReviewPolicy
pub mod ChatPolicy
pub mod JobPolicy
pub mod RequirementPolicy
pub mod DispatchPolicy
pub mod Scopes
pub mod Examples
