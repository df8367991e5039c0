-- ===== src/Outbox.antt =====
-- The notification outbox: src/services/outboxService.ts.
pub mod Table
pub mod Service
pub mod Channels
pub mod Lease
pub mod Steps
pub mod Sound
pub mod Reachable
pub mod Lost
pub mod Retry
pub mod Examples
