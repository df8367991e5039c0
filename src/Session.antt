-- ===== src/Session.antt =====
-- Refresh sessions, src/features/auth/session.service.ts.
pub mod Table
pub mod Service
pub mod Rotate
pub mod Steps
pub mod Families
pub mod Reachable
pub mod Theft
pub mod Success
pub mod Token
pub mod Tokens
pub mod TokenExamples
pub mod Examples
