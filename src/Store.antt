-- ===== src/Store.antt =====
-- The database that the services share: its rows (prisma/schema.prisma names the columns) and
-- the errors that leave a service.
pub mod Rows
pub mod Failure
