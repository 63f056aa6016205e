-- ===== src/Db.antt =====
-- The database session of one request: the tables, the supply of identifiers and the clock, with
-- the actions that read and write them (backend/app/db; SQLAlchemy's session as the services use
-- it).
pub mod Exec
pub mod Query
pub mod Keyed
