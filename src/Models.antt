-- ===== src/Models.antt =====
-- The rows of the database, one module for each part of backend/app/modules that declares them.
-- Identifiers (UUIDs), dates (days) and times are numbers.
pub mod Campaign
pub mod Sale
pub mod Progress
pub mod Claim
pub mod Event
pub mod Portal
pub mod Customer
pub mod User
pub mod Sync
pub mod Notification
