-- ===== src/Tests.antt =====
-- Runs of the services on a small database, where the conditions of the theorems hold.
mod World
mod Claims
mod Progress
mod Campaigns
mod Portal
mod Sales
mod Auth
mod Sync
mod Notifications
mod Customers
