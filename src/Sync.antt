-- ===== src/Sync.antt =====
-- backend/app/modules/sync: what an ERP's provider hands over becomes customers and sale records.
pub mod Values
pub mod Customers
pub mod Sales
pub mod Counting
pub mod Pages
pub mod Execution
pub mod Queue
pub mod Schedule
pub mod Status
pub mod Ending
pub mod Service
pub mod Frame
