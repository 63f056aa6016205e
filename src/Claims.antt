-- ===== src/Claims.antt =====
-- backend/app/modules/claims: reward claims and the stock of the gifts.
pub mod Stock
pub mod Service
pub mod Creation
pub mod Decisions
pub mod Invariant
pub mod Run
pub mod Stuck
