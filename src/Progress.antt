-- ===== src/Progress.antt =====
-- backend/app/modules/progress/service.py: the progress of a customer in a campaign.
pub mod Rules
pub mod Amounts
pub mod Total
pub mod Tiers
pub mod Service
