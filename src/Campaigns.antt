-- ===== src/Campaigns.antt =====
-- backend/app/modules/campaigns: the life of a campaign and its gift tiers.
pub mod Service
pub mod Lifecycle
pub mod Tiers
pub mod Editing
