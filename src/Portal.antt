-- ===== src/Portal.antt =====
-- backend/app/modules/portal: magic links and the sessions that customers open with them.
pub mod Service
pub mod Access
pub mod RoundTrip
pub mod Creation
