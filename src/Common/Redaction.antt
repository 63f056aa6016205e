-- ===== src/Common/Redaction.antt =====
-- backend/app/common/redaction.py
mod Defs
pub mod Laws
unfoldable pub use Defs.*
pub use Laws.*
