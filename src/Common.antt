-- ===== src/Common.antt =====
-- backend/app/common: values that every module shares.
pub mod Json
pub mod Text
pub mod Redaction
pub mod JsonEquality
