-- ===== src/Auth.antt =====
-- backend/app/modules/auth: logins, and the refresh tokens that keep a user logged in.
pub mod Service
