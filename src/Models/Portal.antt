-- ===== src/Models/Portal.antt =====
-- backend/app/modules/portal/models.py
use one_loyal.Prelude.{ℕ, String, Option}

pub record MagicLinkToken : Type 0 where
  pub id : ℕ
  pub company_id : ℕ
  pub customer_id : ℕ
  pub token_hash : String
  pub expires_at : ℕ
  pub used_at : Option ℕ
  pub revoked_at : Option ℕ
  pub created_by_user_id : Option ℕ
  pub last_used_at : Option ℕ
  pub use_count : ℕ
