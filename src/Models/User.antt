-- ===== src/Models/User.antt =====
-- backend/app/modules/users/models.py, backend/app/modules/companies/models.py and
-- backend/app/modules/auth/models.py
use one_loyal.Prelude.{ℕ, String, Bool, true, false, Option}
use one_loyal.Common.Json.{Fields}

pub data UserRole : Type 0 where
  platform_admin owner admin sales_manager : UserRole

pub data UserStatus : Type 0 where
  active invited disabled : UserStatus

pub data CompanyStatus : Type 0 where
  active suspended archived : CompanyStatus

pub record Company : Type 0 where
  pub id : ℕ
  pub name : String
  pub name_i18n : Fields
  pub slug : String
  pub status : CompanyStatus
  pub base_currency : String
  pub timezone : String

pub record User : Type 0 where
  pub id : ℕ
  pub company_id : Option ℕ
  pub email : String
  pub full_name : String
  pub password_hash : String
  pub role : UserRole
  pub status : UserStatus
  pub last_login_at : Option ℕ

-- One refresh token; the token itself is not stored.
pub record UserSession : Type 0 where
  pub id : ℕ
  pub user_id : ℕ
  pub refresh_token_hash : String
  pub expires_at : ℕ
  pub revoked_at : Option ℕ
  pub user_agent : Option String
  pub ip_address : Option String

abbrev pub is_platform_admin : UserRole → Bool
is_platform_admin UserRole.platform_admin = true
is_platform_admin _ = false

abbrev pub is_sales_manager : UserRole → Bool
is_sales_manager UserRole.sales_manager = true
is_sales_manager _ = false

abbrev pub is_active_user : UserStatus → Bool
is_active_user UserStatus.active = true
is_active_user _ = false

abbrev pub role_value : UserRole → String
role_value UserRole.platform_admin = "platform_admin"
role_value UserRole.owner = "owner"
role_value UserRole.admin = "admin"
role_value UserRole.sales_manager = "sales_manager"
