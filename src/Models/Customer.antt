-- ===== src/Models/Customer.antt =====
-- backend/app/modules/customers/models.py
use one_loyal.Prelude.{ℕ, String, Option}
use one_loyal.Common.Json.{Fields}

pub data CustomerStatus : Type 0 where
  active archived blocked : CustomerStatus

pub record Customer : Type 0 where
  pub id : ℕ
  pub company_id : ℕ
  pub name : String
  pub phone : Option String
  pub email : Option String
  pub tax_id : Option String
  pub status : CustomerStatus
  pub metadata_json : Fields
  pub deleted_at : Option ℕ

pub data ExternalProvider : Type 0 where
  fake moysklad csv manual custom_api one_c odoo erpnext : ExternalProvider

-- The text that the columns named `provider` hold
abbrev pub provider_value : ExternalProvider → String
provider_value ExternalProvider.fake = "fake"
provider_value ExternalProvider.moysklad = "moysklad"
provider_value ExternalProvider.csv = "csv"
provider_value ExternalProvider.manual = "manual"
provider_value ExternalProvider.custom_api = "custom_api"
provider_value ExternalProvider.one_c = "one_c"
provider_value ExternalProvider.odoo = "odoo"
provider_value ExternalProvider.erpnext = "erpnext"

pub record CustomerExternalRef : Type 0 where
  pub id : ℕ
  pub company_id : ℕ
  pub customer_id : ℕ
  pub integration_id : Option ℕ
  pub provider : String
  pub external_id : String
  pub external_name : Option String
  pub external_phone : Option String
  pub external_email : Option String
  pub raw_payload_json : Fields
  pub last_seen_at : Option ℕ

pub record CustomerAssignment : Type 0 where
  pub id : ℕ
  pub company_id : ℕ
  pub customer_id : ℕ
  pub sales_manager_user_id : ℕ
