-- ===== src/Models/Progress.antt =====
-- backend/app/modules/progress/models.py, and the `stats_json` that a calculation leaves.
use one_loyal.Prelude.{ℕ, String, Bool, Option}
use one_loyal.Common.Json.{Json}

pub record Stats : Type 0 where
  pub included_records_count : ℕ
  pub excluded_cancelled_count : ℕ
  pub excluded_deleted_count : ℕ
  pub excluded_currency_mismatch_count : ℕ
  pub excluded_unpaid_count : ℕ
  pub excluded_returns_count : ℕ
  pub no_tiers : Bool
  pub amount_basis : Json
  pub payment_rule : Json
  pub currency_mismatch_policy : Json

pub record CustomerCampaignProgress : Type 0 where
  pub id : ℕ
  pub company_id : ℕ
  pub campaign_id : ℕ
  pub customer_id : ℕ
  pub total_amount_minor : ℕ
  pub currency : String
  pub current_tier_id : Option ℕ
  pub next_tier_id : Option ℕ
  pub amount_left_minor : ℕ
  pub progress_percent_basis_points : ℕ
  pub calculation_version : ℕ
  pub stats_json : Stats
  pub calculated_at : ℕ
