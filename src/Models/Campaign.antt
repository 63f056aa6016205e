-- ===== src/Models/Campaign.antt =====
-- backend/app/modules/campaigns/models.py
use one_loyal.Prelude.{ℕ, String, Bool, Option, none, some}
use one_loyal.Prelude.Int.{ℤ, pos, ◌-ℤ◌}
use one_loyal.Common.Json.{Fields}

pub data CampaignStatus : Type 0 where
  draft active paused completed archived : CampaignStatus

-- The constructor `untracked` is "none".
pub data StockTrackingMode : Type 0 where
  untracked soft strict : StockTrackingMode

pub record Campaign : Type 0 where
  pub id : ℕ
  pub company_id : ℕ
  pub title : String
  pub description : Option String
  pub title_i18n : Fields
  pub description_i18n : Option Fields
  pub start_date : ℕ
  pub end_date : ℕ
  pub status : CampaignStatus
  pub currency : String
  pub rules_json : Fields
  pub visibility_settings_json : Fields
  pub allow_claims : Bool
  pub deleted_at : Option ℕ

-- The columns with a CHECK for a non-negative value are natural numbers.
pub record GiftTier : Type 0 where
  pub id : ℕ
  pub company_id : ℕ
  pub campaign_id : ℕ
  pub title : String
  pub description : Option String
  pub title_i18n : Fields
  pub description_i18n : Option Fields
  pub required_amount_minor : ℕ
  pub currency : String
  pub image_url : Option String
  pub stock_tracking_mode : StockTrackingMode
  pub stock_quantity : Option ℕ
  pub reserved_quantity : ℕ
  pub fulfilled_quantity : ℕ
  pub sort_order : ℕ
  pub is_active : Bool
  pub deleted_at : Option ℕ

unfoldable pub available_quantity : GiftTier → Option ℤ
unfolding ◌-ℤ◌
available_quantity t = elim t.stock_quantity [
  | none ↦ none
  | some stock ↦ some (pos stock -ℤ pos t.reserved_quantity -ℤ pos t.fulfilled_quantity)
]
