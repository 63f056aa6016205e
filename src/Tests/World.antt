-- ===== src/Tests/World.antt =====
-- A company with one customer, one active campaign with two gifts, and one sale.
use one_loyal.Prelude.{ℕ, true, false, none, some, Option, [], ◌∷◌}
use one_loyal.Prelude.Int.{pos}
use one_loyal.Common.Json.{str, end}
use one_loyal.Models.Customer.{Customer, CustomerStatus}
use one_loyal.Models.Campaign.{Campaign, CampaignStatus, GiftTier, StockTrackingMode}
use one_loyal.Models.Sale.{
  SaleRecord, SaleSourceType, SaleDocumentKind, PaymentStatus, SaleDocumentStatus,
}
use one_loyal.Models.Progress.{CustomerCampaignProgress, Stats}
use one_loyal.Models.Claim.{RewardClaim, RewardClaimStatus}
use one_loyal.Db.Exec.{Session}
use one_loyal.Claims.Service.{new_claim}

abbrev pub ann : Customer
ann = record {
  id = 10;
  company_id = 1;
  name = "Ann";
  phone = none;
  email = none;
  tax_id = none;
  status = CustomerStatus.active;
  metadata_json = end;
  deleted_at = none;
}

abbrev pub spring : Campaign
spring = record {
  id = 20;
  company_id = 1;
  title = "Spring";
  description = none;
  title_i18n = end;
  description_i18n = none;
  start_date = 100;
  end_date = 200;
  status = CampaignStatus.active;
  currency = "UZS";
  rules_json = end;
  visibility_settings_json = end;
  allow_claims = true;
  deleted_at = none;
}

abbrev pub gift : ℕ → ℕ → StockTrackingMode → Option ℕ → ℕ → GiftTier
gift id amount mode stock sort_order = record {
  id = id;
  company_id = 1;
  campaign_id = 20;
  title = "Gift";
  description = none;
  title_i18n = end;
  description_i18n = none;
  required_amount_minor = amount;
  currency = "UZS";
  image_url = none;
  stock_tracking_mode = mode;
  stock_quantity = stock;
  reserved_quantity = 0;
  fulfilled_quantity = 0;
  sort_order = sort_order;
  is_active = true;
  deleted_at = none;
}

abbrev pub cup : GiftTier
cup = gift 30 1000 StockTrackingMode.strict (some 1) 0

abbrev pub bag : GiftTier
bag = gift 31 2000 StockTrackingMode.soft none 1

abbrev pub document : ℕ → SaleDocumentKind → ℕ → SaleRecord
document id kind amount = record {
  id = id;
  company_id = 1;
  customer_id = 10;
  integration_id = none;
  import_batch_id = none;
  source_type = SaleSourceType.erp;
  source_key = "1c";
  provider = "one_c";
  erp_document_type = none;
  document_kind = kind;
  external_document_id = none;
  external_document_number = none;
  external_updated_at = none;
  document_date = 150;
  effective_date = 150;
  gross_amount_minor = pos amount;
  net_amount_minor = none;
  vat_amount_minor = none;
  discount_amount_minor = none;
  paid_amount_minor = none;
  debt_amount_minor = none;
  amount_sign = pos 1;
  currency = "UZS";
  currency_scale = pos 0;
  payment_status = PaymentStatus.paid;
  document_status = SaleDocumentStatus.posted;
  is_deleted_in_source = false;
  is_archived_in_source = false;
  source_customer_external_id = none;
  raw_payload_json = end;
  content_hash = none;
  synced_at = none;
  deleted_at = none;
}

abbrev pub purchase : SaleRecord
purchase = document 40 SaleDocumentKind.sale 1500

abbrev pub returned_goods : SaleRecord
returned_goods = document 41 SaleDocumentKind.return 200

abbrev pub stats_of_one : Stats
stats_of_one = record {
  included_records_count = 1;
  excluded_cancelled_count = 0;
  excluded_deleted_count = 0;
  excluded_currency_mismatch_count = 0;
  excluded_unpaid_count = 0;
  excluded_returns_count = 0;
  no_tiers = false;
  amount_basis = str "gross";
  payment_rule = str "all_valid_documents";
  currency_mismatch_policy = str "exclude";
}

abbrev pub ann_in_spring : CustomerCampaignProgress
ann_in_spring = record {
  id = 50;
  company_id = 1;
  campaign_id = 20;
  customer_id = 10;
  total_amount_minor = 1500;
  currency = "UZS";
  current_tier_id = some 30;
  next_tier_id = some 31;
  amount_left_minor = 500;
  progress_percent_basis_points = 5000;
  calculation_version = 1;
  stats_json = stats_of_one;
  calculated_at = 150;
}

-- Nothing calculated and nothing claimed yet.
abbrev pub start : Session
start = record {
  customers = ann ∷ [];
  campaigns = spring ∷ [];
  gift_tiers = bag ∷ cup ∷ [];
  sale_records = purchase ∷ [];
  progress = [];
  claims = [];
  events = [];
  magic_links = [];
  companies = [];
  users = [];
  user_sessions = [];
  external_refs = [];
  assignments = [];
  integrations = [];
  sync_runs = [];
  sync_errors = [];
  notifications = [];
  next_id = 100;
  now = 160;
}

-- The progress is there.
abbrev pub earned : Session
earned = record start { progress = ann_in_spring ∷ [] }

-- Ann's claim of the cup
abbrev pub wish : RewardClaim
wish = new_claim 60 1 20 10 30 none

abbrev pub claimed : Session
claimed = record earned { claims = wish ∷ [] }

-- The claim is approved, and the one cup is reserved.
abbrev pub granted_wish : RewardClaim
granted_wish = record wish { status = RewardClaimStatus.approved }

abbrev pub reserved_cup : GiftTier
reserved_cup = record cup { reserved_quantity = 1 }

abbrev pub granted : Session
granted = record earned { claims = granted_wish ∷ []; gift_tiers = bag ∷ reserved_cup ∷ [] }
