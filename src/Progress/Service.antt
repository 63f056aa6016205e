-- ===== src/Progress/Service.antt =====
-- `ProgressService`: reading the sales of a customer, and storing the progress with its events.
pub mod Recalculation
pub mod Stored
pub mod Plan
pub mod Idempotence
pub mod EndToEnd
use one_loyal.Prelude.{
  ℕ, ◌==◌, ◌&&◌, ◌||◌, String, Bool, true, false, not, Option, none, some, List, ◌∷◌, select, leb,
  if◌then◌else◌,
}
use one_loyal.Prelude.Int.{pos}
use one_loyal.Core.{Error, Result, ok, err, not_found}
use one_loyal.Common.Json.{Json, Fields, uuid, uuid_or_null, num, null, iso, obj, end, field}
use one_loyal.Models.Campaign.{Campaign, GiftTier}
use one_loyal.Models.Customer.{Customer}
use one_loyal.Models.Sale.{SaleRecord}
use one_loyal.Models.Progress.{CustomerCampaignProgress, Stats}
use one_loyal.Models.Event.{AuditContext}
use one_loyal.Db.Exec.{
  Session, Exec, pure, lift, gets, or_raise, modify, utc_now, fresh_id, ◌>>=◌, ◌>>◌,
}
use one_loyal.Db.Query.{scalar_one_or_none, put, is_null, eq_id, order_by_asc}
use one_loyal.Events.{EventArgs, event_args, emit}
use one_loyal.Progress.Rules.{Rules, merged_rules}
use one_loyal.Progress.Total.{calculate_total}
use one_loyal.Progress.Tiers.{TierResult, calculate_tiers}

unfoldable pub get_campaign : ℕ → ℕ → Exec Campaign
get_campaign company_id campaign_id = do
  rows ← gets (λ s.
      select (λ c. c.id == campaign_id && c.company_id == company_id && is_null c.deleted_at)
        s.campaigns)
  found ← lift (scalar_one_or_none rows)
  or_raise found (not_found "Campaign not found.")

unfoldable pub get_customer : ℕ → ℕ → Exec Customer
get_customer company_id customer_id = do
  rows ← gets (λ s.
      select (λ c. c.id == customer_id && c.company_id == company_id && is_null c.deleted_at)
        s.customers)
  found ← lift (scalar_one_or_none rows)
  or_raise found (not_found "Customer not found.")

unfoldable pub active_tiers : Campaign → Session → List GiftTier
unfolding order_by_asc
active_tiers campaign s =
    order_by_asc (λ t. t.required_amount_minor)
      (select
        (λ t.
          t.company_id == campaign.company_id
          && t.campaign_id == campaign.id
          && t.is_active
          && is_null t.deleted_at)
        s.gift_tiers)

unfoldable pub sale_records_for_customer : ℕ → Campaign → ℕ → Session → List SaleRecord
sale_records_for_customer company_id campaign customer_id s =
    select
      (λ r.
        r.company_id == company_id
        && r.customer_id == customer_id
        && leb campaign.start_date r.effective_date
        && leb r.effective_date campaign.end_date
        && is_null r.deleted_at)
      s.sale_records

abbrev pub calculation_version : ℕ
calculation_version = 1

abbrev pub is_progress_of : ℕ → ℕ → ℕ → CustomerCampaignProgress → Bool
is_progress_of company_id campaign_id customer_id p =
    p.company_id == company_id && p.campaign_id == campaign_id && p.customer_id == customer_id

abbrev pub tier_id : Option GiftTier → Option ℕ
tier_id none = none
tier_id (some t) = some t.id

-- The row with the new values: `CustomerCampaignProgress(..., **values)` or the `setattr` loop.
abbrev pub progress_row :
    ℕ → ℕ → Campaign → Customer → ℕ → TierResult → Stats → ℕ → CustomerCampaignProgress
progress_row row_id company_id campaign customer total r stats now = record {
  id = row_id;
  company_id = company_id;
  campaign_id = campaign.id;
  customer_id = customer.id;
  total_amount_minor = total;
  currency = campaign.currency;
  current_tier_id = tier_id r.current_tier;
  next_tier_id = tier_id r.next_tier;
  amount_left_minor = r.amount_left_minor;
  progress_percent_basis_points = r.progress_percent_basis_points;
  calculation_version = calculation_version;
  stats_json = record stats { no_tiers = r.no_tiers };
  calculated_at = now;
}

-- An existing row keeps its identifier and its company.
unfoldable pub save_progress :
    Option CustomerCampaignProgress → (ℕ → CustomerCampaignProgress) → Exec CustomerCampaignProgress
save_progress none row = do
  new_id ← fresh_id
  modify (λ s. record s { progress = row new_id ∷ s.progress })
  pure (row new_id)
save_progress (some old) row = do
  let changed : CustomerCampaignProgress = record (row old.id) { company_id = old.company_id }
  modify (λ s. record s { progress = put (λ p. p.id) changed s.progress })
  pure changed

-- `before_snapshot` and `after_snapshot`
abbrev pub snapshot : CustomerCampaignProgress → Json
snapshot p = obj (
    field "total_amount_minor" (num (pos p.total_amount_minor)) (
      field "current_tier_id" (uuid_or_null p.current_tier_id) (
        field "next_tier_id" (uuid_or_null p.next_tier_id) (
          field "amount_left_minor" (num (pos p.amount_left_minor)) (
            field "progress_percent_basis_points" (num (pos p.progress_percent_basis_points))
              (field "calculated_at" (iso p.calculated_at) end))))))

abbrev pub snapshot_or_null : Option CustomerCampaignProgress → Json
snapshot_or_null none = null
snapshot_or_null (some p) = snapshot p

abbrev pub should_emit_recalc : Option CustomerCampaignProgress → CustomerCampaignProgress → Bool
should_emit_recalc none after = true
should_emit_recalc (some before) after =
    not (before.total_amount_minor == after.total_amount_minor)
    || not (eq_id before.current_tier_id after.current_tier_id)
    || not (eq_id before.next_tier_id after.next_tier_id)

abbrev pub previous_tier_id : Option CustomerCampaignProgress → Option ℕ
previous_tier_id none = none
previous_tier_id (some p) = p.current_tier_id

-- The campaign and the customer that an event names.
pub record Scope : Type 0 where
  pub company_id : ℕ
  pub campaign_id : ℕ
  pub customer_id : ℕ

abbrev pub progress_event : String → Scope → CustomerCampaignProgress → EventArgs
progress_event event_type scope p =
    record (event_args scope.company_id event_type "customer_campaign_progress" p.id) {
      customer_id = some scope.customer_id;
      campaign_id = some scope.campaign_id;
    }

abbrev pub recalculated_event :
    Scope → Option CustomerCampaignProgress → CustomerCampaignProgress → EventArgs
recalculated_event scope before after =
    record (progress_event "customer_progress_recalculated" scope after) {
      payload_json = some (
          field "progress_id" (uuid after.id)
            (field "previous" (snapshot_or_null before) (field "current" (snapshot after) end)));
    }

abbrev pub tier_event : String → Scope → Option ℕ → CustomerCampaignProgress → EventArgs
tier_event event_type scope previous p = record (progress_event event_type scope p) {
  gift_tier_id = p.current_tier_id;
  payload_json = some (
      field "progress_id" (uuid p.id) (
        field "previous_tier_id" (uuid_or_null previous) (
          field "current_tier_id" (uuid_or_null p.current_tier_id)
            (field "total_amount_minor" (num (pos p.total_amount_minor)) end))));
}

abbrev pub emit_if : Bool → EventArgs → Option AuditContext → Exec (Unit {0})
emit_if false args context = pure tt
emit_if true args context = do emit args context; pure tt

-- The event of a first tier, of another tier, or none.
unfoldable pub emit_tier_change :
    Scope → Option ℕ → CustomerCampaignProgress → Option AuditContext → Exec (Unit {0})
unfolding emit
emit_tier_change scope previous p context =
    if is_null previous && not (is_null p.current_tier_id)
    then emit_if true (tier_event "reward_tier_reached" scope none p) context
    else emit_if (not (eq_id previous p.current_tier_id))
        (tier_event "reward_tier_changed" scope previous p) context

-- The events at the end of `_upsert_progress`.
unfoldable pub announce :
    Scope
    → Option CustomerCampaignProgress
    → CustomerCampaignProgress
    → Option AuditContext
    → Exec (Unit {0})
unfolding emit emit_tier_change
announce scope before progress context = do
  emit_if (should_emit_recalc before progress) (recalculated_event scope before progress) context
  emit_tier_change scope (previous_tier_id before) progress context

unfoldable pub upsert_progress :
    ℕ
    → Campaign
    → Customer
    → ℕ
    → TierResult
    → Stats
    → Option AuditContext
    → Exec CustomerCampaignProgress
unfolding save_progress
upsert_progress company_id campaign customer total r stats context = do
  let scope : Scope = record {
    company_id = company_id;
    campaign_id = campaign.id;
    customer_id = customer.id;
  }
  rows ← gets (λ s. select (is_progress_of company_id campaign.id customer.id) s.progress)
  before ← lift (scalar_one_or_none rows)
  now ← utc_now
  progress ←
      save_progress before
        (λ row_id. progress_row row_id company_id campaign customer total r stats now)
  announce scope before progress context
  pure progress

unfoldable pub calculate_customer_progress :
    ℕ → ℕ → ℕ → Option AuditContext → Exec CustomerCampaignProgress
unfolding get_campaign get_customer active_tiers sale_records_for_customer upsert_progress
calculate_customer_progress company_id campaign_id customer_id context = do
  campaign ← get_campaign company_id campaign_id
  customer ← get_customer company_id customer_id
  rules ← lift (merged_rules campaign.rules_json)
  tiers ← gets (active_tiers campaign)
  sale_records ← gets (sale_records_for_customer company_id campaign customer_id)
  total_stats ← lift (calculate_total campaign rules sale_records)
  upsert_progress company_id campaign customer total_stats.0 (calculate_tiers total_stats.0 tiers)
      total_stats.1 context
