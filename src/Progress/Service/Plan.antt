-- ===== src/Progress/Service/Plan.antt =====
-- `calculate_customer_progress` reads, then writes: `planned` is all that it reads, as a value.
use one_loyal.Prelude.{ℕ, ◌==◌, ◌&&◌, ◌≡◌, Option, List, select, arith}
use one_loyal.Db.Query.{scalar_one_or_none, is_null}
use one_loyal.Core.{Result, ok, err, not_found}
use one_loyal.Core.Results.{◌>>=◌, required_row}
use one_loyal.Models.Campaign.{Campaign}
use one_loyal.Models.Customer.{Customer}
use one_loyal.Models.Progress.{CustomerCampaignProgress, Stats}
use one_loyal.Models.Event.{AuditContext}
use one_loyal.Db.Exec.{Session}
use one_loyal.Progress.Rules.{merged_rules}
use one_loyal.Progress.Total.{calculate_total}
use one_loyal.Progress.Tiers.{TierResult, calculate_tiers}
use one_loyal.Progress.Service.{
  get_campaign, get_customer, active_tiers, sale_records_for_customer, upsert_progress,
  calculate_customer_progress,
}

pub record Plan : Type 0 where
  pub campaign : Campaign
  pub customer : Customer
  pub total : ℕ
  pub stats : Stats
  pub result : TierResult

unfoldable pub campaign_in : ℕ → ℕ → List Campaign → Result Campaign
campaign_in company_id campaign_id campaigns =
    required_row
      (scalar_one_or_none (
        select (λ c. c.id == campaign_id && c.company_id == company_id && is_null c.deleted_at)
          campaigns))
      (not_found "Campaign not found.")

unfoldable pub customer_in : ℕ → ℕ → List Customer → Result Customer
customer_in company_id customer_id customers =
    required_row
      (scalar_one_or_none (
        select (λ c. c.id == customer_id && c.company_id == company_id && is_null c.deleted_at)
          customers))
      (not_found "Customer not found.")

pub get_campaign_lem :
    (company_id campaign_id : ℕ) (s : Session)
    → get_campaign company_id campaign_id s ≡ (campaign_in company_id campaign_id s.campaigns, s)
unfolding get_campaign campaign_in
get_campaign_lem company_id campaign_id s = ground arith

pub get_customer_lem :
    (company_id customer_id : ℕ) (s : Session)
    → get_customer company_id customer_id s ≡ (customer_in company_id customer_id s.customers, s)
unfolding get_customer customer_in
get_customer_lem company_id customer_id s = ground arith

module _ (company_id campaign_id customer_id : ℕ) where
  unfoldable pub planned : Session → Result Plan
  planned s = do
    campaign ← campaign_in company_id campaign_id s.campaigns
    customer ← customer_in company_id customer_id s.customers
    rules ← merged_rules campaign.rules_json
    total_stats ←
        calculate_total campaign rules (sale_records_for_customer company_id campaign customer_id s)
    ok (record {
      campaign = campaign;
      customer = customer;
      total = total_stats.0;
      stats = total_stats.1;
      result = calculate_tiers total_stats.0 (active_tiers campaign s);
    })

  abbrev pub carried_out :
      Result Plan → Option AuditContext → Session → Result CustomerCampaignProgress × Session
  carried_out (ok p) context s =
      upsert_progress company_id p.campaign p.customer p.total p.result p.stats context s
  carried_out (err e) context s = (err e, s)

  -- An error while reading leaves the session alone; else the plan is stored.
  pub calculate_carries_out :
      (context : Option AuditContext) (s : Session)
      → calculate_customer_progress company_id campaign_id customer_id context s
        ≡ carried_out (planned s) context s
  unfolding calculate_customer_progress planned
  calculate_carries_out context s =
      ground (
        arith,
        get_campaign_lem company_id campaign_id s,
        get_customer_lem company_id customer_id s,
      )

  -- The plan depends on the tables that a calculation does not write.
  pub planned-OnlyEvents :
      (s t : Session)
      → t.customers ≡ s.customers
      → t.campaigns ≡ s.campaigns
      → t.gift_tiers ≡ s.gift_tiers
      → t.sale_records ≡ s.sale_records
      → planned t ≡ planned s
  unfolding planned active_tiers sale_records_for_customer
  planned-OnlyEvents s t a b c d = rw (a, b, c, d)
