-- ===== src/Tests/Progress.antt =====
-- Runs of the progress service and of the redaction.
use one_loyal.Prelude.{◌+◌, ◌*◌, ◌≤◌, ◌<◌, ◌≡◌, refl, true, false, none, List, [], ◌∷◌, arith}
use mathlib.Core.List.{Permᴰ}
use one_loyal.Core.{ok}
use one_loyal.Common.Json.{Json, str, obj, arr, nil, item, field, end}
use one_loyal.Common.Redaction.{redact_sensitive_data}
use one_loyal.Common.Redaction.Laws.{IsRedacted, redact_sensitive_data-IsRedacted}
use one_loyal.Models.Campaign.{GiftTier}
use one_loyal.Models.Sale.{SaleRecord}
use one_loyal.Models.Progress.{CustomerCampaignProgress}
use one_loyal.Db.Exec.{◌>>=◌, pure}
use one_loyal.Prelude.Int.{◌+ℤ◌}
use one_loyal.Progress.Rules.{Rules, merged_rules}
use one_loyal.Progress.Amounts.{basis_points, signed_amount, amount_for_record}
use one_loyal.Progress.Amounts.Laws.{basis_points_nearest}
use one_loyal.Progress.Total.{calculate_total}
use one_loyal.Progress.Total.Spec.{expected_total}
use one_loyal.Progress.Total.Laws.{
  counted, calculate_total-eq-expected_total, calculate_total-perm, calculate_total_counts_all,
}
use one_loyal.Progress.Tiers.{calculate_tiers}
use one_loyal.Progress.Tiers.Laws.{IsCurrent, IsNext, calculate_tiers_finds}
use one_loyal.Progress.Service.{calculate_customer_progress, announce}
use one_loyal.Progress.Service.Stored.{IsProgressTable}
use one_loyal.Progress.Service.Plan.{Plan}
use one_loyal.Progress.Service.Idempotence.{recalculation_is_quiet}
use one_loyal.Progress.Service.EndToEnd.{Stores, calculate-Stores}
use one_loyal.Progress.Service.Recalculation.{
  CampaignRecalculationStats, recalculate_chunk, recalculate_affected_customers,
}
use one_loyal.Progress.Service.Recalculation.Laws.{recalculate_in_one_loop}
use one_loyal.Tests.World.{
  spring, cup, bag, purchase, returned_goods, ann_in_spring, stats_of_one, start,
}

start-IsProgressTable : IsProgressTable start
start-IsProgressTable = record {
  keyed = tt;
  unique = λ company_id campaign_id customer_id. omega arith;
}

-- The row that the first calculation stores
abbrev first_row : CustomerCampaignProgress
first_row = record ann_in_spring { id = 100; calculated_at = 160 }

calculate-Stores_example :
    (plan : Plan) × Stores 1 20 10 start
      (calculate_customer_progress 1 20 10 none start).1
      first_row
      plan
unfolding calculate_customer_progress merged_rules calculate_total announce calculate_tiers ◌+ℤ◌
    signed_amount amount_for_record basis_points
calculate-Stores_example =
    calculate-Stores 1 20 10 none start {p = first_row} start-IsProgressTable refl

recalculation_is_quiet_example :
    let first = calculate_customer_progress 1 20 10 none start in
    let second = calculate_customer_progress 1 20 10 none (record first.1 { now = 170 }) in
    (second.0 ≡ ok (record first_row { calculated_at = 170 })) × (second.1.events ≡ first.1.events)
unfolding calculate_customer_progress merged_rules calculate_total announce calculate_tiers ◌+ℤ◌
    signed_amount amount_for_record basis_points
recalculation_is_quiet_example =
    recalculation_is_quiet 1 20 10 none none start 170 {p = first_row} start-IsProgressTable refl

abbrev rules : Rules
rules = record {
  amount_basis = str "gross";
  include_cancelled = Json.bool false;
  include_deleted = Json.bool false;
  subtract_returns = Json.bool true;
  payment_rule = str "all_valid_documents";
  currency_mismatch_policy = str "exclude";
}

abbrev records : List SaleRecord
records = returned_goods ∷ purchase ∷ []

calculate_total-eq-expected_total_example :
    calculate_total spring rules records ≡ expected_total spring rules records
calculate_total-eq-expected_total_example = calculate_total-eq-expected_total spring rules records

calculate_total-perm_example :
    calculate_total spring rules records
    ≡ calculate_total spring rules (purchase ∷ returned_goods ∷ [])
calculate_total-perm_example =
    calculate_total-perm spring rules {xs = records} {ys = purchase ∷ returned_goods ∷ []}
      (Permᴰ.swap refl refl)

calculate_total_counts_all_example :
    counted (record stats_of_one { included_records_count = 2 }) ≡ 2
unfolding calculate_total ◌+ℤ◌ signed_amount amount_for_record
calculate_total_counts_all_example =
    calculate_total_counts_all spring rules records {total = 1300}
      {stats = record stats_of_one { included_records_count = 2 }} refl

abbrev tiers : List GiftTier
tiers = cup ∷ bag ∷ []

calculate_tiers_finds_example :
    IsCurrent 1500 tiers (calculate_tiers 1500 tiers).current_tier
    × IsNext 1500 tiers (calculate_tiers 1500 tiers).next_tier
calculate_tiers_finds_example = calculate_tiers_finds 1500 tiers (ground arith)

basis_points_nearest_example :
    (2 * 3 * basis_points 2 3 ≤ 2 * (2 * 10000) + 3)
    × (2 * (2 * 10000) < 2 * 3 * basis_points 2 3 + 3)
basis_points_nearest_example = basis_points_nearest 2 3 (omega arith) (omega arith)

recalculate_in_one_loop_example :
    recalculate_affected_customers 1 20 none (10 ∷ 11 ∷ []) 1 start
    ≡ (recalculate_chunk 1 20 none (10 ∷ 11 ∷ []) 0 >>= λ count. pure (record {
      campaign_id = 20;
      recalculated_count = count;
      skipped_count = 0;
      failed_count = 0;
      affected_customer_count = 2;
    }))
        start
recalculate_in_one_loop_example =
    recalculate_in_one_loop 1 20 none (10 ∷ 11 ∷ []) 1 start (omega arith)

abbrev done : CampaignRecalculationStats
done = record {
  campaign_id = 20;
  recalculated_count = 1;
  skipped_count = 0;
  failed_count = 0;
  affected_customer_count = 1;
}

abbrev payload : Json
payload = obj (
    field "Access_Token" (str "x")
      (field "rows" (arr (item (obj (field "n" (str "y") end)) nil)) end))

redact_sensitive_data-IsRedacted_example : IsRedacted (redact_sensitive_data payload)
redact_sensitive_data-IsRedacted_example = redact_sensitive_data-IsRedacted payload
