-- ===== src/Progress/Service/Recalculation.antt =====
-- `recalculate_campaign_progress` and `recalculate_affected_customers`.
pub mod Laws
use one_loyal.Prelude.{
  ℕ, ◌+◌, ◌==◌, ◌&&◌, Bool, true, false, ◌||◌, List, [], ◌∷◌, map, select, leb, length,
  if◌then◌else◌,
}
use one_loyal.Prelude.Chunks.{chunks}
use one_loyal.Models.Campaign.{Campaign}
use one_loyal.Models.Sale.{SaleRecord}
use one_loyal.Models.Event.{AuditContext}
use one_loyal.Db.Exec.{Session, Exec, pure, gets, ◌>>=◌, ◌>>◌}
use one_loyal.Db.Query.{is_null}
use one_loyal.Prelude.{Option}
use one_loyal.Progress.Service.{get_campaign, calculate_customer_progress}

-- The counts never differ from what the loop made: an error ends the loop, so that the record is
-- returned only with no failure.
pub record CampaignRecalculationStats : Type 0 where
  pub campaign_id : ℕ
  pub recalculated_count : ℕ
  pub skipped_count : ℕ
  pub failed_count : ℕ
  pub affected_customer_count : ℕ

abbrev pub member : ℕ → List ℕ → Bool
member x [] = false
member x (y ∷ ys) = y == x || member x ys

-- SELECT DISTINCT
unfoldable pub distinct : List ℕ → List ℕ
distinct [] = []
distinct (x ∷ xs) = let rest = distinct xs in if member x rest then rest else x ∷ rest

unfoldable pub affected_customer_ids : ℕ → Campaign → Session → List ℕ
unfolding distinct
affected_customer_ids company_id campaign s = distinct (
    map (λ r. r.customer_id)
      (select
        (λ r.
          r.company_id == company_id
          && leb campaign.start_date r.effective_date
          && leb r.effective_date campaign.end_date
          && is_null r.deleted_at)
        s.sale_records))

module _ (company_id campaign_id : ℕ) (context : Option AuditContext) where
  -- the inner loop, with `recalculated_count`
  unfoldable pub recalculate_chunk : List ℕ → ℕ → Exec ℕ
  recalculate_chunk [] count = pure count
  recalculate_chunk (customer_id ∷ rest) count =
      calculate_customer_progress company_id campaign_id customer_id context
      >> recalculate_chunk rest (count + 1)

  -- the outer loop
  unfoldable pub recalculate_chunks : List (List ℕ) → ℕ → Exec ℕ
  unfolding recalculate_chunk
  recalculate_chunks [] count = pure count
  recalculate_chunks (chunk ∷ rest) count =
      recalculate_chunk chunk count >>= λ count'. recalculate_chunks rest count'

  unfoldable pub recalculate_affected_customers : List ℕ → ℕ → Exec CampaignRecalculationStats
  unfolding recalculate_chunks
  recalculate_affected_customers customer_ids chunk_size = do
    count ← recalculate_chunks (chunks (length customer_ids) chunk_size customer_ids) 0
    pure (record {
      campaign_id = campaign_id;
      recalculated_count = count;
      skipped_count = 0;
      failed_count = 0;
      affected_customer_count = length customer_ids;
    })

  unfoldable pub recalculate_campaign_progress : ℕ → Exec CampaignRecalculationStats
  unfolding get_campaign affected_customer_ids recalculate_affected_customers
  recalculate_campaign_progress chunk_size = do
    campaign ← get_campaign company_id campaign_id
    customer_ids ← gets (affected_customer_ids company_id campaign)
    recalculate_affected_customers customer_ids chunk_size
