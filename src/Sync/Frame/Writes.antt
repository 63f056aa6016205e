-- ===== src/Sync/Frame/Writes.antt =====
-- The steps on the session: the upserts of customers and sales, and a recalculation.
use one_loyal.Prelude.{
  ℕ, ◌+◌, ◌==◌, refl, Bool, true, false, inl, inr, Option, none, some, List, [], ◌∷◌, select, arith,
  length, Bool-cases, Option-cases,
}
use one_loyal.Prelude.Chunks.{chunks}
use one_loyal.Core.{Result, ok, err, Result-cases}
use one_loyal.Models.Progress.{CustomerCampaignProgress, Stats}
use one_loyal.Models.Campaign.{Campaign}
use one_loyal.Models.Customer.{Customer}
use one_loyal.Models.Event.{AuditContext}
use one_loyal.Models.Sync.{Integration, ErpCustomerDto, ErpSaleDto}
use one_loyal.Db.Exec.{Session, pure, ◌>>◌}
use one_loyal.Db.Query.{scalar_one_or_none}
use one_loyal.Db.Keyed.{Scalar-cases}
use one_loyal.Events.{EventArgs, emit}
use one_loyal.Progress.Tiers.{TierResult}
use one_loyal.Progress.Service.{
  Scope, emit_if, emit_tier_change, announce, is_progress_of, save_progress, upsert_progress,
  progress_row, should_emit_recalc, recalculated_event, previous_tier_id,
  calculate_customer_progress,
}
use one_loyal.Progress.Service.Plan.{Plan, planned, carried_out, calculate_carries_out}
use one_loyal.Progress.Service.Recalculation.{
  recalculate_chunk, recalculate_chunks, recalculate_affected_customers,
}
use one_loyal.Sync.Customers.{is_ref, find_ref, of_company, upsert_customer}
use one_loyal.Sync.Sales.{upsert_sale_record, should_update}
use one_loyal.Sync.Sales.Laws.{Found, decide_sale, written, upsert_decides}
use one_loyal.Sync.Frame.{IsKept, Keeps, keep_bind}

module _ (company_id : ℕ) (integration : Integration) where
  written-Keeps :
      (sale : ErpSaleDto) (s : Session) (d : Result (Found company_id integration sale))
      → IsKept s (written company_id integration sale s d).1
  written-Keeps sale s (err e) = (refl, refl)
  written-Keeps sale s (ok f) = elim (Option-cases f.existing) [
    | inl new ↦ rw new (refl, refl)
    | inr (row, old) ↦ rw old (elim (Bool-cases (should_update row sale)) [
      | inl stale ↦ rw stale (refl, refl)
      | inr current ↦ rw current (refl, refl)
    ])
  ]

  pub upsert_sale_record-Keeps :
      (sale : ErpSaleDto) → Keeps (upsert_sale_record company_id integration sale)
  upsert_sale_record-Keeps sale s =
      rw (upsert_decides company_id integration sale s)
        (written-Keeps sale s (decide_sale company_id integration sale s))

  pub upsert_customer-Keeps :
      (dto : ErpCustomerDto) → Keeps (upsert_customer company_id integration dto)
  unfolding upsert_customer find_ref
  upsert_customer-Keeps dto s =
      let refs = select (is_ref company_id integration.provider dto.external_id) s.external_refs in
      elim (Scalar-cases (scalar_one_or_none refs)) [
        | inl h ↦ ground (arith, h)
        | inr (inl (ref, h)) ↦
            let rows = select (λ c. c.id == ref.customer_id) s.customers in
            elim (Option-cases (of_company company_id rows)) [
              | inl other ↦ ground (arith, h, other)
              | inr (c, there) ↦ ground (arith, h, there)
            ]
        | inr (inr (e, h)) ↦ ground (arith, h)
      ]

emit_if-Keeps :
    (b : Bool) (args : EventArgs) (context : Option AuditContext) → Keeps (emit_if b args context)
unfolding emit
emit_if-Keeps true args context s = (refl, refl)
emit_if-Keeps false args context s = (refl, refl)

emit_tier_change-Keeps :
    (scope : Scope) (previous : Option ℕ) (p : CustomerCampaignProgress)
    (context : Option AuditContext)
    → Keeps (emit_tier_change scope previous p context)
unfolding emit_tier_change emit
emit_tier_change-Keeps scope previous p context s = ground arith

announce-Keeps :
    (scope : Scope) (before : Option CustomerCampaignProgress) (p : CustomerCampaignProgress)
    (context : Option AuditContext)
    → Keeps (announce scope before p context)
unfolding announce
announce-Keeps scope before p context =
    keep_bind (emit_if (should_emit_recalc before p) (recalculated_event scope before p) context)
      (λ _. emit_tier_change scope (previous_tier_id before) p context)
      (emit_if-Keeps (should_emit_recalc before p) (recalculated_event scope before p) context)
      (λ _. emit_tier_change-Keeps scope (previous_tier_id before) p context)

save_progress-Keeps :
    (before : Option CustomerCampaignProgress) (row : ℕ → CustomerCampaignProgress)
    → Keeps (save_progress before row)
unfolding save_progress
save_progress-Keeps none row s = (refl, refl)
save_progress-Keeps (some old) row s = (refl, refl)

upsert_progress-Keeps :
    (company_id : ℕ) (campaign : Campaign) (customer : Customer) (total : ℕ) (r : TierResult)
    (stats : Stats) (context : Option AuditContext)
    → Keeps (upsert_progress company_id campaign customer total r stats context)
unfolding upsert_progress
upsert_progress-Keeps company_id campaign customer total r stats context s =
    let scope : Scope = record {
      company_id = company_id;
      campaign_id = campaign.id;
      customer_id = customer.id;
    } in
    let rows = select (is_progress_of company_id campaign.id customer.id) s.progress in
    let row : ℕ → CustomerCampaignProgress =
      λ id. progress_row id company_id campaign customer total r stats s.now in
    elim (Result-cases (scalar_one_or_none rows)) [
      | inl (before, h) ↦
          let step =
            keep_bind (save_progress before row) (λ p. announce scope before p context >> pure p)
              (save_progress-Keeps before row)
              (λ p.
                keep_bind (announce scope before p context) (λ _. pure p)
                  (announce-Keeps scope before p context) (λ _ t. (refl, refl)))
              s in
          ground (arith, h, step)
      | inr (e, h) ↦ ground (arith, h)
    ]

module _ (company_id campaign_id : ℕ) (context : Option AuditContext) where
  carried_out-Keeps :
      (customer_id : ℕ) (d : Result Plan)
      → Keeps (carried_out company_id campaign_id customer_id d context)
  carried_out-Keeps customer_id (ok p) s =
      upsert_progress-Keeps company_id p.campaign p.customer p.total p.result p.stats context s
  carried_out-Keeps customer_id (err e) s = (refl, refl)

  calculate-Keeps :
      (customer_id : ℕ)
      → Keeps (calculate_customer_progress company_id campaign_id customer_id context)
  calculate-Keeps customer_id s =
      rw (calculate_carries_out company_id campaign_id customer_id context s)
        (carried_out-Keeps customer_id (planned company_id campaign_id customer_id s) s)

  chunk-Keeps :
      (ids : List ℕ) (count : ℕ)
      → Keeps (recalculate_chunk company_id campaign_id context ids count)
  unfolding recalculate_chunk
  chunk-Keeps [] count s = (refl, refl)
  chunk-Keeps (id ∷ ids) count s =
      keep_bind (calculate_customer_progress company_id campaign_id id context)
        (λ _. recalculate_chunk company_id campaign_id context ids (count + 1)) (calculate-Keeps id)
        (λ _. chunk-Keeps ids (count + 1)) s

  chunks-Keeps :
      (parts : List (List ℕ)) (count : ℕ)
      → Keeps (recalculate_chunks company_id campaign_id context parts count)
  unfolding recalculate_chunks
  chunks-Keeps [] count s = (refl, refl)
  chunks-Keeps (ids ∷ parts) count s =
      keep_bind (recalculate_chunk company_id campaign_id context ids count)
        (recalculate_chunks company_id campaign_id context parts) (chunk-Keeps ids count)
        (chunks-Keeps parts) s

  pub recalculate-Keeps :
      (ids : List ℕ) (size : ℕ)
      → Keeps (recalculate_affected_customers company_id campaign_id context ids size)
  unfolding recalculate_affected_customers
  recalculate-Keeps ids size =
      keep_bind (recalculate_chunks company_id campaign_id context (chunks (length ids) size ids) 0)
        (λ count. pure (record {
          campaign_id = campaign_id;
          recalculated_count = count;
          skipped_count = 0;
          failed_count = 0;
          affected_customer_count = length ids;
        }))
        (chunks-Keeps (chunks (length ids) size ids) 0) (λ count s. (refl, refl))
