-- ===== src/Sync/Frame/Steps.antt =====
-- The steps of a run, from one row of a page to the body of the `try:`.
use one_loyal.Prelude.{
  ℕ, zero, suc, ◌+◌, refl, inl, inr, Option, none, some, List, [], ◌∷◌, length, Option-cases,
  Bool-cases,
}
use one_loyal.Core.{Result, ok, err}
use one_loyal.Common.Json.{Fields}
use one_loyal.Models.Sync.{
  Integration, SyncRun, SyncErrorEntityType, ErpCustomerDto, ErpSaleDto, ProviderRowError,
  ProviderConnectionResult, ProviderFetchResult,
}
use one_loyal.Progress.Service.Recalculation.{
  CampaignRecalculationStats, recalculate_affected_customers,
}
use one_loyal.Sync.Counting.{Task, done, fails, on_session, attempt, count, ◌>>◌, for_each}
use one_loyal.Sync.Customers.{Upserted, upsert_customer}
use one_loyal.Sync.Sales.{SaleOutcome, upsert_sale_record}
use one_loyal.Sync.Pages.{
  record_fetch_error, customer_counted, sync_customer, customer_page, sale_counted, sync_sale,
  sale_page, next_page, go_on, pages,
}
use one_loyal.Sync.Execution.{
  Provider, completed, sync_actor_context, recalculated, recalculate_campaign, active_campaigns,
  recalculate_progress, finish_pages, customers_of, sales_of, after_customers, connected, body,
}
use one_loyal.Sync.Frame.{KeepsTask, keep_step, keep_each}
use one_loyal.Sync.Frame.Writes.{upsert_customer-Keeps, upsert_sale_record-Keeps, recalculate-Keeps}

module _ (run : SyncRun) (integration : Integration) where
  customer_counted-Keeps :
      (dto : ErpCustomerDto) (outcome : Result Upserted)
      → KeepsTask (customer_counted run integration dto outcome)
  customer_counted-Keeps dto (ok (created, updated)) r = (refl, refl)
  customer_counted-Keeps dto (err e) r = (refl, refl)

  sync_customer-Keeps : (dto : ErpCustomerDto) → KeepsTask (sync_customer run integration dto)
  unfolding sync_customer
  sync_customer-Keeps dto =
      keep_step (attempt (on_session (upsert_customer run.company_id integration dto)))
        (customer_counted run integration dto)
        (λ r. upsert_customer-Keeps run.company_id integration dto r.session)
        (customer_counted-Keeps dto)

  fetch_error-Keeps :
      (entity_type : SyncErrorEntityType) (e : ProviderRowError)
      → KeepsTask (record_fetch_error run entity_type e)
  fetch_error-Keeps entity_type e r = (refl, refl)

  customer_page-Keeps :
      (page : ProviderFetchResult ErpCustomerDto) → KeepsTask (customer_page run integration page)
  unfolding customer_page
  customer_page-Keeps page r =
      let errors = record_fetch_error run SyncErrorEntityType.customer in
      keep_step (for_each errors page.errors)
        (λ _. for_each (sync_customer run integration) page.items)
        (keep_each errors page.errors (fetch_error-Keeps SyncErrorEntityType.customer))
        (λ _. keep_each (sync_customer run integration) page.items sync_customer-Keeps) _

  sale_counted-Keeps :
      (dto : ErpSaleDto) (outcome : Result SaleOutcome)
      → KeepsTask (sale_counted run integration dto outcome)
  sale_counted-Keeps dto (ok outcome) r = elim (Option-cases outcome.affected_customer_id) [
    | inl nobody ↦ rw nobody (refl, refl)
    | inr (id, there) ↦ rw there (refl, refl)
  ]
  sale_counted-Keeps dto (err e) r = (refl, refl)

  sync_sale-Keeps : (dto : ErpSaleDto) → KeepsTask (sync_sale run integration dto)
  unfolding sync_sale
  sync_sale-Keeps dto =
      keep_step (attempt (on_session (upsert_sale_record run.company_id integration dto)))
        (sale_counted run integration dto)
        (λ r. upsert_sale_record-Keeps run.company_id integration dto r.session)
        (sale_counted-Keeps dto)

  sale_page-Keeps :
      (page : ProviderFetchResult ErpSaleDto) → KeepsTask (sale_page run integration page)
  unfolding sale_page
  sale_page-Keeps page r =
      let errors = record_fetch_error run SyncErrorEntityType.sale_record in
      keep_step (for_each errors page.errors)
        (λ _.
          count (λ st. record st { skipped_sales = st.skipped_sales + length page.errors })
          >> for_each (sync_sale run integration) page.items)
        (keep_each errors page.errors (fetch_error-Keeps SyncErrorEntityType.sale_record))
        (λ _ t. keep_each (sync_sale run integration) page.items sync_sale-Keeps _) _

module _ {A : Type 0} (fetch : Fields → Result (ProviderFetchResult A))
    (handle : ProviderFetchResult A → Task (Unit {0}))
    (k : (page : ProviderFetchResult A) → KeepsTask (handle page)) where
  go_on-Keeps :
      (loop : Fields → Task (Option (ProviderFetchResult A)))
      → ((cursor : Fields) → KeepsTask (loop cursor))
      → (page : ProviderFetchResult A) → KeepsTask (go_on loop page)
  go_on-Keeps loop l page r = elim (Option-cases (next_page page)) [
    | inl last ↦ rw (go_on, last) (refl, refl)
    | inr (next, more) ↦ rw (go_on, more) (l next r)
  ]

  pages-Keeps : (fuel : ℕ) (cursor : Fields) → KeepsTask (pages fuel fetch handle cursor)
  unfolding pages
  pages-Keeps zero cursor r = (refl, refl)
  pages-Keeps (suc fuel) cursor r =
      keep_step (fails (fetch cursor)) (λ page. handle page >> go_on (pages fuel fetch handle) page)
        (λ t. (refl, refl))
        (λ page.
          keep_step (handle page) (λ _. go_on (pages fuel fetch handle) page) (k page)
            (λ _. go_on-Keeps (pages fuel fetch handle) (pages-Keeps fuel) page))
        r

module _ (run : SyncRun) where
  recalculated-Keeps :
      (campaign_id : ℕ) (result : Result CampaignRecalculationStats)
      → KeepsTask (recalculated run campaign_id result)
  recalculated-Keeps campaign_id (ok result) r = (refl, refl)
  recalculated-Keeps campaign_id (err e) r = (refl, refl)

  recalculate_campaign-Keeps :
      (ids : List ℕ) (campaign_id : ℕ) → KeepsTask (recalculate_campaign run ids campaign_id)
  unfolding recalculate_campaign
  recalculate_campaign-Keeps ids campaign_id =
      let context = some (sync_actor_context run) in
      keep_step
        (attempt
          (on_session (recalculate_affected_customers run.company_id campaign_id context ids 500)))
        (recalculated run campaign_id)
        (λ r. recalculate-Keeps run.company_id campaign_id context ids 500 r.session)
        (recalculated-Keeps campaign_id)

  recalculate_progress-Keeps : (ids : List ℕ) → KeepsTask (recalculate_progress run ids)
  unfolding recalculate_progress
  recalculate_progress-Keeps [] r = (refl, refl)
  recalculate_progress-Keeps (id ∷ ids) r =
      keep_each (recalculate_campaign run (id ∷ ids)) (active_campaigns run r.session)
        (recalculate_campaign-Keeps (id ∷ ids)) r

  module _ (integration : Integration) (fuel : ℕ) (provider : Provider) where
    finish_pages-Keeps :
        (customers : Option Fields) (sales : Option (ProviderFetchResult ErpSaleDto))
        → KeepsTask (finish_pages run integration fuel customers sales)
    finish_pages-Keeps customers none r = (refl, refl)
    finish_pages-Keeps customers (some sales) r =
        keep_step (recalculate_progress run r.affected_customer_ids)
          (λ _. done (completed customers sales.next_cursor))
          (recalculate_progress-Keeps r.affected_customer_ids) (λ _ t. (refl, refl)) _

    customers_of-Keeps : KeepsTask (customers_of run integration fuel provider)
    customers_of-Keeps r = elim (Bool-cases provider.supports_customers) [
      | inl is_so ↦ rw is_so (
          pages-Keeps provider.fetch_customers (customer_page run integration)
            (customer_page-Keeps run integration) fuel _ r)
      | inr is_not ↦ rw is_not (refl, refl)
    ]

    sales_of-Keeps : KeepsTask (sales_of run integration fuel provider)
    sales_of-Keeps r = elim (Bool-cases provider.supports_sales) [
      | inl is_so ↦ rw is_so (
          pages-Keeps provider.fetch_sales (sale_page run integration)
            (sale_page-Keeps run integration) fuel _ r)
      | inr is_not ↦ rw is_not (refl, refl)
    ]

    after_customers-Keeps :
        (found : Option (ProviderFetchResult ErpCustomerDto))
        → KeepsTask (after_customers run integration fuel provider found)
    after_customers-Keeps none r = (refl, refl)
    after_customers-Keeps (some customers) r =
        keep_step (sales_of run integration fuel provider)
          (finish_pages run integration fuel customers.next_cursor) sales_of-Keeps
          (finish_pages-Keeps customers.next_cursor) r

    connected-Keeps :
        (connection : ProviderConnectionResult)
        → KeepsTask (connected run integration fuel provider connection)
    connected-Keeps connection r = elim (Bool-cases connection.is_ok) [
      | inl is_so ↦ rw is_so (
          keep_step (customers_of run integration fuel provider)
            (after_customers run integration fuel provider) customers_of-Keeps after_customers-Keeps
            r)
      | inr is_not ↦ rw is_not (refl, refl)
    ]

  -- Whatever the provider answers, the body of a run leaves both tables as they were.
  pub body-Keeps :
      (integration : Integration) (fuel : ℕ) (built : Result Provider)
      → KeepsTask (body run integration fuel built)
  unfolding body
  body-Keeps integration fuel (err e) r = (refl, refl)
  body-Keeps integration fuel (ok provider) r =
      keep_step (fails provider.test_connection) (connected run integration fuel provider)
        (λ t. (refl, refl)) (connected-Keeps integration fuel provider) r
