-- ===== src/Sync/Execution.antt =====
-- `_execute_sync_run`: one run of an integration, from its first request to its last state. The
-- entries of the audit log are left out.
use one_loyal.Prelude.{
  ℕ, ◌+◌, ◌==◌, ◌&&◌, Bool, true, false, Option, none, some, List, [], ◌∷◌, map, select, length,
  if◌then◌else◌,
}
use one_loyal.Core.{Result, ok, err}
use one_loyal.Common.Json.{Json, Fields, null, uuid, obj, end, field, get}
use one_loyal.Models.Event.{AuditContext}
use one_loyal.Models.Sync.{
  Integration, SyncRun, SyncErrorEntityType, SyncStats, ErpCustomerDto, ErpSaleDto,
  ProviderConnectionResult, ProviderFetchResult,
}
use one_loyal.Db.Exec.{Session}
use one_loyal.Db.Query.{is_null}
use one_loyal.Campaigns.Service.{is_active}
use one_loyal.Progress.Service.Recalculation.{
  CampaignRecalculationStats, recalculate_affected_customers,
}
use one_loyal.Sync.Counting.{
  Task, done, fails, on_session, attempt, count, ◌>>=◌, ◌>>◌, for_each, failed_more,
}
use one_loyal.Sync.Pages.{add_sync_error, record_row_error, customer_page, sale_page, pages}

-- What `build_provider` makes of an integration: the client of an ERP, whose answers to one run are
-- functions of the cursor.
pub record Provider : Type 0 where
  pub supports_customers : Bool
  pub supports_sales : Bool
  pub test_connection : Result ProviderConnectionResult
  pub fetch_customers : Fields → Result (ProviderFetchResult ErpCustomerDto)
  pub fetch_sales : Fields → Result (ProviderFetchResult ErpSaleDto)

abbrev pub empty_sync_stats : SyncStats
empty_sync_stats = record {
  fetched_customers = 0;
  created_customers = 0;
  updated_customers = 0;
  fetched_sales = 0;
  created_sales = 0;
  updated_sales = 0;
  skipped_sales = 0;
  failed_records = 0;
  affected_customers = 0;
  recalculated_progress_count = 0;
  customers_not_supported = false;
  sales_not_supported = false;
}

-- `_provider_cursor`
abbrev pub provider_cursor : Option Json → Fields
provider_cursor (some (obj cursor)) = cursor
provider_cursor _ = end

-- How the body of the `try:` ends: the provider is not reached, the pages are read with these last
-- cursors, or the pages do not end within the fuel.
pub data Outcome : Type 0 where
  not_connected : ProviderConnectionResult → Outcome
  completed : Option Fields → Option Fields → Outcome
  unfinished : Outcome

-- `_sync_actor_context`
abbrev pub sync_actor_context : SyncRun → AuditContext
sync_actor_context run = record {
  actor_user_id = run.created_by_user_id;
  actor_customer_id = none;
  actor_type = some (if is_null run.created_by_user_id then "task" else "user");
  request_id = none;
  ip_address = none;
  user_agent = none;
}

module _ (run : SyncRun) where
  abbrev pub recalculated : ℕ → Result CampaignRecalculationStats → Task (Unit {0})
  recalculated campaign_id (ok result) = count (λ st. record st {
    recalculated_progress_count = st.recalculated_progress_count + result.recalculated_count;
    failed_records = st.failed_records + result.failed_count;
  })
  recalculated campaign_id (err e) = do
    on_session (
        record_row_error run SyncErrorEntityType.progress (uuid campaign_id) e
          (field "campaign_id" (uuid campaign_id) end))
    count (failed_more 1)

  unfoldable pub recalculate_campaign : List ℕ → ℕ → Task (Unit {0})
  recalculate_campaign customer_ids campaign_id = do
    result ← attempt (
        on_session (
          recalculate_affected_customers run.company_id campaign_id (some (sync_actor_context run))
            customer_ids 500))
    recalculated campaign_id result

  abbrev pub active_campaigns : Session → List ℕ
  active_campaigns s =
      map (λ c. c.id)
        (select (λ c. c.company_id == run.company_id && is_active c.status && is_null c.deleted_at)
          s.campaigns)

  -- `_recalculate_progress`; a Python set has no order, and here the last id added is the first.
  unfoldable pub recalculate_progress : List ℕ → Task (Unit {0})
  unfolding recalculate_campaign
  recalculate_progress [] = done tt
  recalculate_progress (id ∷ ids) = do
    campaign_ids ← on_session (λ s. (ok (active_campaigns s), s))
    for_each (recalculate_campaign (id ∷ ids)) campaign_ids

  module _ (integration : Integration) (fuel : ℕ) where
    abbrev pub affected_ids : Task (List ℕ)
    affected_ids r = (ok r.affected_customer_ids, r)

    abbrev pub finish_pages : Option Fields → Option (ProviderFetchResult ErpSaleDto) → Task Outcome
    finish_pages customers none = done unfinished
    finish_pages customers (some sales) = do
      ids ← affected_ids
      count (λ st. record st { affected_customers = length ids })
      recalculate_progress ids
      done (completed customers sales.next_cursor)

    abbrev pub no_page : {A : Type 0} → ProviderFetchResult A
    no_page = record { items = []; next_cursor = none; has_more = false; errors = [] }

    abbrev pub customers_of : Provider → Task (Option (ProviderFetchResult ErpCustomerDto))
    customers_of provider =
        if provider.supports_customers
        then pages fuel provider.fetch_customers (customer_page run integration)
            (provider_cursor (get "customers" integration.sync_cursor_json))
        else count (λ st. record st { customers_not_supported = true }) >> done (some no_page)

    abbrev pub sales_of : Provider → Task (Option (ProviderFetchResult ErpSaleDto))
    sales_of provider =
        if provider.supports_sales
        then pages fuel provider.fetch_sales (sale_page run integration)
            (provider_cursor (get "sales" integration.sync_cursor_json))
        else count (λ st. record st { sales_not_supported = true }) >> done (some no_page)

    abbrev pub after_customers :
        Provider → Option (ProviderFetchResult ErpCustomerDto) → Task Outcome
    after_customers provider none = done unfinished
    after_customers provider (some customers) = do
      sales ← sales_of provider
      finish_pages customers.next_cursor sales

    abbrev pub connected : Provider → ProviderConnectionResult → Task Outcome
    connected provider connection =
        if connection.is_ok
        then customers_of provider >>= after_customers provider
        else on_session (
            add_sync_error run SyncErrorEntityType.provider null "connection_failed"
              connection.message connection.details)
          >> count (failed_more 1)
          >> done (not_connected connection)

    -- The body of the `try:`, up to the end of the run.
    unfoldable pub body : Result Provider → Task Outcome
    unfolding recalculate_progress
    body built = do
      provider ← fails built
      connection ← fails provider.test_connection
      connected provider connection
