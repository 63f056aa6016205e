-- ===== src/Sync/Pages.antt =====
-- `_sync_customers_from_provider`, `_sync_sales_from_provider` and the errors they record.
use one_loyal.Prelude.{
  ℕ, zero, suc, ◌+◌, ◌≡◌, String, Option, none, some, ◌∷◌, length, bit, if◌then◌else◌,
}
use one_loyal.Core.{Error, Result, ok, err}
use one_loyal.Common.Json.{Json, Fields, null, str}
use one_loyal.Models.Sync.{
  Integration, SyncRun, SyncError, SyncErrorEntityType, ErpCustomerDto, ErpSaleDto,
  ProviderRowError, ProviderFetchResult,
}
use one_loyal.Db.Exec.{Exec}
use one_loyal.Progress.Service.Recalculation.{member}
use one_loyal.Sync.Customers.{Upserted, upsert_customer}
use one_loyal.Sync.Sales.{SaleOutcome, upsert_sale_record}
use one_loyal.Sync.Counting.{
  Task, done, fails, on_session, attempt, count, ◌>>=◌, ◌>>◌, for_each, failed_more, error_code,
  error_message,
}

abbrev pub new_sync_error :
    ℕ → SyncRun → SyncErrorEntityType → Json → String → String → Fields → SyncError
new_sync_error id run entity_type external_id code message payload = record {
  id = id;
  company_id = run.company_id;
  sync_run_id = run.id;
  entity_type = entity_type;
  external_id = external_id;
  error_code = code;
  message = message;
  raw_payload_json = payload;
}

-- `_add_sync_error`
abbrev pub add_sync_error :
    SyncRun → SyncErrorEntityType → Json → String → String → Fields → Exec (Unit {0})
add_sync_error run entity_type external_id code message payload s = (
  ok tt,
  record s {
    sync_errors =
        new_sync_error s.next_id run entity_type external_id code message payload ∷ s.sync_errors;
    next_id = suc s.next_id;
  },
)

-- `_record_row_error`
abbrev pub record_row_error :
    SyncRun → SyncErrorEntityType → Json → Error → Fields → Exec (Unit {0})
record_row_error run entity_type external_id e payload =
    add_sync_error run entity_type external_id (error_code e) (error_message e) payload

abbrev pub text_or_null : Option String → Json
text_or_null none = null
text_or_null (some text) = str text

module _ (run : SyncRun) where
  -- `_record_provider_fetch_errors`
  abbrev pub record_fetch_error : SyncErrorEntityType → ProviderRowError → Task (Unit {0})
  record_fetch_error entity_type e = do
    on_session (
        add_sync_error run entity_type (text_or_null e.external_id) e.error_code e.message
          e.raw_payload)
    count (failed_more 1)

  -- `except Exception as exc:` around one row
  abbrev pub row_failed : SyncErrorEntityType → String → Fields → Error → Task (Unit {0})
  row_failed entity_type external_id payload e = do
    on_session (record_row_error run entity_type (str external_id) e payload)
    count (failed_more 1)

  module _ (integration : Integration) where
    abbrev pub customer_counted : ErpCustomerDto → Result Upserted → Task (Unit {0})
    customer_counted dto (ok (created, updated)) = count (λ st. record st {
      created_customers = st.created_customers + bit created;
      updated_customers = st.updated_customers + bit updated;
    })
    customer_counted dto (err e) =
        row_failed SyncErrorEntityType.customer dto.external_id dto.raw_payload e

    unfoldable pub sync_customer : ErpCustomerDto → Task (Unit {0})
    sync_customer dto = do
      outcome ← attempt (on_session (upsert_customer run.company_id integration dto))
      customer_counted dto outcome

    unfoldable pub customer_page : ProviderFetchResult ErpCustomerDto → Task (Unit {0})
    customer_page page = do
      count (λ st. record st { fetched_customers = st.fetched_customers + length page.items })
      for_each (record_fetch_error SyncErrorEntityType.customer) page.errors
      for_each sync_customer page.items

    -- `affected_customer_ids.add(...)`
    abbrev pub affects : Option ℕ → Task (Unit {0})
    affects none r = (ok tt, r)
    affects (some id) r = (
      ok tt,
      record r {
        affected_customer_ids =
            if member id r.affected_customer_ids
            then r.affected_customer_ids
            else id ∷ r.affected_customer_ids;
      },
    )

    abbrev pub sale_counted : ErpSaleDto → Result SaleOutcome → Task (Unit {0})
    sale_counted dto (ok outcome) = do
      count (λ st. record st {
        created_sales = st.created_sales + bit outcome.created;
        updated_sales = st.updated_sales + bit outcome.updated;
      })
      affects outcome.affected_customer_id
    sale_counted dto (err e) = do
      row_failed SyncErrorEntityType.sale_record dto.external_id dto.raw_payload e
      count (λ st. record st { skipped_sales = st.skipped_sales + 1 })

    unfoldable pub sync_sale : ErpSaleDto → Task (Unit {0})
    sync_sale dto = do
      outcome ← attempt (on_session (upsert_sale_record run.company_id integration dto))
      sale_counted dto outcome

    unfoldable pub sale_page : ProviderFetchResult ErpSaleDto → Task (Unit {0})
    sale_page page = do
      count (λ st. record st { fetched_sales = st.fetched_sales + length page.items })
      for_each (record_fetch_error SyncErrorEntityType.sale_record) page.errors
      count (λ st. record st { skipped_sales = st.skipped_sales + length page.errors })
      for_each sync_sale page.items

module _ {A : Type 0} where
  -- The cursor of the next page, if the loop goes on.
  abbrev pub next_page : ProviderFetchResult A → Option Fields
  next_page page = if page.has_more then page.next_cursor else none

  -- `if not has_more: break`, and the cursor that the loop tests
  abbrev pub go_on :
      (Fields → Task (Option (ProviderFetchResult A)))
      → ProviderFetchResult A
      → Task (Option (ProviderFetchResult A))
  go_on loop page = elim (next_page page) [ none ↦ done (some page) | some next ↦ loop next ]

  -- The loop over the pages, on fuel: it is `none` when the provider has more pages than that.
  unfoldable pub pages :
      ℕ
      → (Fields → Result (ProviderFetchResult A))
      → (ProviderFetchResult A → Task (Unit {0}))
      → Fields
      → Task (Option (ProviderFetchResult A))
  pages zero fetch handle cursor = done none
  pages (suc fuel) fetch handle cursor = do
    page ← fails (fetch cursor)
    handle page
    go_on (pages fuel fetch handle) page

  -- From this cursor on the provider raises, or has no more, within so many pages.
  pub data Ends (fetch : Fields → Result (ProviderFetchResult A)) : ℕ → Fields → Type 0 where
    breaks :
        {n : ℕ} {cursor : Fields} (e : Error) → fetch cursor ≡ err e → Ends fetch (suc n) cursor
    stops :
        {n : ℕ} {cursor : Fields} (page : ProviderFetchResult A)
        → fetch cursor ≡ ok page
        → next_page page ≡ none
        → Ends fetch (suc n) cursor
    goes_on :
        {n : ℕ} {cursor : Fields} (page : ProviderFetchResult A) (next : Fields)
        → fetch cursor ≡ ok page
        → next_page page ≡ some next
        → Ends fetch n next
        → Ends fetch (suc n) cursor
