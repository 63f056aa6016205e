-- ===== src/Tests/Sync.antt =====
-- Runs of the sync service.
use one_loyal.Prelude.{List, ℕ, ◌≡◌, refl, true, false, String, none, some, [], ◌∷◌, arith, subst}
use one_loyal.Prelude.Int.{pos}
use one_loyal.Core.{Result, ok}
use one_loyal.Core.Results.{ok_injective}
use one_loyal.Common.Json.{bool, end, field}
use one_loyal.Models.Customer.{CustomerExternalRef}
use one_loyal.Models.Sale.{SaleRecord}
use one_loyal.Models.Sync.{
  Integration, IntegrationStatus, SyncRun, SyncType, ErpSaleDto, ProviderFetchResult,
}
use one_loyal.Db.Exec.{Session}
use one_loyal.Sync.Sales.{SaleOutcome, upsert_sale_record, save_sale}
use one_loyal.Sync.Sales.Laws.{rows, IsSaleTable, unchanged, resync_changes_nothing}
use one_loyal.Sync.Pages.{stops}
use one_loyal.Sync.Execution.{Provider}
use one_loyal.Sync.Queue.{queued_run}
use one_loyal.Sync.Queue.Laws.{IsQueue}
use one_loyal.Sync.Schedule.{ScheduleStats, create_due_scheduled_sync_runs}
use one_loyal.Sync.Schedule.Laws.{create, schedule, queue_run_all, queue_run_all-IsQueue}
use one_loyal.Sync.Service.{execute_sync_run}
use one_loyal.Sync.Service.Bounded.{PagesEnd}
use one_loyal.Sync.Service.Finishes.{BuiltEnds, IsFinished, execute_sync_run_finishes}
use one_loyal.Sales.Service.Table.{IsTableOf}
use one_loyal.Sync.Sales.Table.{IsSignedSale, SaleWrite, sync, run_writes, run_writes-IsTableOf}
use one_loyal.Tests.Sales.{purchase-IsSoundRecord}
use one_loyal.Tests.World.{purchase, start}

abbrev erp : Integration
erp = record {
  id = 90;
  company_id = 1;
  provider = "fake";
  name = "ERP";
  name_i18n = end;
  status = IntegrationStatus.active;
  settings_json = field "scheduled_sync_enabled" (bool true) end;
  last_attempted_sync_at = none;
  last_successful_sync_at = none;
  last_scheduled_sync_at = none;
  next_sync_at = none;
  sync_cursor_json = end;
  deleted_at = none;
}

abbrev anns_ref : CustomerExternalRef
anns_ref = record {
  id = 91;
  company_id = 1;
  customer_id = 10;
  integration_id = some 90;
  provider = "fake";
  external_id = "a";
  external_name = none;
  external_phone = none;
  external_email = none;
  raw_payload_json = end;
  last_seen_at = none;
}

abbrev anns_sale : ErpSaleDto
anns_sale = record {
  external_id = "s1";
  source_key = none;
  customer_external_id = "a";
  document_kind = "sale";
  document_date = 152;
  effective_date = 152;
  gross_amount_minor = pos 300;
  net_amount_minor = none;
  vat_amount_minor = none;
  discount_amount_minor = none;
  paid_amount_minor = none;
  debt_amount_minor = none;
  amount_sign = pos 1;
  currency = "UZS";
  currency_scale = pos 0;
  payment_status = "paid";
  document_status = "posted";
  erp_document_type = none;
  external_document_number = none;
  external_updated_at = some 152;
  is_deleted_in_source = false;
  is_archived_in_source = false;
  raw_payload = end;
  content_hash = some "h";
}

abbrev waiting : SyncRun
waiting = queued_run 92 1 90 end SyncType.manual "t" 150 none

abbrev linked : Session
linked = record start { integrations = erp ∷ []; external_refs = anns_ref ∷ [] }

abbrev queued : Session
queued = record linked { sync_runs = waiting ∷ [] }

linked-IsSaleTable : IsSaleTable linked
linked-IsSaleTable = record {
  keyed = (omega arith, tt);
  unique = λ company_id source_key. ground arith;
}

abbrev made : SaleOutcome
made = record { created = true; updated = false; affected_customer_id = some 10 }

sale_is_made : (upsert_sale_record 1 erp anns_sale linked).0 ≡ ok made
unfolding upsert_sale_record one_loyal.Sync.Values.valid_sale_values
    one_loyal.Sales.Service.validate_document_sign one_loyal.Sync.Customers.find_ref
    one_loyal.Sync.Values.source_key_of
sale_is_made = refl

resync_changes_nothing_example :
    (row : SaleRecord) × (rows 1 erp anns_sale
        (upsert_sale_record 1 erp anns_sale linked).1.sale_records
      ≡ row ∷ [])
    × (upsert_sale_record 1 erp anns_sale
          (record (upsert_sale_record 1 erp anns_sale linked).1 { now = 200 })
        ≡ (
          ok unchanged,
          save_sale
              (record row { synced_at = some 200 })
              (record (upsert_sale_record 1 erp anns_sale linked).1 { now = 200 }),
        ))
resync_changes_nothing_example =
    resync_changes_nothing 1 erp anns_sale linked made 200 linked-IsSaleTable sale_is_made

abbrev last_page : {A : Type 0} → ProviderFetchResult A
last_page = record { items = []; next_cursor = none; has_more = false; errors = [] }

abbrev sales_page : ProviderFetchResult ErpSaleDto
sales_page = record { items = anns_sale ∷ []; next_cursor = none; has_more = false; errors = [] }

abbrev fake : Provider
fake = record {
  supports_customers = true;
  supports_sales = true;
  test_connection = ok (record { is_ok = true; message = "ok"; details = end });
  fetch_customers = λ cursor. ok last_page;
  fetch_sales = λ cursor. ok sales_page;
}

abbrev build : Integration → Result Provider
build i = ok fake

fake_ends : BuiltEnds build 3 queued erp
fake_ends provider h =
    subst (λ p. PagesEnd p erp.sync_cursor_json 3) (ok_injective fake provider h)
      (record { customers = stops last_page refl refl; sales = stops sales_page refl refl })

execute_sync_run_finishes_example :
    IsFinished build 3 queued 92 waiting erp (execute_sync_run build 3 (ok tt) 92 queued)
unfolding one_loyal.Sync.Queue.integration_in
execute_sync_run_finishes_example =
    execute_sync_run_finishes build 3 queued (ok tt) 92 waiting erp (ground arith) (ground arith)
      refl refl fake_ends

abbrev task : ℕ → String
task id = "task"

empty-IsQueue : IsQueue linked
empty-IsQueue = record { keyed = tt; single = λ company_id integration_id. omega arith }

queue_run_all-IsQueue_example :
    IsQueue (queue_run_all task (create 1 90 none SyncType.manual "t" ∷ schedule ∷ []) linked)
queue_run_all-IsQueue_example =
    queue_run_all-IsQueue task (create 1 90 none SyncType.manual "t" ∷ schedule ∷ []) linked
      empty-IsQueue

abbrev scheduled_stats : ScheduleStats
scheduled_stats = record {
  checked_integrations = 1;
  skipped_not_enabled = 0;
  skipped_not_due = 0;
  skipped_active_sync = 0;
  queued_sync_runs = queued_run 100 1 90 end SyncType.scheduled "task" 160 none ∷ [];
}

one_is_queued : (create_due_scheduled_sync_runs task linked).0 ≡ ok scheduled_stats
unfolding create_due_scheduled_sync_runs one_loyal.Sync.Schedule.schedule_one
    one_loyal.Sync.Queue.has_active_sync
one_is_queued = refl

-- A refund whose sign is wrong is refused.
abbrev wrong_refund : ErpSaleDto
wrong_refund = record anns_sale { external_id = "s2"; document_kind = "refund" }

purchase-IsSignedSale : IsSignedSale purchase
purchase-IsSignedSale = record {
  returns = λ h. ground (arith, h);
  sales = λ h. refl;
  own = λ h. purchase-IsSoundRecord;
}

abbrev writes : List SaleWrite
writes = sync 1 erp anns_sale ∷ sync 1 erp wrong_refund ∷ sync 1 erp anns_sale ∷ []

run_writes-IsTableOf_example : IsTableOf IsSignedSale (run_writes writes linked)
run_writes-IsTableOf_example = run_writes-IsTableOf writes linked (record {
  keyed = (omega arith, tt);
  unique = λ company_id source_key. ground arith;
  sound = (purchase-IsSignedSale, tt);
})
