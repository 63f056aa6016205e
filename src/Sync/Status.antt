-- ===== src/Sync/Status.antt =====
-- `_emit_sync_status_event`: how a run's end is told.
use one_loyal.Prelude.{ℕ, String, Bool, true, Option, none, some, if◌then◌else◌}
use one_loyal.Prelude.Int.{pos}
use one_loyal.Common.Json.{Json, Fields, null, bool, num, str, uuid, iso, obj, end, field}
use one_loyal.Models.Sync.{SyncRun, SyncRunStatus, SyncType, SyncStats}
use one_loyal.Db.Exec.{Session}
use one_loyal.Events.{EventArgs, event_args, emit}
use one_loyal.Sync.Pages.{text_or_null}

abbrev pub status_value : SyncRunStatus → String
status_value SyncRunStatus.queued = "queued"
status_value SyncRunStatus.running = "running"
status_value SyncRunStatus.success = "success"
status_value SyncRunStatus.failed = "failed"
status_value SyncRunStatus.partially_failed = "partially_failed"

abbrev pub sync_type_value : SyncType → String
sync_type_value SyncType.manual = "manual"
sync_type_value SyncType.scheduled = "scheduled"
sync_type_value SyncType.full = "full"
sync_type_value SyncType.incremental = "incremental"

-- `_event_type_for_status`
abbrev pub event_type_for_status : SyncRunStatus → Option String
event_type_for_status SyncRunStatus.success = some "sync_completed"
event_type_for_status SyncRunStatus.partially_failed = some "sync_partially_failed"
event_type_for_status SyncRunStatus.failed = some "sync_failed"
event_type_for_status _ = none

abbrev pub iso_or_null : Option ℕ → Json
iso_or_null none = null
iso_or_null (some t) = iso t

abbrev flag : String → Bool → Fields → Fields
flag key value rest = if value then field key (bool true) rest else rest

-- The dictionary of the counts
abbrev pub stats_fields : SyncStats → Fields
stats_fields st = field "fetched_customers" (num (pos st.fetched_customers)) (
    field "created_customers" (num (pos st.created_customers)) (
      field "updated_customers" (num (pos st.updated_customers)) (
        field "fetched_sales" (num (pos st.fetched_sales)) (
          field "created_sales" (num (pos st.created_sales)) (
            field "updated_sales" (num (pos st.updated_sales)) (
              field "skipped_sales" (num (pos st.skipped_sales)) (
                field "failed_records" (num (pos st.failed_records)) (
                  field "affected_customers" (num (pos st.affected_customers)) (
                    field "recalculated_progress_count" (num (pos st.recalculated_progress_count)) (
                      flag "customers_not_supported" st.customers_not_supported
                        (flag "sales_not_supported" st.sales_not_supported end)))))))))))

abbrev pub status_event : SyncRun → String → EventArgs
status_event run event_type = record (event_args run.company_id event_type "sync_run" run.id) {
  actor_user_id = run.created_by_user_id;
  correlation_id = run.task_id;
  payload_json = some (
      field "sync_run_id" (uuid run.id) (
        field "integration_id" (uuid run.integration_id) (
          field "status" (str (status_value run.status)) (
            field "sync_type" (str (sync_type_value run.sync_type)) (
              field "task_id" (text_or_null run.task_id) (
                field "stats_json" (obj (stats_fields run.stats_json)) (
                  field "error_summary" (text_or_null run.error_summary) (
                    field "started_at" (iso_or_null run.started_at)
                      (field "finished_at" (iso_or_null run.finished_at) end)))))))));
}

abbrev emit_for : SyncRun → Option String → Session → Session
emit_for run none s = s
emit_for run (some event_type) s = (emit (status_event run event_type) none s).1

-- `_emit_sync_status_event`
unfoldable pub emit_sync_status_event : SyncRun → Session → Session
emit_sync_status_event run s = emit_for run (event_type_for_status run.status) s
