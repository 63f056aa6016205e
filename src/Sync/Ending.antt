-- ===== src/Sync/Ending.antt =====
-- How a run ends: `_finish_run`, and the branches of `_execute_sync_run` that call it.
use one_loyal.Prelude.{ℕ, String, Option, none, some, ltb, if◌then◌else◌}
use one_loyal.Core.{Error, Result, ok, err}
use one_loyal.Common.Json.{Json, Fields, null, obj, end, field}
use one_loyal.Models.Sync.{
  Integration, IntegrationStatus, SyncRun, SyncRunStatus, SyncErrorEntityType, SyncStats,
}
use one_loyal.Db.Exec.{Session}
use one_loyal.Events.{time_or}
use one_loyal.Sync.Counting.{Running, failed_more, error_message}
use one_loyal.Sync.Pages.{record_row_error}
use one_loyal.Sync.Execution.{Outcome, not_connected, completed, unfinished}
use one_loyal.Sync.Status.{emit_sync_status_event}

-- `_finish_run`, on the run
abbrev pub finished : SyncRun → SyncRunStatus → SyncStats → Fields → Option String → ℕ → SyncRun
finished run status stats cursor_after summary now = record run {
  status = status;
  finished_at = some now;
  cursor_after_json = cursor_after;
  stats_json = stats;
  error_summary = summary;
}

-- `_finish_run`, on the integration
abbrev pub attempted : SyncRun → ℕ → Integration → Integration
attempted run now i = record i { last_attempted_sync_at = some (time_or run.started_at now) }

abbrev pub cursor_value : Option Fields → Json
cursor_value none = null
cursor_value (some cursor) = obj cursor

abbrev pub cursor_after : Option Fields → Option Fields → Fields
cursor_after customers sales =
    field "customers" (cursor_value customers) (field "sales" (cursor_value sales) end)

-- The run and the integration in memory, and the session that they are written to.
pub record Ended : Type 0 where
  pub run : SyncRun
  pub integration : Integration
  pub session : Session

-- A run that ends with the status `failed`.
abbrev pub ended_failed : SyncRun → Integration → SyncStats → String → Session → Ended
ended_failed run integration stats summary s =
    let run' = finished run SyncRunStatus.failed stats end (some summary) s.now in
    record {
      run = run';
      integration = record (attempted run s.now integration) { status = IntegrationStatus.error };
      session = emit_sync_status_event run' s;
    }

-- `except Exception as exc:` of a run
abbrev pub ended_raised : SyncRun → Integration → SyncStats → Error → Session → Ended
ended_raised run integration stats e s =
    ended_failed run integration (failed_more 1 stats) (error_message e)
      (record_row_error run SyncErrorEntityType.provider null e end s).1

abbrev pub ended_success : SyncRun → Integration → SyncStats → Fields → Session → Ended
ended_success run integration stats cursor s =
    let run' = finished run SyncRunStatus.success stats cursor none s.now in
    record {
      run = run';
      integration = record (attempted run s.now integration) {
        last_successful_sync_at = some s.now;
        sync_cursor_json = cursor;
        status = IntegrationStatus.active;
      };
      session = emit_sync_status_event run' s;
    }

abbrev pub ended_partially : SyncRun → Integration → SyncStats → Fields → Session → Ended
ended_partially run integration stats cursor s =
    let run' =
      finished run SyncRunStatus.partially_failed stats cursor
        (some "Sync completed with row-level errors.") s.now in
    record {
      run = run';
      integration = attempted run s.now integration;
      session = emit_sync_status_event run' s;
    }

-- How a run ends, from what its body returned or raised.
abbrev pub ended : SyncRun → Integration → Result Outcome → Running → Ended
ended run integration (ok (not_connected connection)) r =
    ended_failed run integration r.stats connection.message r.session
ended run integration (ok (completed customers sales)) r =
    if ltb 0 r.stats.failed_records
    then ended_partially run integration r.stats (cursor_after customers sales) r.session
    else ended_success run integration r.stats (cursor_after customers sales) r.session
ended run integration (ok unfinished) r = record {
  run = run;
  integration = integration;
  session = r.session;
}
ended run integration (err e) r = ended_raised run integration r.stats e r.session
