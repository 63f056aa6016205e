-- ===== src/Sync/Service.antt =====
-- `_execute_sync_run` and `execute_sync_run`.
pub mod Carried
pub mod Bounded
pub mod Finishes
use one_loyal.Prelude.{
  ℕ, suc, ◌+◌, ◌*◌, ◌==◌, ◌&&◌, ◌||◌, String, Bool, true, false, not, Option, none, some, List, [],
  ◌∷◌, max, select, leb, ltb, if◌then◌else◌,
}
use one_loyal.Prelude.Int.{ℤ, pos, negsuc}
use one_loyal.Core.{Error, Result, ok, err, not_found, conflict}
use one_loyal.Common.Json.{Json, Fields, null, bool, num, str, uuid, iso, obj, end, field, get}
use one_loyal.Models.Sync.{
  Integration, IntegrationStatus, SyncRun, SyncRunStatus, SyncType, SyncErrorEntityType, SyncStats,
  ProviderConnectionResult, is_active_sync, is_disabled, is_active_integration,
}
use one_loyal.Db.Exec.{
  Session, Exec, pure, lift, gets, raise_if, or_raise, modify, utc_now, fresh_id, ◌>>=◌, ◌>>◌,
}
use one_loyal.Db.Query.{scalar_one_or_none, put, is_null}
use one_loyal.Events.{EventArgs, event_args, emit, time_or}
use one_loyal.Sync.Counting.{Running, failed_more, error_message}
use one_loyal.Sync.Pages.{record_row_error, text_or_null}
use one_loyal.Sync.Execution.{
  Provider, empty_sync_stats, Outcome, not_connected, completed, unfinished, body,
}
use one_loyal.Sync.Queue.{save_run, save_integration, get_integration, create_sync_run}
use one_loyal.Sync.Ending.{Ended, ended, ended_raised}

-- The start of a run
abbrev pub started : SyncRun → Integration → ℕ → SyncRun
started run integration now = record run {
  status = SyncRunStatus.running;
  started_at = some now;
  finished_at = none;
  cursor_before_json = integration.sync_cursor_json;
  cursor_after_json = end;
  stats_json = empty_sync_stats;
  error_summary = none;
}

abbrev pub starting : Session → Running
starting s = record { session = s; stats = empty_sync_stats; affected_customer_ids = [] }

abbrev pub written : Ended → Result SyncRun × Session
written e = (ok e.run, save_integration e.integration (save_run e.run e.session))

module _ (build_provider : Integration → Result Provider) (fuel : ℕ) where
  -- `_execute_sync_run`
  unfoldable pub run_integration : SyncRun → Integration → Session → Ended
  run_integration run integration s =
      let run' = started run integration s.now in
      let integration' : Integration = record integration { last_attempted_sync_at = some s.now } in
      let (result, r) = body run' integration' fuel (build_provider integration') (starting s) in
      ended run' integration' result r

  -- With the lock, or when it is not asked for; or with what the acquisition raised.
  abbrev pub execute_locked : Result (Unit {0}) → SyncRun → Integration → Exec SyncRun
  execute_locked (ok u) run integration s = written (run_integration run integration s)
  execute_locked (err e) run integration s =
      written (ended_raised run integration run.stats_json e s)

  -- `lock` is what `_acquire_integration_lock` made; its release touches nothing of the session.
  unfoldable pub execute_sync_run : Result (Unit {0}) → ℕ → Exec SyncRun
  unfolding get_integration
  execute_sync_run lock sync_run_id = do
    rows ← gets (λ s. select (λ r. r.id == sync_run_id) s.sync_runs)
    found ← lift (scalar_one_or_none rows)
    run ← or_raise found (not_found "Sync run not found.")
    integration ← get_integration run.company_id run.integration_id
    execute_locked lock run integration

  -- A run that is queued and executed at once, without the lock.
  unfoldable pub sync_integration : ℕ → ℕ → Option ℕ → SyncType → String → Exec SyncRun
  unfolding create_sync_run execute_sync_run
  sync_integration company_id integration_id created_by_user_id sync_type task_id = do
    run ← create_sync_run company_id integration_id created_by_user_id sync_type task_id
    execute_sync_run (ok tt) run.id
