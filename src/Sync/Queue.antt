-- ===== src/Sync/Queue.antt =====
-- The runs that wait or are running: `create_sync_run`, and what guards it.
pub mod Laws
use one_loyal.Prelude.{
  ◌≡◌, arith, ℕ, suc, ◌+◌, ◌*◌, ◌==◌, ◌&&◌, ◌||◌, String, Bool, true, false, not, Option, none,
  some, List, [], ◌∷◌, max, select, leb, ltb, if◌then◌else◌,
}
use one_loyal.Prelude.Int.{ℤ, pos, negsuc}
use one_loyal.Core.Results.{required_row}
use one_loyal.Core.{Error, Result, ok, err, not_found, conflict}
use one_loyal.Common.Json.{Json, Fields, null, bool, num, str, uuid, iso, obj, end, field, get}
use one_loyal.Models.Sync.{
  Integration, IntegrationStatus, SyncRun, SyncRunStatus, SyncType, SyncErrorEntityType, SyncStats,
  ProviderConnectionResult, is_active_sync, is_disabled, is_active_integration,
}
use one_loyal.Db.Exec.{
  Session, Exec, pure, lift, gets, raise_if, or_raise, modify, utc_now, fresh_id, ◌>>=◌, ◌>>◌,
}
use one_loyal.Db.Query.{scalar_one_or_none, put, is_null}
use one_loyal.Events.{EventArgs, event_args, emit, time_or}
use one_loyal.Sync.Counting.{Running, failed_more, error_message}
use one_loyal.Sync.Pages.{record_row_error, text_or_null}
use one_loyal.Sync.Execution.{
  Provider, empty_sync_stats, Outcome, not_connected, completed, unfinished, body,
}

abbrev pub save_run : SyncRun → Session → Session
save_run run s = record s { sync_runs = put (λ r. r.id) run s.sync_runs }

abbrev pub save_integration : Integration → Session → Session
save_integration i s = record s { integrations = put (λ x. x.id) i s.integrations }

-- `integration_service.get_integration`
unfoldable pub get_integration : ℕ → ℕ → Exec Integration
get_integration company_id integration_id = do
  rows ← gets (λ s.
      select (λ i. i.id == integration_id && i.company_id == company_id && is_null i.deleted_at)
        s.integrations)
  found ← lift (scalar_one_or_none rows)
  or_raise found (not_found "Integration not found.")

unfoldable pub integration_in : ℕ → ℕ → List Integration → Result Integration
integration_in company_id integration_id integrations =
    required_row
      (scalar_one_or_none (
        select (λ i. i.id == integration_id && i.company_id == company_id && is_null i.deleted_at)
          integrations))
      (not_found "Integration not found.")

pub get_integration_lem :
    (company_id integration_id : ℕ) (s : Session)
    → get_integration company_id integration_id s
      ≡ (integration_in company_id integration_id s.integrations, s)
unfolding get_integration integration_in
get_integration_lem company_id integration_id s = ground arith

abbrev pub is_active_run_of : ℕ → ℕ → SyncRun → Bool
is_active_run_of company_id integration_id r =
    r.company_id == company_id && r.integration_id == integration_id && is_active_sync r.status

unfoldable pub has_active_sync : ℕ → ℕ → Exec Bool
has_active_sync company_id integration_id = do
  rows ← gets (λ s. select (is_active_run_of company_id integration_id) s.sync_runs)
  found ← lift (scalar_one_or_none rows)
  pure (not (is_null found))

-- `_ensure_no_active_sync`
unfoldable pub ensure_no_active_sync : ℕ → ℕ → Exec (Unit {0})
unfolding has_active_sync
ensure_no_active_sync company_id integration_id = do
  active ← has_active_sync company_id integration_id
  raise_if active (conflict "A sync is already queued or running for this integration.")

abbrev pub queued_run : ℕ → ℕ → ℕ → Fields → SyncType → String → ℕ → Option ℕ → SyncRun
queued_run id company_id integration_id cursor sync_type task_id now created_by_user_id = record {
  id = id;
  company_id = company_id;
  integration_id = integration_id;
  sync_type = sync_type;
  status = SyncRunStatus.queued;
  task_id = some task_id;
  enqueued_at = some now;
  started_at = none;
  finished_at = none;
  cursor_before_json = cursor;
  cursor_after_json = end;
  stats_json = empty_sync_stats;
  error_summary = none;
  created_by_user_id = created_by_user_id;
}

-- `task_id` is the one given, or a new one.
unfoldable pub create_sync_run : ℕ → ℕ → Option ℕ → SyncType → String → Exec SyncRun
unfolding get_integration ensure_no_active_sync
create_sync_run company_id integration_id created_by_user_id sync_type task_id = do
  integration ← get_integration company_id integration_id
  raise_if (is_disabled integration.status) (conflict "Disabled integrations cannot be synced.")
  ensure_no_active_sync company_id integration_id
  now ← utc_now
  new_id ← fresh_id
  let run =
      queued_run new_id company_id integration_id integration.sync_cursor_json sync_type task_id now
        created_by_user_id
  modify (λ s. record s { sync_runs = run ∷ s.sync_runs })
  pure run
