-- ===== src/Sync/Service/Carried.antt =====
-- What the end of a run carries to the tables: the run and the integration it began with, changed.
use one_loyal.Prelude.{
  ℕ, ◌==◌, ◌&&◌, ◌≡◌, refl, Bool, inl, inr, some, [], ◌∷◌, select, ltb, Bool-cases,
}
use one_loyal.Core.{Error, Result, ok, err, not_found}
use one_loyal.Core.Results.{required_row-ok}
use one_loyal.Models.Sync.{Integration, SyncRun, SyncStats}
use one_loyal.Db.Exec.{Session}
use one_loyal.Db.Query.{scalar_one_or_none, is_null}
use one_loyal.Db.Keyed.{IsKeyed, found_row, select-put}
use one_loyal.Events.{emit}
use one_loyal.Sync.Counting.{Running}
use one_loyal.Sync.Execution.{Provider, Outcome, not_connected, completed, unfinished, body}
use one_loyal.Sync.Status.{emit_sync_status_event}
use one_loyal.Sync.Ending.{Ended, ended, ended_raised}
use one_loyal.Sync.Queue.{integration_in}
use one_loyal.Sync.Service.{started, starting, written, run_integration}
use one_loyal.Sync.Frame.{IsKept}
use one_loyal.Sync.Frame.Steps.{body-Keeps}

-- The end is of this run and this integration, and neither table has been written meanwhile.
pub record IsCarried (s : Session) (run : SyncRun) (integration : Integration) (e : Ended)
    : Type 0 where
  pub tables : IsKept s e.session
  pub run_id : e.run.id ≡ run.id
  pub id : e.integration.id ≡ integration.id
  pub company_id : e.integration.company_id ≡ integration.company_id
  pub deleted_at : e.integration.deleted_at ≡ integration.deleted_at

ended_raised-IsCarried :
    (run : SyncRun) (integration : Integration) (stats : SyncStats) (x : Error) (s t : Session)
    → IsKept s t
    → IsCarried s run integration (ended_raised run integration stats x t)
unfolding emit_sync_status_event emit
ended_raised-IsCarried run integration stats x s t h = record {
  tables = h;
  run_id = refl;
  id = refl;
  company_id = refl;
  deleted_at = refl;
}

ended-IsCarried :
    (run : SyncRun) (integration : Integration) (result : Result Outcome) (s : Session)
    (r : Running)
    → IsKept s r.session
    → IsCarried s run integration (ended run integration result r)
unfolding emit_sync_status_event emit
ended-IsCarried run integration (ok (not_connected connection)) s r h = record {
  tables = h;
  run_id = refl;
  id = refl;
  company_id = refl;
  deleted_at = refl;
}
ended-IsCarried run integration (ok (completed customers sales)) s r h =
    elim (Bool-cases (ltb 0 r.stats.failed_records)) [
      | inl some_failed ↦
          rw some_failed
            (record { tables = h; run_id = refl; id = refl; company_id = refl; deleted_at = refl })
      | inr none_failed ↦
          rw none_failed
            (record { tables = h; run_id = refl; id = refl; company_id = refl; deleted_at = refl })
    ]
ended-IsCarried run integration (ok unfinished) s r h = record {
  tables = h;
  run_id = refl;
  id = refl;
  company_id = refl;
  deleted_at = refl;
}
ended-IsCarried run integration (err x) s r h =
    ended_raised-IsCarried run integration r.stats x s r.session h

pub run_integration-IsCarried :
    (build_provider : Integration → Result Provider) (fuel : ℕ) (run : SyncRun)
    (integration : Integration) (s : Session)
    → IsCarried s run integration (run_integration build_provider fuel run integration s)
unfolding run_integration
run_integration-IsCarried build_provider fuel run integration s =
    let begun : Integration = record integration { last_attempted_sync_at = some s.now } in
    let begun_run = started run integration s.now in
    let built = build_provider begun in
    let kept = body-Keeps begun_run begun fuel built (starting s) in
    let (result, r) = body begun_run begun fuel built (starting s) in
    let c = ended-IsCarried begun_run begun result s r kept in
    record {
      tables = c.tables;
      run_id = c.run_id;
      id = c.id;
      company_id = c.company_id;
      deleted_at = c.deleted_at;
    }

pub raised-IsCarried :
    (run : SyncRun) (integration : Integration) (x : Error) (s : Session)
    → IsCarried s run integration (ended_raised run integration run.stats_json x s)
raised-IsCarried run integration x s =
    ended_raised-IsCarried run integration run.stats_json x s s (refl, refl)

-- The run and the integration that the tables hold.
pub record IsStored (run_id company_id integration_id : ℕ) (s : Session) (run : SyncRun)
    (integration : Integration) : Type 0 where
  pub run_row : select (λ r. r.id == run_id) s.sync_runs ≡ run ∷ []
  pub integration_row :
      select
        (λ i. i.id == integration_id && i.company_id == company_id && is_null i.deleted_at)
        s.integrations
      ≡ integration ∷ []

pub written-IsStored :
    (s : Session) (run_id : ℕ) (run : SyncRun) (integration : Integration) (e : Ended)
    → IsKeyed (λ r. r.id) s.next_id s.sync_runs
    → IsKeyed (λ i. i.id) s.next_id s.integrations
    → scalar_one_or_none (select (λ r. r.id == run_id) s.sync_runs) ≡ ok (some run)
    → integration_in run.company_id run.integration_id s.integrations ≡ ok integration
    → IsCarried s run integration e
    → IsStored run_id run.company_id run.integration_id (written e).1 e.run e.integration
unfolding integration_in
written-IsStored s run_id run integration e vr vi found there c =
    let run_test : SyncRun → Bool = λ r. r.id == run_id in
    let test : Integration → Bool =
      λ i. i.id == run.integration_id && i.company_id == run.company_id && is_null i.deleted_at in
    let own_run = (found_row run_test s.sync_runs run found).1 in
    let row : scalar_one_or_none (select test s.integrations) ≡ ok (some integration) =
      required_row-ok (scalar_one_or_none (select test s.integrations))
        (not_found "Integration not found.") integration there in
    let own = (found_row test s.integrations integration row).1 in
    record {
      run_row = rw c.tables.1 (
          select-put (λ r. r.id) run_test s.next_id run e.run s.sync_runs vr found c.run_id
            (rw c.run_id own_run));
      integration_row = rw c.tables.0 (
          select-put (λ i. i.id) test s.next_id integration e.integration s.integrations vi row c.id
            (rw (c.id, c.company_id, c.deleted_at) own));
    }
