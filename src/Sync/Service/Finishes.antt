-- ===== src/Sync/Service/Finishes.antt =====
-- Every run ends: its last status, and when the cursor of its integration moves.
use one_loyal.Prelude.{
  ℕ, ◌<◌, ◌==◌, ◌≡◌, ◌≢◌, refl, Bool, true, false, inl, inr, some, select, ltb, arith, Bool-cases,
}
use one_loyal.Core.{Result, ok, err}
use one_loyal.Models.Sync.{Integration, IntegrationStatus, SyncRun, SyncRunStatus}
use one_loyal.Db.Exec.{Session}
use one_loyal.Db.Query.{scalar_one_or_none}
use one_loyal.Sync.Counting.{Running}
use one_loyal.Sync.Execution.{Provider, Outcome, not_connected, completed, unfinished, body}
use one_loyal.Sync.Ending.{Ended, ended, ended_raised}
use one_loyal.Sync.Queue.{integration_in, get_integration_lem}
use one_loyal.Db.Keyed.{IsKeyed}
use one_loyal.Sync.Service.Carried.{
  IsCarried, run_integration-IsCarried, raised-IsCarried, IsStored, written-IsStored,
}
use one_loyal.Sync.Service.{
  started, starting, written, run_integration, execute_locked, execute_sync_run,
}
use one_loyal.Sync.Service.Bounded.{PagesEnd, body-end}

-- The statuses that a run ends with
abbrev pub is_final : SyncRunStatus → Bool
is_final SyncRunStatus.success = true
is_final SyncRunStatus.failed = true
is_final SyncRunStatus.partially_failed = true
is_final _ = false

-- What the end of a run leaves: its status, the cursor of the integration and the counts agree.
pub data IsEnded (old : Integration) (run : SyncRun) (new : Integration) : Type 0 where
  succeeded :
      run.status ≡ SyncRunStatus.success
      → run.stats_json.failed_records ≡ 0
      → new.sync_cursor_json ≡ run.cursor_after_json
      → new.status ≡ IntegrationStatus.active
      → new.last_successful_sync_at ≡ run.finished_at
      → IsEnded old run new
  partly :
      run.status ≡ SyncRunStatus.partially_failed
      → 0 < run.stats_json.failed_records
      → new.sync_cursor_json ≡ old.sync_cursor_json
      → new.status ≡ old.status
      → new.last_successful_sync_at ≡ old.last_successful_sync_at
      → IsEnded old run new
  failed :
      run.status ≡ SyncRunStatus.failed
      → new.sync_cursor_json ≡ old.sync_cursor_json
      → new.status ≡ IntegrationStatus.error
      → new.last_successful_sync_at ≡ old.last_successful_sync_at
      → IsEnded old run new

IsEnded-final :
    (old : Integration) (run : SyncRun) (new : Integration)
    → IsEnded old run new
    → is_final run.status ≡ true
IsEnded-final old run new (succeeded h _ _ _ _) = rw h refl
IsEnded-final old run new (partly h _ _ _ _) = rw h refl
IsEnded-final old run new (failed h _ _ _) = rw h refl

-- The integration once a run of it has begun
abbrev pub begun : Integration → ℕ → Integration
begun integration now = record integration { last_attempted_sync_at = some now }

ended-IsEnded :
    (run : SyncRun) (old : Integration) (t : ℕ) (result : Result Outcome) (r : Running)
    → result ≢ ok unfinished
    → IsEnded old
        (ended run (begun old t) result r).run
        (ended run (begun old t) result r).integration
ended-IsEnded run old t (ok (not_connected connection)) r h = failed refl refl refl refl
ended-IsEnded run old t (ok (completed customers sales)) r h =
    elim (Bool-cases (ltb 0 r.stats.failed_records)) [
      | inl some_failed ↦ rw some_failed (partly refl (ground (arith, some_failed)) refl refl refl)
      | inr none_failed ↦
          rw none_failed (succeeded refl (ground (arith, none_failed)) refl refl refl)
    ]
ended-IsEnded run old t (ok unfinished) r h = absurd (h refl)
ended-IsEnded run old t (err e) r h = failed refl refl refl refl

module _ (build_provider : Integration → Result Provider) (fuel : ℕ) (s : Session) where
  -- The provider that is built for a run has pages that end within the fuel.
  abbrev pub BuiltEnds : Integration → Type 0
  BuiltEnds integration =
      (provider : Provider)
      → build_provider (begun integration s.now) ≡ ok provider
      → PagesEnd provider integration.sync_cursor_json fuel

  execute_locked-IsEnded :
      (lock : Result (Unit {0})) (run : SyncRun) (integration : Integration)
      → BuiltEnds integration
      → (e : Ended) × (execute_locked build_provider fuel lock run integration s ≡ written e)
        × IsCarried s run integration e
        × IsEnded integration e.run e.integration
  unfolding run_integration
  execute_locked-IsEnded (ok u) run integration ends =
      let i = begun integration s.now in
      let built = build_provider i in
      let begun_run = started run integration s.now in
      let (result, r) = body begun_run i fuel built (starting s) in
      (
        ended begun_run i result r,
        refl,
        run_integration-IsCarried build_provider fuel run integration s,
        ended-IsEnded begun_run integration s.now result r
            (body-end begun_run i fuel built (starting s) ends),
      )
  execute_locked-IsEnded (err x) run integration ends = (
    ended_raised run integration run.stats_json x s,
    refl,
    raised-IsCarried run integration x s,
    failed refl refl refl refl,
  )

  -- What an execution leaves in the tables: the run that it returns, ended, as the one row of its
  -- key, and the integration as the one row that the lookup of the run finds.
  pub record IsFinished (sync_run_id : ℕ) (run : SyncRun) (integration : Integration)
      (result : Result SyncRun × Session) : Type 0 where
    pub new_run : SyncRun
    pub new_integration : Integration
    pub answer : result.0 ≡ ok new_run
    pub stored :
        IsStored sync_run_id run.company_id run.integration_id result.1 new_run new_integration
    pub final : is_final new_run.status ≡ true
    pub outcome : IsEnded integration new_run new_integration

  -- Where every flush succeeds and the keys of the runs and of the integrations differ, every
  -- execution of a run that is in the table, of an integration that is not deleted, returns, with
  -- its lock or without, whatever the provider answers, so long as its pages end within the fuel.
  -- The run that it returns is then the row of the run's key, and it has ended as `success`,
  -- `partially_failed` or `failed`. It is `success` only with no failed record, and only then the
  -- stored integration's cursor has moved, to the run's, and its last successful sync is the run's
  -- end; otherwise the cursor and the last successful sync are as they were.
  pub execute_sync_run_finishes :
      (lock : Result (Unit {0})) (sync_run_id : ℕ) (run : SyncRun) (integration : Integration)
      → IsKeyed (λ r. r.id) s.next_id s.sync_runs
      → IsKeyed (λ i. i.id) s.next_id s.integrations
      → scalar_one_or_none (select (λ r. r.id == sync_run_id) s.sync_runs) ≡ ok (some run)
      → integration_in run.company_id run.integration_id s.integrations ≡ ok integration
      → BuiltEnds integration
      → IsFinished sync_run_id run integration
          (execute_sync_run build_provider fuel lock sync_run_id s)
  unfolding execute_sync_run
  execute_sync_run_finishes lock sync_run_id run integration vr vi found there ends =
      let (e, step, carried, is_ended) = execute_locked-IsEnded lock run integration ends in
      let located : execute_sync_run build_provider fuel lock sync_run_id s
          ≡ execute_locked build_provider fuel lock run integration s =
        ground (arith, found, get_integration_lem run.company_id run.integration_id s, there) in
      rw (located, step)
        (record {
          new_run = e.run;
          new_integration = e.integration;
          answer = refl;
          stored = written-IsStored s sync_run_id run integration e vr vi found there carried;
          final = IsEnded-final integration e.run e.integration is_ended;
          outcome = is_ended;
        })
