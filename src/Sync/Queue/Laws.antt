-- ===== src/Sync/Queue/Laws.antt =====
-- At most one run of an integration waits or is running.
use one_loyal.Prelude.{
  ℕ, suc, ◌≤◌, ◌==◌, ◌&&◌, ◌≡◌, refl, ap, ◌∙◌, Bool, false, not, inl, inr, String, Option, List,
  ◌∷◌, count_if, select, arith, Bool-cases, Option-cases,
}
use one_loyal.Core.{Result, ok, err, Result-cases, conflict}
use one_loyal.Core.Results.{◌>>=◌, ◌>>◌, refuse_if, returned}
use one_loyal.Common.Json.{Fields}
use one_loyal.Models.Sync.{Integration, SyncRun, SyncType, is_disabled}
use one_loyal.Db.Exec.{Session}
use one_loyal.Db.Query.{scalar_one_or_none, is_null}
use one_loyal.Db.Keyed.{IsKeyed, no_row}
use one_loyal.Sync.Queue.{
  integration_in, get_integration_lem, is_active_run_of, has_active_sync, ensure_no_active_sync,
  queued_run, create_sync_run,
}

-- The keys of the runs differ, and no integration has two runs that wait or are running.
pub record IsQueue (s : Session) : Type 0 where
  pub keyed : IsKeyed (λ r. r.id) s.next_id s.sync_runs
  pub single :
      (company_id integration_id : ℕ)
      → count_if (is_active_run_of company_id integration_id) s.sync_runs ≤ 1

module _ (company_id integration_id : ℕ) where
  unfoldable pub active_in : List SyncRun → Result Bool
  active_in runs = do
    found ← scalar_one_or_none (select (is_active_run_of company_id integration_id) runs)
    ok (not (is_null found))

  pub has_active_sync_lem :
      (s : Session) → has_active_sync company_id integration_id s ≡ (active_in s.sync_runs, s)
  unfolding has_active_sync active_in
  has_active_sync_lem s = ground arith

  -- An integration that has no active run has none in the table.
  pub active_in-none :
      (runs : List SyncRun)
      → active_in runs ≡ ok false
      → count_if (is_active_run_of company_id integration_id) runs ≡ 0
  unfolding active_in
  active_in-none runs h =
      let test = is_active_run_of company_id integration_id in
      let (found, was, h1) = returned (scalar_one_or_none (select test runs)) _ false h in
      elim (Option-cases found) [
        | inl nothing ↦ no_row test runs (was ∙ ap ok nothing)
        | inr (x, there) ↦ absurd (ground (arith, h1, there))
      ]

  module _ (cursor : Fields) (sync_type : SyncType) (task_id : String) (user : Option ℕ) where
    abbrev pub new_run : ℕ → ℕ → SyncRun
    new_run id now = queued_run id company_id integration_id cursor sync_type task_id now user

    abbrev pub enqueued : Session → Session
    enqueued s = record s {
      sync_runs = new_run s.next_id s.now ∷ s.sync_runs;
      next_id = suc s.next_id;
    }

    -- A new run of an integration without an active one.
    pub enqueued-IsQueue :
        (s : Session)
        → IsQueue s
        → count_if (is_active_run_of company_id integration_id) s.sync_runs ≡ 0
        → IsQueue (enqueued s)
    enqueued-IsQueue s v h = record {
      keyed = (omega arith, v.keyed);
      single = λ c i. elim (Bool-cases (company_id == c && integration_id == i)) [
        | inl same ↦
            let e : (company_id ≡ c) × (integration_id ≡ i) = ground (arith, same) in
            let none_yet : count_if (is_active_run_of c i) s.sync_runs ≡ 0 = rw (← e.0, ← e.1) h in
            ground (arith, none_yet)
        | inr differs ↦ ground (arith, differs, v.single c i)
      ];
    }

module _ (company_id integration_id : ℕ) (user : Option ℕ) (sync_type : SyncType) (task_id : String)
    (s : Session) where
  unfoldable pub decide_create : Result Integration
  decide_create = do
    integration ← integration_in company_id integration_id s.integrations
    refuse_if (is_disabled integration.status) (conflict "Disabled integrations cannot be synced.")
    active ← active_in company_id integration_id s.sync_runs
    refuse_if active (conflict "A sync is already queued or running for this integration.")
    ok integration

  abbrev pub created : Result Integration → Result SyncRun × Session
  created (ok i) = (
    ok (
        new_run company_id integration_id i.sync_cursor_json sync_type task_id user s.next_id
          s.now),
    enqueued company_id integration_id i.sync_cursor_json sync_type task_id user s,
  )
  created (err e) = (err e, s)

  pub create_sync_run_decides :
      create_sync_run company_id integration_id user sync_type task_id s ≡ created decide_create
  unfolding create_sync_run decide_create ensure_no_active_sync
  create_sync_run_decides =
      elim (Result-cases (integration_in company_id integration_id s.integrations)) [
        | inl (i, h) ↦ elim (Result-cases (active_in company_id integration_id s.sync_runs)) [
          | inl (b, g) ↦ ground (
            arith,
            get_integration_lem company_id integration_id s,
            h,
            has_active_sync_lem company_id integration_id s,
            g,
          )
          | inr (e, g) ↦ ground (
            arith,
            get_integration_lem company_id integration_id s,
            h,
            has_active_sync_lem company_id integration_id s,
            g,
          )
        ]
        | inr (e, h) ↦ ground (arith, get_integration_lem company_id integration_id s, h)
      ]

  decide_create-free :
      (i : Integration)
      → decide_create ≡ ok i
      → count_if (is_active_run_of company_id integration_id) s.sync_runs ≡ 0
  unfolding decide_create
  decide_create-free i h =
      let (x, _, h1) = returned (integration_in company_id integration_id s.integrations) _ i h in
      let (_, _, h2) = returned (refuse_if (is_disabled x.status) _) _ i h1 in
      let (active, was, h3) = returned (active_in company_id integration_id s.sync_runs) _ i h2 in
      let (_, passed, _) = returned (refuse_if active _) _ i h3 in
      active_in-none company_id integration_id s.sync_runs (was ∙ ap ok (ground (arith, passed)))

  created-IsQueue :
      (d : Result Integration)
      → ((i : Integration)
          → d ≡ ok i
          → count_if (is_active_run_of company_id integration_id) s.sync_runs ≡ 0)
      → IsQueue s
      → IsQueue (created d).1
  created-IsQueue (ok i) f v =
      enqueued-IsQueue company_id integration_id i.sync_cursor_json sync_type task_id user s v
        (f i refl)
  created-IsQueue (err e) f v = v

  pub create_sync_run-IsQueue :
      IsQueue s → IsQueue (create_sync_run company_id integration_id user sync_type task_id s).1
  create_sync_run-IsQueue v =
      rw create_sync_run_decides (created-IsQueue decide_create decide_create-free v)
