-- ===== src/Sync/Schedule/Laws.antt =====
-- What the schedule queues, and what it leaves.
use one_loyal.Prelude.{
  ℕ, ◌+◌, ◌≡◌, refl, sym, ◌∙◌, ap, Bool, true, false, inl, inr, String, Option, none, List, [], ◌∷◌,
  length, arith, Bool-cases,
}
use one_loyal.Core.{Result, ok, err, Result-cases}
use one_loyal.Core.Results.{ok_injective}
use one_loyal.Common.Json.{get}
use one_loyal.Models.Sync.{Integration, SyncType}
use one_loyal.Db.Exec.{Session, ◌>>=◌}
use one_loyal.Sync.Queue.Laws.{
  IsQueue, active_in, has_active_sync_lem, active_in-none, enqueued-IsQueue,
  create_sync_run-IsQueue,
}
use one_loyal.Sync.Queue.{create_sync_run}
use one_loyal.Sync.Schedule.{
  sync_frequency_minutes, scheduled_sync_due, is_true, ScheduleStats, queue_unless, queue_due,
  schedule_one, schedule_all, create_due_scheduled_sync_runs,
}

module _ (task_ids : ℕ → String) where
  -- How many integrations the counts stand for
  abbrev pub accounted : ScheduleStats → ℕ
  accounted st =
      st.skipped_not_enabled
      + st.skipped_not_due
      + st.skipped_active_sync
      + length st.queued_sync_runs

  -- One integration takes the queue from one good state to the next, and is counted once.
  pub record IsScheduled (s : Session) (stats : ScheduleStats)
      (step : Result ScheduleStats × Session) : Type 0 where
    pub queue : IsQueue s → IsQueue step.1
    pub counted :
        (st : ScheduleStats)
        → step.0 ≡ ok st
        → (accounted st ≡ accounted stats + 1)
          × (st.checked_integrations ≡ stats.checked_integrations)

  skip-counted :
      (more st : ScheduleStats) (stats : ScheduleStats)
      → accounted more ≡ accounted stats + 1
      → more.checked_integrations ≡ stats.checked_integrations
      → ok more ≡ ok st
      → (accounted st ≡ accounted stats + 1)
        × (st.checked_integrations ≡ stats.checked_integrations)
  skip-counted more st stats h c e =
      let same = ok_injective more st e in
      (ap accounted (sym same) ∙ h, ap (λ x. x.checked_integrations) (sym same) ∙ c)

  queue_unless-IsScheduled :
      (active : Bool) (i : Integration) (stats : ScheduleStats) (s : Session)
      → active_in i.company_id i.id s.sync_runs ≡ ok active
      → IsScheduled s stats (queue_unless task_ids active i stats s)
  queue_unless-IsScheduled true i stats s h = record {
    queue = λ v. v;
    counted = λ st. skip-counted _ st stats (omega arith) refl;
  }
  queue_unless-IsScheduled false i stats s h = record {
    queue = λ v.
        let e =
          enqueued-IsQueue i.company_id i.id i.sync_cursor_json SyncType.scheduled (task_ids i.id)
            none s v (active_in-none i.company_id i.id s.sync_runs h) in
        record { keyed = e.keyed; single = e.single };
    counted = λ st. skip-counted _ st stats (omega arith) refl;
  }

  schedule_one-IsScheduled :
      (now : ℕ) (i : Integration) (stats : ScheduleStats) (s : Session)
      → IsScheduled s stats (schedule_one task_ids now i stats s)
  unfolding schedule_one
  schedule_one-IsScheduled now i stats s =
      elim (Bool-cases (is_true (get "scheduled_sync_enabled" i.settings_json))) [
        | inr off ↦
            rw off (record {
              queue = λ v. v;
              counted = λ st. skip-counted _ st stats (omega arith) refl;
            })
        | inl on ↦
            elim (Bool-cases (scheduled_sync_due i now (sync_frequency_minutes i.settings_json))) [
              | inr early ↦
                  rw (on, early)
                    (record {
                      queue = λ v. v;
                      counted = λ st. skip-counted _ st stats (omega arith) refl;
                    })
              | inl due ↦ rw (on, due) (due_now (active_in i.company_id i.id s.sync_runs) refl)
            ]
      ]
    where
      due_now :
          (r : Result Bool)
          → active_in i.company_id i.id s.sync_runs ≡ r
          → IsScheduled s stats (queue_due task_ids i stats s)
      due_now (ok active) h =
          let step : queue_due task_ids i stats s ≡ queue_unless task_ids active i stats s =
            ground (arith, has_active_sync_lem i.company_id i.id s, h) in
          rw step (queue_unless-IsScheduled active i stats s h)
      due_now (err e) h =
          let step : queue_due task_ids i stats s ≡ (err e, s) =
            ground (arith, has_active_sync_lem i.company_id i.id s, h) in
          rw step (record { queue = λ v. v; counted = λ st q. cc })

  schedule_all-IsQueue :
      (now : ℕ) (due : List Integration) (stats : ScheduleStats) (s : Session)
      → IsQueue s
      → IsQueue (schedule_all task_ids now due stats s).1
  unfolding schedule_all
  schedule_all-IsQueue now [] stats s v = v
  schedule_all-IsQueue now (i ∷ rest) stats s v =
      let step = schedule_one task_ids now i stats s in
      let v' = (schedule_one-IsScheduled now i stats s).queue v in
      elim (Result-cases step.0) [
        | inl (st, h) ↦ rw (◌>>=◌, h) (schedule_all-IsQueue now rest st step.1 v')
        | inr (e, h) ↦ rw (◌>>=◌, h) v'
      ]

  schedule_all-accounted :
      (now : ℕ) (due : List Integration) (stats st : ScheduleStats) (s : Session)
      → (schedule_all task_ids now due stats s).0 ≡ ok st
      → (accounted st ≡ accounted stats + length due)
        × (st.checked_integrations ≡ stats.checked_integrations)
  unfolding schedule_all
  schedule_all-accounted now [] stats st s h =
      let same = ok_injective stats st h in
      (ap accounted (sym same) ∙ omega arith, ap (λ x. x.checked_integrations) (sym same))
  schedule_all-accounted now (i ∷ rest) stats st s h =
      let step = schedule_one task_ids now i stats s in
      elim (Result-cases step.0) [
        | inl (more, g) ↦
            let one = (schedule_one-IsScheduled now i stats s).counted more g in
            let others = schedule_all-accounted now rest more st step.1 (rw (◌>>=◌, g) at h) in
            (omega (arith, one.0, others.0), others.1 ∙ one.1)
        | inr (e, g) ↦ absurd (ground (arith, rw (◌>>=◌, g) at h))
      ]

  -- When the schedule returns, every integration that it has checked is counted once: as not
  -- enabled, not due, with an active run, or with a run queued.
  pub schedule_counts_each_once :
      (s : Session) (st : ScheduleStats)
      → (create_due_scheduled_sync_runs task_ids s).0 ≡ ok st
      → st.skipped_not_enabled
          + st.skipped_not_due
          + st.skipped_active_sync
          + length st.queued_sync_runs
        ≡ st.checked_integrations
  unfolding create_due_scheduled_sync_runs
  schedule_counts_each_once s st h =
      let all = schedule_all-accounted s.now _ _ st s h in omega (arith, all.0, all.1)

  -- What puts runs in the queue: a user's call, and the schedule.
  pub data QueueCall : Type 0 where
    create : ℕ → ℕ → Option ℕ → SyncType → String → QueueCall
    schedule : QueueCall

  abbrev pub queue : QueueCall → Session → Session
  queue (create company_id integration_id user sync_type task_id) s =
      (create_sync_run company_id integration_id user sync_type task_id s).1
  queue schedule s = (create_due_scheduled_sync_runs task_ids s).1

  abbrev pub queue_run_all : List QueueCall → Session → Session
  queue_run_all [] s = s
  queue_run_all (call ∷ calls) s = queue_run_all calls (queue call s)

  call-IsQueue : (call : QueueCall) (s : Session) → IsQueue s → IsQueue (queue call s)
  unfolding create_due_scheduled_sync_runs
  call-IsQueue (create company_id integration_id user sync_type task_id) s v =
      create_sync_run-IsQueue company_id integration_id user sync_type task_id s v
  call-IsQueue schedule s v = schedule_all-IsQueue s.now _ _ s v

  -- Any calls that queue runs, by users and by the schedule, keep the keys of the runs apart and
  -- leave no integration with two runs that wait or are running.
  pub queue_run_all-IsQueue :
      (calls : List QueueCall) (s : Session) → IsQueue s → IsQueue (queue_run_all calls s)
  queue_run_all-IsQueue [] s v = v
  queue_run_all-IsQueue (call ∷ calls) s v =
      queue_run_all-IsQueue calls (queue call s) (call-IsQueue call s v)
