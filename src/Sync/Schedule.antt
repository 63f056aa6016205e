-- ===== src/Sync/Schedule.antt =====
-- `create_due_scheduled_sync_runs`: the runs that are due are queued.
pub mod Laws
use Prim.Native.Char.{code}
use Prim.Native.String.{String}
use one_loyal.Prelude.{
  ℕ, ◌+◌, ◌*◌, ◌-◌, ◌&&◌, ◌||◌, Bool, true, false, not, Option, none, some, List, [], ◌∷◌, max,
  select, length, leb, str_eq, if◌then◌else◌,
}
use one_loyal.Prelude.Int.{ℤ, pos, negsuc}
use one_loyal.Common.Json.{Json, Fields, bool, num, str, get}
use one_loyal.Common.Text.{strip}
use one_loyal.Models.Sync.{Integration, SyncRun, SyncType, is_active_integration}
use one_loyal.Db.Exec.{Session, Exec, pure, gets, modify, utc_now, fresh_id, ◌>>=◌, ◌>>◌}
use one_loyal.Db.Query.{is_null}
use one_loyal.Sync.Queue.{save_integration, has_active_sync, queued_run}

abbrev is_digit : ℕ → Bool
is_digit c = leb b'0' c && leb c b'9'

-- The digits of a text, after those read; a text with another character has no value.
abbrev digits : String → ℕ → Option ℕ
digits String.[] value = some value
digits (String.◌∷◌ c rest) value =
    let read = digits rest (value * 10 + (code c - b'0')) in
    if is_digit (code c) then read else none

-- `int(text)` for the decimal digits of ASCII, and what `max(value, 1)` sees of it
abbrev decimal : String → Option ℕ
decimal text = if str_eq text "" then none else digits text 0

abbrev at_most_zero : Option ℕ → Option ℕ
at_most_zero none = none
at_most_zero (some n) = some 0

abbrev unsigned : String → Option ℕ
unsigned String.[] = none
unsigned (String.◌∷◌ c rest) =
    if str_eq (String.◌∷◌ c "") "+"
    then decimal rest
    else if str_eq (String.◌∷◌ c "") "-"
    then at_most_zero (decimal rest)
    else decimal (String.◌∷◌ c rest)

-- `int(raw_value)` of a setting, where a negative number counts as 0; `none` is a `TypeError` or a
-- `ValueError`.
abbrev pub int_of : Option Json → Option ℕ
int_of (some (num (pos n))) = some n
int_of (some (num (negsuc n))) = some 0
int_of (some (bool b)) = some (if b then 1 else 0)
int_of (some (str text)) = unsigned (strip text)
int_of _ = none

abbrev pub minutes_or_default : Option ℕ → ℕ
minutes_or_default none = 360
minutes_or_default (some value) = max value 1

-- `_sync_frequency_minutes`
abbrev pub sync_frequency_minutes : Fields → ℕ
sync_frequency_minutes settings =
    minutes_or_default (int_of (get "sync_frequency_minutes" settings))

abbrev due_since : Option ℕ → ℕ → ℕ → Bool
due_since none now frequency = true
due_since (some last) now frequency = leb (last + 60 * frequency) now

abbrev due_at : Option ℕ → Option ℕ → ℕ → ℕ → Bool
due_at (some next) last now frequency = leb next now
due_at none last now frequency = due_since last now frequency

-- `_scheduled_sync_due`
abbrev pub scheduled_sync_due : Integration → ℕ → ℕ → Bool
scheduled_sync_due i now frequency = due_at i.next_sync_at i.last_scheduled_sync_at now frequency

-- `... is not True`
abbrev pub is_true : Option Json → Bool
is_true (some (bool b)) = b
is_true _ = false

pub record ScheduleStats : Type 0 where
  pub checked_integrations : ℕ
  pub skipped_not_enabled : ℕ
  pub skipped_not_due : ℕ
  pub skipped_active_sync : ℕ
  pub queued_sync_runs : List SyncRun

abbrev pub rescheduled : Integration → ℕ → Integration
rescheduled i now = record i {
  last_scheduled_sync_at = some now;
  next_sync_at = some (now + 60 * sync_frequency_minutes i.settings_json);
}

-- `task_ids` are the new identifiers of the tasks, by that of their integration.
module _ (task_ids : ℕ → String) where
  abbrev pub queue_run : Integration → ScheduleStats → Exec ScheduleStats
  queue_run i stats = do
    now ← utc_now
    new_id ← fresh_id
    let run =
        queued_run new_id i.company_id i.id i.sync_cursor_json SyncType.scheduled (task_ids i.id)
          now none
    modify (λ s. record s { sync_runs = run ∷ s.sync_runs })
    modify (save_integration (rescheduled i now))
    pure (record stats { queued_sync_runs = run ∷ stats.queued_sync_runs })

  abbrev pub queue_unless : Bool → Integration → ScheduleStats → Exec ScheduleStats
  queue_unless true i stats =
      pure (record stats { skipped_active_sync = stats.skipped_active_sync + 1 })
  queue_unless false i stats = queue_run i stats

  abbrev pub queue_due : Integration → ScheduleStats → Exec ScheduleStats
  queue_due i stats = do active ← has_active_sync i.company_id i.id; queue_unless active i stats

  unfoldable pub schedule_one : ℕ → Integration → ScheduleStats → Exec ScheduleStats
  schedule_one now i stats =
      if not (is_true (get "scheduled_sync_enabled" i.settings_json))
      then pure (record stats { skipped_not_enabled = stats.skipped_not_enabled + 1 })
      else if not (scheduled_sync_due i now (sync_frequency_minutes i.settings_json))
      then pure (record stats { skipped_not_due = stats.skipped_not_due + 1 })
      else queue_due i stats

  unfoldable pub schedule_all : ℕ → List Integration → ScheduleStats → Exec ScheduleStats
  schedule_all now [] stats = pure stats
  schedule_all now (i ∷ rest) stats = schedule_one now i stats >>= schedule_all now rest

  unfoldable pub create_due_scheduled_sync_runs : Exec ScheduleStats
  unfolding schedule_all
  create_due_scheduled_sync_runs s =
      let due =
        select (λ i. is_active_integration i.status && is_null i.deleted_at) s.integrations in
      schedule_all s.now due
        (record {
          checked_integrations = length due;
          skipped_not_enabled = 0;
          skipped_not_due = 0;
          skipped_active_sync = 0;
          queued_sync_runs = [];
        })
        s
