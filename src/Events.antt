-- ===== src/Events.antt =====
-- backend/app/modules/events/service.py: the domain events that the services emit, and the
-- states that a worker moves an event through.
use one_loyal.Prelude.{
  ℕ, ◌+◌, ◌==◌, ◌&&◌, String, Option, none, some, ◌∷◌, select, str_eq, if◌then◌else◌,
}
use one_loyal.Core.{not_found}
use one_loyal.Common.Json.{Fields, end, obj}
use one_loyal.Common.Redaction.{redact_sensitive_data}
use one_loyal.Models.Event.{DomainEvent, DomainEventStatus, AuditContext}
use one_loyal.Db.Exec.{
  Session, Exec, pure, lift, gets, or_raise, modify, utc_now, fresh_id, ◌>>=◌, ◌>>◌,
}
use one_loyal.Db.Query.{scalar_one_or_none, put, eq_nullable}

-- The keyword arguments of `emit`.
pub record EventArgs : Type 0 where
  pub company_id : Option ℕ
  pub event_type : String
  pub aggregate_type : String
  pub aggregate_id : Option ℕ
  pub customer_id : Option ℕ
  pub campaign_id : Option ℕ
  pub gift_tier_id : Option ℕ
  pub actor_user_id : Option ℕ
  pub actor_customer_id : Option ℕ
  pub correlation_id : Option String
  pub request_id : Option String
  pub payload_json : Option Fields
  pub occurred_at : Option ℕ

-- The arguments of a call that names only the aggregate.
abbrev pub event_args : ℕ → String → String → ℕ → EventArgs
event_args company event_type aggregate_type aggregate = record {
  company_id = some company;
  event_type = event_type;
  aggregate_type = aggregate_type;
  aggregate_id = some aggregate;
  customer_id = none;
  campaign_id = none;
  gift_tier_id = none;
  actor_user_id = none;
  actor_customer_id = none;
  correlation_id = none;
  request_id = none;
  payload_json = none;
  occurred_at = none;
}

-- `a or b` for identifiers, which are never false.
abbrev pub or_id : Option ℕ → Option ℕ → Option ℕ
or_id none b = b
or_id (some a) b = some a

-- `a or b` for texts: the empty one is false.
abbrev pub or_text : Option String → Option String → Option String
or_text none b = b
or_text (some a) b = if str_eq a "" then b else some a

-- `context.f if context else None`
abbrev pub from_context {ℓ} :
    {A : Type ℓ} → Option AuditContext → (AuditContext → Option A) → Option A
from_context none f = none
from_context (some c) f = f c

abbrev pub payload_or_empty : Option Fields → Fields
payload_or_empty none = end
payload_or_empty (some fields) = fields

abbrev pub time_or : Option ℕ → ℕ → ℕ
time_or none now = now
time_or (some t) now = t

unfoldable pub build_event : ℕ → ℕ → EventArgs → Option AuditContext → DomainEvent
build_event new_id now a context = record {
  id = new_id;
  company_id = a.company_id;
  event_type = a.event_type;
  aggregate_type = a.aggregate_type;
  aggregate_id = a.aggregate_id;
  customer_id = a.customer_id;
  campaign_id = a.campaign_id;
  gift_tier_id = a.gift_tier_id;
  actor_user_id = or_id a.actor_user_id (from_context context (λ c. c.actor_user_id));
  actor_customer_id = or_id a.actor_customer_id (from_context context (λ c. c.actor_customer_id));
  correlation_id = a.correlation_id;
  request_id = or_text a.request_id (from_context context (λ c. c.request_id));
  payload_json = redact_sensitive_data (obj (payload_or_empty a.payload_json));
  status = DomainEventStatus.pending;
  attempts = 0;
  last_error = none;
  occurred_at = time_or a.occurred_at now;
  processed_at = none;
}

unfoldable pub emit : EventArgs → Option AuditContext → Exec DomainEvent
emit args context = do
  now ← utc_now
  new_id ← fresh_id
  let event = build_event new_id now args context
  modify (λ s. record s { events = event ∷ s.events })
  pure event

unfoldable pub get_event : ℕ → ℕ → Exec DomainEvent
get_event company_id event_id = do
  rows ← gets (λ s. select (λ e. e.id == event_id && eq_nullable e.company_id company_id) s.events)
  found ← lift (scalar_one_or_none rows)
  or_raise found (not_found "Domain event not found.")

abbrev save_event : DomainEvent → Session → Session
save_event e s = record s { events = put (λ x. x.id) e s.events }

unfoldable pub mark_processing : ℕ → ℕ → Exec DomainEvent
unfolding get_event
mark_processing company_id event_id = do
  event ← get_event company_id event_id
  let changed : DomainEvent = record event {
    status = DomainEventStatus.processing;
    attempts = event.attempts + 1;
  }
  modify (save_event changed)
  pure changed

unfoldable pub mark_processed : ℕ → ℕ → Exec DomainEvent
unfolding get_event
mark_processed company_id event_id = do
  event ← get_event company_id event_id
  now ← utc_now
  let changed : DomainEvent = record event {
    status = DomainEventStatus.processed;
    last_error = none;
    processed_at = some now;
  }
  modify (save_event changed)
  pure changed

-- `if error: event.last_error = error`
abbrev error_or_old : Option String → Option String → Option String
error_or_old error old = or_text error old

unfoldable pub mark_failed : ℕ → ℕ → Option String → Exec DomainEvent
unfolding get_event
mark_failed company_id event_id error = do
  event ← get_event company_id event_id
  let changed : DomainEvent = record event {
    status = DomainEventStatus.failed;
    last_error = error_or_old error event.last_error;
  }
  modify (save_event changed)
  pure changed
