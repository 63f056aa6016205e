-- ===== src/Models/Event.antt =====
-- backend/app/modules/events/models.py and backend/app/modules/audit/context.py
use one_loyal.Prelude.{ℕ, String, Option}
use one_loyal.Common.Json.{Json}

pub data DomainEventStatus : Type 0 where
  pending processing processed failed : DomainEventStatus

pub record DomainEvent : Type 0 where
  pub id : ℕ
  pub company_id : Option ℕ
  pub event_type : String
  pub aggregate_type : String
  pub aggregate_id : Option ℕ
  pub customer_id : Option ℕ
  pub campaign_id : Option ℕ
  pub gift_tier_id : Option ℕ
  pub actor_user_id : Option ℕ
  pub actor_customer_id : Option ℕ
  pub correlation_id : Option String
  pub request_id : Option String
  pub payload_json : Json
  pub status : DomainEventStatus
  pub attempts : ℕ
  pub last_error : Option String
  pub occurred_at : ℕ
  pub processed_at : Option ℕ

pub record AuditContext : Type 0 where
  pub actor_user_id : Option ℕ
  pub actor_customer_id : Option ℕ
  pub actor_type : Option String
  pub request_id : Option String
  pub ip_address : Option String
  pub user_agent : Option String
