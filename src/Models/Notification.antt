-- ===== src/Models/Notification.antt =====
-- backend/app/modules/notifications/models.py: the notifications. `created_at` is the database's.
use one_loyal.Prelude.{ℕ, String, Bool, true, false, Option}

pub data NotificationChannel : Type 0 where
  email sms telegram in_app webhook : NotificationChannel

pub data NotificationRecipientType : Type 0 where
  customer company_admin sales_manager : NotificationRecipientType

pub data NotificationEventStatus : Type 0 where
  pending sent failed skipped : NotificationEventStatus

pub record NotificationEvent : Type 0 where
  pub id : ℕ
  pub company_id : ℕ
  pub domain_event_id : ℕ
  pub notification_rule_id : Option ℕ
  pub notification_template_id : Option ℕ
  pub channel : NotificationChannel
  pub recipient_type : NotificationRecipientType
  pub customer_id : Option ℕ
  pub user_id : Option ℕ
  pub recipient_identifier : Option String
  pub subject : Option String
  pub body : Option String
  pub status : NotificationEventStatus
  pub attempts : ℕ
  pub last_error : Option String
  pub skipped_reason : Option String
  pub scheduled_at : Option ℕ
  pub sent_at : Option ℕ
  pub failed_at : Option ℕ
  pub created_at : ℕ

abbrev pub is_waiting : NotificationEventStatus → Bool
is_waiting NotificationEventStatus.pending = true
is_waiting _ = false
