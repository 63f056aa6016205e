-- ===== src/Tests/Notifications.antt =====
-- Rounds of deliveries of three notifications.
use one_loyal.Prelude.{ℕ, ◌≡◌, refl, String, none, some, [], ◌∷◌, arith}
use one_loyal.Models.Notification.{
  NotificationChannel, NotificationRecipientType, NotificationEvent, NotificationEventStatus,
}
use one_loyal.Db.Exec.{Session}
use one_loyal.Notifications.Delivery.{send_pending_notifications}
use one_loyal.Notifications.Delivery.Laws.{
  waiting, IsRound, send_pending-IsRound, rounds, rounds_drain,
}
use one_loyal.Tests.World.{start}

abbrev letter : ℕ → String → NotificationEventStatus → NotificationEvent
letter id to status = record {
  id = id;
  company_id = 1;
  domain_event_id = 60;
  notification_rule_id = none;
  notification_template_id = none;
  channel = NotificationChannel.email;
  recipient_type = NotificationRecipientType.customer;
  customer_id = some 10;
  user_id = none;
  recipient_identifier = some to;
  subject = some "Gift";
  body = some "You have reached a gift.";
  status = status;
  attempts = 0;
  last_error = none;
  skipped_reason = none;
  scheduled_at = none;
  sent_at = none;
  failed_at = none;
  created_at = 150;
}

abbrev posted : Session
posted = record start {
  notifications =
      letter 72 "ann@example.com" NotificationEventStatus.pending
      ∷ letter 71 "fail-me@example.com" NotificationEventStatus.pending
      ∷ letter 70 "bob@example.com" NotificationEventStatus.skipped
      ∷ [];
}

both_wait : waiting (some 1) posted ≡ 2
both_wait = refl

send_pending-IsRound_example :
    IsRound (some 1) 1 posted (send_pending_notifications (some 1) 1 posted)
send_pending-IsRound_example = send_pending-IsRound (some 1) 1 posted (ground arith)

rounds_drain_example : waiting (some 1) (rounds (some 1) 2 1 posted) ≡ 0
rounds_drain_example = rounds_drain (some 1) 2 1 posted (ground arith) (omega (arith, both_wait))
