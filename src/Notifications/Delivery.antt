-- ===== src/Notifications/Delivery.antt =====
-- `get_notification_event`, the marks of a notification, and `send_pending_notifications`.
pub mod Distinct
pub mod Laws
use one_loyal.Prelude.{
  ℕ, zero, suc, ◌+◌, ◌==◌, ◌&&◌, ◌||◌, String, Bool, true, false, not, Option, none, some, List, [],
  ◌∷◌, select, length, str_eq, if◌then◌else◌,
}
use one_loyal.Core.{not_found}
use one_loyal.Models.Notification.{NotificationEvent, NotificationEventStatus, is_waiting}
use one_loyal.Db.Exec.{Session, Exec, pure, lift, gets, or_raise, modify, utc_now, ◌>>=◌, ◌>>◌}
use one_loyal.Db.Query.{scalar_one_or_none, put, order_by_asc}

abbrev pub save_notification : NotificationEvent → Session → Session
save_notification n s = record s { notifications = put (λ x. x.id) n s.notifications }

unfoldable pub get_notification_event : ℕ → ℕ → Exec NotificationEvent
get_notification_event company_id notification_event_id = do
  rows ← gets (λ s.
      select (λ n. n.id == notification_event_id && n.company_id == company_id) s.notifications)
  found ← lift (scalar_one_or_none rows)
  or_raise found (not_found "Notification event not found.")

unfoldable pub mark_notification_event_sent : ℕ → ℕ → Exec NotificationEvent
unfolding get_notification_event
mark_notification_event_sent company_id notification_event_id = do
  n ← get_notification_event company_id notification_event_id
  now ← utc_now
  let marked = record n {
    status = NotificationEventStatus.sent;
    attempts = n.attempts + 1;
    last_error = none;
    skipped_reason = none;
    sent_at = some now;
  }
  modify (save_notification marked)
  pure marked

unfoldable pub mark_notification_event_failed : ℕ → ℕ → Option String → Exec NotificationEvent
unfolding get_notification_event
mark_notification_event_failed company_id notification_event_id error = do
  n ← get_notification_event company_id notification_event_id
  now ← utc_now
  let marked = record n {
    status = NotificationEventStatus.failed;
    attempts = n.attempts + 1;
    last_error = error;
    failed_at = some now;
  }
  modify (save_notification marked)
  pure marked

unfoldable pub mark_notification_event_skipped : ℕ → ℕ → Option String → Exec NotificationEvent
unfolding get_notification_event
mark_notification_event_skipped company_id notification_event_id reason = do
  n ← get_notification_event company_id notification_event_id
  let marked = record n {
    status = NotificationEventStatus.skipped;
    skipped_reason = reason;
    last_error = none;
  }
  modify (save_notification marked)
  pure marked

pub record DeliveryStats : Type 0 where
  pub checked_notifications : ℕ
  pub sent_notifications : ℕ
  pub failed_notifications : ℕ

abbrev pub is_text : Option String → String → Bool
is_text none text = false
is_text (some t) text = str_eq t text

-- `_send_notification` raises for this one recipient; no channel is called yet.
abbrev pub fails_delivery : NotificationEvent → Bool
fails_delivery n = is_text n.recipient_identifier "fail-me@example.com"

abbrev pub sent : NotificationEvent → ℕ → NotificationEvent
sent n now = record n {
  attempts = n.attempts + 1;
  status = NotificationEventStatus.sent;
  sent_at = some now;
  last_error = none;
  failed_at = none;
}

abbrev pub not_sent : NotificationEvent → ℕ → NotificationEvent
not_sent n now = record n {
  attempts = n.attempts + 1;
  status = NotificationEventStatus.failed;
  last_error = some "Simulated delivery failure";
  failed_at = some now;
}

-- One round of the loop, on the notification
unfoldable pub delivered : NotificationEvent → ℕ → NotificationEvent
delivered n now = if fails_delivery n then not_sent n now else sent n now

abbrev pub counted : NotificationEvent → DeliveryStats → DeliveryStats
counted n stats =
    if fails_delivery n
    then record stats { failed_notifications = stats.failed_notifications + 1 }
    else record stats { sent_notifications = stats.sent_notifications + 1 }

unfoldable pub deliver_all :
    List NotificationEvent → ℕ → DeliveryStats → Session → DeliveryStats × Session
unfolding delivered
deliver_all [] now stats s = (stats, s)
deliver_all (n ∷ rest) now stats s =
    deliver_all rest now (counted n stats) (save_notification (delivered n now) s)

abbrev pub of_company : Option ℕ → NotificationEvent → Bool
of_company none n = true
of_company (some company_id) n = n.company_id == company_id

abbrev pub is_due : Option ℕ → NotificationEvent → Bool
is_due company_id n = is_waiting n.status && of_company company_id n

-- LIMIT
abbrev pub limited : {A : Type 0} → ℕ → List A → List A
limited zero xs = []
limited (suc n) [] = []
limited (suc n) (x ∷ xs) = x ∷ limited n xs

unfoldable pub due : Option ℕ → ℕ → List NotificationEvent → List NotificationEvent
unfolding order_by_asc
due company_id limit rows =
    limited limit (order_by_asc (λ n. n.created_at) (select (is_due company_id) rows))

unfoldable pub send_pending_notifications : Option ℕ → ℕ → Session → DeliveryStats × Session
unfolding deliver_all due
send_pending_notifications company_id limit s =
    let notifications = due company_id limit s.notifications in
    deliver_all notifications s.now
      (record {
        checked_notifications = length notifications;
        sent_notifications = 0;
        failed_notifications = 0;
      })
      s
