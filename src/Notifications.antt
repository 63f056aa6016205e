-- ===== src/Notifications.antt =====
-- backend/app/modules/notifications: the notifications that wait, and their delivery.
pub mod Delivery
