-- ===== src/Notifications.antt =====
-- Notifications: `NotificationRepository` of app/repositories/notifications.py and
-- `NotificationService` of app/services/notification_service.py.
pub mod Store
pub mod Settings
pub mod Events
pub mod Generate
pub mod JobEvents
pub mod StatusEvents
pub mod EnqueueLaws
pub mod CursorLaws
pub mod AnnounceLaws
pub mod BaselineLaws
pub mod ClaimLaws
mod Tests
