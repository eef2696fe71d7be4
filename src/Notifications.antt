-- ===== src/Notifications.antt =====
-- The life of a notification after its creation: notifications/notification.service.ts. The delivery
-- provider of notifications/notification-delivery.provider.ts does nothing.
pub mod Life
pub mod Delivery
use inhouse_maker_core_serve.Common.{
  ℕ, ◌+◌, Bool, true, false, not, ◌&&◌, ◌||◌, Option, none, some, List, [], ◌∷◌, if◌then◌else◌,
  ◌==◌, nat_eq, find?, find_where, change_first, filter, length, is_some, or_else,
}
use inhouse_maker_core_serve.Model.Kinds.{NotificationStatus, notification_status_eq}
use inhouse_maker_core_serve.Model.World.{World, Notification}
use inhouse_maker_core_serve.Model.Outcome.{Outcome, ok, or_reject, HttpStatus, AppErrorCode}
use inhouse_maker_core_serve.Model.Action.{Action, ◌>>=◌, ◌>>◌, check, gets, modify, pure}

abbrev pub is_notification : ℕ → Notification → Bool
is_notification k n = n.id == k

abbrev pub find_notification : ℕ → World → Outcome Notification
find_notification k w =
    or_reject (find? (is_notification k) w.notifications) HttpStatus.not_found
      AppErrorCode.not_found

abbrev find_own_notification : ℕ → ℕ → World → Outcome Notification
find_own_notification user k w =
    or_reject (find_where (is_notification k) (λ n. n.input.user_id == user) w.notifications)
      HttpStatus.not_found AppErrorCode.not_found

-- `updateMany`
unfoldable pub change_notifications :
    (Notification → Bool) → (Notification → Notification) → List Notification → List Notification
change_notifications p f [] = []
change_notifications p f (n ∷ ns) =
    if p n then f n ∷ change_notifications p f ns else n ∷ change_notifications p f ns

abbrev write_notification : ℕ → (Notification → Notification) → Action (Unit {0})
write_notification k f =
    modify λ w. record w { notifications = change_first (is_notification k) f w.notifications }

unfoldable pub read_at_time : ℕ → Notification → Notification
read_at_time t n = record n { read_at = some t; status = NotificationStatus.read }

-- The response of markRead is the time of the first reading.
unfoldable pub mark_read : ℕ → ℕ → Action ℕ
mark_read user k = do
  n ← check (find_own_notification user k)
  t ← gets (λ w. or_else n.read_at w.now)
  write_notification k (read_at_time t)
  pure t

abbrev pub is_unread_of : ℕ → Notification → Bool
is_unread_of user n = n.input.user_id == user && not (is_some n.read_at)

-- The response of markAllRead is the number of rows.
unfoldable pub mark_all_read : ℕ → Action ℕ
mark_all_read user = do
  count ← gets (λ w. length (filter (is_unread_of user) w.notifications))
  now ← gets (λ w. w.now)
  modify (λ w. record w {
    notifications = change_notifications (is_unread_of user) (read_at_time now) w.notifications;
  })
  pure count

unfoldable pub sent_at_time : Notification → ℕ → Notification → Notification
sent_at_time read now n = record n {
  status = if is_some read.read_at then NotificationStatus.read else NotificationStatus.sent;
  sent_at = some (or_else read.sent_at now);
}

unfoldable pub mark_sent : ℕ → Action (Unit {0})
mark_sent k = do
  n ← check (find_notification k)
  now ← gets (λ w. w.now)
  write_notification k (sent_at_time n now)

abbrev pub is_done : Notification → Bool
is_done n = n.status == NotificationStatus.sent || n.status == NotificationStatus.read

unfoldable pub dispatch : ℕ → Action (Unit {0})
unfolding mark_sent
dispatch k = do n ← check (find_notification k); if is_done n then pure tt else mark_sent k
