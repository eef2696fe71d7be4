-- ===== src/Notifications/Delivery.antt =====
-- What the delivery job of notifications/notification.service.ts comes to.
use inhouse_maker_core_serve.Common.{
  ℕ, ◌≡◌, refl, true, Option, some, Bool-cases, inl, inr, nat_eq, find?, is_some, find?-holds,
  find?-change_first,
}
use inhouse_maker_core_serve.Model.Kinds.{notification_status_eq}
use inhouse_maker_core_serve.Model.World.{World, Notification}
use inhouse_maker_core_serve.Model.Outcome.{ok}
use inhouse_maker_core_serve.Model.Action.{◌>>=◌}
use inhouse_maker_core_serve.Notifications.{
  is_notification, sent_at_time, mark_sent, dispatch, is_done,
}

abbrev find_row : ℕ → World → Option Notification
find_row k w = find? (is_notification k) w.notifications

-- A notification that has been dispatched.
pub record IsDispatched (k : ℕ) (w : World) : Type 0 where
  pub row : Notification
  pub found : find_row k w ≡ some row
  pub over : is_done row ≡ true

dispatch-over : (k : ℕ) (w : World) → IsDispatched k w → dispatch k w ≡ (ok tt, w)
unfolding dispatch
dispatch-over k w d = rw (d.found, ◌>>=◌, d.over) refl

sent-over : (now : ℕ) (n : Notification) → is_done (sent_at_time n now n) ≡ true
unfolding sent_at_time
sent-over now n = elim (Bool-cases (is_some n.read_at)) [
  | inl was_read ↦ rw was_read refl
  | inr unread ↦ rw unread refl
]

sent-is :
    (k now : ℕ) (n : Notification)
    → is_notification k n ≡ true
    → is_notification k (sent_at_time n now n) ≡ true
unfolding sent_at_time
sent-is k now n h = h

dispatch-IsDispatched :
    (k : ℕ) (w : World) (n : Notification) → find_row k w ≡ some n → IsDispatched k (dispatch k w).1
unfolding dispatch mark_sent
dispatch-IsDispatched k w n e = elim (Bool-cases (is_done n)) [
  | inl over ↦ rw (e, ◌>>=◌, over) (record { row = n; found = e; over = over })
  | inr pending ↦
      rw (e, ◌>>=◌, pending, e, ◌>>=◌)
        (record {
          row = sent_at_time n w.now n;
          found =
              find?-change_first (is_notification k) (sent_at_time n w.now) w.notifications n e
                (sent-is k w.now n (find?-holds (is_notification k) w.notifications n e));
          over = sent-over w.now n;
        })
]

-- The delivery job of a notification that exists comes to an end with the notification sent or read,
-- and running it again, as a queue may, succeeds and changes nothing.
pub dispatch-dispatch :
    (k : ℕ) (w : World) (n : Notification)
    → find_row k w ≡ some n
    → IsDispatched k (dispatch k w).1 × (dispatch k (dispatch k w).1 ≡ (ok tt, (dispatch k w).1))
dispatch-dispatch k w n e =
    let d = dispatch-IsDispatched k w n e in (d, dispatch-over k (dispatch k w).1 d)
