-- ===== src/Notifications/Life.antt =====
-- Notifications through reading and delivery, in any order: notifications/notification.service.ts.
use inhouse_maker_core_serve.Common.{
  ℕ, ◌≡◌, ◌↔◌, refl, sym, ◌∙◌, Bool, true, some, List, [], ◌∷◌, arith, All, All-append, find_where,
  All-change_first, Bool-cases, Option-cases, inl, inr, ◌==◌, nat_eq, find?, find_where,
  All-change_first, is_some, or_else,
}
use inhouse_maker_core_serve.Model.Kinds.{NotificationStatus, notification_status_eq}
use inhouse_maker_core_serve.Model.World.{World, Notification, NotificationInput}
use inhouse_maker_core_serve.Model.Action.{
  ◌>>=◌, create_many, create_notifications, created_notification,
}
use inhouse_maker_core_serve.Notifications.{
  change_notifications, is_notification, read_at_time, mark_read, mark_all_read, sent_at_time,
  mark_sent, dispatch, is_done, is_unread_of,
}

-- READ says that it was read, and a status past PENDING that there is a time for it.
pub record IsConsistent (n : Notification) : Type 0 where
  pub read : (n.status ≡ NotificationStatus.read) ↔ (is_some n.read_at ≡ true)
  pub sent : n.status ≡ NotificationStatus.sent → is_some n.sent_at ≡ true

-- What happens to notifications, each with its argument.
pub data Event : Type 0 where
  created : List NotificationInput → Event
  read : ℕ → ℕ → Event
  all_read dispatched : ℕ → Event

unfoldable pub serve : Event → World → World
serve (Event.created is) w = (create_many is w).1
serve (Event.read user k) w = (mark_read user k w).1
serve (Event.all_read user) w = (mark_all_read user w).1
serve (Event.dispatched k) w = (dispatch k w).1

unfoldable pub serve_all : List Event → World → World
unfolding serve
serve_all [] w = w
serve_all (e ∷ es) w = serve_all es (serve e w)

All-change :
    (P : Notification → Type 0) (p : Notification → Bool) (f : Notification → Notification)
    (ns : List Notification)
    → ((n : Notification) → P n → P (f n))
    → All P ns
    → All P (change_notifications p f ns)
unfolding change_notifications
All-change P p f [] keeps h = tt
All-change P p f (n ∷ ns) keeps (hn, h) =
    let rest = All-change P p f ns keeps h in
    elim (Bool-cases (p n)) [ inl hit ↦ rw hit (keeps n hn, rest) | inr miss ↦ rw miss (hn, rest) ]

created_IsConsistent : (k : ℕ) (i : NotificationInput) → IsConsistent (created_notification k i)
created_IsConsistent k i = record { read = ((λ e. cc), (λ e. cc)); sent = λ e. cc }

create-AllConsistent :
    (is : List NotificationInput) (w : World)
    → All IsConsistent w.notifications
    → All IsConsistent (create_notifications is w).notifications
unfolding create_notifications
create-AllConsistent [] w h = h
create-AllConsistent (i ∷ is) w h =
    create-AllConsistent is _
      (All-append IsConsistent w.notifications _ h (created_IsConsistent w.next_id i, tt))

read-IsConsistent : (t : ℕ) (n : Notification) → IsConsistent (read_at_time t n)
unfolding read_at_time
read-IsConsistent t n = record { read = ((λ e. refl), (λ e. refl)); sent = λ e. cc }

sent-IsConsistent :
    (now : ℕ) (n : Notification) → IsConsistent n → IsConsistent (sent_at_time n now n)
unfolding sent_at_time
sent-IsConsistent now n h = elim (Bool-cases (is_some n.read_at)) [
  | inl was_read ↦ record { read = ((λ e. was_read), (λ e. rw was_read refl)); sent = λ e. refl }
  | inr unread ↦ record { read = ((λ e. ground arith), (λ e. ground arith)); sent = λ e. refl }
]

mark_read-AllConsistent :
    (user k : ℕ) (w : World)
    → All IsConsistent w.notifications
    → All IsConsistent (mark_read user k w).1.notifications
unfolding mark_read
mark_read-AllConsistent user k w h =
    elim (Option-cases
      (find_where (is_notification k) (λ n. n.input.user_id == user) w.notifications)) [
        | inl missing ↦ rw (missing, ◌>>=◌) h
        | inr (n, e) ↦
            rw (e, ◌>>=◌)
              (All-change_first (is_notification k) IsConsistent
                (read_at_time (or_else n.read_at w.now)) w.notifications
                (λ m f c. read-IsConsistent (or_else n.read_at w.now) m) h)
      ]

mark_sent-AllConsistent :
    (k : ℕ) (w : World)
    → All IsConsistent w.notifications
    → All IsConsistent (mark_sent k w).1.notifications
unfolding mark_sent
mark_sent-AllConsistent k w h = elim (Option-cases (find? (is_notification k) w.notifications)) [
  | inl missing ↦ rw (missing, ◌>>=◌) h
  | inr (n, e) ↦
      rw (e, ◌>>=◌)
        (All-change_first (is_notification k) IsConsistent (sent_at_time n w.now) w.notifications
          (λ m f c.
            let found : some n ≡ some m = sym e ∙ f in
            let same : n ≡ m = cc in rw same (sent-IsConsistent w.now m c))
          h)
]

dispatch-AllConsistent :
    (k : ℕ) (w : World)
    → All IsConsistent w.notifications
    → All IsConsistent (dispatch k w).1.notifications
unfolding dispatch
dispatch-AllConsistent k w h = elim (Option-cases (find? (is_notification k) w.notifications)) [
  | inl missing ↦ rw (missing, ◌>>=◌) h
  | inr (n, e) ↦ elim (Bool-cases (is_done n)) [
    | inl over ↦ rw (e, ◌>>=◌, over) h
    | inr open_still ↦ rw (e, ◌>>=◌, open_still) (mark_sent-AllConsistent k w h)
  ]
]

mark_all_read-AllConsistent :
    (user : ℕ) (w : World)
    → All IsConsistent w.notifications
    → All IsConsistent (mark_all_read user w).1.notifications
unfolding mark_all_read
mark_all_read-AllConsistent user w h =
    All-change IsConsistent (is_unread_of user) (read_at_time w.now) w.notifications
      (λ n c. read-IsConsistent w.now n) h

serve-AllConsistent :
    (e : Event) (w : World)
    → All IsConsistent w.notifications
    → All IsConsistent (serve e w).notifications
unfolding serve
serve-AllConsistent (Event.created is) w h = create-AllConsistent is w h
serve-AllConsistent (Event.read user k) w h = mark_read-AllConsistent user k w h
serve-AllConsistent (Event.all_read user) w h = mark_all_read-AllConsistent user w h
serve-AllConsistent (Event.dispatched k) w h = dispatch-AllConsistent k w h

-- Whatever is created, read and delivered, and in whatever order, every notification says READ
-- exactly when it has a time of reading, and SENT only with a time of sending.
pub serve_all-AllConsistent :
    (es : List Event) (w : World)
    → All IsConsistent w.notifications
    → All IsConsistent (serve_all es w).notifications
unfolding serve_all
serve_all-AllConsistent [] w h = h
serve_all-AllConsistent (e ∷ es) w h =
    serve_all-AllConsistent es (serve e w) (serve-AllConsistent e w h)
