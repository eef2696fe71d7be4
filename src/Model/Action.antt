-- ===== src/Model/Action.antt =====
-- A handler: it reads and changes the world, and what it wrote stays written when it throws later.
-- A `$transaction` is one write of the match with all that hangs off it.
use inhouse_maker_core_serve.Common.{ℕ, ◌+◌, Option, none, List, [], ◌∷◌, ◌++◌, ◌≡◌, refl, ap}
use inhouse_maker_core_serve.Model.Rows.{Match}
use inhouse_maker_core_serve.Model.Kinds.{NotificationStatus}
use inhouse_maker_core_serve.Model.Outcome.{Outcome, ok, err, HttpStatus, AppErrorCode}
use inhouse_maker_core_serve.Model.World.{
  World, AuditAction, Notification, NotificationInput, Job, send_notification, put_match,
}

abbrev pub Action : Type 0 → Type 0
Action A = World → Outcome A × World

infixl 5 ◌>>=◌ ◌>>◌
abbrev pub ◌>>=◌ : {A B : Type 0} → Action A → (A → Action B) → Action B
◌>>=◌ m f w = let (r, w') = m w in elim r [ ok x ↦ f x w' | err s c ↦ (err s c, w') ]

abbrev pub ◌>>◌ : {B : Type 0} → Action (Unit {0}) → Action B → Action B
m >> k = m >>= λ _. k

-- One step of a handler that went well.
pub bind-ok :
    {A B : Type 0} (m : Action A) (f : A → Action B) (w : World) (x : A) (v : World)
    → m w ≡ (ok x, v)
    → (m >>= f) w ≡ f x v
bind-ok {A} {B} m f w x v e =
    ap (λ (r : Outcome A × World). elim r.0 [ ok y ↦ f y r.1 | err s c ↦ (err s c, r.1) ]) e

pub bind-err :
    {A B : Type 0} (m : Action A) (f : A → Action B) (w : World) (s : HttpStatus) (c : AppErrorCode)
    (v : World)
    → m w ≡ (err s c, v)
    → (m >>= f) w ≡ (err s c, v)
bind-err {A} {B} m f w s c v e =
    ap (λ (r : Outcome A × World). elim r.0 [ ok y ↦ f y r.1 | err s c ↦ (err s c, r.1) ]) e

-- Reads and checks, which leave the world alone.
abbrev pub check : {A : Type 0} → (World → Outcome A) → Action A
check c w = (c w, w)

abbrev pub pure : {A : Type 0} → A → Action A
pure x w = (ok x, w)

abbrev pub gets : {A : Type 0} → (World → A) → Action A
gets f w = (ok (f w), w)

abbrev pub modify : (World → World) → Action (Unit {0})
modify f w = (ok tt, f w)

abbrev pub save_match : Match → Action (Unit {0})
save_match m = modify λ w. record w { matches = put_match m w.matches }

-- AuditLogService.create
abbrev pub audit : Option ℕ → AuditAction → ℕ → Action (Unit {0})
audit user action entity = modify λ w. record w {
  audit_log = w.audit_log ++ record { user_id = user; action = action; entity_id = entity } ∷ [];
}

-- QueueService: the jobs in the order in which they were added.
abbrev pub enqueue_all : List Job → Action (Unit {0})
enqueue_all js = modify λ w. record w { jobs = w.jobs ++ js }

abbrev pub created_notification : ℕ → NotificationInput → Notification
created_notification k i = record {
  id = k;
  input = i;
  status = NotificationStatus.pending;
  sent_at = none;
  read_at = none;
}

-- NotificationService.createMany: each row in turn, and its delivery job.
unfoldable pub create_notifications : List NotificationInput → World → World
create_notifications [] w = w
create_notifications (i ∷ is) w = create_notifications is (record w {
  notifications = w.notifications ++ created_notification w.next_id i ∷ [];
  jobs = w.jobs ++ send_notification w.next_id ∷ [];
  next_id = w.next_id + 1;
})

abbrev pub create_many : List NotificationInput → Action (Unit {0})
create_many is = modify (create_notifications is)

pub matches-create_notifications :
    (is : List NotificationInput) (w : World) → (create_notifications is w).matches ≡ w.matches
unfolding create_notifications
matches-create_notifications [] w = refl
matches-create_notifications (i ∷ is) w = matches-create_notifications is _

pub members-create_notifications :
    (is : List NotificationInput) (w : World) → (create_notifications is w).members ≡ w.members
unfolding create_notifications
members-create_notifications [] w = refl
members-create_notifications (i ∷ is) w = members-create_notifications is _

-- A last step that only answers leaves the world as the step before it left it.
pub world_then_pure :
    {A B : Type 0} (m : Action A) (f : A → B) (w : World) → ((m >>= λ x. pure (f x)) w).1 ≡ (m w).1
world_then_pure {A} {B} m f w = go (m w)
  where
    go : (r : Outcome A × World) → (((λ w'. r) >>= λ x. pure (f x)) w).1 ≡ r.1
    go (ok x, w') = refl
    go (err s c, w') = refl
