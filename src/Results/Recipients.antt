-- ===== src/Results/Recipients.antt =====
-- Who hears of a dispute: getResultAdminRecipientUserIds of results/results.service.ts.
use inhouse_maker_core_serve.Common.{
  ℕ, true, false, ◌&&◌, ◌≡◌, refl, some, List, [], ◌∷◌, map, arith, inl, inr, nat_eq, Has,
  IsDistinct, contains, Has→contains, Bool-cases, filter, ◌==◌, All, All-weaken, Has-append_left,
  Has-append_right, eq_nat,
}
use inhouse_maker_core_serve.Model.World.{World, User, GroupMember}
use inhouse_maker_core_serve.Model.Enums.{role_eq}
use inhouse_maker_core_serve.Groups.{is_group_admin_role}
use mathlib.Core.Path.{subst}
use inhouse_maker_core_serve.Common.{
  ◌≡◌, sym, ap, ◌∙◌, ◌+◌, ◌++◌, Bool, if◌then◌else◌, append_assoc, append-nil,
}
use inhouse_maker_core_serve.Model.World.{
  put_match, Job, Notification, NotificationInput, NotificationType,
}
use inhouse_maker_core_serve.Model.Enums.{ResultStatus, result_eq}
use inhouse_maker_core_serve.Model.Rows.{Match, MatchResult}
use inhouse_maker_core_serve.Model.Outcome.{ok}
use inhouse_maker_core_serve.Model.Action.{
  ◌>>=◌, world_then_pure, create_notifications, created_notification,
}
use inhouse_maker_core_serve.Results.Rows.{verdict, finalized_rows}
use inhouse_maker_core_serve.Results.Guards.{finalize_ready}
use inhouse_maker_core_serve.Results.Handlers.{
  distinct, admin_recipients, notice, announce, finalize_result_status,
}

unseen : (x : ℕ) (seen xs : List ℕ) → Has x (distinct seen xs) → contains x seen ≡ false
unfolding distinct
unseen x seen [] h = absurd h
unseen x seen (y ∷ ys) h = elim (Bool-cases (contains y seen)) [
  | inl old ↦ unseen x seen ys (rw old at h)
  | inr new ↦ elim (rw new at h) [
    | inl same ↦ rw same new
    | inr later ↦ let e = unseen x (y ∷ seen) ys later in ground arith
  ]
]

distinct-IsDistinct : (seen xs : List ℕ) → IsDistinct (distinct seen xs)
unfolding distinct
distinct-IsDistinct seen [] = tt
distinct-IsDistinct seen (x ∷ xs) = elim (Bool-cases (contains x seen)) [
  | inl old ↦ rw old (distinct-IsDistinct seen xs)
  | inr new ↦ rw new (
    λ h. let e = unseen x (x ∷ seen) xs h in let f = Has→contains x (x ∷ seen) (inl refl) in cc,
    distinct-IsDistinct (x ∷ seen) xs,
  )
]

kept : (x : ℕ) (seen xs : List ℕ) → Has x xs → contains x seen ≡ false → Has x (distinct seen xs)
unfolding distinct
kept x seen [] h new = absurd h
kept x seen (y ∷ ys) h new = elim (Bool-cases (contains y seen)) [
  | inl old ↦ rw old (kept x seen ys (later old h) new)
  | inr fresh ↦ rw fresh (elim (Bool-cases (eq_nat x y)) [
    | inl same ↦ inl (ground arith)
    | inr other ↦ inr (kept x (y ∷ seen) ys (elsewhere other h) (ground arith))
  ])
]
  where
    elsewhere : eq_nat x y ≡ false → Has x (y ∷ ys) → Has x ys
    elsewhere other (inl same) = absurd (ground arith)
    elsewhere other (inr h') = h'

    later : contains y seen ≡ true → Has x (y ∷ ys) → Has x ys
    later old (inl same) = let e : contains x seen ≡ true = rw same old in absurd (cc)
    later old (inr h') = h'

Has-map_self : {A : Type 0} (f : A → ℕ) (xs : List A) → All (λ x. Has (f x) (map f xs)) xs
Has-map_self f [] = tt
Has-map_self f (x ∷ xs) = (
  inl refl,
  All-weaken (λ y. Has (f y) (map f xs)) (λ y. Has (f y) (f x ∷ map f xs)) xs (λ y h. inr h)
      (Has-map_self f xs),
)

All-kept :
    {A : Type 0} (f : A → ℕ) (xs : List A) (ids : List ℕ)
    → ((k : ℕ) → Has k (map f xs) → Has k ids)
    → All (λ x. Has (f x) (distinct [] ids)) xs
All-kept f xs ids into =
    All-weaken (λ x. Has (f x) (map f xs)) (λ x. Has (f x) (distinct [] ids)) xs
      (λ x h. kept (f x) [] ids (into (f x) h) refl) (Has-map_self f xs)

abbrev pub system_admins : World → List User
system_admins w = filter (λ u. u.is_admin) w.users

abbrev pub group_admins : ℕ → World → List GroupMember
group_admins group w =
    filter (λ g. g.group_id == group && is_group_admin_role (some g.role)) w.members

admin_recipients-each_once :
    (group : ℕ) (w : World)
    → IsDistinct (admin_recipients group w)
      × All (λ u. Has u.id (admin_recipients group w)) (system_admins w)
      × All (λ g. Has g.user_id (admin_recipients group w)) (group_admins group w)
unfolding admin_recipients
admin_recipients-each_once group w = (
  distinct-IsDistinct [] _,
  All-kept (λ u. u.id) (system_admins w) _ (λ k h. Has-append_left k _ _ h),
  All-kept (λ g. g.user_id) (group_admins group w) _
      (λ k h. Has-append_right k (map (λ u. u.id) (system_admins w)) _ h),
)

-- The rows that createMany adds.
abbrev rows_from : ℕ → List NotificationInput → List Notification
rows_from k [] = []
rows_from k (i ∷ is) = created_notification k i ∷ rows_from (k + 1) is

notifications-create_notifications :
    (is : List NotificationInput) (w : World)
    → (create_notifications is w).notifications ≡ w.notifications ++ rows_from w.next_id is
unfolding create_notifications
notifications-create_notifications [] w = sym (append-nil w.notifications)
notifications-create_notifications (i ∷ is) w =
    notifications-create_notifications is _
    ∙ append_assoc w.notifications (created_notification w.next_id i ∷ [])
        (rows_from (w.next_id + 1) is)

abbrev pub receivers : List Notification → List ℕ
receivers ns = map (λ n. n.input.user_id) ns

receivers-rows_from :
    (k result : ℕ) (kind : NotificationType) (us : List ℕ)
    → receivers (rows_from k (map (notice kind result) us)) ≡ us
receivers-rows_from k result kind [] = refl
receivers-rows_from k result kind (u ∷ us) =
    ap (λ vs. u ∷ vs) (receivers-rows_from (k + 1) result kind us)

-- A notification about a disputed result.
abbrev pub Tells : ℕ → Notification → Type 0
Tells result n =
    (n.input.kind ≡ NotificationType.result_disputed) × (n.input.related_entity_id ≡ result)

rows_from-Tells :
    (k result : ℕ) (us : List ℕ)
    → All (Tells result) (rows_from k (map (notice NotificationType.result_disputed result) us))
rows_from-Tells k result [] = tt
rows_from-Tells k result (u ∷ us) = ((refl, refl), rows_from-Tells (k + 1) result us)

-- What a change of the notifications tells about a dispute in a group: everybody who is to hear of it, once.
pub record IsTold (group result : ℕ) (w : World) (sent : List Notification) : Type 0 where
  pub about : All (Tells result) sent
  pub once : IsDistinct (receivers sent)
  pub to_system_admins : All (λ u. Has u.id (receivers sent)) (system_admins w)
  pub to_group_admins : All (λ g. Has g.user_id (receivers sent)) (group_admins group w)

told :
    (group result k : ℕ) (w : World)
    → IsTold group result w (
        rows_from k
          (map (notice NotificationType.result_disputed result) (admin_recipients group w)))
told group result k w =
    let same =
      sym (
        receivers-rows_from k result NotificationType.result_disputed (admin_recipients group w)) in
    let (once, systems, groups) = admin_recipients-each_once group w in
    record {
      about = rows_from-Tells k result (admin_recipients group w);
      once = subst IsDistinct same once;
      to_system_admins = subst (λ us. All (λ u. Has u.id us) (system_admins w)) same systems;
      to_group_admins =
          subst (λ us. All (λ g. Has g.user_id us) (group_admins group w)) same groups;
    }

notifications-announce :
    (m : Match) (r : MatchResult) (w : World)
    → (ResultStatus.disputed == r.result_status) ≡ false
    → (announce ResultStatus.disputed m r w).1.notifications
      ≡ w.notifications
        ++ rows_from w.next_id
            (map (notice NotificationType.result_disputed r.id) (admin_recipients m.group_id w))
unfolding announce admin_recipients
notifications-announce m r w new = rw new (notifications-create_notifications _ _)

-- The world in which finalizeResultStatus announces a status.
abbrev status_saved : ℕ → Bool → Match → MatchResult → World → ResultStatus → World
status_saved result followup m r w s = record w {
  matches = put_match (finalized_rows s w.now m r) w.matches;
  jobs = w.jobs ++ (if followup then Job.finalize_result_confirmation result ∷ [] else []);
}

notifications-finalize_result_status :
    (result : ℕ) (followup : Bool) (w : World) (m : Match) (r : MatchResult)
    → finalize_ready result w ≡ ok (m, r)
    → (finalize_result_status result followup w).1.notifications
      ≡ (announce
          (verdict m r)
          m
          r
          (status_saved result followup m r w (verdict m r))).1.notifications
unfolding finalize_result_status
notifications-finalize_result_status result followup w m r ready =
    rw (ready, ◌>>=◌)
      (ap (λ (x : World). x.notifications)
        (world_then_pure (announce (verdict m r) m r) (λ _. verdict m r)
          (status_saved result followup m r w (verdict m r))))

-- When finalizeResultStatus makes a result DISPUTED that was not, it adds notifications about that
-- result: one for each system admin and each owner or admin of the group, and no two for one user.
pub finalize_result_status-IsTold :
    (result : ℕ) (followup : Bool) (w : World) (m : Match) (r : MatchResult)
    → finalize_ready result w ≡ ok (m, r)
    → verdict m r ≡ ResultStatus.disputed
    → (ResultStatus.disputed == r.result_status) ≡ false
    → (sent : List Notification) × ((finalize_result_status result followup w).1.notifications
        ≡ w.notifications ++ sent)
      × IsTold m.group_id r.id w sent
unfolding admin_recipients
finalize_result_status-IsTold result followup w m r ready disputed new = (
  rows_from w.next_id
      (map (notice NotificationType.result_disputed r.id) (admin_recipients m.group_id w)),
  notifications-finalize_result_status result followup w m r ready
      ∙ subst
          (λ s.
            (announce s m r (status_saved result followup m r w s)).1.notifications
            ≡ w.notifications
              ++ rows_from w.next_id (
                  map (notice NotificationType.result_disputed r.id)
                    (admin_recipients m.group_id w)))
          (sym disputed)
          (notifications-announce m r (status_saved result followup m r w ResultStatus.disputed)
            new),
  told m.group_id r.id w.next_id w,
)
