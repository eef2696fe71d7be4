-- ===== src/Recruiting/Requests.antt =====
-- Requests to recruiting/recruiting.service.ts and the status change of admin/admin.service.ts, one
-- after the other.
use inhouse_maker_core_serve.Common.{
  ℕ, ◌+◌, ◌≤◌, ◌≡◌, refl, sym, ◌∙◌, List, [], ◌∷◌, arith, All, All-append, All-weaken,
  All-change_first, change_first, Bool-cases, inl, inr, some,
}
use inhouse_maker_core_serve.Model.Kinds.{RecruitingPostStatus}
use inhouse_maker_core_serve.Model.World.{World, RecruitingPost, NotificationInput}
use inhouse_maker_core_serve.Model.Outcome.{Outcome-cases}
use inhouse_maker_core_serve.Model.Action.{◌>>=◌, create_notifications}
use inhouse_maker_core_serve.Groups.{assert_group_member}
use inhouse_maker_core_serve.Recruiting.{
  is_post, mutable_post, apply_ready, cancel_ready, accessible_post,
}
use inhouse_maker_core_serve.Recruiting.Changes.{
  CreatePost, UpdatePost, ApplyInput, is_empty_update, new_post, new_application, updated_post,
  deleted_post, without_application,
}
use inhouse_maker_core_serve.Recruiting.Handlers.{
  create_post, update_post, delete_post, apply_to_post, cancel_application, accessible_post_detail,
}
use inhouse_maker_core_serve.Recruiting.Ready.{apply_ready-IsOpenTo}
use inhouse_maker_core_serve.Recruiting.Applied.{
  applied, apply_to_post-applied, apply_to_post-refused,
}
use inhouse_maker_core_serve.Recruiting.Sound.{
  IsSound, IsSound-later, IsSound-updated, IsSound-deleted, IsSound-with, IsSound-without,
}
use inhouse_maker_core_serve.Admin.{post_status_ready}
use inhouse_maker_core_serve.Admin.Handlers.{update_post_status, with_status}

pub data PostRequest : Type 0 where
  create : ℕ → CreatePost → PostRequest
  update : ℕ → ℕ → UpdatePost → PostRequest
  delete cancel : ℕ → ℕ → PostRequest
  apply_for : ℕ → ℕ → ApplyInput → PostRequest
  set_status : ℕ → ℕ → RecruitingPostStatus → PostRequest

unfoldable pub serve : PostRequest → World → World
serve (PostRequest.create u d) w = (create_post u d w).1
serve (PostRequest.update u k d) w = (update_post u k d w).1
serve (PostRequest.delete u k) w = (delete_post u k w).1
serve (PostRequest.cancel u k) w = (cancel_application u k w).1
serve (PostRequest.apply_for u k d) w = (apply_to_post u k d w).1
serve (PostRequest.set_status u k s) w = (update_post_status u k s w).1

unfoldable pub serve_all : List PostRequest → World → World
unfolding serve
serve_all [] w = w
serve_all (q ∷ qs) w = serve_all qs (serve q w)

abbrev pub AllSound : World → Type 0
AllSound w = All (IsSound w.next_id) w.posts

-- What is written after the post: notifications, and nothing of the posts.
pub posts-notified :
    (is : List NotificationInput) (w : World) → (create_notifications is w).posts ≡ w.posts
unfolding create_notifications
posts-notified [] w = refl
posts-notified (i ∷ is) w = posts-notified is _

below : (m n : ℕ) → m + 1 ≤ n → m ≤ n
below m n h = omega arith

next-notified :
    (is : List NotificationInput) (w : World) → w.next_id ≤ (create_notifications is w).next_id
unfolding create_notifications
next-notified [] w = omega arith
next-notified (i ∷ is) w = below w.next_id _ (next-notified is _)

pub detail-reads : (u k : ℕ) (w : World) → (accessible_post_detail u k w).1 ≡ w
unfolding accessible_post_detail
detail-reads u k w = elim (Outcome-cases (accessible_post u k w)) [
  | inl (p, e) ↦ rw (e, ◌>>=◌) refl
  | inr (s, c, e) ↦ rw (e, ◌>>=◌) refl
]

AllSound-notified :
    (u k : ℕ) (is : List NotificationInput) (w : World)
    → AllSound w
    → AllSound (accessible_post_detail u k (create_notifications is w)).1
AllSound-notified u k is w h =
    rw (detail-reads u k (create_notifications is w), posts-notified is w)
      (All-weaken (IsSound w.next_id) (IsSound (create_notifications is w).next_id) w.posts
        (λ p. IsSound-later _ _ p (next-notified is w)) h)

AllSound-change :
    (k : ℕ) (f : RecruitingPost → RecruitingPost) (w : World)
    → ((p : RecruitingPost) → IsSound w.next_id p → IsSound w.next_id (f p))
    → AllSound w
    → All (IsSound w.next_id) (change_first (is_post k) f w.posts)
AllSound-change k f w keeps h =
    All-change_first (is_post k) (IsSound w.next_id) f w.posts (λ p e. keeps p) h

IsSound-new : (n k u t : ℕ) (d : CreatePost) → IsSound n (new_post k u t d)
IsSound-new n k u t d = record { once = tt; others = λ h. h; fresh = tt; cleared = λ h. refl }

create-AllSound : (u : ℕ) (d : CreatePost) (w : World) → AllSound w → AllSound (create_post u d w).1
unfolding create_post
create-AllSound u d w h = elim (Outcome-cases (assert_group_member d.group_id u w)) [
  | inl (a, e) ↦
      rw (e, ◌>>=◌)
        (AllSound-notified u w.next_id _ _ (
          All-append (IsSound (w.next_id + 1)) w.posts _
            (All-weaken (IsSound w.next_id) (IsSound (w.next_id + 1)) w.posts
              (λ p. IsSound-later _ _ p (omega arith)) h)
            (IsSound-new _ w.next_id u w.now d, tt)))
  | inr (s, c, e) ↦ rw (e, ◌>>=◌) h
]

update-AllSound :
    (u k : ℕ) (d : UpdatePost) (w : World) → AllSound w → AllSound (update_post u k d w).1
unfolding update_post
update-AllSound u k d w h = elim (Outcome-cases (mutable_post u k w)) [
  | inl (p, e) ↦ elim (Bool-cases (is_empty_update d)) [
    | inl nothing ↦ rw (e, ◌>>=◌, nothing) h
    | inr some_field ↦
        rw (e, ◌>>=◌, some_field)
          (AllSound-change k (updated_post d) w (IsSound-updated w.next_id d) h)
  ]
  | inr (s, c, e) ↦ rw (e, ◌>>=◌) h
]

delete-AllSound : (u k : ℕ) (w : World) → AllSound w → AllSound (delete_post u k w).1
unfolding delete_post
delete-AllSound u k w h = elim (Outcome-cases (mutable_post u k w)) [
  | inl (p, e) ↦
      rw (e, ◌>>=◌)
        (AllSound-change k (deleted_post w.now) w (λ p s. IsSound-deleted w.next_id w.now p) h)
  | inr (s, c, e) ↦ rw (e, ◌>>=◌) h
]

cancel-AllSound : (u k : ℕ) (w : World) → AllSound w → AllSound (cancel_application u k w).1
unfolding cancel_application
cancel-AllSound u k w h = elim (Outcome-cases (cancel_ready u k w)) [
  | inl ((p, a), e) ↦
      rw (e, ◌>>=◌)
        (AllSound-notified u k _ _
          (AllSound-change k (without_application a.id) w (IsSound-without w.next_id a.id) h))
  | inr (s, c, e) ↦ rw (e, ◌>>=◌) h
]

status-AllSound :
    (u k : ℕ) (s : RecruitingPostStatus) (w : World)
    → AllSound w
    → AllSound (update_post_status u k s w).1
unfolding update_post_status with_status
status-AllSound u k s w h = elim (Outcome-cases (post_status_ready u k w)) [
  | inl (p, e) ↦
      rw (e, ◌>>=◌)
        (AllSound-change k (with_status s) w
          (λ p r. record { once = r.once; others = r.others; fresh = r.fresh; cleared = r.cleared })
          h)
  | inr (s', c, e) ↦ rw (e, ◌>>=◌) h
]

apply-AllSound :
    (u k : ℕ) (d : ApplyInput) (w : World) → AllSound w → AllSound (apply_to_post u k d w).1
apply-AllSound u k d w h = elim (Outcome-cases (apply_ready u k w)) [
  | inl (p, e) ↦
      let t = apply_ready-IsOpenTo u k w p e in
      rw (apply_to_post-applied u k d w p e) (
        AllSound-notified u k _ (applied u k d w) (
          All-change_first (is_post k) (IsSound (w.next_id + 1)) _ w.posts
            (λ q f s.
              let found : some p ≡ some q = sym t.found ∙ f in
              let same : p ≡ q = cc in
              rw (← same) (
                IsSound-with (w.next_id + 1) (new_application w.next_id u w.now d) p (rw same s)
                  (omega arith) t.new t.other t.live))
            (All-weaken (IsSound w.next_id) (IsSound (w.next_id + 1)) w.posts
              (λ p. IsSound-later _ _ p (omega arith)) h)))
  | inr (s, c, e) ↦ rw (apply_to_post-refused u k d w s c e) h
]

serve-AllSound : (q : PostRequest) (w : World) → AllSound w → AllSound (serve q w)
unfolding serve
serve-AllSound (PostRequest.create u d) w h = create-AllSound u d w h
serve-AllSound (PostRequest.update u k d) w h = update-AllSound u k d w h
serve-AllSound (PostRequest.delete u k) w h = delete-AllSound u k w h
serve-AllSound (PostRequest.cancel u k) w h = cancel-AllSound u k w h
serve-AllSound (PostRequest.apply_for u k d) w h = apply-AllSound u k d w h
serve-AllSound (PostRequest.set_status u k s) w h = status-AllSound u k s w h

-- Whatever requests come in, and in whatever order, on every post no one has applied twice, the
-- author has not applied, and a deleted post has no applications, where all this held before.
pub serve_all-AllSound :
    (qs : List PostRequest) (w : World) → AllSound w → AllSound (serve_all qs w)
unfolding serve_all
serve_all-AllSound [] w h = h
serve_all-AllSound (q ∷ qs) w h = serve_all-AllSound qs (serve q w) (serve-AllSound q w h)
