-- ===== src/Recruiting/RoundTrip.antt =====
-- Applying to a post of recruiting/recruiting.service.ts, and taking the application back.
use inhouse_maker_core_serve.Common.{
  ℕ, ◌+◌, ◌≤◌, ◌<◌, ◌≡◌, refl, ap, ◌∙◌, true, false, not, Option, none, some, List, [], ◌∷◌, ◌++◌,
  arith, All, All-find?, any, any-append, filter, find?, length, length-append, change_first,
  find?-holds, find?-change_first, change_first-change_first, ◌==◌, nat_eq,
}
use inhouse_maker_core_serve.Model.World.{World, RecruitingPost, Application, NotificationType}
use inhouse_maker_core_serve.Model.Outcome.{Outcome, ok, ◌>>=◌ as bind}
use inhouse_maker_core_serve.Model.Action.{◌>>=◌, create_notifications}
use inhouse_maker_core_serve.Recruiting.{
  is_post, is_live, applies, applicant_capacity, is_full, apply_ready, cancel_ready,
}
use inhouse_maker_core_serve.Recruiting.Changes.{
  ApplyInput, new_application, with_application, without_application,
}
use inhouse_maker_core_serve.Recruiting.Handlers.{
  apply_to_post, cancel_application, author_notification,
}
use inhouse_maker_core_serve.Recruiting.Ready.{find_post, IsOpenTo, apply_ready-IsOpenTo}
use inhouse_maker_core_serve.Recruiting.Applied.{applied, apply_to_post-applied}
use inhouse_maker_core_serve.Recruiting.Sound.{IsSound}
use inhouse_maker_core_serve.Recruiting.Requests.{AllSound, posts-notified, detail-reads}

-- At most as many as there are places, where places are counted.
abbrev pub IsWithin : Option ℕ → ℕ → Type 0
IsWithin none n = Unit
IsWithin (some capacity) n = n ≤ capacity

abbrev pub told : ℕ → ℕ → ApplyInput → RecruitingPost → World → World
told u k d p w =
    create_notifications (author_notification NotificationType.recruiting_applied p ∷ [])
      (applied u k d w)

world-apply :
    (u k : ℕ) (d : ApplyInput) (w : World) (p : RecruitingPost)
    → apply_ready u k w ≡ ok p
    → (apply_to_post u k d w).1 ≡ told u k d p w
world-apply u k d w p e =
    ap (λ (r : Outcome _ × World). r.1) (apply_to_post-applied u k d w p e)
    ∙ detail-reads u k (told u k d p w)

same_key :
    (k : ℕ) (a : Application) (p : RecruitingPost)
    → is_post k p ≡ true
    → is_post k (with_application a p) ≡ true
unfolding with_application
same_key k a p h = h

post-told :
    (u k : ℕ) (d : ApplyInput) (w : World) (p : RecruitingPost)
    → IsOpenTo u k w p
    → find_post k (told u k d p w) ≡ some (with_application (new_application w.next_id u w.now d) p)
post-told u k d w p t =
    rw
      (posts-notified (author_notification NotificationType.recruiting_applied p ∷ [])
        (applied u k d w))
      (find?-change_first (is_post k) (with_application (new_application w.next_id u w.now d))
        w.posts p t.found (same_key k _ p (find?-holds (is_post k) w.posts p t.found)))

length-with :
    (a : Application) (p : RecruitingPost)
    → length (with_application a p).applications ≡ length p.applications + 1
unfolding with_application
length-with a p = omega (arith, length-append p.applications (a ∷ []))

full-IsWithin : (o : Option ℕ) (n : ℕ) → is_full o n ≡ false → IsWithin o (n + 1)
full-IsWithin none n h = tt
full-IsWithin (some c) n h = ground arith

with-IsWithin :
    (a : Application) (p : RecruitingPost)
    → is_full (applicant_capacity p) (length p.applications) ≡ false
    → IsWithin (applicant_capacity (with_application a p)) (length p.applications + 1)
unfolding with_application
with-IsWithin a p h = full-IsWithin (applicant_capacity p) (length p.applications) h

any-with :
    (u : ℕ) (a : Application) (p : RecruitingPost)
    → a.user_id ≡ u
    → any (applies u) (with_application a p).applications ≡ true
unfolding with_application
any-with u a p mine = rw (any-append (applies u) p.applications (a ∷ [])) (ground arith)

-- An application that passes the checks is there afterwards, as one more on its post, and there are
-- then no more applications than places.
pub apply_to_post-IsWithin :
    (u k : ℕ) (d : ApplyInput) (w : World) (p : RecruitingPost)
    → apply_ready u k w ≡ ok p
    → (q : RecruitingPost) × (find_post k (apply_to_post u k d w).1 ≡ some q)
      × (length q.applications ≡ length p.applications + 1)
      × (any (applies u) q.applications ≡ true)
      × IsWithin (applicant_capacity q) (length q.applications)
apply_to_post-IsWithin u k d w p e =
    let t = apply_ready-IsOpenTo u k w p e in
    let a = new_application w.next_id u w.now d in
    (
      with_application a p,
      rw (world-apply u k d w p e) (post-told u k d w p t),
      length-with a p,
      any-with u a p refl,
      rw (length-with a p) (with-IsWithin a p t.room),
    )

filter-new :
    (n : ℕ) (a : Application) (bs : List Application)
    → a.id ≡ n
    → All (λ b. b.id < n) bs
    → filter (λ b. not (b.id == n)) (bs ++ a ∷ []) ≡ bs
filter-new n a [] same h = ground arith
filter-new n a (b ∷ bs) same (hb, h) = ground (arith, filter-new n a bs same h)

find-new :
    (u : ℕ) (a : Application) (bs : List Application)
    → a.user_id ≡ u
    → any (applies u) bs ≡ false
    → find? (applies u) (bs ++ a ∷ []) ≡ some a
find-new u a [] same h = ground arith
find-new u a (b ∷ bs) same h = ground (arith, find-new u a bs same)

without-with :
    (n : ℕ) (a : Application) (p : RecruitingPost)
    → IsSound n p
    → a.id ≡ n
    → without_application n (with_application a p) ≡ p
unfolding with_application without_application
without-with n a p s same =
    ap (λ (bs : List Application). record p { applications = bs })
      (filter-new n a p.applications same s.fresh)

world-cancel :
    (u k : ℕ) (w : World) (p : RecruitingPost) (a : Application)
    → cancel_ready u k w ≡ ok (p, a)
    → (cancel_application u k w).1.posts
      ≡ change_first (is_post k) (without_application a.id) w.posts
unfolding cancel_application
world-cancel u k w p a e = rw (e, ◌>>=◌) (rw detail-reads (rw posts-notified refl))

live-told :
    (u k : ℕ) (d : ApplyInput) (w : World) (p : RecruitingPost) (a : Application)
    → is_live w p ≡ true
    → is_live (told u k d p w) (with_application a p) ≡ true
unfolding with_application create_notifications
live-told u k d w p a h = h

find-with :
    (u : ℕ) (a : Application) (p : RecruitingPost)
    → a.user_id ≡ u
    → any (applies u) p.applications ≡ false
    → find? (applies u) (with_application a p).applications ≡ some a
unfolding with_application
find-with u a p mine h = find-new u a p.applications mine h

cancel_ready-told :
    (u k : ℕ) (d : ApplyInput) (w : World) (p : RecruitingPost)
    → IsOpenTo u k w p
    → cancel_ready u k (told u k d p w)
      ≡ (let a = new_application w.next_id u w.now d in ok (with_application a p, a))
unfolding cancel_ready
cancel_ready-told u k d w p t =
    let a = new_application w.next_id u w.now d in
    let row = post-told u k d w p t in
    let live = live-told u k d w p a t.kept in
    let mine = find-with u a p refl t.new in rw (row, live, bind, mine) refl

-- Taking back an application that was just accepted leaves the posts and all applications to them
-- as they were before.
pub cancel-apply :
    (u k : ℕ) (d : ApplyInput) (w : World) (p : RecruitingPost)
    → AllSound w
    → apply_ready u k w ≡ ok p
    → (cancel_application u k (apply_to_post u k d w).1).1.posts ≡ w.posts
cancel-apply u k d w p sound e =
    let t = apply_ready-IsOpenTo u k w p e in
    let a = new_application w.next_id u w.now d in
    rw (world-apply u k d w p e) (
      world-cancel u k (told u k d p w) _ a (cancel_ready-told u k d w p t)
      ∙ rw (posts-notified _ (applied u k d w)) (
          change_first-change_first (is_post k) (with_application a) (without_application a.id)
            w.posts p t.found (same_key k a p (find?-holds (is_post k) w.posts p t.found))
            (without-with w.next_id a p
              (All-find? (IsSound w.next_id) (is_post k) w.posts sound t.found) refl)))
