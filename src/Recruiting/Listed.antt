-- ===== src/Recruiting/Listed.antt =====
-- The posts that listPosts of recruiting/recruiting.service.ts shows, against getPost.
use inhouse_maker_core_serve.Common.{
  ℕ, ◌≡◌, refl, Bool, true, false, not, ◌&&◌, ◌||◌, Option, none, some, List, arith, All,
  All-filter_holds, All-weaken, filter, is_some, Option-cases, inl, inr, nat_eq,
}
use inhouse_maker_core_serve.Common.Sorting.{sort}
use inhouse_maker_core_serve.Common.Sorting.Laws.{All-sort}
use inhouse_maker_core_serve.Model.Kinds.{GroupVisibility, visibility_eq}
use inhouse_maker_core_serve.Model.World.{World, RecruitingPost}
use inhouse_maker_core_serve.Model.Outcome.{ok, err, Outcome-cases, ◌>>=◌}
use inhouse_maker_core_serve.Blocks.{visible_author}
use inhouse_maker_core_serve.Groups.{
  find_membership, group_access, assert_active, assert_group_member,
}
use inhouse_maker_core_serve.Recruiting.{is_live, has_visibility, find_post_detail, get_post_ready}
use inhouse_maker_core_serve.Recruiting.Listing.{
  PostQuery, comes_after, post_where, visible_group, member_group_ready, scheduled_at_filter,
  list_posts,
}
use inhouse_maker_core_serve.Recruiting.Ready.{find_post}

-- What the reader of a post has to satisfy.
abbrev is_readable : ℕ → World → RecruitingPost → Bool
is_readable u w p =
    is_live w p
    && visible_author u p.created_by w
    && (has_visibility GroupVisibility.public_group p w || is_some (find_membership p.group_id u w))

readable-private :
    (u : ℕ) (p : RecruitingPost) (w : World)
    → is_readable u w p ≡ true
    → (has_visibility GroupVisibility.private_group p w
        && not (is_some (find_membership p.group_id u w)))
      ≡ false
readable-private u p w h = ground arith

is_readable-get_post_ready :
    (u : ℕ) (w : World) (p : RecruitingPost)
    → find_post p.id w ≡ some p
    → is_readable u w p ≡ true
    → get_post_ready u p.id w ≡ ok p
unfolding get_post_ready find_post_detail
is_readable-get_post_ready u w p found h =
    let seen : (is_live w p && visible_author u p.created_by w) ≡ true = ground arith in
    let admitted = readable-private u p w h in rw (found, seen, ◌>>=◌, admitted) refl

-- The group of the query admits the requester.
group-admits :
    (u k : ℕ) (q : PostQuery) (w : World) (p : RecruitingPost)
    → q.group_id ≡ some k
    → p.group_id ≡ k
    → member_group_ready u q w ≡ ok tt
    → (has_visibility GroupVisibility.public_group p w || is_some (find_membership p.group_id u w))
      ≡ true
unfolding member_group_ready assert_group_member group_access assert_active
group-admits u k q w p given same e = ground arith

post_where-is_readable :
    (u : ℕ) (q : PostQuery) (on_time : Option ℕ → Bool) (w : World) (p : RecruitingPost)
    → member_group_ready u q w ≡ ok tt
    → post_where q (some u) false none on_time w p ≡ true
    → is_readable u w p ≡ true
unfolding post_where visible_group
post_where-is_readable u q on_time w p e h = elim (Option-cases q.group_id) [
  | inl everywhere ↦ ground arith
  | inr (k, given) ↦
      let same : p.group_id ≡ k = ground arith in
      let admitted = group-admits u k q w p given same e in ground arith
]

-- Every post that a list shows its requester, with a group in the query or without, can be opened by
-- the same requester, where an id belongs to one post.
pub list_posts-get_post_ready :
    (u : ℕ) (q : PostQuery) (w : World) (shown : List RecruitingPost)
    → All (λ p. find_post p.id w ≡ some p) w.posts
    → list_posts u q w ≡ ok shown
    → All (λ p. get_post_ready u p.id w ≡ ok p) shown
unfolding list_posts
list_posts-get_post_ready u q w shown unique e = elim (Outcome-cases (member_group_ready u q w)) [
  | inr (s, c, refused) ↦ let out : err s c ≡ ok shown = rw (refused, ◌>>=◌) at e in cc
  | inl (x, admitted) ↦ elim (Outcome-cases (scheduled_at_filter q)) [
    | inr (s, c, refused) ↦
        let out : err s c ≡ ok shown = rw (admitted, ◌>>=◌, refused, ◌>>=◌) at e in cc
    | inl (on_time, range) ↦
        let keep = post_where q (some u) false none on_time w in
        let out : ok (sort comes_after (filter keep w.posts)) ≡ ok shown =
          rw (admitted, ◌>>=◌, range, ◌>>=◌) at e in
        let same : sort comes_after (filter keep w.posts) ≡ shown = cc in
        rw (← same) (
          All-sort comes_after (λ p. get_post_ready u p.id w ≡ ok p) (filter keep w.posts)
            (All-weaken _ _ (filter keep w.posts)
              (λ p h.
                is_readable-get_post_ready u w p h.0
                  (post_where-is_readable u q on_time w p admitted h.1))
              (All-filter_holds (λ p. find_post p.id w ≡ some p) keep w.posts unique)))
  ]
]
