-- ===== src/Admin.antt =====
-- What a system admin may read and change: admin/admin.service.ts. Lists of users, audit entries and
-- disputed results are left out; they are cut into pages the same way.
pub mod Handlers
pub mod Paging
use inhouse_maker_core_serve.Common.{
  ℕ, ◌+◌, Bool, true, false, not, ◌&&◌, Option, none, some, List, [], ◌∷◌, if◌then◌else◌, ◌==◌,
  nat_eq, filter, find?, take, is_some, or_else, ltb, length, zero, suc,
}
use inhouse_maker_core_serve.Common.Sorting.{sort}
use inhouse_maker_core_serve.Model.Kinds.{RecruitingPostStatus, post_status_eq}
use inhouse_maker_core_serve.Model.World.{World, RecruitingPost, User}
use inhouse_maker_core_serve.Model.Outcome.{
  Outcome, ok, ◌>>=◌, ◌>>◌, reject_if, or_reject, HttpStatus, AppErrorCode,
}
use inhouse_maker_core_serve.Groups.{is_system_admin}

-- `skip`
abbrev pub drop : {A : Type 0} → ℕ → List A → List A
drop zero xs = xs
drop (suc n) [] = []
drop (suc n) (x ∷ xs) = drop n xs

-- buildPagination
pub record Pagination : Type 0 where
  pub limit : ℕ
  pub offset : ℕ
  pub has_more : Bool
  pub next_offset : Option ℕ

unfoldable pub build_pagination : ℕ → ℕ → ℕ → ℕ → Pagination
build_pagination limit offset total count =
    let next = if ltb (offset + count) total then some (offset + count) else none in
    record { limit = limit; offset = offset; has_more = is_some next; next_offset = next }

pub record Page (A : Type 0) : Type 0 where
  pub items : List A
  pub pagination : Pagination

-- `findMany` with `skip` and `take`, `count`, and the pagination of both.
unfoldable pub page : {A : Type 0} → ℕ → ℕ → List A → Page A
unfolding build_pagination
page limit offset rows =
    let items = take limit (drop offset rows) in
    record {
      items = items;
      pagination = build_pagination limit offset (length rows) (length items);
    }

abbrev pub assert_admin : ℕ → World → Outcome (Unit {0})
assert_admin user w =
    reject_if (not (is_system_admin user w)) HttpStatus.forbidden AppErrorCode.forbidden

abbrev if_given : {A : Type 0} → Option A → (A → Bool) → Bool
if_given none p = true
if_given (some x) p = p x

-- AdminRecruitingPostsQueryDto
pub record AdminPostsQuery : Type 0 where
  pub group_id : Option ℕ
  pub status : Option RecruitingPostStatus
  pub limit : Option ℕ
  pub offset : Option ℕ

-- listRecruitingPosts
unfoldable pub list_recruiting_posts : ℕ → AdminPostsQuery → World → Outcome (Page RecruitingPost)
unfolding sort page
list_recruiting_posts requester q w = do
  assert_admin requester w
  ok (
      page (or_else q.limit 20) (or_else q.offset 0) (
        sort (λ l r. ltb l.created_at r.created_at)
          (filter
            (λ p.
              if_given q.group_id (λ g. p.group_id == g) && if_given q.status (λ s. p.status == s))
            w.posts)))

-- updateAdminFlag and updateRecruitingPostStatus, up to the write.
unfoldable pub admin_flag_ready : ℕ → ℕ → World → Outcome User
admin_flag_ready requester target w = do
  assert_admin requester w
  or_reject (find? (λ u. u.id == target) w.users) HttpStatus.not_found AppErrorCode.not_found

unfoldable pub post_status_ready : ℕ → ℕ → World → Outcome RecruitingPost
post_status_ready requester post w = do
  assert_admin requester w
  or_reject (find? (λ p. p.id == post) w.posts) HttpStatus.not_found AppErrorCode.not_found
