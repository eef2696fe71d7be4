-- ===== src/Recruiting/Listing.antt =====
-- The lists of recruiting/recruiting.service.ts: listPublicPosts, listPosts and listApplicants.
-- A date in a query is a whole day, counted from the epoch, or an instant; both are checked before.
use inhouse_maker_core_serve.Common.{
  ℕ, ◌+◌, ◌*◌, ◌-◌, Bool, true, false, not, ◌&&◌, ◌||◌, Option, none, some, List, [], ◌∷◌,
  if◌then◌else◌, ◌==◌, nat_eq, string_eq, any, contains, is_some, or_else, leb, ltb, filter, take,
  String,
}
use inhouse_maker_core_serve.Common.Sorting.{sort}
use inhouse_maker_core_serve.Model.Enums.{Position, position_eq}
use inhouse_maker_core_serve.Model.Kinds.{
  GroupVisibility, visibility_eq, RecruitingPostType, post_type_eq, RecruitingPostStatus,
  post_status_eq,
}
use inhouse_maker_core_serve.Model.World.{World, Application, RecruitingPost}
use inhouse_maker_core_serve.Model.Outcome.{
  Outcome, ok, err, ◌>>=◌, ◌>>◌, reject_if, HttpStatus, AppErrorCode,
}
use inhouse_maker_core_serve.Blocks.{visible_author}
use inhouse_maker_core_serve.Groups.{find_group, find_membership, assert_group_member}
use inhouse_maker_core_serve.Recruiting.{in_active_group, has_visibility, applicants_ready}

pub data DateString : Type 0 where
  day instant : ℕ → DateString

-- RecruitingQueryDto; an absent list and an empty one are the same to the code.
pub record PostQuery : Type 0 where
  pub group_id : Option ℕ
  pub post_type : Option RecruitingPostType
  pub status : Option RecruitingPostStatus
  pub scheduled_from : Option DateString
  pub scheduled_to : Option DateString
  pub include_unscheduled : Bool
  pub required_positions : List Position
  pub region : List String
  pub tags : List String
  pub limit : Option ℕ

abbrev day_ms : ℕ
day_ms = 86400000

-- parseDateBoundary
abbrev start_boundary : DateString → ℕ
start_boundary (DateString.day n) = n * day_ms
start_boundary (DateString.instant t) = t

abbrev end_boundary : DateString → ℕ
end_boundary (DateString.day n) = n * day_ms + (day_ms - 1)
end_boundary (DateString.instant t) = t

abbrev option_map : {A B : Type 0} → (A → B) → Option A → Option B
option_map f none = none
option_map f (some x) = some (f x)

abbrev is_after : Option ℕ → Option ℕ → Bool
is_after (some from) (some to) = ltb to from
is_after _ _ = false

abbrev not_before : Option ℕ → ℕ → Bool
not_before none t = true
not_before (some from) t = leb from t

abbrev not_after : Option ℕ → ℕ → Bool
not_after none t = true
not_after (some to) t = leb t to

-- buildScheduledAtFilter: the condition on the time of a post, unless it throws.
unfoldable pub scheduled_at_filter : PostQuery → Outcome (Option ℕ → Bool)
scheduled_at_filter q =
    let from = option_map start_boundary q.scheduled_from in
    let to = option_map end_boundary q.scheduled_to in
    if not (is_some from) && not (is_some to)
    then ok (λ _. true)
    else if is_after from to
    then err HttpStatus.bad_request AppErrorCode.validation_error
    else ok (λ at. elim at [
      | none ↦ q.include_unscheduled
      | some t ↦ not_before from t && not_after to t
    ])

-- A condition that is set only for a value, or for a list that is not empty.
abbrev if_given : {A : Type 0} → Option A → (A → Bool) → Bool
if_given none p = true
if_given (some x) p = p x

abbrev any_of : {A : Type 0} → List A → (A → Bool) → Bool
any_of [] p = true
any_of (x ∷ xs) p = any p (x ∷ xs)

abbrev region_in : List String → RecruitingPost → World → Bool
region_in [] p w = true
region_in (r ∷ rs) p w = elim (find_group p.group_id w) [
  | none ↦ false
  | some g ↦ elim g.region [ none ↦ false | some here ↦ contains here (r ∷ rs) ]
]

-- buildPostVisibilityWhere
unfoldable pub visible_group : PostQuery → Option ℕ → Bool → RecruitingPost → World → Bool
visible_group q requester public_only p w =
    if public_only
    then has_visibility GroupVisibility.public_group p w
    else if is_some q.group_id
    then true
    else elim requester [
      | none ↦ true
      | some u ↦
          has_visibility GroupVisibility.public_group p w
          || is_some (find_membership p.group_id u w)
    ]

-- buildPostWhere, for a post and the condition on its time.
unfoldable pub post_where :
    PostQuery
    → Option ℕ
    → Bool
    → Option RecruitingPostStatus
    → (Option ℕ → Bool)
    → World
    → RecruitingPost
    → Bool
unfolding visible_group visible_author
post_where q requester public_only default_status on_time w p =
    not (is_some p.deleted_at)
    && in_active_group p w
    && if_given q.group_id (λ g. p.group_id == g)
    && if_given q.post_type (λ t. p.post_type == t)
    && if_given (elim q.status [ none ↦ default_status | some s ↦ some s ]) (λ s. p.status == s)
    && on_time p.scheduled_at
    && any_of q.required_positions (λ r. contains r p.required_positions)
    && region_in q.region p w
    && any_of q.tags (λ t. contains t (or_else p.tags []))
    && visible_group q requester public_only p w
    && if_given requester (λ u. visible_author u p.created_by w)

-- `orderBy: [{ scheduledAt: 'asc' }, { createdAt: 'desc' }]`, posts without a time last.
abbrev pub comes_after : RecruitingPost → RecruitingPost → Bool
comes_after l r = elim l.scheduled_at [
  | none ↦ is_some r.scheduled_at || ltb l.created_at r.created_at
  | some a ↦ elim r.scheduled_at [
    | none ↦ false
    | some b ↦ ltb b a || (a == b && ltb l.created_at r.created_at)
  ]
]

-- The group of the query, for listPublicPosts and for listPosts.
unfoldable pub public_group_ready : PostQuery → World → Outcome (Unit {0})
public_group_ready q w = elim q.group_id [
  | none ↦ ok tt
  | some k ↦ elim (find_group k w) [
    | none ↦ err HttpStatus.not_found AppErrorCode.not_found
    | some g ↦
        reject_if (is_some g.archived_at || not (g.visibility == GroupVisibility.public_group))
          HttpStatus.not_found AppErrorCode.not_found
  ]
]

unfoldable pub member_group_ready : ℕ → PostQuery → World → Outcome (Unit {0})
member_group_ready requester q w = elim q.group_id [
  | none ↦ ok tt
  | some k ↦ elim (find_group k w) [
    | none ↦ err HttpStatus.not_found AppErrorCode.not_found
    | some g ↦
        if is_some g.archived_at
        then err HttpStatus.not_found AppErrorCode.not_found
        else if g.visibility == GroupVisibility.private_group
        then (assert_group_member k requester w >>= λ _. ok tt)
        else ok tt
  ]
]

-- The posts of the two lists; toListItem copies their fields and counts their applications.
unfoldable pub list_public_posts : PostQuery → World → Outcome (List RecruitingPost)
unfolding sort
list_public_posts q w = do
  public_group_ready q w
  on_time ← scheduled_at_filter q
  ok (
      take (or_else q.limit 20) (
        sort comes_after (
          filter (post_where q none true (some RecruitingPostStatus.recruiting) on_time w)
            w.posts)))

unfoldable pub list_posts : ℕ → PostQuery → World → Outcome (List RecruitingPost)
unfolding sort
list_posts requester q w = do
  member_group_ready requester q w
  on_time ← scheduled_at_filter q
  ok (sort comes_after (filter (post_where q (some requester) false none on_time w) w.posts))

-- listApplicants: the first to apply comes first.
unfoldable pub list_applicants : ℕ → ℕ → World → Outcome (List Application)
unfolding sort
list_applicants requester post w = do
  p ← applicants_ready requester post w
  ok (sort (λ l r. ltb r.created_at l.created_at) p.applications)
