-- ===== src/Recruiting/Changes.antt =====
-- The writes to recruiting posts of recruiting/recruiting.service.ts.
use inhouse_maker_core_serve.Common.{
  ℕ, Bool, not, Option, none, some, List, [], ◌∷◌, ◌++◌, ◌==◌, nat_eq, ◌||◌, filter, is_some,
  or_else, String,
}
use inhouse_maker_core_serve.Model.Enums.{Position}
use inhouse_maker_core_serve.Model.Kinds.{RecruitingPostType, RecruitingPostStatus}
use inhouse_maker_core_serve.Model.World.{Application, RecruitingPost}

-- CreateRecruitingPostDto; dates are numbers of milliseconds.
pub record CreatePost : Type 0 where
  pub group_id : ℕ
  pub post_type : RecruitingPostType
  pub title : String
  pub body : Option String
  pub tags : Option (List String)
  pub scheduled_at : Option ℕ
  pub required_positions : Option (List Position)

-- UpdateRecruitingPostDto: a field that is not given, and one that is given as null, differ.
pub record UpdatePost : Type 0 where
  pub title : Option String
  pub body : Option (Option String)
  pub tags : Option (List String)
  pub scheduled_at : Option (Option ℕ)
  pub required_positions : Option (List Position)
  pub status : Option RecruitingPostStatus

-- ApplyRecruitingPostDto
pub record ApplyInput : Type 0 where
  pub position : Option Position
  pub memo : Option String

abbrev pub new_post : ℕ → ℕ → ℕ → CreatePost → RecruitingPost
new_post k requester now d = record {
  id = k;
  group_id = d.group_id;
  created_by = requester;
  post_type = d.post_type;
  title = d.title;
  body = d.body;
  tags = d.tags;
  scheduled_at = d.scheduled_at;
  required_positions = or_else d.required_positions [];
  status = RecruitingPostStatus.recruiting;
  deleted_at = none;
  created_at = now;
  applications = [];
}

-- `Object.keys(data).length === 0`
abbrev pub is_empty_update : UpdatePost → Bool
is_empty_update d = not (
    is_some d.title
    || is_some d.body
    || is_some d.tags
    || is_some d.required_positions
    || is_some d.scheduled_at
    || is_some d.status)

-- `recruitingPost.update` with the data of buildPostUpdateData.
unfoldable pub updated_post : UpdatePost → RecruitingPost → RecruitingPost
updated_post d p = record p {
  title = or_else d.title p.title;
  body = or_else d.body p.body;
  tags = elim d.tags [ none ↦ p.tags | some ts ↦ some ts ];
  scheduled_at = or_else d.scheduled_at p.scheduled_at;
  required_positions = or_else d.required_positions p.required_positions;
  status = or_else d.status p.status;
}

-- The transaction of deletePost.
unfoldable pub deleted_post : ℕ → RecruitingPost → RecruitingPost
deleted_post now p = record p {
  applications = [];
  deleted_at = some now;
  status = RecruitingPostStatus.cancelled;
}

abbrev pub new_application : ℕ → ℕ → ℕ → ApplyInput → Application
new_application k requester now d = record {
  id = k;
  user_id = requester;
  position = d.position;
  memo = d.memo;
  created_at = now;
}

unfoldable pub with_application : Application → RecruitingPost → RecruitingPost
with_application a p = record p { applications = p.applications ++ a ∷ [] }

-- `delete` by the application's id.
unfoldable pub without_application : ℕ → RecruitingPost → RecruitingPost
without_application k p = record p { applications = filter (λ a. not (a.id == k)) p.applications }
