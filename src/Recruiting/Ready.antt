-- ===== src/Recruiting/Ready.antt =====
-- What the checks of recruiting/recruiting.service.ts have found when they let a request through.
use inhouse_maker_core_serve.Common.{
  ℕ, ◌≡◌, true, false, ◌&&◌, Option, some, arith, ◌==◌, nat_eq, find?, find_where-find?, is_some,
  length,
}
use inhouse_maker_core_serve.Model.Kinds.{RecruitingPostStatus, post_status_eq}
use inhouse_maker_core_serve.Model.World.{World, RecruitingPost, Application}
use inhouse_maker_core_serve.Model.Outcome.{ok}
use inhouse_maker_core_serve.Blocks.{visible_author}
use inhouse_maker_core_serve.Recruiting.{
  is_post, is_live, applies, has_applied, applicant_capacity, is_full, find_post_detail,
  find_live_post, apply_ready, mutable_post, cancel_ready,
}

abbrev pub find_post : ℕ → World → Option RecruitingPost
find_post post w = find? (is_post post) w.posts

-- A post to which a user may apply.
pub record IsOpenTo (requester post : ℕ) (w : World) (p : RecruitingPost) : Type 0 where
  pub found : find_post post w ≡ some p
  pub kept : is_live w p ≡ true
  pub live : is_some p.deleted_at ≡ false
  pub opened : (p.status == RecruitingPostStatus.recruiting) ≡ true
  pub other : (p.created_by == requester) ≡ false
  pub new : has_applied requester p ≡ false
  pub room : is_full (applicant_capacity p) (length p.applications) ≡ false

pub record IsFound (post : ℕ) (w : World) (p : RecruitingPost) : Type 0 where
  pub found : find_post post w ≡ some p
  pub live : is_some p.deleted_at ≡ false

pub mutable_post-IsFound :
    (requester post : ℕ) (w : World) (p : RecruitingPost)
    → mutable_post requester post w ≡ ok p
    → IsFound post w p
unfolding mutable_post find_post_detail
mutable_post-IsFound requester post w p e =
    let read : find_post_detail post requester w ≡ some p = ground arith in
    let (found, kept) =
      find_where-find? (is_post post) (λ p. is_live w p && visible_author requester p.created_by w)
        w.posts p read in
    record { found = found; live = ground arith }

pub apply_ready-IsOpenTo :
    (requester post : ℕ) (w : World) (p : RecruitingPost)
    → apply_ready requester post w ≡ ok p
    → IsOpenTo requester post w p
unfolding apply_ready find_post_detail
apply_ready-IsOpenTo requester post w p e =
    let read : find_post_detail post requester w ≡ some p = ground arith in
    let (found, kept) =
      find_where-find? (is_post post) (λ p. is_live w p && visible_author requester p.created_by w)
        w.posts p read in
    record {
      found = found;
      kept = ground arith;
      live = ground arith;
      opened = ground arith;
      other = ground arith;
      new = ground arith;
      room = ground arith;
    }

-- The application that cancelApplication deletes.
pub record IsCancellable (requester post : ℕ) (w : World) (p : RecruitingPost) (a : Application)
    : Type 0 where
  pub found : find_post post w ≡ some p
  pub mine : find? (applies requester) p.applications ≡ some a

pub cancel_ready-IsCancellable :
    (requester post : ℕ) (w : World) (p : RecruitingPost) (a : Application)
    → cancel_ready requester post w ≡ ok (p, a)
    → IsCancellable requester post w p a
unfolding cancel_ready
cancel_ready-IsCancellable requester post w p a e =
    let read : find_live_post post w ≡ some p = ground arith in
    let (found, kept) = find_where-find? (is_post post) (is_live w) w.posts p read in
    record { found = found; mine = ground arith }
