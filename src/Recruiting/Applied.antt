-- ===== src/Recruiting/Applied.antt =====
-- applyToPost of recruiting/recruiting.service.ts, whole: what it leaves, refused or not.
use inhouse_maker_core_serve.Common.{
  ℕ, ◌+◌, ◌≡◌, refl, ap, ◌∙◌, false, some, [], ◌∷◌, ◌++◌, any, change_first, find?-holds, nat_eq,
  eq_nat_iff,
}
use inhouse_maker_core_serve.Model.World.{World, RecruitingPost, NotificationType, AuditAction}
use inhouse_maker_core_serve.Model.Outcome.{ok, err, HttpStatus, AppErrorCode}
use inhouse_maker_core_serve.Model.Action.{
  Action, ◌>>=◌, ◌>>◌, bind-ok, check, audit, create_many, create_notifications,
}
use inhouse_maker_core_serve.Recruiting.{is_post, applies, apply_ready}
use inhouse_maker_core_serve.Recruiting.Changes.{ApplyInput, new_application, with_application}
use inhouse_maker_core_serve.Recruiting.Detail.{PostDetail}
use inhouse_maker_core_serve.Recruiting.Handlers.{
  apply_to_post, create_application, accessible_post_detail, author_notification,
}
use inhouse_maker_core_serve.Recruiting.Ready.{apply_ready-IsOpenTo}

-- The world with the application and its audit entry.
abbrev with_row : ℕ → ℕ → ApplyInput → World → World
with_row u k d w = record w {
  posts = change_first (is_post k) (with_application (new_application w.next_id u w.now d)) w.posts;
  next_id = w.next_id + 1;
}

abbrev pub applied : ℕ → ℕ → ApplyInput → World → World
applied u k d w = record (with_row u k d w) {
  audit_log =
      w.audit_log
      ++ record { user_id = some u; action = AuditAction.recruiting_apply; entity_id = k } ∷ [];
}

-- What follows the write.
abbrev tell : ℕ → ℕ → RecruitingPost → Action PostDetail
tell u k p = do
  audit (some u) AuditAction.recruiting_apply k
  create_many (author_notification NotificationType.recruiting_applied p ∷ [])
  accessible_post_detail u k

create_application-new :
    (u : ℕ) (p : RecruitingPost) (d : ApplyInput) (w : World)
    → any (applies u) p.applications ≡ false
    → create_application u p d w ≡ (ok tt, with_row u p.id d w)
unfolding create_application
create_application-new u p d w new = rw (new, ◌>>=◌) refl

pub apply_to_post-applied :
    (u k : ℕ) (d : ApplyInput) (w : World) (p : RecruitingPost)
    → apply_ready u k w ≡ ok p
    → apply_to_post u k d w
      ≡ accessible_post_detail u k (
          create_notifications
            (author_notification NotificationType.recruiting_applied p ∷ [])
            (applied u k d w))
unfolding apply_to_post
apply_to_post-applied u k d w p e =
    let t = apply_ready-IsOpenTo u k w p e in
    let new : any (applies u) p.applications ≡ false = t.new in
    let at_key : p.id ≡ k = (eq_nat_iff p.id k).0 (find?-holds (is_post k) w.posts p t.found) in
    let row : create_application u p d w ≡ (ok tt, with_row u k d w) =
      rw (← at_key) (create_application-new u p d w new) in
    bind-ok (check (apply_ready u k)) (λ p. create_application u p d >> tell u k p) w p w
      (ap (λ o. (o, w)) e)
    ∙ bind-ok (create_application u p d) (λ _. tell u k p) w tt (with_row u k d w) row

pub apply_to_post-refused :
    (u k : ℕ) (d : ApplyInput) (w : World) (s : HttpStatus) (c : AppErrorCode)
    → apply_ready u k w ≡ err s c
    → apply_to_post u k d w ≡ (err s c, w)
unfolding apply_to_post
apply_to_post-refused u k d w s c e = rw (e, ◌>>=◌) refl
