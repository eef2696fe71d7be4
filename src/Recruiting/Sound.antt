-- ===== src/Recruiting/Sound.antt =====
-- Posts and their applications that belong together, and what each write of
-- recruiting/recruiting.service.ts does to them.
use inhouse_maker_core_serve.Common.{
  ℕ, ◌≤◌, ◌<◌, ◌≡◌, refl, true, false, not, List, [], ◌∷◌, map, arith, All, All-append, All-filter,
  All-weaken, Has, IsDistinct, is_some, not_Has-filter, IsDistinct-filter, Has-append_last,
  IsDistinct-append_last, eq_nat_iff, nat_eq, ◌==◌, inl, inr,
}
use inhouse_maker_core_serve.Model.World.{Application, RecruitingPost}
use inhouse_maker_core_serve.Recruiting.{has_applied}
use inhouse_maker_core_serve.Recruiting.Changes.{
  UpdatePost, updated_post, deleted_post, with_application, without_application,
}

abbrev pub applicant : Application → ℕ
applicant a = a.user_id

abbrev pub applicants : RecruitingPost → List ℕ
applicants p = map applicant p.applications

-- No one applies twice, the author does not apply, ids are below the next one to be given, and a
-- deleted post has no applications.
pub record IsSound (limit : ℕ) (p : RecruitingPost) : Type 0 where
  pub once : IsDistinct (applicants p)
  pub others : ¬ Has p.created_by (applicants p)
  pub fresh : All (λ a. a.id < limit) p.applications
  pub cleared : is_some p.deleted_at ≡ true → p.applications ≡ []

pub IsSound-later : (m n : ℕ) (p : RecruitingPost) → m ≤ n → IsSound m p → IsSound n p
IsSound-later m n p h s = record {
  once = s.once;
  others = s.others;
  fresh = All-weaken (λ a. a.id < m) (λ a. a.id < n) p.applications (λ a k. omega arith) s.fresh;
  cleared = s.cleared;
}

pub IsSound-updated :
    (n : ℕ) (d : UpdatePost) (p : RecruitingPost) → IsSound n p → IsSound n (updated_post d p)
unfolding updated_post
IsSound-updated n d p s = record {
  once = s.once;
  others = s.others;
  fresh = s.fresh;
  cleared = s.cleared;
}

pub IsSound-deleted : (n t : ℕ) (p : RecruitingPost) → IsSound n (deleted_post t p)
unfolding deleted_post
IsSound-deleted n t p = record { once = tt; others = λ h. h; fresh = tt; cleared = λ h. refl }

pub IsSound-with :
    (n : ℕ) (a : Application) (p : RecruitingPost)
    → IsSound n p
    → a.id < n
    → has_applied a.user_id p ≡ false
    → (p.created_by == a.user_id) ≡ false
    → is_some p.deleted_at ≡ false
    → IsSound n (with_application a p)
unfolding with_application
IsSound-with n a p s young new other live = record {
  once = IsDistinct-append_last applicant p.applications a s.once new;
  others = λ h. elim (Has-append_last applicant p.created_by p.applications a h) [
    | inl old ↦ s.others old
    | inr own ↦ let same = (eq_nat_iff p.created_by a.user_id).1 own in ground arith
  ];
  fresh = All-append (λ b. b.id < n) p.applications (a ∷ []) s.fresh (young, tt);
  cleared = λ h. absurd (ground arith);
}

pub IsSound-without :
    (n k : ℕ) (p : RecruitingPost) → IsSound n p → IsSound n (without_application k p)
unfolding without_application
IsSound-without n k p s = record {
  once = IsDistinct-filter applicant (λ a. not (a.id == k)) p.applications s.once;
  others = not_Has-filter applicant (λ a. not (a.id == k)) p.created_by p.applications s.others;
  fresh = All-filter (λ a. a.id < n) (λ a. not (a.id == k)) p.applications s.fresh;
  cleared = λ h. rw (s.cleared h) refl;
}
