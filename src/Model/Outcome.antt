-- ===== src/Model/Outcome.antt =====
-- What a request comes to: a value, or an AppException of common/app.exception.ts with its HTTP
-- status and its code, or an AuthException of auth/auth.exception.ts. `database_error` stands for a rejected Prisma write.
use inhouse_maker_core_serve.Common.{
  ◌≡◌, refl, ◌⊎◌, inl, inr, Bool, true, false, Option, none, some,
}

pub data HttpStatus : Type 0 where
  bad_request unauthorized forbidden not_found conflict gone payload_too_large : HttpStatus
  internal_server_error : HttpStatus

pub data AppErrorCode : Type 0 where
  forbidden invalid_request group_not_found group_unavailable group_access_forbidden : AppErrorCode
  match_not_found match_player_not_found match_candidate_not_found : AppErrorCode
  match_edit_not_allowed match_lock_not_ready match_reopen_not_allowed : AppErrorCode
  match_balance_invalid result_not_found result_save_forbidden result_view_forbidden : AppErrorCode
  result_confirm_forbidden result_resolve_forbidden result_already_finalized : AppErrorCode
  result_invalid_state rematch_input_unavailable database_error : AppErrorCode
  not_found user_not_found invalid_member_role cannot_add_self : AppErrorCode
  group_member_already_exists recruiting_not_found recruiting_closed already_applied : AppErrorCode
  block_self_not_allowed block_target_not_found : AppErrorCode
  report_self_not_allowed report_target_not_found report_target_unsupported : AppErrorCode
  report_recent_duplicate validation_error : AppErrorCode
  account_not_found account_unavailable provider_conflict : AppErrorCode
  invalid_email_format invalid_credentials weak_password : AppErrorCode
  required_terms_not_agreed email_already_in_use nickname_already_in_use : AppErrorCode
  auth_required account_withdrawn profile_image_required profile_image_too_large : AppErrorCode
  profile_image_invalid_type internal_server_error : AppErrorCode

pub data Outcome {ℓ} (A : Type ℓ) : Type ℓ where
  ok : A → Outcome A
  err : HttpStatus → AppErrorCode → Outcome A

infixl 5 ◌>>=◌ ◌>>◌
abbrev pub ◌>>=◌ {ℓ κ} : {A : Type ℓ} {B : Type κ} → Outcome A → (A → Outcome B) → Outcome B
ok x >>= f = f x
err s c >>= f = err s c

abbrev pub ◌>>◌ {ℓ} : {B : Type ℓ} → Outcome (Unit {0}) → Outcome B → Outcome B
m >> k = m >>= λ _. k

-- `if (refused) throw …`
abbrev pub reject_if : Bool → HttpStatus → AppErrorCode → Outcome (Unit {0})
reject_if true s c = err s c
reject_if false s c = ok tt

abbrev pub or_reject {ℓ} : {A : Type ℓ} → Option A → HttpStatus → AppErrorCode → Outcome A
or_reject none s c = err s c
or_reject (some x) s c = ok x

pub Outcome-cases {ℓ} :
    {A : Type ℓ} (o : Outcome A)
    → ((x : A) × (o ≡ ok x)) ⊎ ((s : HttpStatus) × (c : AppErrorCode) × (o ≡ err s c))
Outcome-cases (ok x) = inl (x, refl)
Outcome-cases (err s c) = inr (s, c, refl)
