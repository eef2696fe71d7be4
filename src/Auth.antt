-- ===== src/Auth.antt =====
-- Sessions and accounts: auth/auth.service.ts. Tokens and hashes come from libraries, which are the
-- parameter `Ports`, and so do the verified claims of Apple and Google; log lines are left out.
pub mod Strategy
pub mod Handlers
pub mod Accounts
pub mod SignUp
pub mod SignedUp
pub mod Sessions
pub mod Rotation
use inhouse_maker_core_serve.Common.{
  ℕ, Bool, true, false, not, ◌&&◌, ◌||◌, Option, none, some, List, [], ◌∷◌, if◌then◌else◌, ◌==◌,
  nat_eq, string_eq, eq_option, find?, filter, is_some, ltb, String,
}
use inhouse_maker_core_serve.Common.Sorting.{sort}
use inhouse_maker_core_serve.Model.Kinds.{UserStatus, user_status_eq, AuthProvider, provider_eq}
use inhouse_maker_core_serve.Model.World.{World, User, Identity}
use inhouse_maker_core_serve.Model.Outcome.{
  Outcome, ok, err, ◌>>=◌, ◌>>◌, reject_if, or_reject, HttpStatus, AppErrorCode,
}

pub data TokenType : Type 0 where
  access refresh : TokenType

abbrev is_refresh : TokenType → Bool
is_refresh TokenType.access = false
is_refresh TokenType.refresh = true

-- TokenPayload; an access token has no `jti`.
pub record TokenPayload : Type 0 where
  pub sub : ℕ
  pub email : String
  pub token_type : TokenType
  pub jti : Option ℕ

pub data Secret : Type 0 where
  access_secret refresh_secret : Secret

-- JwtService with its expiry, at a time; bcryptjs, where the salt is the first argument of `hash`;
-- isEmail of class-validator; `trim().toLowerCase()`, `trim()` and the UTF-16 code units of a string;
-- the first eight characters of the UUID that a number stands for.
pub record Ports : Type 0 where
  pub sign : Secret → TokenPayload → ℕ → String
  pub verify : Secret → String → ℕ → Option TokenPayload
  pub hash : ℕ → String → String
  pub compare : String → String → Bool
  pub is_email : String → Bool
  pub normalize : String → String
  pub trim : String → String
  pub code_units : String → List ℕ
  pub uuid_prefix : ℕ → String

abbrev pub is_user : ℕ → User → Bool
is_user user u = u.id == user

-- assertUserCanAuthenticate
abbrev pub assert_can_authenticate : User → Outcome (Unit {0})
assert_can_authenticate u =
    reject_if (not (u.status == UserStatus.active)) HttpStatus.forbidden
      AppErrorCode.account_unavailable

-- `authIdentity.findUnique` on provider and its user id.
abbrev pub find_identity : AuthProvider → String → World → Option Identity
find_identity provider key w =
    find? (λ i. i.provider == provider && i.provider_user_id == key) w.identities

-- resolveLatestProvider: the identity that was used last, those never used first.
abbrev used_later : Option ℕ → Option ℕ → Bool
used_later none none = false
used_later none (some b) = true
used_later (some a) none = false
used_later (some a) (some b) = ltb b a

abbrev used_before : Identity → Identity → Bool
used_before l r =
    used_later r.last_login_at l.last_login_at
    || (eq_option l.last_login_at r.last_login_at && ltb l.linked_at r.linked_at)

unfoldable pub latest_provider : ℕ → World → Option AuthProvider
unfolding sort
latest_provider user w = elim (sort used_before (filter (λ i. i.user_id == user) w.identities)) [
  | [] ↦ none
  | i ∷ is ↦ some i.provider
]

-- `if (!user?.refreshTokenHash)`
abbrev pub session_of : Option User → Outcome (User × String)
session_of none = err HttpStatus.unauthorized AppErrorCode.invalid_credentials
session_of (some u) = elim u.refresh_token_hash [
  | none ↦ err HttpStatus.unauthorized AppErrorCode.invalid_credentials
  | some h ↦
      if h == "" then err HttpStatus.unauthorized AppErrorCode.invalid_credentials else ok (u, h)
]

-- loginWithEmail without an identity of its own.
abbrev no_identity : String → World → Outcome Identity
no_identity email w =
    if is_some (find? (λ i. eq_option i.email (some email)) w.identities)
    then err HttpStatus.conflict AppErrorCode.provider_conflict
    else err HttpStatus.not_found AppErrorCode.account_not_found

module _ (ports : Ports) where
  -- verifyRefreshToken
  unfoldable pub verify_refresh_token : String → World → Outcome TokenPayload
  verify_refresh_token token w = elim (ports.verify Secret.refresh_secret token w.now) [
    | none ↦ err HttpStatus.unauthorized AppErrorCode.invalid_credentials
    | some p ↦
        if is_refresh p.token_type
        then ok p
        else err HttpStatus.unauthorized AppErrorCode.invalid_credentials
  ]

  -- refresh, up to the tokens.
  unfoldable pub refresh_ready : String → World → Outcome User
  refresh_ready token w = do
    p ← verify_refresh_token token w
    (u, h) ← session_of (find? (is_user p.sub) w.users)
    assert_can_authenticate u
    reject_if (not (ports.compare token h)) HttpStatus.unauthorized AppErrorCode.invalid_credentials
    ok u

  -- `!identity.passwordHash`, and the comparison.
  abbrev pub check_password : String → Option String → Outcome (Unit {0})
  check_password password none = err HttpStatus.unauthorized AppErrorCode.invalid_credentials
  check_password password (some h) =
      reject_if (h == "" || not (ports.compare password h)) HttpStatus.unauthorized
        AppErrorCode.invalid_credentials

  -- loginWithEmail, up to the tokens.
  unfoldable pub email_login_ready : String → String → World → Outcome (User × Identity)
  email_login_ready address password w =
      let email = ports.normalize address in
      do
        reject_if (not (ports.is_email email)) HttpStatus.bad_request
            AppErrorCode.invalid_email_format
        u ←
            or_reject (find? (λ u. u.email == email) w.users) HttpStatus.not_found
              AppErrorCode.account_not_found
        assert_can_authenticate u
        i ← elim (find_identity AuthProvider.email email w) [
          | none ↦ no_identity email w
          | some i ↦ ok i
        ]
        check_password password i.password_hash
        ok (u, i)
