-- ===== src/Auth/Accounts.antt =====
-- What auth/auth.service.ts checks before it makes an account: signupWithEmail and
-- loginWithSocialIdentity.
use inhouse_maker_core_serve.Common.{
  ℕ, Bool, not, ◌&&◌, ◌||◌, Option, none, some, List, if◌then◌else◌, ◌==◌, nat_eq, string_eq,
  eq_option, any, all, leb, length, String,
}
use inhouse_maker_core_serve.Model.Kinds.{AuthProvider, provider_eq}
use inhouse_maker_core_serve.Model.World.{World, Identity}
use inhouse_maker_core_serve.Model.Outcome.{
  Outcome, ok, err, ◌>>◌, reject_if, HttpStatus, AppErrorCode,
}
use inhouse_maker_core_serve.Auth.{Ports}

-- EmailSignupDto
pub record SignupInput : Type 0 where
  pub email : String
  pub password : String
  pub nickname : String
  pub agreed_to_terms : Bool
  pub agreed_to_privacy : Bool
  pub agreed_to_marketing : Bool

-- SocialIdentityClaims, of Apple or Google.
pub record SocialClaims : Type 0 where
  pub provider : AuthProvider
  pub provider_user_id : String
  pub email : Option String

abbrev between : ℕ → ℕ → ℕ → Bool
between low high c = leb low c && leb c high

-- `[A-Za-z]`, `\d`, and what `.` does not match.
abbrev is_letter : ℕ → Bool
is_letter c = between 65 90 c || between 97 122 c

abbrev is_digit : ℕ → Bool
is_digit c = between 48 57 c

abbrev is_line_end : ℕ → Bool
is_line_end c = c == 10 || c == 13 || c == 8232 || c == 8233

-- PASSWORD_MIN_LENGTH and PASSWORD_STRENGTH_PATTERN, on the code units of the password.
unfoldable pub is_strong : List ℕ → Bool
is_strong cs =
    leb 8 (length cs) && any is_letter cs && any is_digit cs && all (λ c. not (is_line_end c)) cs

abbrev pub has_email : String → Identity → Bool
has_email email i = eq_option i.email (some email)

-- assertEmailSignupAvailable
unfoldable pub assert_email_available : String → World → Outcome (Unit {0})
assert_email_available email w =
    if any (λ i. has_email email i && i.provider == AuthProvider.email) w.identities
    then err HttpStatus.conflict AppErrorCode.email_already_in_use
    else reject_if (any (has_email email) w.identities) HttpStatus.conflict
        AppErrorCode.provider_conflict

-- assertNicknameAvailable
unfoldable pub assert_nickname_available : String → World → Outcome (Unit {0})
assert_nickname_available nickname w =
    reject_if (any (λ u. u.nickname == nickname) w.users) HttpStatus.conflict
      AppErrorCode.nickname_already_in_use

-- assertNoEmailConflict
unfoldable pub assert_no_email_conflict : String → SocialClaims → World → Outcome (Unit {0})
assert_no_email_conflict email c w =
    reject_if
      (any
        (λ i.
          has_email email i
          && (not (i.provider == c.provider) || not (i.provider_user_id == c.provider_user_id)))
        w.identities)
      HttpStatus.conflict AppErrorCode.provider_conflict

-- `if (claims.email)`
unfoldable pub email_conflict_checked : SocialClaims → World → Outcome (Unit {0})
email_conflict_checked c w = elim c.email [
  | none ↦ ok tt
  | some e ↦ if e == "" then ok tt else assert_no_email_conflict e c w
]

module _ (ports : Ports) where
  -- signupWithEmail, up to the write: the normalized email and nickname.
  unfoldable pub signup_ready : SignupInput → World → Outcome (String × String)
  signup_ready d w =
      let email = ports.normalize d.email in
      let nickname = ports.trim d.nickname in
      do
        reject_if (not (ports.is_email email)) HttpStatus.bad_request
            AppErrorCode.invalid_email_format
        reject_if (not (is_strong (ports.code_units d.password))) HttpStatus.bad_request
            AppErrorCode.weak_password
        reject_if (not (d.agreed_to_terms && d.agreed_to_privacy)) HttpStatus.bad_request
            AppErrorCode.required_terms_not_agreed
        assert_email_available email w
        assert_nickname_available nickname w
        ok (email, nickname)
