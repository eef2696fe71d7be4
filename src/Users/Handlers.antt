-- ===== src/Users/Handlers.antt =====
-- The writes of users/users.service.ts: updateMyProfile, updateProfileImage, deleteProfileImage and
-- withdrawMe.
use Prim.Native.String.{◌++◌ as concat}
use inhouse_maker_core_serve.Common.{
  ℕ, ◌+◌, Bool, false, not, ◌&&◌, ◌||◌, Option, none, some, List, [], ◌∷◌, ◌++◌, map, if◌then◌else◌,
  ◌==◌, nat_eq, string_eq, any, filter, contains, change_first, or_else, String,
}
use inhouse_maker_core_serve.Model.Enums.{Position}
use inhouse_maker_core_serve.Model.Kinds.{UserStatus, user_status_eq}
use inhouse_maker_core_serve.Model.Rows.{Match, MatchPlayer}
use inhouse_maker_core_serve.Model.World.{World, User}
use inhouse_maker_core_serve.Model.Outcome.{Outcome, ok, err, reject_if, HttpStatus, AppErrorCode}
use inhouse_maker_core_serve.Model.Action.{Action, ◌>>=◌, ◌>>◌, check, gets, modify}
use inhouse_maker_core_serve.Auth.{is_user}
use inhouse_maker_core_serve.Users.{
  UserPorts, existing_user, Me, get_me, ImageFile, assert_valid_image,
}

-- UpdateMyProfileDto: what is not given stays, and a position given as null is cleared. Null for
-- another field is rejected by the database.
pub record ProfileUpdate : Type 0 where
  pub nickname : Option String
  pub primary_position : Option (Option Position)
  pub secondary_position : Option (Option Position)
  pub is_fill_available : Option Bool
  pub style_tags : Option (List String)

unfoldable pub updated_profile : ProfileUpdate → User → User
updated_profile d u = record u {
  nickname = or_else d.nickname u.nickname;
  primary_position = or_else d.primary_position u.primary_position;
  secondary_position = or_else d.secondary_position u.secondary_position;
  is_fill_available = or_else d.is_fill_available u.is_fill_available;
  style_tags = elim d.style_tags [ none ↦ u.style_tags | some ts ↦ some ts ];
}

-- The unique index on nicknames.
abbrev pub nickname_taken : ℕ → String → World → Bool
nickname_taken user nickname w = any (λ v. v.nickname == nickname && not (v.id == user)) w.users

abbrev pub nickname_free : ℕ → Option String → World → Outcome (Unit {0})
nickname_free user none w = ok tt
nickname_free user (some nickname) w =
    reject_if (nickname_taken user nickname w) HttpStatus.internal_server_error
      AppErrorCode.database_error

abbrev pub write_user : ℕ → (User → User) → Action (Unit {0})
write_user user f = modify λ w. record w { users = change_first (is_user user) f w.users }

unfoldable pub update_my_profile : ℕ → ProfileUpdate → Action Me
update_my_profile user d = do
  u ← check (existing_user user)
  check (nickname_free user d.nickname)
  write_user user (updated_profile d)
  check (get_me user)

-- `deleteByUrl`, and safeDeleteProfileImage, which swallows its failure.
unfoldable pub kept_urls : Option String → List String → List String
kept_urls none urls = urls
kept_urls (some url) urls = if url == "" then urls else filter (λ x. not (x == url)) urls

abbrev pub delete_by_url : Option String → World → World
delete_by_url url w = record w { stored_urls = kept_urls url w.stored_urls }

unfoldable pub with_image : Option String → User → User
with_image url u = record u { profile_image_url = url }

-- `if (!user.profileImageUrl)`
abbrev pub has_image : Option String → Bool
has_image none = false
has_image (some url) = not (url == "")

abbrev dropped_image : ℕ → Option String → Action Me
dropped_image user url = do
  write_user user (with_image none)
  modify (delete_by_url url)
  check (get_me user)

unfoldable pub delete_profile_image : ℕ → Action Me
delete_profile_image user = do
  u ← check (existing_user user)
  if has_image u.profile_image_url
      then dropped_image user u.profile_image_url
      else check (get_me user)

-- `store` of the file storage.
abbrev store_file : String → World → World
store_file url w = record w { stored_urls = w.stored_urls ++ url ∷ []; next_id = w.next_id + 1 }

-- The puuids of a user's Riot accounts.
abbrev pub puuids_of : ℕ → World → List String
puuids_of user w = map (λ a. a.puuid) (filter (λ a. a.user_id == user) w.riot_accounts)

-- Deleting a Riot account takes it from the match players (onDelete: SetNull).
abbrev is_gone : ℕ → World → Option ℕ → Bool
is_gone user w none = false
is_gone user w (some account) = any (λ a. a.id == account && a.user_id == user) w.riot_accounts

abbrev without_account : ℕ → World → MatchPlayer → MatchPlayer
without_account user w p =
    if is_gone user w p.riot_account_id then record p { riot_account_id = none } else p

abbrev without_accounts : ℕ → World → Match → Match
without_accounts user w m = record m { players = map (without_account user w) m.players }

module _ (ports : UserPorts) where
  unfoldable pub update_profile_image : ℕ → Option ImageFile → Action Me
  update_profile_image user file = do
    f ← check (λ w. assert_valid_image file)
    u ← check (existing_user user)
    url ← gets (λ w. ports.url_of w.next_id f.mime_type f.original_name)
    modify (store_file url)
    write_user user (with_image (some url))
    modify (delete_by_url u.profile_image_url)
    check (get_me user)

  abbrev pub withdrawn_nickname : ℕ → String
  withdrawn_nickname user = concat "withdrawn-" (ports.id_text user)

  abbrev pub withdrawn_email : ℕ → String
  withdrawn_email user = concat (withdrawn_nickname user) "@withdrawn.local"

  -- The row of a user who has left; what is not named stays, such as `is_admin`.
  unfoldable pub withdrawn_user : ℕ → ℕ → User → User
  withdrawn_user user now u = record u {
    email = withdrawn_email user;
    nickname = withdrawn_nickname user;
    status = UserStatus.withdrawn;
    refresh_token_hash = none;
    profile_image_url = none;
    terms_agreed_at = none;
    privacy_agreed_at = none;
    marketing_opt_in_at = none;
    primary_position = none;
    secondary_position = none;
    is_fill_available = false;
    style_tags = none;
    manner_score = 100;
    noshow_count = 0;
    withdrawn_at = some now;
    overall_power = none;
  }

  -- The transaction of withdrawMe. The power profile is part of the user's row.
  unfoldable pub withdrawn_world : ℕ → World → World
  withdrawn_world user w = record w {
    identities = filter (λ i. not (i.user_id == user)) w.identities;
    match_summaries = filter (λ s. not (contains s.puuid (puuids_of user w))) w.match_summaries;
    riot_accounts = filter (λ a. not (a.user_id == user)) w.riot_accounts;
    matches = map (without_accounts user w) w.matches;
    users = change_first (is_user user) (withdrawn_user user w.now) w.users;
    blocks = filter (λ b. not (b.user_id == user || b.target_user_id == user)) w.blocks;
  }

  -- The unique indexes on email and nickname.
  abbrev pub placeholder_taken : ℕ → World → Bool
  placeholder_taken user w =
      any (λ v. v.email == withdrawn_email user && not (v.id == user)) w.users
      || nickname_taken user (withdrawn_nickname user) w

  unfoldable pub withdraw_ready : ℕ → World → Outcome User
  withdraw_ready user w = elim (existing_user user w) [
    | err s c ↦ err s c
    | ok u ↦
        if u.status == UserStatus.withdrawn
        then err HttpStatus.conflict AppErrorCode.account_withdrawn
        else if placeholder_taken user w
        then err HttpStatus.internal_server_error AppErrorCode.database_error
        else ok u
  ]

  unfoldable pub withdraw_me : ℕ → Action (Unit {0})
  withdraw_me user = do
    u ← check (withdraw_ready user)
    modify (withdrawn_world user)
    modify (delete_by_url u.profile_image_url)
