-- ===== src/Users/Invites.antt =====
-- Searching for users to invite: findInviteUsers of users/users.service.ts and its client,
-- searchMemberCandidates of groups/groups.service.ts. `findMany` has no order, and is taken to
-- answer in that of the table.
use Prim.Native.String.{◌++◌ as concat}
use inhouse_maker_core_serve.Common.{
  ℕ, ◌*◌, min, max, Bool, false, not, ◌&&◌, Option, none, some, List, map, if◌then◌else◌, ◌==◌,
  nat_eq, string_eq, filter, find?, take, is_some, or_else, ltb, String,
}
use inhouse_maker_core_serve.Common.Sorting.{sort}
use inhouse_maker_core_serve.Model.Enums.{GroupRole}
use inhouse_maker_core_serve.Model.Kinds.{UserStatus, user_status_eq}
use inhouse_maker_core_serve.Model.World.{World, User, GroupMember, RiotAccount}
use inhouse_maker_core_serve.Model.Outcome.{Outcome, ok, ◌>>=◌}
use inhouse_maker_core_serve.Blocks.{visible_author}
use inhouse_maker_core_serve.Groups.{find_membership, assert_group_admin}
use inhouse_maker_core_serve.Users.{UserPorts}

-- InviteUserSearchQueryDto and the options of findInviteUsers.
pub record InviteQuery : Type 0 where
  pub query : String
  pub limit : Option ℕ
  pub group_id : Option ℕ
  pub exclude_existing_members : Bool

pub data InviteBlock : Type 0 where
  cannot_add_self already_member : InviteBlock

-- InviteUserSearchItemDto, with the rank that is taken off at the end.
pub record InviteItem : Type 0 where
  pub id : ℕ
  pub nickname : String
  pub recent_power : Option ℕ
  pub riot_display_name : Option String
  pub riot_game_name : Option String
  pub tag_line : Option String
  pub region : Option String
  pub profile_icon_id : Option ℕ
  pub summoner_level : Option ℕ
  pub profile_image_url : Option String
  pub is_self : Bool
  pub already_member : Option Bool
  pub is_already_member : Bool
  pub is_eligible : Bool
  pub invite_blocked_reason : Option InviteBlock
  pub member_role : Option GroupRole
  pub match_rank : ℕ

-- resolveInviteEligibility
unfoldable pub invite_block : Bool → Bool → Option InviteBlock
invite_block is_self is_already_member =
    if is_self
    then some InviteBlock.cannot_add_self
    else if is_already_member
    then some InviteBlock.already_member
    else none

abbrev membership_in : Option ℕ → ℕ → World → Option GroupMember
membership_in none user w = none
membership_in (some group) user w = find_membership group user w

abbrev primary_account : ℕ → World → Option RiotAccount
primary_account user w = find? (λ a. a.user_id == user && a.is_primary) w.riot_accounts

abbrev field_of : {A : Type 0} → (RiotAccount → A) → Option RiotAccount → Option A
field_of f none = none
field_of f (some a) = some (f a)

-- `user.riotAccounts[0]?.profileIconId ?? null`
abbrev number_of : (RiotAccount → Option ℕ) → Option RiotAccount → Option ℕ
number_of f none = none
number_of f (some a) = f a

abbrev role_in : Option GroupMember → Option GroupRole
role_in none = none
role_in (some m) = some m.role

-- The condition on the membership, where a group is given and its members are excluded.
abbrev not_excluded : InviteQuery → ℕ → World → Bool
not_excluded q user w =
    not (q.exclude_existing_members && is_some (membership_in q.group_id user w))

abbrev invite_limit : InviteQuery → ℕ
invite_limit q = or_else q.limit 20

-- `Math.min(Math.max(limit * 5, 50), 100)`
unfoldable pub fetch_limit : InviteQuery → ℕ
fetch_limit q = min (max (invite_limit q * 5) 50) 100

module _ (ports : UserPorts) where
  abbrev named : String → String → Option String
  named name tag =
      if name == "" then none else some (if tag == "" then name else concat name (concat "#" tag))

  -- buildRiotDisplayName
  unfoldable pub riot_display_name : Option RiotAccount → Option String
  riot_display_name none = none
  riot_display_name (some a) = named (ports.trim a.riot_game_name) (ports.trim a.tag_line)

  -- resolveInviteSearchRank
  unfoldable pub search_rank : String → String → ℕ
  search_rank nickname query =
      let name = ports.lower (ports.trim nickname) in
      let sought = ports.lower (ports.trim query) in
      if name == sought then 0 else if ports.starts_with name sought then 1 else 2

  abbrev is_match : ℕ → InviteQuery → World → User → Bool
  is_match requester q w u =
      u.status == UserStatus.active
      && ports.contains_text u.nickname (ports.trim q.query)
      && visible_author requester u.id w
      && not_excluded q u.id w

  unfoldable pub invite_item : ℕ → InviteQuery → World → User → InviteItem
  unfolding invite_block riot_display_name search_rank
  invite_item requester q w u =
      let membership = membership_in q.group_id u.id w in
      let account = primary_account u.id w in
      let reason = invite_block (u.id == requester) (is_some membership) in
      record {
        id = u.id;
        nickname = u.nickname;
        recent_power = u.overall_power;
        riot_display_name = riot_display_name account;
        riot_game_name = field_of (λ a. a.riot_game_name) account;
        tag_line = field_of (λ a. a.tag_line) account;
        region = field_of (λ a. a.region) account;
        profile_icon_id = number_of (λ a. a.profile_icon_id) account;
        summoner_level = number_of (λ a. a.summoner_level) account;
        profile_image_url = u.profile_image_url;
        is_self = u.id == requester;
        already_member = elim q.group_id [ none ↦ none | some group ↦ some (is_some membership) ];
        is_already_member = is_some membership;
        is_eligible = not (is_some reason);
        invite_blocked_reason = reason;
        member_role = role_in membership;
        match_rank = search_rank u.nickname (ports.trim q.query);
      }

  abbrev pub ranks_after : InviteItem → InviteItem → Bool
  ranks_after l r =
      if l.match_rank == r.match_rank
      then ports.comes_after l.nickname r.nickname
      else ltb r.match_rank l.match_rank

  unfoldable pub find_invite_users : ℕ → InviteQuery → World → List InviteItem
  unfolding sort fetch_limit invite_item
  find_invite_users requester q w = take (invite_limit q) (
      sort ranks_after (
        map (invite_item requester q w)
          (take (fetch_limit q) (filter (is_match requester q w) w.users))))

-- GroupMemberCandidateDto, without what it repeats of the item; `selectable` is `isEligible`.
pub record MemberCandidate : Type 0 where
  pub item : InviteItem
  pub already_member : Bool
  pub selectable : Bool
  pub has_riot_account : Bool

abbrev has_text : Option String → Bool
has_text none = false
has_text (some x) = not (x == "")

abbrev pub candidate_of : InviteItem → MemberCandidate
candidate_of i = record {
  item = i;
  already_member = or_else i.already_member false;
  selectable = i.is_eligible;
  has_riot_account = has_text i.riot_game_name;
}

-- GroupMemberCandidateQueryDto
abbrev pub in_group_query : ℕ → String → Option ℕ → InviteQuery
in_group_query group text limit = record {
  query = text;
  limit = limit;
  group_id = some group;
  exclude_existing_members = false;
}

unfoldable pub search_member_candidates :
    UserPorts → ℕ → ℕ → String → Option ℕ → World → Outcome (List MemberCandidate)
unfolding assert_group_admin
search_member_candidates ports requester group text limit w = do
  access ← assert_group_admin group requester w
  ok (map candidate_of (find_invite_users ports requester (in_group_query group text limit) w))
