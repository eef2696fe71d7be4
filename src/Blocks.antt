-- ===== src/Blocks.antt =====
-- Blocks between users: blocks/blocks.service.ts and blocks/block-visibility-policy.service.ts.
-- What listMyBlocks shows of the blocked user is left out.
pub mod Handlers
pub mod Spec
use inhouse_maker_core_serve.Common.{
  ℕ, Bool, true, false, not, ◌&&◌, Option, List, ◌==◌, nat_eq, any, filter, find?, is_some, ltb,
  if◌then◌else◌,
}
use inhouse_maker_core_serve.Common.Sorting.{sort}
use inhouse_maker_core_serve.Model.Kinds.{UserStatus, user_status_eq}
use inhouse_maker_core_serve.Model.World.{World, User, UserBlock}
use inhouse_maker_core_serve.Model.Outcome.{
  Outcome, ok, ◌>>=◌, ◌>>◌, reject_if, or_reject, HttpStatus, AppErrorCode,
}

-- `userBlock.findUnique` on user and target.
abbrev pub is_block : ℕ → ℕ → UserBlock → Bool
is_block user target b = b.user_id == user && b.target_user_id == target

abbrev pub find_block : ℕ → ℕ → World → Option UserBlock
find_block user target w = find? (is_block user target) w.blocks

abbrev pub find_active_user : ℕ → World → Option User
find_active_user user w = find? (λ u. u.id == user && u.status == UserStatus.active) w.users

-- blockUser, up to the write.
unfoldable pub block_ready : ℕ → ℕ → World → Outcome User
block_ready user target w = do
  reject_if (user == target) HttpStatus.bad_request AppErrorCode.block_self_not_allowed
  or_reject (find_active_user target w) HttpStatus.not_found AppErrorCode.block_target_not_found

-- unblockUser, up to the write.
unfoldable pub unblock_ready : ℕ → ℕ → World → Outcome (Unit {0})
unblock_ready user target w =
    reject_if (user == target) HttpStatus.bad_request AppErrorCode.block_self_not_allowed

-- listMyBlocks: newest first.
unfoldable pub my_blocks : ℕ → World → List UserBlock
unfolding sort
my_blocks user w =
    sort (λ l r. ltb l.created_at r.created_at) (filter (λ b. b.user_id == user) w.blocks)

-- buildVisibleUserWhere: no block of the viewer's on the author, and none of the author's on the
-- viewer.
unfoldable pub visible_author : ℕ → ℕ → World → Bool
visible_author viewer author w =
    not (any (is_block viewer author) w.blocks) && not (any (is_block author viewer) w.blocks)

-- BlockVisibility
pub record BlockVisibility : Type 0 where
  pub is_blocked_by_me : Bool
  pub is_blocked_user : Bool
  pub can_interact : Bool
  pub visible : Bool

abbrev visibility_of : Bool → Bool → BlockVisibility
visibility_of by_me by_target =
    let free = not by_me && not by_target in
    record {
      is_blocked_by_me = by_me;
      is_blocked_user = by_target;
      can_interact = free;
      visible = free;
    }

-- resolveVisibility, where there is a database to ask.
unfoldable pub resolve_visibility : ℕ → ℕ → World → BlockVisibility
resolve_visibility viewer target w =
    if viewer == target
    then visibility_of false false
    else visibility_of (is_some (find_block viewer target w)) (is_some (find_block target viewer w))
