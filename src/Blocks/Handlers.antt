-- ===== src/Blocks/Handlers.antt =====
-- blockUser and unblockUser of blocks/blocks.service.ts.
use inhouse_maker_core_serve.Common.{
  ℕ, Bool, true, false, not, Option, none, some, [], ◌∷◌, ◌++◌, any, filter,
}
use inhouse_maker_core_serve.Common.{if◌then◌else◌}
use inhouse_maker_core_serve.Model.World.{World, UserBlock}
use inhouse_maker_core_serve.Model.Action.{Action, ◌>>=◌, ◌>>◌, check, gets, modify, pure}
use inhouse_maker_core_serve.Blocks.{is_block, find_block, block_ready, unblock_ready}

-- BlockUserResponseDto
pub record BlockResponse : Type 0 where
  pub target_user_id : ℕ
  pub blocked : Bool
  pub created_at : Option ℕ

abbrev new_block : ℕ → ℕ → ℕ → UserBlock
new_block user target now = record { user_id = user; target_user_id = target; created_at = now }

-- `upsert` with an empty update.
unfoldable pub upsert_block : ℕ → ℕ → World → World
upsert_block user target w =
    if any (is_block user target) w.blocks
    then w
    else record w { blocks = w.blocks ++ new_block user target w.now ∷ [] }

unfoldable pub block_user : ℕ → ℕ → Action BlockResponse
block_user user target = do
  found ← check (block_ready user target)
  modify (upsert_block user target)
  block ← gets (find_block user target)
  pure (record {
    target_user_id = target;
    blocked = true;
    created_at = elim block [ none ↦ none | some b ↦ some b.created_at ];
  })

-- `deleteMany`
unfoldable pub remove_block : ℕ → ℕ → World → World
remove_block user target w = record w {
  blocks = filter (λ b. not (is_block user target b)) w.blocks;
}

unfoldable pub unblock_user : ℕ → ℕ → Action BlockResponse
unblock_user user target = do
  check (unblock_ready user target)
  modify (remove_block user target)
  pure (record { target_user_id = target; blocked = false; created_at = none })
