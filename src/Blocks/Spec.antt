-- ===== src/Blocks/Spec.antt =====
-- Who blocks whom, as a relation, and what blocking does to it.
use inhouse_maker_core_serve.Common.{
  ℕ, Bool, true, false, not, ◌&&◌, ◌≡◌, refl, ◌∙◌, List, [], ◌∷◌, arith, inl, inr, Bool-cases, any,
  filter, find?, is_some, nat_eq, ◌==◌, if◌then◌else◌, any-append, is_some-find?,
}
use mathlib.Core.Path.{ap, fun_ext}
use inhouse_maker_core_serve.Model.Kinds.{UserStatus, user_status_eq}
use inhouse_maker_core_serve.Model.World.{World, UserBlock, User}
use inhouse_maker_core_serve.Model.Outcome.{HttpStatus, AppErrorCode, ok, err}
use inhouse_maker_core_serve.Blocks.{
  is_block, find_active_user, block_ready, unblock_ready, visible_author, resolve_visibility,
}
use inhouse_maker_core_serve.Blocks.Handlers.{block_user, unblock_user, upsert_block, remove_block}

-- The relation that the rows stand for.
abbrev pub blocks_of : World → ℕ → ℕ → Bool
blocks_of w user target = any (is_block user target) w.blocks

-- One request for a block or its end.
pub data BlockRequest : Type 0 where
  block unblock : ℕ → ℕ → BlockRequest

unfoldable pub serve : BlockRequest → World → World
serve (BlockRequest.block user target) w = (block_user user target w).1
serve (BlockRequest.unblock user target) w = (unblock_user user target w).1

unfoldable pub serve_all : List BlockRequest → World → World
unfolding serve
serve_all [] w = w
serve_all (q ∷ qs) w = serve_all qs (serve q w)

-- The same on a relation: users that are not active cannot be blocked, and no one blocks himself.
abbrev set_pair : ℕ → ℕ → Bool → (ℕ → ℕ → Bool) → ℕ → ℕ → Bool
set_pair user target b rel u t = if u == user && t == target then b else rel u t

unfoldable pub replay : (ℕ → Bool) → BlockRequest → (ℕ → ℕ → Bool) → ℕ → ℕ → Bool
replay active (BlockRequest.block user target) rel =
    if not (user == target) && active target then set_pair user target true rel else rel
replay active (BlockRequest.unblock user target) rel =
    if not (user == target) then set_pair user target false rel else rel

unfoldable pub replay_all : (ℕ → Bool) → List BlockRequest → (ℕ → ℕ → Bool) → ℕ → ℕ → Bool
unfolding replay
replay_all active [] rel = rel
replay_all active (q ∷ qs) rel = replay_all active qs (replay active q rel)

-- Users that `ensureActiveUser` finds.
abbrev pub is_active : World → ℕ → Bool
is_active w user = is_some (find_active_user user w)

-- A row that stands for one pair stands for no other.
same_pair :
    (u t user target : ℕ) (b : UserBlock)
    → is_block user target b ≡ true
    → is_block u t b ≡ (u == user && t == target)
same_pair u t user target b h = ground arith

any-remove :
    (u t user target : ℕ) (bs : List UserBlock)
    → any (is_block u t) (filter (λ b. not (is_block user target b)) bs)
      ≡ (if u == user && t == target then false else any (is_block u t) bs)
any-remove u t user target [] = ground arith
any-remove u t user target (b ∷ bs) = ground (arith, any-remove u t user target bs)

blocks-upsert :
    (user target u t : ℕ) (w : World)
    → blocks_of (upsert_block user target w) u t ≡ set_pair user target true (blocks_of w) u t
unfolding upsert_block
blocks-upsert user target u t w = elim (Bool-cases (any (is_block user target) w.blocks)) [
  | inl old ↦ rw old (elim (Bool-cases (u == user && t == target)) [
    | inl same ↦
        let eu : u ≡ user = ground arith in
        let et : t ≡ target = ground arith in rw (same, eu, et) old
    | inr other ↦ rw other refl
  ])
  | inr new ↦ rw new (rw any-append (ground arith))
]

blocks-remove :
    (user target u t : ℕ) (w : World)
    → blocks_of (remove_block user target w) u t ≡ set_pair user target false (blocks_of w) u t
unfolding remove_block
blocks-remove user target u t w = any-remove u t user target w.blocks

abbrev SameUsers : World → World → Type 0
SameUsers w v = v.users ≡ w.users

abbrev may_block : World → ℕ → ℕ → Bool
may_block w user target = not (user == target) && is_active w target

block_ready-may_block :
    (user target : ℕ) (w : World) (found : User)
    → block_ready user target w ≡ ok found
    → may_block w user target ≡ true
unfolding block_ready
block_ready-may_block user target w found e = ground arith

block_ready-refuses :
    (user target : ℕ) (w : World) (s : HttpStatus) (c : AppErrorCode)
    → block_ready user target w ≡ err s c
    → may_block w user target ≡ false
unfolding block_ready
block_ready-refuses user target w s c e = ground arith

users-upsert : (user target : ℕ) (w : World) → SameUsers w (upsert_block user target w)
unfolding upsert_block
users-upsert user target w = elim (Bool-cases (any (is_block user target) w.blocks)) [
  | inl old ↦ rw old refl
  | inr new ↦ rw new refl
]

users-remove : (user target : ℕ) (w : World) → SameUsers w (remove_block user target w)
unfolding remove_block
users-remove user target w = refl

world-block_user :
    (user target : ℕ) (w : World)
    → (block_user user target w).1
      ≡ (if may_block w user target then upsert_block user target w else w)
unfolding block_user block_ready
world-block_user user target w = ground arith

serve-block :
    (user target : ℕ) (w : World)
    → serve (BlockRequest.block user target) w
      ≡ (if may_block w user target then upsert_block user target w else w)
unfolding serve
serve-block user target w = world-block_user user target w

serve-unblock :
    (user target : ℕ) (w : World)
    → serve (BlockRequest.unblock user target) w
      ≡ (if not (user == target) then remove_block user target w else w)
unfolding serve unblock_user unblock_ready remove_block
serve-unblock user target w = ground arith

users-serve : (q : BlockRequest) (w : World) → SameUsers w (serve q w)
users-serve (BlockRequest.block user target) w = elim (Bool-cases (may_block w user target)) [
  | inl may ↦ rw (serve-block, may) (users-upsert user target w)
  | inr barred ↦ rw (serve-block, barred) refl
]
users-serve (BlockRequest.unblock user target) w = elim (Bool-cases (user == target)) [
  | inl self ↦ rw (serve-unblock, self) refl
  | inr other ↦ rw (serve-unblock, other) (users-remove user target w)
]

serve_lem :
    (q : BlockRequest) (w : World) (u t : ℕ)
    → blocks_of (serve q w) u t ≡ replay (is_active w) q (blocks_of w) u t
unfolding replay
serve_lem (BlockRequest.block user target) w u t = elim (Bool-cases (may_block w user target)) [
  | inl may ↦ rw (serve-block, may) (blocks-upsert user target u t w)
  | inr barred ↦ rw (serve-block, barred) refl
]
serve_lem (BlockRequest.unblock user target) w u t = elim (Bool-cases (user == target)) [
  | inl self ↦ rw (serve-unblock, self) refl
  | inr other ↦ rw (serve-unblock, other) (blocks-remove user target u t w)
]

active_after : (q : BlockRequest) (w : World) → is_active (serve q w) ≡ is_active w
active_after q w =
    ap
      (λ (us : List User).
        λ (k : ℕ). is_some (find? (λ u. u.id == k && u.status == UserStatus.active) us))
      (users-serve q w)

-- Whatever requests for blocks and their ends come in, the rows stand for the relation that results
-- from the same requests: a block adds its pair, if the target is another, active user; an end takes
-- it away, and no other pair changes.
pub serve_all-replay_all :
    (qs : List BlockRequest) (w : World)
    → blocks_of (serve_all qs w) ≡ replay_all (is_active w) qs (blocks_of w)
unfolding serve_all replay_all
serve_all-replay_all [] w = refl
serve_all-replay_all (q ∷ qs) w =
    serve_all-replay_all qs (serve q w)
    ∙ rw (active_after q w)
        (ap (replay_all (is_active w) qs) (fun_ext (λ u. fun_ext (λ t. serve_lem q w u t))))

-- The two ways in which the code tells whether a user may see another agree, in both directions and
-- from either side, and on oneself where nobody blocks himself.
pub resolve_visibility-visible_author :
    (viewer target : ℕ) (w : World)
    → blocks_of w viewer viewer ≡ false
    → ((resolve_visibility viewer target w).visible ≡ visible_author viewer target w)
      × (visible_author viewer target w ≡ visible_author target viewer w)
unfolding resolve_visibility visible_author
resolve_visibility-visible_author viewer target w h = elim (Bool-cases (viewer == target)) [
  | inl self ↦ ground arith
  | inr other ↦
      let by_me = is_some-find? (is_block viewer target) w.blocks in
      let by_target = is_some-find? (is_block target viewer) w.blocks in ground arith
]
