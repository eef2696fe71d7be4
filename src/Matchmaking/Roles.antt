-- ===== src/Matchmaking/Roles.antt =====
-- getRoleCost and findBestRoleAssignment of matchmaking/matchmaking-algorithm.service.ts. Nicknames
-- and role powers, which the search carries along without reading them, are put to a seat in Splits.
use inhouse_maker_core_serve.Common.{
  ℕ, ◌+◌, Bool, true, false, not, ◌&&◌, Option, none, some, List, [], ◌∷◌, ◌++◌, ◌==◌, nat_eq,
  eq_nat, ltb, leb, contains, length, all, if◌then◌else◌,
}
use inhouse_maker_core_serve.Common.Sorting.{sort}
use inhouse_maker_core_serve.Model.Enums.{Position, position_eq, TeamSide, side_eq}
use inhouse_maker_core_serve.Matches.Teams.{lanes}

pub record AlgorithmPlayer : Type 0 where
  pub user_id : ℕ
  pub primary_position : Option Position
  pub secondary_position : Option Position
  pub is_fill_available : Bool
  pub locked_team_side : Option TeamSide
  pub locked_role : Option Position

abbrev pub is_role : Option Position → Position → Bool
is_role none role = false
is_role (some p) role = p == role

-- `!x || x === y`
abbrev pub role_allows : Option Position → Position → Bool
role_allows none role = true
role_allows (some locked) role = locked == role

abbrev pub side_allows : TeamSide → AlgorithmPlayer → Bool
side_allows side p = elim p.locked_team_side [ none ↦ true | some locked ↦ locked == side ]

-- respectsLockedTeams
unfoldable pub respects_locked_teams : List AlgorithmPlayer → List AlgorithmPlayer → Bool
respects_locked_teams a b =
    all (side_allows TeamSide.team_a) a && all (side_allows TeamSide.team_b) b

-- getRoleCost, where `none` is the infinite cost.
unfoldable pub role_cost : AlgorithmPlayer → Position → Option ℕ
role_cost p role =
    if not (role_allows p.locked_role role)
    then none
    else if is_role p.primary_position role
    then some 0
    else if is_role p.secondary_position role
    then some 8
    else if p.is_fill_available
    then some 12
    else some 25

pub record RoleSeat : Type 0 where
  pub user_id : ℕ
  pub team_side : TeamSide
  pub assigned_role : Position

-- The variables that the closure updates; `none` is the infinite cost.
pub record Best : Type 0 where
  pub best_cost : Option ℕ
  pub best_assignments : List RoleSeat
  pub best_off_role_count : ℕ

-- `totalCost < bestCost`
abbrev pub improves : ℕ → Option ℕ → Bool
improves total none = true
improves total (some best) = ltb total best

abbrev pub Entry : Type 0
Entry = ℕ × AlgorithmPlayer

-- A `for` loop over the players with their indices.
unfoldable pub for_each : {A B : Type 0} → (B → A → B) → B → List A → B
for_each f b [] = b
for_each f b (x ∷ xs) = for_each f (f b x) xs

unfoldable pub indexed : ℕ → List AlgorithmPlayer → List Entry
indexed i [] = []
indexed i (p ∷ ps) = (i, p) ∷ indexed (i + 1) ps

abbrev pub seat_of : TeamSide → Position → AlgorithmPlayer → RoleSeat
seat_of side role p = record { user_id = p.user_id; team_side = side; assigned_role = role }

abbrev pub off_role : ℕ → ℕ
off_role cost = if leb 12 cost then 1 else 0

-- One turn of the loop of `backtrack`, with the search through the roles that are left.
abbrev pub Search : Type 0
Search = List ℕ → List RoleSeat → ℕ → ℕ → Best → Best

abbrev pub try_cost :
    Search → RoleSeat → ℕ → List ℕ → List RoleSeat → ℕ → ℕ → Best → Option ℕ → Best
try_cost search seat i used current total off b none = b
try_cost search seat i used current total off b (some cost) =
    search (i ∷ used) (current ++ seat ∷ []) (total + cost) (off + off_role cost) b

unfoldable pub try_player :
    Search → TeamSide → Position → List ℕ → List RoleSeat → ℕ → ℕ → Best → Entry → Best
unfolding role_cost
try_player search side role used current total off b (i, p) =
    if contains i used
    then b
    else try_cost search (seat_of side role p) i used current total off b (role_cost p role)

-- `backtrack`, by the roles that are left: the players used, the current assignments, the total
-- cost and off-role count so far, and the best so far.
unfoldable pub backtrack : List Entry → TeamSide → List Position → Search
unfolding for_each try_player
backtrack players side [] used current total off best =
    if improves total best.best_cost
    then record { best_cost = some total; best_assignments = current; best_off_role_count = off }
    else best
backtrack players side (role ∷ rest) used current total off best =
    if improves total best.best_cost
    then for_each (try_player (backtrack players side rest) side role used current total off) best
        players
    else best

pub record RoleAssignment : Type 0 where
  pub assignments : List RoleSeat
  pub cost : ℕ
  pub off_role_count : ℕ

-- One more than `ROLE_ORDER.indexOf(role)`.
abbrev pub role_index : Position → ℕ
role_index Position.top = 1
role_index Position.jungle = 2
role_index Position.mid = 3
role_index Position.adc = 4
role_index Position.support = 5
role_index Position.fill = 0

abbrev pub in_role_order : List RoleSeat → List RoleSeat
in_role_order ss = sort (λ l r. ltb (role_index r.assigned_role) (role_index l.assigned_role)) ss

abbrev pub search_roles : List AlgorithmPlayer → TeamSide → Best
search_roles ps side =
    backtrack (indexed 0 ps) side lanes [] [] 0 0
      (record { best_cost = none; best_assignments = []; best_off_role_count = 0 })

abbrev pub assignment_of : Best → Option ℕ → Option RoleAssignment
assignment_of b none = none
assignment_of b (some cost) =
    if eq_nat (length b.best_assignments) (length lanes)
    then some (record {
      assignments = in_role_order b.best_assignments;
      cost = cost;
      off_role_count = b.best_off_role_count;
    })
    else none

unfoldable pub find_best_role_assignment : List AlgorithmPlayer → TeamSide → Option RoleAssignment
find_best_role_assignment ps side = let b = search_roles ps side in assignment_of b b.best_cost
