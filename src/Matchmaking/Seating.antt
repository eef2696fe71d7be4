-- ===== src/Matchmaking/Seating.antt =====
-- The seats that findBestRoleAssignment finds: matchmaking/matchmaking-algorithm.service.ts.
use inhouse_maker_core_serve.Common.{
  ◌∙◌, ltb, ℕ, ◌+◌, ◌≡◌, refl, sym, ap, true, Option, none, some, List, [], ◌∷◌, map, arith, inl,
  inr, nat_eq, string_eq, eq_nat, Bool-cases, length, All, Exists, Exists-weaken,
}
use mathlib.Core.Path.{subst}
use inhouse_maker_core_serve.Common.Sorting.{insert_sorted, sort}
use inhouse_maker_core_serve.Common.Sorting.Laws.{map-sort, All-sort}
use inhouse_maker_core_serve.Model.Enums.{Position, position_eq, TeamSide, side_eq}
use inhouse_maker_core_serve.Matches.Teams.{lanes}
use inhouse_maker_core_serve.Matchmaking.Roles.{
  role_index, AlgorithmPlayer, role_allows, role_cost, RoleSeat, Best, Entry, indexed,
  RoleAssignment, in_role_order, search_roles, assignment_of, find_best_role_assignment,
}
use inhouse_maker_core_serve.Matchmaking.Optimum.{
  Fills, done, take_seat, Seated, search_roles-Seated,
}

-- The locked role of a player with that id allows the seat.
abbrev pub Allows : ℕ → Position → AlgorithmPlayer → Type 0
Allows user role p = (p.user_id ≡ user) × (role_allows p.locked_role role ≡ true)

listed-player :
    (ps : List AlgorithmPlayer) (k i : ℕ) (p : AlgorithmPlayer)
    → Exists (λ e. (i, p) ≡ e) (indexed k ps)
    → Exists (λ q. p ≡ q) ps
unfolding indexed
listed-player [] k i p h = absurd h
listed-player (q ∷ ps) k i p (inl same) = inl (ap (λ (e : Entry). e.1) same)
listed-player (q ∷ ps) k i p (inr later) = inr (listed-player ps (k + 1) i p later)

cost-allows :
    (p : AlgorithmPlayer) (role : Position) (c : ℕ)
    → role_cost p role ≡ some c
    → role_allows p.locked_role role ≡ true
unfolding role_cost
cost-allows p role c e = ground arith

Fills-Allows :
    (ps : List AlgorithmPlayer) (side : TeamSide) (used : List ℕ) (roles : List Position)
    (ss : List RoleSeat) (n : ℕ)
    → Fills (indexed 0 ps) side used roles ss n
    → All (λ s. Exists (Allows s.user_id s.assigned_role) ps) ss
Fills-Allows ps side used _ _ _ (done _) = tt
Fills-Allows ps side used _ _ _ (take_seat i p _ role rest ss c n listed free cost fills) = (
  Exists-weaken (λ q. p ≡ q) (Allows p.user_id role) ps
      (λ q same. (
        ap (λ (x : AlgorithmPlayer). x.user_id) (sym same),
        rw (← same) (cost-allows p role c cost),
      ))
      (listed-player ps 0 i p listed),
  Fills-Allows ps side (i ∷ used) rest ss n fills,
)

Fills-lanes :
    (es : List Entry) (side : TeamSide) (used : List ℕ) (roles : List Position) (ss : List RoleSeat)
    (n : ℕ)
    → Fills es side used roles ss n
    → map (λ s. s.assigned_role) ss ≡ roles
Fills-lanes es side used _ _ _ (done _) = refl
Fills-lanes es side used _ _ _ (take_seat i p _ role rest ss c n listed free cost fills) =
    ap (λ rs. role ∷ rs) (Fills-lanes es side (i ∷ used) rest ss n fills)

-- Each seat is held by a player whose locked role allows it, and the seats are the five lanes.
pub record IsSeating (ps : List AlgorithmPlayer) (ss : List RoleSeat) : Type 0 where
  pub held : All (λ s. Exists (Allows s.user_id s.assigned_role) ps) ss
  pub all_lanes : map (λ s. s.assigned_role) ss ≡ lanes

in_role_order-lanes :
    (ss : List RoleSeat)
    → map (λ s. s.assigned_role) ss ≡ lanes
    → map (λ s. s.assigned_role) (in_role_order ss) ≡ lanes
unfolding sort insert_sorted
in_role_order-lanes ss e =
    map-sort (λ (s : RoleSeat). s.assigned_role) (λ l r. ltb (role_index r) (role_index l)) ss
    ∙ ap (sort (λ l r. ltb (role_index r) (role_index l))) e

in_role_order-IsSeating :
    (ps : List AlgorithmPlayer) (side : TeamSide) (ss : List RoleSeat) (n : ℕ)
    → Fills (indexed 0 ps) side [] lanes ss n
    → IsSeating ps (in_role_order ss)
in_role_order-IsSeating ps side ss n fills = record {
  held =
      All-sort _ (λ s. Exists (Allows s.user_id s.assigned_role) ps) ss
        (Fills-Allows ps side [] lanes ss n fills);
  all_lanes = in_role_order-lanes ss (Fills-lanes (indexed 0 ps) side [] lanes ss n fills);
}

assignment_of-IsSeating :
    (ps : List AlgorithmPlayer) (side : TeamSide) (b : Best) (cost : Option ℕ) (r : RoleAssignment)
    → Seated (indexed 0 ps) side b.best_assignments cost
    → assignment_of b cost ≡ some r
    → IsSeating ps r.assignments
assignment_of-IsSeating ps side b none r seated e = cc
assignment_of-IsSeating ps side b (some k) r seated e =
    elim (Bool-cases (eq_nat (length b.best_assignments) (length lanes))) [
      | inl five ↦
          let found : some (record {
            assignments = in_role_order b.best_assignments;
            cost = k;
            off_role_count = b.best_off_role_count;
          })
              ≡ some r =
            rw five at e in
          let same : in_role_order b.best_assignments ≡ r.assignments = ground arith in
          subst (IsSeating ps) same (in_role_order-IsSeating ps side b.best_assignments k seated)
      | inr fewer ↦ let no : none ≡ some r = rw fewer at e in absurd (cc)
    ]

pub find_best_role_assignment-IsSeating :
    (ps : List AlgorithmPlayer) (side : TeamSide) (r : RoleAssignment)
    → find_best_role_assignment ps side ≡ some r
    → IsSeating ps r.assignments
unfolding find_best_role_assignment
find_best_role_assignment-IsSeating ps side r e =
    assignment_of-IsSeating ps side (search_roles ps side) (search_roles ps side).best_cost r
      (search_roles-Seated ps side) e
