-- ===== src/Matchmaking/Optimum.antt =====
-- The ways of seating a team, and their costs, against the search for a team's roles.
use inhouse_maker_core_serve.Common.{
  ℕ, ◌+◌, ◌≤◌, true, false, ◌≡◌, refl, Option, none, some, List, [], ◌∷◌, ◌++◌, arith, inl, inr,
  length, contains, nat_eq, Bool-cases, Option-cases, Exists, append_assoc, append-nil, sym,
}
use mathlib.Core.Path.{subst}
use inhouse_maker_core_serve.Model.Enums.{Position, TeamSide}
use inhouse_maker_core_serve.Matches.Teams.{lanes}
use inhouse_maker_core_serve.Matchmaking.Roles.{
  AlgorithmPlayer, role_cost, RoleSeat, Best, improves, Entry, for_each, indexed, seat_of, off_role,
  Search, try_player, backtrack, RoleAssignment, in_role_order, search_roles, assignment_of,
  find_best_role_assignment,
}

-- A way of filling the roles with players that are not used yet, with the seats and the cost.
pub data Fills (players : List Entry) (side : TeamSide)
    : List ℕ → List Position → List RoleSeat → ℕ → Type 0 where
  done : (used : List ℕ) → Fills players side used [] [] 0
  take_seat :
      (i : ℕ) (p : AlgorithmPlayer) (used : List ℕ) (role : Position) (rest : List Position)
      (ss : List RoleSeat) (c n : ℕ)
      → Exists (λ e. (i, p) ≡ e) players
      → contains i used ≡ false
      → role_cost p role ≡ some c
      → Fills players side (i ∷ used) rest ss n
      → Fills players side used (role ∷ rest) (seat_of side role p ∷ ss) (c + n)

abbrev AtMost : ℕ → Option ℕ → Type 0
AtMost n none = ⊥
AtMost n (some k) = k ≤ n

module _ {A B : Type 0} (f : B → A → B) (P : B → Type 0) where
  -- What every turn keeps, the loop keeps.
  for_each-keeps :
      (b : B) (xs : List A)
      → ((c : B) (x : A) → Exists (λ y. x ≡ y) xs → P c → P (f c x))
      → P b
      → P (for_each f b xs)
  unfolding for_each
  for_each-keeps b [] k h = h
  for_each-keeps b (x ∷ xs) k h =
      for_each-keeps (f b x) xs (λ c y m. k c y (inr m)) (k b x (inl refl) h)

  -- What one turn reaches and every turn keeps, the loop reaches.
  for_each-reaches :
      (x : A) (b : B) (xs : List A)
      → ((c : B) (y : A) → P c → P (f c y))
      → ((c : B) → P (f c x))
      → Exists (λ y. x ≡ y) xs
      → P (for_each f b xs)
  unfolding for_each
  for_each-reaches x b [] k r h = absurd h
  for_each-reaches x b (y ∷ ys) k r (inl same) =
      for_each-keeps (f b y) ys (λ c z m. k c z) (subst (λ z. P (f b z)) same (r b))
  for_each-reaches x b (y ∷ ys) k r (inr later) = for_each-reaches x (f b y) ys k r later

-- One turn keeps what the searches that it may start keep.
module _ (P : Best → Type 0) (search : Search) (side : TeamSide) (role : Position) (used : List ℕ)
    (current : List RoleSeat) (total off : ℕ) (b : Best) (i : ℕ) (p : AlgorithmPlayer) where
  try_player-keeps :
      ((c : ℕ)
        → contains i used ≡ false
        → role_cost p role ≡ some c
        → P (
            search
              (i ∷ used)
              (current ++ seat_of side role p ∷ [])
              (total + c)
              (off + off_role c)
              b))
      → P b
      → P (try_player search side role used current total off b (i, p))
  unfolding try_player
  try_player-keeps k h = elim (Bool-cases (contains i used)) [
    | inl taken ↦ rw taken h
    | inr free ↦ elim (Option-cases (role_cost p role)) [
      | inl never ↦ rw (free, never) h
      | inr (c, cost) ↦ rw (free, cost) (k c free cost)
    ]
  ]

-- An invariant of the best so far, for as long as the search stands where it ought to.
module _ (players : List Entry) (side : TeamSide) (P : Best → Type 0)
    (Ready : List Position → List ℕ → List RoleSeat → ℕ → Type 0)
    (at_leaf : (used : List ℕ) (current : List RoleSeat) (total off : ℕ) (b : Best)
      → Ready [] used current total
      → improves total b.best_cost ≡ true
      → P b
      → P (record {
        best_cost = some total;
        best_assignments = current;
        best_off_role_count = off;
      }))
    (onward : (i : ℕ) (p : AlgorithmPlayer) (role : Position) (rest : List Position) (used : List ℕ)
        (current : List RoleSeat) (total c : ℕ)
      → Exists (λ e. (i, p) ≡ e) players
      → contains i used ≡ false
      → role_cost p role ≡ some c
      → Ready (role ∷ rest) used current total
      → Ready rest (i ∷ used) (current ++ seat_of side role p ∷ []) (total + c)) where
  backtrack-keeps :
      (roles : List Position) (used : List ℕ) (current : List RoleSeat) (total off : ℕ) (b : Best)
      → Ready roles used current total
      → P b
      → P (backtrack players side roles used current total off b)
  unfolding backtrack
  backtrack-keeps [] used current total off b r h = elim (Bool-cases (improves total b.best_cost)) [
    | inl better ↦ rw better (at_leaf used current total off b r better h)
    | inr worse ↦ rw worse h
  ]
  backtrack-keeps (role ∷ rest) used current total off b r h =
      elim (Bool-cases (improves total b.best_cost)) [
        | inl better ↦ rw better (
            for_each-keeps
              (try_player (backtrack players side rest) side role used current total off) P b
              players
              (λ q e listed g.
                try_player-keeps P (backtrack players side rest) side role used current total off q
                  e.0 e.1
                  (λ c free cost.
                    backtrack-keeps rest (e.0 ∷ used) (current ++ seat_of side role e.1 ∷ [])
                      (total + c) (off + off_role c) q
                      (onward e.0 e.1 role rest used current total c listed free cost r) g)
                  g)
              h)
        | inr worse ↦ rw worse h
      ]

-- The search never makes the best so far worse.
backtrack-no_worse :
    (players : List Entry) (side : TeamSide) (n : ℕ) (roles : List Position) (used : List ℕ)
    (current : List RoleSeat) (total off : ℕ) (b : Best)
    → AtMost n b.best_cost
    → AtMost n (backtrack players side roles used current total off b).best_cost
backtrack-no_worse players side n roles used current total off b h =
    backtrack-keeps players side (λ q. AtMost n q.best_cost) (λ rs us cs t. Unit {0})
      (λ us cs t o q r better g. leaf_no_worse t q.best_cost better g)
      (λ i p role rest us cs t c listed free cost r. tt) roles used current total off b tt h
  where
    leaf_no_worse : (t : ℕ) (old : Option ℕ) → improves t old ≡ true → AtMost n old → t ≤ n
    leaf_no_worse t none better g = absurd g
    leaf_no_worse t (some k) better g = ground arith

-- A search that the best so far cuts short was not to find anything better.
cut_short : (total n : ℕ) (old : Option ℕ) → improves total old ≡ false → AtMost (total + n) old
cut_short total n none worse = absurd (cc)
cut_short total n (some k) worse = ground arith

-- The search finds something at most as dear as any way of filling the roles that are left.
backtrack-reaches :
    (players : List Entry) (side : TeamSide) (roles : List Position) (used : List ℕ)
    (ss : List RoleSeat) (n : ℕ) (current : List RoleSeat) (total off : ℕ) (b : Best)
    → Fills players side used roles ss n
    → AtMost (total + n) (backtrack players side roles used current total off b).best_cost
unfolding backtrack try_player
backtrack-reaches players side [] used _ _ current total off b (done _) =
    elim (Bool-cases (improves total b.best_cost)) [
      | inl better ↦ rw better (omega arith)
      | inr worse ↦ rw worse (cut_short total 0 b.best_cost worse)
    ]
backtrack-reaches players side (role ∷ rest) used _ _ current total off b
      (take_seat i p _ _ _ ss c n listed free cost fills) =
    elim (Bool-cases (improves total b.best_cost)) [
      | inl better ↦ rw better (
          for_each-reaches
            (try_player (backtrack players side rest) side role used current total off) Cheap (i, p)
            b players keep
            (λ q. reach q (
              backtrack-reaches players side rest (i ∷ used) ss n
                (current ++ seat_of side role p ∷ []) (total + c) (off + off_role c) q fills))
            listed)
      | inr worse ↦ rw worse (cut_short total (c + n) b.best_cost worse)
    ]
  where
    Cheap : Best → Type 0
    Cheap q = AtMost (total + (c + n)) q.best_cost

    keep :
        (q : Best) (e : Entry)
        → Cheap q
        → Cheap (try_player (backtrack players side rest) side role used current total off q e)
    keep q (j, o) g =
        try_player-keeps Cheap (backtrack players side rest) side role used current total off q j o
          (λ d unused price.
            backtrack-no_worse players side (total + (c + n)) rest (j ∷ used)
              (current ++ seat_of side role o ∷ []) (total + d) (off + off_role d) q g)
          g

    reach :
        (q : Best)
        → AtMost
            (total + c + n)
            (backtrack players side rest
              (i ∷ used)
              (current ++ seat_of side role p ∷ [])
              (total + c)
              (off + off_role c)
              q).best_cost
        → Cheap (try_player (backtrack players side rest) side role used current total off q (i, p))
    reach q g =
        rw (free, cost)
          (subst
            (λ k.
              AtMost k
                (backtrack players side rest (i ∷ used) (current ++ seat_of side role p ∷ [])
                  (total + c) (off + off_role c) q).best_cost)
            (omega arith) g)

-- Seats for all the roles, at the cost that is recorded with them.
abbrev pub Seated : List Entry → TeamSide → List RoleSeat → Option ℕ → Type 0
Seated players side ss none = Unit
Seated players side ss (some cost) = Fills players side [] lanes ss cost

-- Where the search stands: what fills the roles that are left completes the current assignments.
abbrev Completes : List Entry → TeamSide → List Position → List ℕ → List RoleSeat → ℕ → Type 0
Completes players side roles used current total =
    (ss : List RoleSeat) (n : ℕ)
    → Fills players side used roles ss n
    → Fills players side [] lanes (current ++ ss) (total + n)

-- What the search keeps as the best is a way of seating the team, at its cost.
pub search_roles-Seated :
    (ps : List AlgorithmPlayer) (side : TeamSide)
    → Seated
        (indexed 0 ps)
        side
        (search_roles ps side).best_assignments
        (search_roles ps side).best_cost
search_roles-Seated ps side =
    backtrack-keeps (indexed 0 ps) side
      (λ q. Seated (indexed 0 ps) side q.best_assignments q.best_cost)
      (Completes (indexed 0 ps) side) leaf_seated onward lanes [] [] 0 0 _
      (λ ss n fills. subst (λ k. Fills (indexed 0 ps) side [] lanes ss k) (omega arith) fills) tt
  where
    leaf_seated :
        (us : List ℕ) (cs : List RoleSeat) (t o : ℕ) (q : Best)
        → Completes (indexed 0 ps) side [] us cs t
        → improves t q.best_cost ≡ true
        → Seated (indexed 0 ps) side q.best_assignments q.best_cost
        → Fills (indexed 0 ps) side [] lanes cs t
    leaf_seated us cs t o q r better g =
        subst (λ k. Fills (indexed 0 ps) side [] lanes cs k) (omega arith)
          (subst (λ xs. Fills (indexed 0 ps) side [] lanes xs (t + 0)) (append-nil cs)
            (r [] 0 (done us)))

    onward :
        (i : ℕ) (p : AlgorithmPlayer) (role : Position) (rest : List Position) (us : List ℕ)
        (cs : List RoleSeat) (t c : ℕ)
        → Exists (λ e. (i, p) ≡ e) (indexed 0 ps)
        → contains i us ≡ false
        → role_cost p role ≡ some c
        → Completes (indexed 0 ps) side (role ∷ rest) us cs t
        → Completes (indexed 0 ps) side rest (i ∷ us) (cs ++ seat_of side role p ∷ []) (t + c)
    onward i p role rest us cs t c listed free cost r ss n fills =
        subst (λ k. Fills (indexed 0 ps) side [] lanes ((cs ++ seat_of side role p ∷ []) ++ ss) k)
          (omega arith)
          (subst (λ xs. Fills (indexed 0 ps) side [] lanes xs (t + (c + n)))
            (sym (append_assoc cs (seat_of side role p ∷ []) ss))
            (r (seat_of side role p ∷ ss) (c + n)
              (take_seat i p us role rest ss c n listed free cost fills)))

length-Fills :
    (players : List Entry) (side : TeamSide) (used : List ℕ) (roles : List Position)
    (ss : List RoleSeat) (n : ℕ)
    → Fills players side used roles ss n
    → length ss ≡ length roles
length-Fills players side used _ _ _ (done _) = refl
length-Fills players side used _ _ _ (take_seat i p _ role rest ss c n listed free cost fills) =
    omega (arith, length-Fills players side (i ∷ used) rest ss n fills)

-- A cheapest way of seating the team.
pub record IsCheapest (ps : List AlgorithmPlayer) (side : TeamSide) (r : RoleAssignment)
    : Type 0 where
  pub seats : List RoleSeat
  pub in_order : r.assignments ≡ in_role_order seats
  pub fills : Fills (indexed 0 ps) side [] lanes seats r.cost
  pub cheapest : (ss : List RoleSeat) (n : ℕ) → Fills (indexed 0 ps) side [] lanes ss n → r.cost ≤ n

assigned-IsCheapest :
    (ps : List AlgorithmPlayer) (side : TeamSide) (b : Best) (cost : Option ℕ)
    → Seated (indexed 0 ps) side b.best_assignments cost
    → ((ss : List RoleSeat) (n : ℕ) → Fills (indexed 0 ps) side [] lanes ss n → AtMost n cost)
    → (ss : List RoleSeat) (n : ℕ) → Fills (indexed 0 ps) side [] lanes ss n
    → (r : RoleAssignment) × (assignment_of b cost ≡ some r) × IsCheapest ps side r
assigned-IsCheapest ps side b none seated cheap ss n fills = absurd (cheap ss n fills)
assigned-IsCheapest ps side b (some k) seated cheap ss n fills =
    let five = length-Fills (indexed 0 ps) side [] lanes b.best_assignments k seated in
    (
      record {
        assignments = in_role_order b.best_assignments;
        cost = k;
        off_role_count = b.best_off_role_count;
      },
      rw five refl,
      record { seats = b.best_assignments; in_order = refl; fills = seated; cheapest = cheap },
    )

-- If the five roles can be filled with different players whose locked roles allow it, the search
-- finds a way, and none is cheaper.
pub find_best_role_assignment-IsCheapest :
    (ps : List AlgorithmPlayer) (side : TeamSide) (ss : List RoleSeat) (n : ℕ)
    → Fills (indexed 0 ps) side [] lanes ss n
    → (r : RoleAssignment) × (find_best_role_assignment ps side ≡ some r) × IsCheapest ps side r
unfolding find_best_role_assignment
find_best_role_assignment-IsCheapest ps side ss n fills =
    assigned-IsCheapest ps side (search_roles ps side) (search_roles ps side).best_cost
      (search_roles-Seated ps side)
      (λ ts k f.
        subst (λ j. AtMost j (search_roles ps side).best_cost) (omega arith)
          (backtrack-reaches (indexed 0 ps) side lanes [] ts k [] 0 0 _ f))
      ss n fills
