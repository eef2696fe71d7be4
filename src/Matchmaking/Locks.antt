-- ===== src/Matchmaking/Locks.antt =====
-- The locked sides and roles of players in the splits of generateCandidates:
-- matchmaking/matchmaking-algorithm.service.ts.
use inhouse_maker_core_serve.Common.{
  false, ◌∙◌, Exists→any, is_some-find?, ℕ, ◌+◌, ◌≡◌, refl, ap, true, Option, none, some, List, [],
  ◌∷◌, map, arith, inl, inr, ◌⊎◌, ◌==◌, nat_eq, string_eq, Bool-cases, Option-cases, find?,
  contains, get_elem?, All, All-append, All-weaken, All-Exists, Exists, Exists-weaken, Exists-map,
  get_elem?-Exists, all→All, all,
}
use inhouse_maker_core_serve.Model.Enums.{Position, position_eq, TeamSide, side_eq}
use inhouse_maker_core_serve.Matches.Teams.{lanes}
use inhouse_maker_core_serve.Matchmaking.Roles.{
  AlgorithmPlayer, role_allows, side_allows, RoleSeat, respects_locked_teams, RoleAssignment,
}
use inhouse_maker_core_serve.Matchmaking.Metrics.{Doubles, RatedPlayer, Seat, HistoryContext}
use inhouse_maker_core_serve.Matchmaking.Splits.{
  Split, picked, others, rated_seats, best_assignment, evaluated, both_assigned, split_of,
  splits_of, split_candidates,
}
use inhouse_maker_core_serve.Matchmaking.Seating.{
  Allows, IsSeating, find_best_role_assignment-IsSeating,
}

module _ (d : Doubles) where
  -- A seat is held by one of the players, whose locks allow the side and the role.
  abbrev pub Holds : TeamSide → ℕ → Position → RatedPlayer d → Type 0
  Holds side user role p =
      (p.player.user_id ≡ user)
      × (role_allows p.player.locked_role role ≡ true)
      × (side_allows side p.player ≡ true)

  abbrev pub IsHeld : List (RatedPlayer d) → TeamSide → Seat d → Type 0
  IsHeld players side s = Exists (Holds side s.user_id s.assigned_role) players

  picked-Exists :
      (P : RatedPlayer d → Type 0) (players : List (RatedPlayer d)) (is : List ℕ)
      → Exists P (picked d players is)
      → Exists P players
  unfolding picked
  picked-Exists P players [] h = absurd h
  picked-Exists P players (i ∷ is) h = elim (Option-cases (get_elem? players i)) [
    | inl missing ↦ picked-Exists P players is (rw (missing, picked) at h)
    | inr (p, found) ↦
        let here : P p ⊎ Exists P (picked d players is) = rw (found, picked) at h in
        elim here [
          | inl mine ↦ get_elem?-Exists P players i p found mine
          | inr later ↦ picked-Exists P players is later
        ]
  ]

  others-Exists :
      (P : RatedPlayer d → Type 0) (k : ℕ) (players : List (RatedPlayer d)) (is : List ℕ)
      → Exists P (others d k players is)
      → Exists P players
  unfolding others
  others-Exists P k [] is h = h
  others-Exists P k (p ∷ ps) is h = elim (Bool-cases (contains k is)) [
    | inl taken ↦ inr (others-Exists P (k + 1) ps is (rw taken at h))
    | inr free ↦
        let here : P p ⊎ Exists P (others d (k + 1) ps is) = rw free at h in
        elim here [ inl mine ↦ inl mine | inr later ↦ inr (others-Exists P (k + 1) ps is later) ]
  ]

  rated_seats-All :
      (P : ℕ → Position → Type 0) (players : List (RatedPlayer d)) (ss : List RoleSeat)
      → All (λ s. P s.user_id s.assigned_role) ss
      → All (λ s. P s.user_id s.assigned_role) (rated_seats d players ss)
  unfolding rated_seats
  rated_seats-All P players [] h = tt
  rated_seats-All P players (s ∷ ss) (hs, h) =
      elim (Option-cases (find? (λ p. p.player.user_id == s.user_id) players)) [
        | inl missing ↦ rw (missing, rated_seats) (rated_seats-All P players ss h)
        | inr (p, found) ↦ rw (found, rated_seats) (hs, rated_seats-All P players ss h)
      ]

  best_assignment-IsSeating :
      (team : List (RatedPlayer d)) (side : TeamSide) (r : RoleAssignment)
      → best_assignment d team side ≡ some r
      → IsSeating (map (λ (p : RatedPlayer d). p.player) team) r.assignments
  best_assignment-IsSeating team side r e =
      find_best_role_assignment-IsSeating (map (λ (p : RatedPlayer d). p.player) team) side r e

  -- No seat is lost where each is held by a player.
  rated_seats-roles :
      (team : List (RatedPlayer d)) (ss : List RoleSeat)
      → All (λ s. Exists (λ p. (p.player.user_id == s.user_id) ≡ true) team) ss
      → map (λ s. s.assigned_role) (rated_seats d team ss) ≡ map (λ s. s.assigned_role) ss
  unfolding rated_seats
  rated_seats-roles team [] h = refl
  rated_seats-roles team (s ∷ ss) (hs, h) =
      elim (Option-cases (find? (λ p. p.player.user_id == s.user_id) team)) [
        | inl missing ↦
            let there = Exists→any (λ p. p.player.user_id == s.user_id) team hs in
            let none_there = is_some-find? (λ p. p.player.user_id == s.user_id) team in
            let no : false ≡ true = rw missing at none_there ∙ there in absurd (cc)
        | inr (p, found) ↦
            rw (found, rated_seats) (ap (λ rs. s.assigned_role ∷ rs) (rated_seats-roles team ss h))
      ]

  team-lanes :
      (team : List (RatedPlayer d)) (side : TeamSide) (r : RoleAssignment)
      → best_assignment d team side ≡ some r
      → map (λ s. s.assigned_role) (rated_seats d team r.assignments) ≡ lanes
  team-lanes team side r e =
      rated_seats-roles team r.assignments (
        All-weaken _ _ r.assignments
          (λ s held.
            Exists-weaken _ (λ (p : RatedPlayer d). (p.player.user_id == s.user_id) ≡ true) team
              (λ p h. (nat_eq.beq_iff _ _).1 h.0)
              (Exists-map (Allows s.user_id s.assigned_role) (λ (p : RatedPlayer d). p.player) team
                held))
          (best_assignment-IsSeating team side r e).held)
      ∙ (best_assignment-IsSeating team side r e).all_lanes

  -- The seats of one team that was found for players who may be on that side.
  team-IsHeld :
      (team : List (RatedPlayer d)) (side : TeamSide) (r : RoleAssignment)
      → All (λ p. side_allows side p ≡ true) (map (λ (p : RatedPlayer d). p.player) team)
      → best_assignment d team side ≡ some r
      → All (IsHeld team side) (rated_seats d team r.assignments)
  team-IsHeld team side r may e =
      rated_seats-All (λ user role. Exists (Holds side user role) team) team r.assignments
        (All-weaken _ _ r.assignments
          (λ s held.
            Exists-map _ (λ (p : RatedPlayer d). p.player) team
              (Exists-weaken _
                (λ (p : AlgorithmPlayer).
                  (p.user_id ≡ s.user_id)
                  × (role_allows p.locked_role s.assigned_role ≡ true)
                  × (side_allows side p ≡ true))
                (map (λ (p : RatedPlayer d). p.player) team) (λ p h. (h.1.0, h.1.1, h.0))
                (All-Exists _ _ (map (λ (p : RatedPlayer d). p.player) team) may held)))
          (best_assignment-IsSeating team side r e).held)

  -- Both teams of a split fill the five lanes, and respect the locks.
  pub record IsLegal (players : List (RatedPlayer d)) (s : Split d) : Type 0 where
    pub team_a : All (IsHeld players TeamSide.team_a) s.team_a
    pub team_b : All (IsHeld players TeamSide.team_b) s.team_b
    pub lanes_a : map (λ x. x.assigned_role) s.team_a ≡ lanes
    pub lanes_b : map (λ x. x.assigned_role) s.team_b ≡ lanes

  both_assigned-IsLegal :
      (history : Option (HistoryContext d)) (players a b : List (RatedPlayer d))
      (o q : Option RoleAssignment)
      (from_a : (P : RatedPlayer d → Type 0) → Exists P a → Exists P players)
      (from_b : (P : RatedPlayer d → Type 0) → Exists P b → Exists P players)
      → all (side_allows TeamSide.team_a) (map (λ (p : RatedPlayer d). p.player) a) ≡ true
      → all (side_allows TeamSide.team_b) (map (λ (p : RatedPlayer d). p.player) b) ≡ true
      → best_assignment d a TeamSide.team_a ≡ o
      → best_assignment d b TeamSide.team_b ≡ q
      → All (IsLegal players) (both_assigned d history a b o q)
  unfolding evaluated
  both_assigned-IsLegal history players a b none q from_a from_b ha hb eo eq = tt
  both_assigned-IsLegal history players a b (some r) none from_a from_b ha hb eo eq = tt
  both_assigned-IsLegal history players a b (some r) (some t) from_a from_b ha hb eo eq = (
    record {
      team_a =
          All-weaken _ _ (rated_seats d a r.assignments) (λ x h. from_a _ h)
            (team-IsHeld a TeamSide.team_a r (all→All _ _ ha) eo);
      team_b =
          All-weaken _ _ (rated_seats d b t.assignments) (λ x h. from_b _ h)
            (team-IsHeld b TeamSide.team_b t (all→All _ _ hb) eq);
      lanes_a = team-lanes a TeamSide.team_a r eo;
      lanes_b = team-lanes b TeamSide.team_b t eq;
    },
    tt,
  )

  split_of-IsLegal :
      (history : Option (HistoryContext d)) (players a b : List (RatedPlayer d))
      (from_a : (P : RatedPlayer d → Type 0) → Exists P a → Exists P players)
      (from_b : (P : RatedPlayer d → Type 0) → Exists P b → Exists P players)
      → All (IsLegal players) (split_of d history a b)
  unfolding split_of respects_locked_teams
  split_of-IsLegal history players a b from_a from_b =
      elim (Bool-cases (
        respects_locked_teams (map (λ (p : RatedPlayer d). p.player) a)
          (map (λ (p : RatedPlayer d). p.player) b))) [
            | inl respected ↦ rw respected (
                both_assigned-IsLegal history players a b _ _ from_a from_b (ground arith)
                  (ground arith) refl refl)
            | inr broken ↦ rw broken tt
          ]

  splits_of-IsLegal :
      (history : Option (HistoryContext d)) (players : List (RatedPlayer d)) (iss : List (List ℕ))
      → All (IsLegal players) (splits_of d history players iss)
  unfolding splits_of
  splits_of-IsLegal history players [] = tt
  splits_of-IsLegal history players (is ∷ rest) =
      All-append (IsLegal players)
        (split_of d history (picked d players is) (others d 0 players is))
        (splits_of d history players rest)
        (split_of-IsLegal history players _ _ (λ P. picked-Exists P players is)
          (λ P. others-Exists P 0 players is))
        (splits_of-IsLegal history players rest)

  -- Every split fills the lanes and respects the locks of the players.
  pub split_candidates-IsLegal :
      (history : Option (HistoryContext d)) (players : List (RatedPlayer d))
      → All (IsLegal players) (split_candidates d history players)
  unfolding split_candidates
  split_candidates-IsLegal history players = splits_of-IsLegal history players _
