-- ===== src/Matchmaking/Kept.antt =====
-- The players that a request locks, against the seats that they get: the rows of the match in
-- matchmaking/matchmaking.service.ts, and the players made of them for the algorithm.
use inhouse_maker_core_serve.Common.{
  ℕ, ◌≡◌, ap, Bool, true, false, not, ◌&&◌, ◌||◌, Option, none, some, List, [], ◌∷◌, map, arith,
  inl, inr, ◌==◌, nat_eq, find?, filter, ltb, length, contains, is_some, All, Exists, All-Exists,
  All-weaken, Exists-weaken, Exists-map, Option-cases, Bool-cases, if◌then◌else◌,
}
use inhouse_maker_core_serve.Model.Enums.{TeamSide, Position, position_eq, side_eq}
use inhouse_maker_core_serve.Model.Rows.{Match, MatchPlayer}
use inhouse_maker_core_serve.Model.World.{User}
use inhouse_maker_core_serve.Matchmaking.Roles.{role_allows}
use inhouse_maker_core_serve.Matchmaking.Metrics.{Doubles, Seat}
use inhouse_maker_core_serve.Matchmaking.Locks.{Holds, IsHeld}
use inhouse_maker_core_serve.Matchmaking.Service.{
  PowerEntry, rated_player, participants_of, Participant, blocking_reasons, is_empty,
  lacks_assignment,
}

-- A player of the match with that id, who has that team and role already if the request locks
-- the player.
abbrev pub Keeps : List ℕ → TeamSide → ℕ → Position → MatchPlayer → Type 0
Keeps locked side user role p =
    (p.user_id ≡ user)
    × (contains p.user_id locked ≡ true → (p.team_side ≡ some side) × (p.assigned_role ≡ some role))

-- Each seat of a team is one for a player of the match, and the one that a locked player had.
abbrev pub KeepsLocks :
    (d : Doubles) → List ℕ → List MatchPlayer → TeamSide → List (Seat d) → Type 0
KeepsLocks d locked rows side seats =
    All (λ s. Exists (Keeps locked side s.user_id s.assigned_role) rows) seats

none_left :
    {A : Type 0} (f : A → Bool) (xs : List A)
    → ltb 0 (length (filter f xs)) ≡ false
    → All (λ x. f x ≡ false) xs
none_left f [] h = tt
none_left f (x ∷ xs) h = elim (Bool-cases (f x)) [
  | inl hit ↦ absurd (ground arith)
  | inr miss ↦ (miss, none_left f xs (rw miss at h))
]

unblocked-All :
    (m : Match) (locked : List ℕ)
    → is_empty (blocking_reasons m locked) ≡ true
    → All (λ p. lacks_assignment locked p ≡ false) m.players
unfolding blocking_reasons
unblocked-All m locked h = none_left (lacks_assignment locked) m.players (ground arith)

participants_of-Exists :
    (P : MatchPlayer → Type 0) (us : List User) (rows : List MatchPlayer) (ps : List Participant)
    → participants_of us rows ≡ some ps
    → Exists (λ q. P q.0) ps
    → Exists P rows
unfolding participants_of
participants_of-Exists P us [] [] e h = h
participants_of-Exists P us [] (q ∷ ps) e h = cc
participants_of-Exists P us (p ∷ rows) ps e h =
    elim (Option-cases (find? (λ u. u.id == p.user_id) us)) [
      | inl nobody ↦ let no : none ≡ some ps = rw (nobody, participants_of) at e in absurd (cc)
      | inr (u, found) ↦ elim (Option-cases (participants_of us rows)) [
        | inl missing ↦
            let no : none ≡ some ps = rw (found, missing, participants_of) at e in absurd (cc)
        | inr (rest, joined) ↦
            let same : some ((p, u) ∷ rest) ≡ some ps = rw (found, joined, participants_of) at e in
            let list : ps ≡ (p, u) ∷ rest = cc in
            elim (rw list at h) [
              | inl here ↦ inl here
              | inr later ↦ inr (participants_of-Exists P us rows rest joined later)
            ]
      ]
    ]

side_of :
    (o : Option TeamSide) (s : TeamSide)
    → is_some o ≡ true
    → (elim o [ none ↦ true | some x ↦ x == s ]) ≡ true
    → o ≡ some s
side_of none s h e = cc
side_of (some x) s h e = ap some ((side_eq.beq_iff x s).0 e)

role_of :
    (o : Option Position) (l : Position) → is_some o ≡ true → role_allows o l ≡ true → o ≡ some l
role_of none l h e = cc
role_of (some x) l h e = ap some ((position_eq.beq_iff x l).0 e)

locked_seat :
    (side : Option TeamSide) (role : Option Position) (s : TeamSide) (l : Position) (b : Bool)
    → (b && (not (is_some side) || not (is_some role))) ≡ false
    → role_allows (if b then role else none) l ≡ true
    → (elim (if b then side else none) [ none ↦ true | some x ↦ x == s ]) ≡ true
    → b ≡ true
    → (side ≡ some s) × (role ≡ some l)
locked_seat side role s l true assigned may_role may_side locked =
    (side_of side s (ground arith) may_side, role_of role l (ground arith) may_role)
locked_seat side role s l false assigned may_role may_side locked = cc

module _ (d : Doubles) (powers : List (PowerEntry d)) (locked : List ℕ) (us : List User) where
  held-Keeps :
      (rows : List MatchPlayer) (ps : List Participant) (side : TeamSide) (s : Seat d)
      → participants_of us rows ≡ some ps
      → All (λ p. lacks_assignment locked p ≡ false) rows
      → IsHeld d (map (rated_player d powers locked) ps) side s
      → Exists (Keeps locked side s.user_id s.assigned_role) rows
  held-Keeps rows ps side s joined assigned held =
      Exists-weaken _ (Keeps locked side s.user_id s.assigned_role) rows
        (λ p h. (
          h.1.0,
          locked_seat p.team_side p.assigned_role side s.assigned_role (contains p.user_id locked)
              h.0 h.1.1 h.1.2,
        ))
        (All-Exists _ _ rows assigned (
          participants_of-Exists
            (λ p.
              (p.user_id ≡ s.user_id)
              × (role_allows (if contains p.user_id locked then p.assigned_role else none)
                    s.assigned_role
                  ≡ true)
              × ((elim (if contains p.user_id locked then p.team_side else none) [
                | none ↦ true
                | some x ↦ x == side
              ])
                  ≡ true))
            us rows ps joined
            (Exists-map (Holds d side s.user_id s.assigned_role) (rated_player d powers locked) ps
              held)))

  -- What the algorithm keeps of the players made for it, the match keeps of its rows.
  pub team-KeepsLocks :
      (m : Match) (ps : List Participant) (side : TeamSide) (seats : List (Seat d))
      → participants_of us m.players ≡ some ps
      → is_empty (blocking_reasons m locked) ≡ true
      → All (IsHeld d (map (rated_player d powers locked) ps) side) seats
      → KeepsLocks d locked m.players side seats
  team-KeepsLocks m ps side seats joined free held =
      All-weaken _ _ seats
        (λ s h. held-Keeps m.players ps side s joined (unblocked-All m locked free) h) held
