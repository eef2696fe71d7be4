-- ===== src/Lifecycle/MatchKeeps.antt =====
-- The handlers of matches/matches.service.ts one by one, and the agreement of the rows of every
-- match, also where they throw.
use inhouse_maker_core_serve.Common.{
  ℕ, ◌≡◌, refl, some, none, List, [], ◌∷◌, ◌++◌, arith, All, All-find?, All-append, or_else, eq_nat,
  inl, inr, Bool-cases, ◌==◌,
}
use mathlib.Core.Path.{subst, ap}
use inhouse_maker_core_serve.Model.Enums.{MatchStatus, status_eq, BalanceMode}
use inhouse_maker_core_serve.Model.Rows.{Match, MatchPlayer, StoredCandidate}
use inhouse_maker_core_serve.Model.World.{World, find_match, put_match, All-put_match}
use inhouse_maker_core_serve.Model.Outcome.{Outcome, ok, err, Outcome-cases}
use inhouse_maker_core_serve.Model.Action.{◌>>=◌}
use inhouse_maker_core_serve.Groups.{assert_group_member}
use inhouse_maker_core_serve.Matches.Roster.{
  PlayerInput, PlayerUpdate, update_player_rows, lock_rows, reopen_rows, insertable, new_inputs,
  create_inputs,
}
use inhouse_maker_core_serve.Matches.Teams.{ManualBalance, assignments, seat_all}
use inhouse_maker_core_serve.Matches.Guards.{
  add_players_ready, update_player_ready, lock_ready, manual_balance_ready, assign_ready,
  reopen_ready,
}
use inhouse_maker_core_serve.Matches.Handlers.{
  MatchInput, create_match, add_players, update_player, lock_match, save_manual_balance,
  assign_candidate, reopen_match, new_match, insert_players, manual_rows, assign_rows,
}
use inhouse_maker_core_serve.Lifecycle.Consistent.{IsConsistent}
use inhouse_maker_core_serve.Lifecycle.MatchWrites.{
  lock_rows-IsConsistent, update_player_rows-IsConsistent, reopen_rows-IsConsistent,
  seated-IsConsistent, inserted-IsConsistent,
}

abbrev pub AllConsistent : World → Type 0
AllConsistent w = All IsConsistent w.matches

pub found-IsConsistent :
    (k : ℕ) (w : World) {m : Match}
    → AllConsistent w
    → find_match k w.matches ≡ some m
    → IsConsistent m
found-IsConsistent k w {m} h e = All-find? IsConsistent (λ n. eq_nat n.id k) w.matches h e

pub saved-AllConsistent :
    (m : Match) (w : World)
    → IsConsistent m
    → AllConsistent w
    → All IsConsistent (put_match m w.matches)
saved-AllConsistent m w c h = All-put_match IsConsistent m w.matches c h

lock_ready-found :
    (u k : ℕ) (w : World) (m : Match) → lock_ready u k w ≡ ok m → find_match k w.matches ≡ some m
unfolding lock_ready
lock_ready-found u k w m e = ground arith

pub lock_match-keeps : (u k : ℕ) (w : World) → AllConsistent w → AllConsistent (lock_match u k w).1
unfolding lock_match
lock_match-keeps u k w h = elim (Outcome-cases (lock_ready u k w)) [
  | inl (m, e) ↦
      rw (e, ◌>>=◌)
        (saved-AllConsistent (lock_rows m) w
          (lock_rows-IsConsistent m (found-IsConsistent k w h (lock_ready-found u k w m e))) h)
  | inr (s, c, e) ↦ rw (e, ◌>>=◌) h
]

reopen_ready-found :
    (u k : ℕ) (w : World) (m : Match) → reopen_ready u k w ≡ ok m → find_match k w.matches ≡ some m
unfolding reopen_ready
reopen_ready-found u k w m e = ground arith

pub reopen_match-keeps :
    (u k : ℕ) (w : World) → AllConsistent w → AllConsistent (reopen_match u k w).1
unfolding reopen_match
reopen_match-keeps u k w h = elim (Outcome-cases (reopen_ready u k w)) [
  | inl (m, e) ↦
      rw (e, ◌>>=◌)
        (saved-AllConsistent (reopen_rows m) w
          (reopen_rows-IsConsistent m (found-IsConsistent k w h (reopen_ready-found u k w m e))) h)
  | inr (s, c, e) ↦ rw (e, ◌>>=◌) h
]

update_player_ready-found :
    (u k player : ℕ) (w : World) (m : Match) (p : MatchPlayer)
    → update_player_ready u k player w ≡ ok (m, p)
    → find_match k w.matches ≡ some m
unfolding update_player_ready
update_player_ready-found u k player w m p e = ground arith

pub update_player-keeps :
    (u k player : ℕ) (d : PlayerUpdate) (w : World)
    → AllConsistent w
    → AllConsistent (update_player u k player d w).1
unfolding update_player
update_player-keeps u k player d w h = elim (Outcome-cases (update_player_ready u k player w)) [
  | inl ((m, p), e) ↦
      rw (e, ◌>>=◌)
        (saved-AllConsistent (update_player_rows player d (m.status == MatchStatus.locked) m) w
          (update_player_rows-IsConsistent player d (m.status == MatchStatus.locked) m
            (found-IsConsistent k w h (update_player_ready-found u k player w m p e)))
          h)
  | inr (s, c, e) ↦ rw (e, ◌>>=◌) h
]

manual_balance_ready-found :
    (u k : ℕ) (d : ManualBalance) (w : World) (m : Match) (ps : List MatchPlayer)
    → manual_balance_ready u k d w ≡ ok (m, ps)
    → (find_match k w.matches ≡ some m) × (seat_all (assignments d) m.players ≡ some ps)
unfolding manual_balance_ready
manual_balance_ready-found u k d w m ps e = ground arith

pub save_manual_balance-keeps :
    (u k : ℕ) (d : ManualBalance) (w : World)
    → AllConsistent w
    → AllConsistent (save_manual_balance u k d w).1
unfolding save_manual_balance
save_manual_balance-keeps u k d w h = elim (Outcome-cases (manual_balance_ready u k d w)) [
  | inl ((m, ps), e) ↦
      rw (e, ◌>>=◌)
        (let (found, seats) = manual_balance_ready-found u k d w m ps e in
          saved-AllConsistent (manual_rows m ps) w
            (seated-IsConsistent (assignments d) m ps none
              (some (or_else m.balance_mode BalanceMode.balanced)) seats
              (found-IsConsistent k w h found))
            h)
  | inr (s, c, e) ↦ rw (e, ◌>>=◌) h
]

assign_ready-found :
    (u k number : ℕ) (w : World) (m : Match) (c : StoredCandidate) (ps : List MatchPlayer)
    → assign_ready u k number w ≡ ok (m, c, ps)
    → (find_match k w.matches ≡ some m) × (seat_all (c.team_a ++ c.team_b) m.players ≡ some ps)
unfolding assign_ready
assign_ready-found u k number w m c ps e = ground arith

pub assign_candidate-keeps :
    (u k number : ℕ) (w : World) → AllConsistent w → AllConsistent (assign_candidate u k number w).1
unfolding assign_candidate
assign_candidate-keeps u k number w h = elim (Outcome-cases (assign_ready u k number w)) [
  | inl ((m, c', ps), e) ↦
      rw (e, ◌>>=◌)
        (let (found, seats) = assign_ready-found u k number w m c' ps e in
          saved-AllConsistent (assign_rows m c' ps) w
            (seated-IsConsistent (c'.team_a ++ c'.team_b) m ps (some c'.candidate_no) (some c'.mode)
              seats (found-IsConsistent k w h found))
            h)
  | inr (s, c, e) ↦ rw (e, ◌>>=◌) h
]

add_players_ready-found :
    (u k : ℕ) (w : World) (m : Match)
    → add_players_ready u k w ≡ ok m
    → find_match k w.matches ≡ some m
unfolding add_players_ready
add_players_ready-found u k w m e = ground arith

-- The match of an outcome, if it has one.
abbrev match_of : Match → Outcome (Match × ℕ) → Match
match_of m (ok (m', fresh)) = m'
match_of m (err s c) = m

insert_players-IsConsistent :
    (m m' : Match) (is : List PlayerInput) (w : World) (fresh : ℕ)
    → insert_players m (new_inputs m is) w ≡ ok (m', fresh)
    → IsConsistent m
    → IsConsistent m'
insert_players-IsConsistent m m' is w fresh e c =
    subst IsConsistent (ap (match_of m) e) (go (new_inputs m is) refl)
  where
    go :
        (news : List PlayerInput)
        → new_inputs m is ≡ news
        → IsConsistent (match_of m (insert_players m news w))
    go [] n = c
    go (i ∷ news) n = elim (Bool-cases (insertable w (i ∷ news))) [
      | inl fine ↦ rw fine (
          subst
            (λ (ns : List PlayerInput).
              IsConsistent (record m { players = m.players ++ create_inputs w w.next_id ns }))
            n (inserted-IsConsistent w w.next_id is m (rw n fine) c))
      | inr refused ↦ rw refused c
    ]

pub add_players-keeps :
    (u k : ℕ) (is : List PlayerInput) (w : World)
    → AllConsistent w
    → AllConsistent (add_players u k is w).1
unfolding add_players
add_players-keeps u k is w h = elim (Outcome-cases (add_players_ready u k w)) [
  | inl (m, e) ↦ elim (Outcome-cases (insert_players m (new_inputs m is) w)) [
    | inl ((m', fresh), f) ↦
        rw (e, ◌>>=◌, f)
          (saved-AllConsistent m' w
            (insert_players-IsConsistent m m' is w fresh f
              (found-IsConsistent k w h (add_players_ready-found u k w m e)))
            h)
    | inr (s, c, f) ↦ rw (e, ◌>>=◌, f) h
  ]
  | inr (s, c, e) ↦ rw (e, ◌>>=◌) h
]

new_match-IsConsistent :
    (k now group user : ℕ) (d : MatchInput) → IsConsistent (new_match k now group user d)
new_match-IsConsistent k now group user d = record {
  reflects = tt;
  stamped = tt;
  players_distinct = tt;
  stats_of_players = tt;
  stats_in_step = tt;
}

pub create_match-keeps :
    (u group : ℕ) (d : MatchInput) (w : World)
    → AllConsistent w
    → AllConsistent (create_match u group d w).1
unfolding create_match
create_match-keeps u group d w h = elim (Outcome-cases (assert_group_member group u w)) [
  | inl (access, e) ↦
      rw (e, ◌>>=◌)
        (All-append IsConsistent w.matches (new_match w.next_id w.now group u d ∷ []) h
          (new_match-IsConsistent w.next_id w.now group u d, tt))
  | inr (s, c, e) ↦ rw (e, ◌>>=◌) h
]
