-- ===== src/Lifecycle/MatchWrites.antt =====
-- The transactions of matches/matches.service.ts, on a match that their checks let through, and
-- the agreement of its rows.
use inhouse_maker_core_serve.Common.{
  ℕ, ◌≡◌, refl, Bool, true, false, Option, none, some, List, ◌++◌, map, if◌then◌else◌, nat_eq, Has,
  All-weaken, ◌∙◌, ◌==◌,
}
use inhouse_maker_core_serve.Model.Enums.{
  MatchStatus, status_eq, result_eq, BalanceMode, ParticipationStatus, participation_eq,
}
use inhouse_maker_core_serve.Model.Rows.{Match, MatchPlayer, MatchResult, Assignment}
use inhouse_maker_core_serve.Model.World.{World}
use inhouse_maker_core_serve.Matches.Roster.{
  PlayerInput, new_inputs, create_inputs, insertable, user_ids, PlayerUpdate, update_player_rows,
  lock_rows, reopen_rows, update_by_id, update_columns, unlock, with_status, recruiting_again,
  without_result, unassign,
}
use inhouse_maker_core_serve.Matches.Teams.{seat_all}
use inhouse_maker_core_serve.Lifecycle.Consistent.{Reflects, IsConsistent}
use inhouse_maker_core_serve.Lifecycle.Players.{
  ids, ids-map, ids-seat_all, IsDistinct-after_insert, Has-ids_append,
}

-- New players with the same users, and a status that speaks of no result.
module _ (m m' : Match) (same_result : m'.result ≡ m.result) (same_stats : m'.stats ≡ m.stats)
    (same_ids : user_ids m' ≡ user_ids m) where
  reseated-IsConsistent : Reflects m'.status m'.result → IsConsistent m → IsConsistent m'
  reseated-IsConsistent r c = record {
    reflects = r;
    stamped = rw same_result c.stamped;
    players_distinct = rw same_ids c.players_distinct;
    stats_of_players = rw (same_stats, same_ids) c.stats_of_players;
    stats_in_step = rw (same_stats, same_result) c.stats_in_step;
  }

pub lock_rows-IsConsistent : (m : Match) → IsConsistent m → IsConsistent (lock_rows m)
unfolding lock_rows
lock_rows-IsConsistent m c =
    reseated-IsConsistent m (lock_rows m) refl refl (ids-map _ m.players (λ p. refl)) tt c

if-user_id :
    (b : Bool) (q p : MatchPlayer)
    → q.user_id ≡ p.user_id
    → (if b then q else p).user_id ≡ p.user_id
if-user_id true q p h = h
if-user_id false q p h = refl

ids-update_by_id :
    (k : ℕ) (d : PlayerUpdate) (ps : List MatchPlayer)
    → ids (update_by_id k (update_columns d) ps) ≡ ids ps
ids-update_by_id k d ps =
    ids-map (λ p. if p.id == k then update_columns d p else p) ps
      (λ p. if-user_id (p.id == k) (update_columns d p) p refl)

ids-unlock : (ps : List MatchPlayer) → ids (map unlock ps) ≡ ids ps
ids-unlock ps = ids-map unlock ps (λ p.
    if-user_id (p.participation_status == ParticipationStatus.locked_in)
      (with_status ParticipationStatus.accepted p) p refl)

pub update_player_rows-IsConsistent :
    (player : ℕ) (d : PlayerUpdate) (should_reopen : Bool) (m : Match)
    → IsConsistent m
    → IsConsistent (update_player_rows player d should_reopen m)
unfolding update_player_rows
update_player_rows-IsConsistent player d true m c =
    reseated-IsConsistent m (update_player_rows player d true m) refl refl
      (ids-unlock (update_by_id player (update_columns d) m.players)
        ∙ ids-update_by_id player d m.players)
      tt c
update_player_rows-IsConsistent player d false m c =
    reseated-IsConsistent m (update_player_rows player d false m) refl refl
      (ids-update_by_id player d m.players) c.reflects c

reopened-IsConsistent :
    (r : Option MatchResult) (m : Match)
    → IsConsistent m
    → IsConsistent (recruiting_again (map unassign m.players) (without_result r m))
reopened-IsConsistent none m c =
    reseated-IsConsistent m (recruiting_again (map unassign m.players) m) refl refl
      (ids-map unassign m.players (λ p. refl)) tt c
reopened-IsConsistent (some r) m c = record {
  reflects = tt;
  stamped = tt;
  players_distinct = rw (ids-map unassign m.players (λ p. refl)) c.players_distinct;
  stats_of_players = tt;
  stats_in_step = tt;
}

pub reopen_rows-IsConsistent : (m : Match) → IsConsistent m → IsConsistent (reopen_rows m)
unfolding reopen_rows
reopen_rows-IsConsistent m c = reopened-IsConsistent m.result m c

-- New seats change no user, whatever status comes with them.
pub seated-IsConsistent :
    (seats : List Assignment) (m : Match) (ps : List MatchPlayer) (number : Option ℕ)
    (mode : Option BalanceMode)
    → seat_all seats m.players ≡ some ps
    → IsConsistent m
    → IsConsistent (record m {
      players = ps;
      status = MatchStatus.balanced;
      selected_candidate_no = number;
      balance_mode = mode;
    })
seated-IsConsistent seats m ps number mode e c =
    reseated-IsConsistent m _ refl refl (rw e at (ids-seat_all seats m.players)) tt c

pub inserted-IsConsistent :
    (w : World) (fresh : ℕ) (is : List PlayerInput) (m : Match)
    → insertable w (new_inputs m is) ≡ true
    → IsConsistent m
    → IsConsistent (record m { players = m.players ++ create_inputs w fresh (new_inputs m is) })
inserted-IsConsistent w fresh is m h c = record {
  reflects = c.reflects;
  stamped = c.stamped;
  players_distinct = IsDistinct-after_insert w m fresh is c.players_distinct h;
  stats_of_players =
      All-weaken (λ s. Has s.user_id (user_ids m))
        (λ s. Has s.user_id (ids (m.players ++ create_inputs w fresh (new_inputs m is)))) m.stats
        (λ s. Has-ids_append s.user_id m.players (create_inputs w fresh (new_inputs m is)))
        c.stats_of_players;
  stats_in_step = c.stats_in_step;
}
