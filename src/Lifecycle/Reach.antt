-- ===== src/Lifecycle/Reach.antt =====
-- Worlds that the service can come to: from a database without matches, by the handlers of
-- matches/matches.service.ts and results/results.service.ts in any order, whatever they answer, by
-- the job of results/results.processor.ts, by the write of balance in
-- matchmaking/matchmaking.service.ts, and by anything that leaves the match tables alone (other
-- modules, delivered jobs, the clock).
use inhouse_maker_core_serve.Common.{ℕ, Bool, ◌≡◌, Option, some, String, List, [], All}
use mathlib.Core.Path.{subst, sym}
use inhouse_maker_core_serve.Model.Enums.{result_eq, BalanceMode}
use inhouse_maker_core_serve.Model.Rows.{Match, StoredCandidate}
use inhouse_maker_core_serve.Model.World.{World, find_match, put_match}
use inhouse_maker_core_serve.Matches.Roster.{PlayerInput, PlayerUpdate}
use inhouse_maker_core_serve.Matches.Teams.{ManualBalance}
use inhouse_maker_core_serve.Matches.Handlers.{
  MatchInput, create_match, add_players, update_player, lock_match, save_manual_balance,
  assign_candidate, reopen_match,
}
use inhouse_maker_core_serve.Matchmaking.Service.{balanced_rows}
use inhouse_maker_core_serve.Results.Input.{QuickResult}
use inhouse_maker_core_serve.Results.Rows.{Resolution}
use inhouse_maker_core_serve.Results.Handlers.{
  ConfirmInput, submit_quick_result, finalize_result_status, confirm_result, admin_resolve_dispute,
}
use inhouse_maker_core_serve.Lifecycle.Consistent.{IsConsistent}
use inhouse_maker_core_serve.Lifecycle.MatchKeeps.{
  AllConsistent, found-IsConsistent, saved-AllConsistent, create_match-keeps, add_players-keeps,
  update_player-keeps, lock_match-keeps, save_manual_balance-keeps, assign_candidate-keeps,
  reopen_match-keeps,
}
use inhouse_maker_core_serve.Lifecycle.ResultKeeps.{
  submit_quick_result-keeps, finalize_result_status-keeps, confirm_result-keeps,
  admin_resolve_dispute-keeps,
}

pub data Step : World → World → Type 0 where
  created : (user group : ℕ) (d : MatchInput) (w : World) → Step w (create_match user group d w).1
  added :
      (user k : ℕ) (inputs : List PlayerInput) (w : World) → Step w (add_players user k inputs w).1
  updated :
      (user k player : ℕ) (d : PlayerUpdate) (w : World)
      → Step w (update_player user k player d w).1
  locked : (user k : ℕ) (w : World) → Step w (lock_match user k w).1
  balanced :
      (k : ℕ) (mode : BalanceMode) (cs : List StoredCandidate) (m : Match) (w : World)
      → find_match k w.matches ≡ some m
      → Step w (record w { matches = put_match (balanced_rows mode cs m) w.matches })
  seated : (user k : ℕ) (d : ManualBalance) (w : World) → Step w (save_manual_balance user k d w).1
  assigned : (user k number : ℕ) (w : World) → Step w (assign_candidate user k number w).1
  reopened : (user k : ℕ) (w : World) → Step w (reopen_match user k w).1
  submitted :
      (user k : ℕ) (d : QuickResult) (key : Option String) (w : World)
      → Step w (submit_quick_result user k d key w).1
  confirmed :
      (user k result : ℕ) (d : ConfirmInput) (w : World)
      → Step w (confirm_result user k result d w).1
  finalized :
      (result : ℕ) (enqueue_followup : Bool) (w : World)
      → Step w (finalize_result_status result enqueue_followup w).1
  resolved :
      (user k result : ℕ) (d : Resolution) (w : World)
      → Step w (admin_resolve_dispute user k result d w).1
  elsewhere : (w w' : World) → w'.matches ≡ w.matches → Step w w'

pub data Reachable : World → Type 0 where
  start : (w : World) → w.matches ≡ [] → Reachable w
  next : (w w' : World) → Reachable w → Step w w' → Reachable w'

balanced_rows-IsConsistent :
    (mode : BalanceMode) (cs : List StoredCandidate) (m : Match)
    → IsConsistent m
    → IsConsistent (balanced_rows mode cs m)
unfolding balanced_rows
balanced_rows-IsConsistent mode cs m c = record {
  reflects = c.reflects;
  stamped = c.stamped;
  players_distinct = c.players_distinct;
  stats_of_players = c.stats_of_players;
  stats_in_step = c.stats_in_step;
}

step-keeps : (w w' : World) → Step w w' → AllConsistent w → AllConsistent w'
step-keeps w _ (created u g d _) h = create_match-keeps u g d w h
step-keeps w _ (added u k is _) h = add_players-keeps u k is w h
step-keeps w _ (updated u k p d _) h = update_player-keeps u k p d w h
step-keeps w _ (locked u k _) h = lock_match-keeps u k w h
step-keeps w _ (balanced k mode cs m _ e) h =
    saved-AllConsistent (balanced_rows mode cs m) w
      (balanced_rows-IsConsistent mode cs m (found-IsConsistent k w h e)) h
step-keeps w _ (seated u k d _) h = save_manual_balance-keeps u k d w h
step-keeps w _ (assigned u k n _) h = assign_candidate-keeps u k n w h
step-keeps w _ (reopened u k _) h = reopen_match-keeps u k w h
step-keeps w _ (submitted u k d key _) h = submit_quick_result-keeps u k d key w h
step-keeps w _ (confirmed u k r d _) h = confirm_result-keeps u k r d w h
step-keeps w _ (finalized r f _) h = finalize_result_status-keeps r f w h
step-keeps w _ (resolved u k r d _) h = admin_resolve_dispute-keeps u k r d w h
step-keeps w w' (elsewhere _ _ e) h = subst (λ ms. All IsConsistent ms) (sym e) h

-- In every world that the service can come to, each match is consistent: if it is RESULT_PENDING,
-- CONFIRMED or DISPUTED, it has a result whose status says the same, and it is never DRAFT,
-- IN_PROGRESS or CLOSED; its result has a time of confirmation exactly while it is CONFIRMED, and
-- no confirmation of a later version; no user plays twice; and each stat is of a player and has the
-- status of the result.
pub Reachable-AllConsistent : (w : World) → Reachable w → AllConsistent w
Reachable-AllConsistent w (start _ none_yet) = subst (λ ms. All IsConsistent ms) (sym none_yet) tt
Reachable-AllConsistent w' (next w _ r s) = step-keeps w w' s (Reachable-AllConsistent w r)
