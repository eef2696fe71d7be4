-- ===== src/Results/Policy.antt =====
-- ResultConfirmationPolicyService.evaluate of results/result-confirmation-policy.service.ts.
-- `confirmCount / participantCount >= 0.7` is a test of doubles. For counts below 2 ^ 49 the
-- rounded quotient passes it exactly when 10 * confirmCount >= 7 * participantCount.
pub mod Latest
pub mod Voters
pub mod Verdict
use inhouse_maker_core_serve.Common.{
  ℕ, ◌*◌, Bool, true, false, not, ◌&&◌, ◌||◌, Option, none, some, List, [], ◌∷◌, ◌++◌, map,
  if◌then◌else◌, leb, ltb, ◌==◌, filter, any, all, length, nat_eq,
}
use inhouse_maker_core_serve.Common.Sorting.{sort}
use inhouse_maker_core_serve.Model.Enums.{
  TeamSide, ResultStatus, ConfirmationAction, action_eq, side_eq,
}
use inhouse_maker_core_serve.Model.Rows.{Confirmation}

-- `right.createdAt - left.createdAt` is positive: `right` comes first.
abbrev pub is_older : Confirmation → Confirmation → Bool
is_older left right = ltb left.created_at right.created_at

abbrev pub by_user : ℕ → Confirmation → Bool
by_user u c = c.user_id == u

-- The loop that fills the map: a user's first confirmation is kept, in order of insertion.
unfoldable pub keep_one : List Confirmation → Confirmation → List Confirmation
keep_one latest c = if any (by_user c.user_id) latest then latest else latest ++ c ∷ []

unfoldable pub keep_first : List Confirmation → List Confirmation → List Confirmation
unfolding keep_one
keep_first latest [] = latest
keep_first latest (c ∷ cs) = keep_first (keep_one latest c) cs

unfoldable pub latest_by_user : List Confirmation → List Confirmation
unfolding sort keep_first
latest_by_user cs = keep_first [] (sort is_older cs)

abbrev pub is_confirm : Confirmation → Bool
is_confirm c = c.action == ConfirmationAction.confirm

-- A proposal and a winning team that are both given and differ.
abbrev pub opposes : Option TeamSide → Confirmation → Bool
opposes none c = false
opposes (some winner) c = elim c.proposed_winning_team [
  | none ↦ false
  | some side ↦ not (side == winner)
]

abbrev pub captain_confirms : List Confirmation → ℕ → Bool
captain_confirms latest captain = any (λ c. by_user captain c && is_confirm c) latest

unfoldable pub captains_confirmed : List ℕ → List Confirmation → Bool
captains_confirmed captains latest =
    leb 2 (length captains) && all (captain_confirms latest) captains

unfoldable pub reaches_quorum : ℕ → ℕ → Bool
reaches_quorum participant_count confirm_count =
    ltb 0 participant_count && leb (7 * participant_count) (10 * confirm_count)

unfoldable pub evaluate_latest : ℕ → List ℕ → Option TeamSide → List Confirmation → ResultStatus
unfolding captains_confirmed reaches_quorum
evaluate_latest participant_count captains winning_team latest =
    let confirm_count = length (filter is_confirm latest) in
    let conflicting_count = length (filter (λ c. not (is_confirm c)) latest) in
    if leb 2 conflicting_count || any (opposes winning_team) latest
    then ResultStatus.disputed
    else if captains_confirmed captains latest || reaches_quorum participant_count confirm_count
    then ResultStatus.confirmed
    else ResultStatus.partial

unfoldable pub evaluate : ℕ → List ℕ → Option TeamSide → List Confirmation → ResultStatus
unfolding evaluate_latest latest_by_user
evaluate participant_count captains winning_team confirmations =
    evaluate_latest participant_count captains winning_team (latest_by_user confirmations)
