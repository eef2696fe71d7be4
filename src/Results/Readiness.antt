-- ===== src/Results/Readiness.antt =====
-- `canSubmitResult` of matches/matches.service.ts against assertQuickResultInputReady of
-- results/results.service.ts, which test the teams with code of their own.
use inhouse_maker_core_serve.Common.{
  ℕ, true, false, not, ◌≡◌, refl, List, [], ◌∷◌, arith, inl, inr, All, Has, IsDistinct, contains,
  Has→contains, filter, length, eq_nat, nat_eq, repeated, Bool-cases, length-filter-le,
}
use inhouse_maker_core_serve.Model.Enums.{TeamSide, side_eq, position_eq}
use inhouse_maker_core_serve.Model.Rows.{Match, MatchPlayer}
use inhouse_maker_core_serve.Model.Outcome.{ok}
use inhouse_maker_core_serve.Matches.Roster.{user_ids}
use inhouse_maker_core_serve.Matches.Teams.{is_assigned, has_lane_targets, can_submit_result}
use inhouse_maker_core_serve.Results.Input.{
  QuickResult, is_incomplete, input_ids, is_nonempty, assert_input_ready, is_unassigned,
}

-- The input names each player of the match exactly once, and one of them as MVP.
pub record NamesPlayers (m : Match) (d : QuickResult) : Type 0 where
  pub as_many : length d.players ≡ length m.players
  pub once : IsDistinct (input_ids d.players)
  pub known : All (λ u. Has u (user_ids m)) (input_ids d.players)
  pub complete : All (λ u. Has u (input_ids d.players)) (user_ids m)
  pub mvp_plays : Has d.mvp_user_id (user_ids m)

none_left :
    (xs ys : List ℕ)
    → All (λ u. Has u ys) xs
    → is_nonempty (filter (λ u. not (contains u ys)) xs) ≡ false
none_left [] ys h = refl
none_left (x ∷ xs) ys (hx, h) =
    let e = Has→contains x ys hx in let rest = none_left xs ys h in ground arith

still_unseen :
    (x y : ℕ) (seen : List ℕ) → ¬ (x ≡ y) → contains y seen ≡ false → contains y (x ∷ seen) ≡ false
still_unseen x y seen n old = elim (Bool-cases (eq_nat y x)) [
  | inl same ↦ absurd (n (ground arith))
  | inr other ↦ ground arith
]

none_repeated :
    (seen xs : List ℕ)
    → All (λ u. contains u seen ≡ false) xs
    → IsDistinct xs
    → is_nonempty (repeated seen xs) ≡ false
none_repeated seen [] a h = refl
none_repeated seen (x ∷ xs) (new, a) (hx, h) =
    rw new (none_repeated (x ∷ seen) xs (apart xs hx a) h)
  where
    apart :
        (ys : List ℕ)
        → ¬ Has x ys
        → All (λ u. contains u seen ≡ false) ys
        → All (λ u. contains u (x ∷ seen) ≡ false) ys
    apart [] n b = tt
    apart (y ∷ ys) n (by', b) =
        (still_unseen x y seen (λ e. n (inl e)) by', apart ys (λ h'. n (inr h')) b)

nothing_excluded : (xs : List ℕ) → All (λ u. contains {A = ℕ} u [] ≡ false) xs
nothing_excluded [] = tt
nothing_excluded (x ∷ xs) = (refl, nothing_excluded xs)

-- If the filter keeps all, it keeps each.
all_assigned :
    (ps : List MatchPlayer)
    → length (filter is_assigned ps) ≡ length ps
    → (filter is_assigned ps ≡ ps) × (is_nonempty (filter is_unassigned ps) ≡ false)
all_assigned [] h = (refl, refl)
all_assigned (p ∷ ps) h = elim (Bool-cases (is_assigned p)) [
  | inl both ↦
      let (same, rest) = all_assigned ps (ground arith) in (rw (both, same) refl, ground arith)
  | inr none_given ↦ let le = length-filter-le is_assigned ps in absurd (ground arith)
]

has_lane_targets-is_incomplete :
    (ps : List MatchPlayer) (side : TeamSide)
    → has_lane_targets ps side ≡ true
    → is_incomplete ps side ≡ false
unfolding has_lane_targets is_incomplete
has_lane_targets-is_incomplete ps side h = ground arith

-- What `canSubmitResult` says of the players.
ready_facts :
    (m : Match)
    → can_submit_result m ≡ true
    → (length (filter is_assigned m.players) ≡ length m.players)
      × (has_lane_targets (filter is_assigned m.players) TeamSide.team_a ≡ true)
      × (has_lane_targets (filter is_assigned m.players) TeamSide.team_b ≡ true)
unfolding can_submit_result
ready_facts m h = ground arith

complete_teams :
    (m : Match)
    → can_submit_result m ≡ true
    → (is_nonempty (filter is_unassigned m.players) ≡ false)
      × (is_incomplete m.players TeamSide.team_a ≡ false)
      × (is_incomplete m.players TeamSide.team_b ≡ false)
complete_teams m h =
    let (full, a, b) = ready_facts m h in
    let (same, none_open) = all_assigned m.players full in
    (
      none_open,
      has_lane_targets-is_incomplete m.players TeamSide.team_a (rw same at a),
      has_lane_targets-is_incomplete m.players TeamSide.team_b (rw same at b),
    )

-- A match that is shown as ready for a result is ready for it: an input that names each player
-- once, and one of them as MVP, passes the checks of the submission.
pub can_submit_result-assert_input_ready :
    (m : Match) (d : QuickResult)
    → can_submit_result m ≡ true
    → NamesPlayers m d
    → assert_input_ready m d ≡ ok tt
unfolding can_submit_result assert_input_ready
can_submit_result-assert_input_ready m d ready names =
    let (open_none, a, b) = complete_teams m ready in
    let l = names.as_many in
    let r = none_repeated [] (input_ids d.players) (nothing_excluded _) names.once in
    let k = none_left (input_ids d.players) (user_ids m) names.known in
    let c = none_left (user_ids m) (input_ids d.players) names.complete in
    let v = Has→contains d.mvp_user_id (user_ids m) names.mvp_plays in ground arith
