-- ===== src/Examples/Checks.antt =====
-- The theorems at the match that was played through, and at confirmations and players like it.
use inhouse_maker_core_serve.Common.{
  ℕ, ◌+◌, ◌≤◌, ◌≡◌, ◌≢◌, ◌↔◌, ◌⊎◌, refl, true, false, ◌||◌, none, some, List, [], ◌∷◌, inl, inr,
  length, leb, nat_eq, Exists,
}
use inhouse_maker_core_serve.Model.Enums.{Position, TeamSide, ResultStatus, ConfirmationAction}
use inhouse_maker_core_serve.Model.Rows.{Match, Confirmation}
use inhouse_maker_core_serve.Model.Outcome.{ok, err, HttpStatus, AppErrorCode}
use inhouse_maker_core_serve.Groups.{
  group_access, assert_group_member, assert_group_admin, Capability, allowed,
}
use inhouse_maker_core_serve.Groups.Capabilities.{access_flags}
use inhouse_maker_core_serve.Matches.Guards.{lock_ready, reopen_ready}
use inhouse_maker_core_serve.Matches.Handlers.{lock_match, reopen_match}
use inhouse_maker_core_serve.Matches.Teams.{lanes}
use inhouse_maker_core_serve.Matches.Effects.{
  Stored, IsLockedUp, IsOpenAgain, lock_match-effect, reopen_match-effect,
}
use inhouse_maker_core_serve.Results.Input.{assert_input_ready, balance_feeling}
use inhouse_maker_core_serve.Results.Handlers.{submit_quick_result, admin_resolve_dispute}
use inhouse_maker_core_serve.Results.Policy.{
  latest_by_user, evaluate, evaluate_latest, reaches_quorum, captains_confirmed, keep_first,
  keep_one,
}
use inhouse_maker_core_serve.Common.Sorting.{sort, insert_sorted}
use inhouse_maker_core_serve.Results.Policy.Latest.{IsLatest, latest_by_user-IsLatest}
use inhouse_maker_core_serve.Results.Policy.Voters.{Voters}
use inhouse_maker_core_serve.Results.Policy.Verdict.{
  CaptainsAgree, Quorum, Contested, objects, evaluate-confirmed, evaluate-disputed,
}
use inhouse_maker_core_serve.Results.Finality.{
  submit_quick_result-confirmed, admin_resolve_dispute-undisputed,
}
use inhouse_maker_core_serve.Results.Readiness.{can_submit_result-assert_input_ready}
use inhouse_maker_core_serve.Results.Repeated.{submit_quick_result-again}
use inhouse_maker_core_serve.Common.{or_else, ◌==◌, ◌++◌}
use inhouse_maker_core_serve.Model.Enums.{result_eq}
use inhouse_maker_core_serve.Model.Rows.{Match}
use inhouse_maker_core_serve.Model.World.{World, Notification}
use inhouse_maker_core_serve.Results.Rows.{verdict, saved_result}
use inhouse_maker_core_serve.Results.Guards.{finalize_ready}
use inhouse_maker_core_serve.Results.Handlers.{finalize_result_status}
use inhouse_maker_core_serve.Results.Recipients.{IsTold, finalize_result_status-IsTold}
use inhouse_maker_core_serve.Examples.Facts.{blank_result, first_submission, first-accepted}
use inhouse_maker_core_serve.Examples.Played.{blank_match}
use inhouse_maker_core_serve.Results.Dispute.{dispute_summary, dispute_summary-evaluate}
use inhouse_maker_core_serve.Lifecycle.MatchKeeps.{AllConsistent}
use inhouse_maker_core_serve.Lifecycle.Reach.{Reachable-AllConsistent}
use inhouse_maker_core_serve.Matchmaking.Roles.{
  AlgorithmPlayer, role_cost, RoleAssignment, indexed, seat_of, find_best_role_assignment,
}
use inhouse_maker_core_serve.Matchmaking.Combinations.{
  build_combinations, Rises, build_combinations-Rises,
}
use inhouse_maker_core_serve.Matchmaking.Optimum.{
  Fills, done, take_seat, IsCheapest, find_best_role_assignment-IsCheapest,
}
use inhouse_maker_core_serve.Examples.Data.{no_matches, team_a_won, first_key, in_favour_of_a, says}
use inhouse_maker_core_serve.Examples.Played.{
  after_add, after_seats, after_submit, after_both, match_in, both-Reachable,
}
use inhouse_maker_core_serve.Examples.Facts.{
  result_in, when_submitted, when_confirmed, seats-ready, seats-NamesPlayers,
}

Reachable-AllConsistent_example : AllConsistent after_both
Reachable-AllConsistent_example = Reachable-AllConsistent after_both both-Reachable

can_submit_result-assert_input_ready_example :
    assert_input_ready (match_in after_seats) team_a_won ≡ ok tt
can_submit_result-assert_input_ready_example =
    can_submit_result-assert_input_ready (match_in after_seats) team_a_won seats-ready
      seats-NamesPlayers

submit_quick_result-confirmed_example :
    (submit_quick_result 6 100 team_a_won none after_both).1 ≡ after_both
submit_quick_result-confirmed_example =
    submit_quick_result-confirmed 6 100 team_a_won none after_both (match_in after_both)
      (result_in after_both) when_confirmed.played.found when_confirmed.played.result
      when_confirmed.result_status

feeling_four : balance_feeling team_a_won.balance_rating team_a_won.balance_feeling ≡ ok 4
unfolding balance_feeling
feeling_four = refl

submit_quick_result-again_example :
    submit_quick_result 1 100 team_a_won
      (some first_key)
      (submit_quick_result 1 100 team_a_won (some first_key) after_seats).1
    ≡ submit_quick_result 1 100 team_a_won (some first_key) after_seats
submit_quick_result-again_example =
    submit_quick_result-again 1 100 team_a_won team_a_won first_key 4 after_seats first_submission
      first-accepted refl feeling_four

partial_undisputed : (s : ResultStatus) → s ≡ ResultStatus.partial → s ≢ ResultStatus.disputed
partial_undisputed s e f = cc

admin_resolve_dispute-undisputed_example :
    (admin_resolve_dispute 20 100 111 in_favour_of_a after_submit).1 ≡ after_submit
admin_resolve_dispute-undisputed_example =
    admin_resolve_dispute-undisputed 20 100 111 in_favour_of_a after_submit (match_in after_submit)
      (result_in after_submit) when_submitted.played.found when_submitted.played.result
      (partial_undisputed (result_in after_submit).result_status when_submitted.status)

lock_match-effect_example :
    ((m : Match) × (lock_ready 1 100 after_add ≡ ok m)
      × Stored IsLockedUp 100 (lock_match 1 100 after_add).1)
    ⊎ ((s : HttpStatus) × (c : AppErrorCode) × (lock_ready 1 100 after_add ≡ err s c)
        × (lock_match 1 100 after_add ≡ (err s c, after_add)))
lock_match-effect_example = lock_match-effect 1 100 after_add

reopen_match-effect_example :
    ((m : Match) × (reopen_ready 20 100 after_seats ≡ ok m)
      × Stored IsOpenAgain 100 (reopen_match 20 100 after_seats).1)
    ⊎ ((s : HttpStatus) × (c : AppErrorCode) × (reopen_ready 20 100 after_seats ≡ err s c)
        × (reopen_match 20 100 after_seats ≡ (err s c, after_seats)))
reopen_match-effect_example = reopen_match-effect 20 100 after_seats

-- Two captains agree; two players object.
abbrev agreeing : List Confirmation
agreeing = says 1 ConfirmationAction.confirm 5 ∷ says 6 ConfirmationAction.confirm 6 ∷ []

abbrev objecting : List Confirmation
objecting = says 7 ConfirmationAction.dispute 5 ∷ says 8 ConfirmationAction.suggest_change 6 ∷ []

latest_by_user-IsLatest_example : IsLatest agreeing (latest_by_user agreeing)
latest_by_user-IsLatest_example = latest_by_user-IsLatest agreeing

agreeing_verdict : evaluate 10 (1 ∷ 6 ∷ []) (some TeamSide.team_a) agreeing ≡ ResultStatus.confirmed
unfolding evaluate evaluate_latest latest_by_user sort insert_sorted keep_first keep_one
    captains_confirmed reaches_quorum
agreeing_verdict = refl

objecting_verdict :
    evaluate 10 (1 ∷ 6 ∷ []) (some TeamSide.team_a) objecting ≡ ResultStatus.disputed
unfolding evaluate evaluate_latest latest_by_user sort insert_sorted keep_first keep_one
    captains_confirmed reaches_quorum
objecting_verdict = refl

evaluate-confirmed_example : CaptainsAgree (1 ∷ 6 ∷ []) agreeing ⊎ Quorum 10 agreeing
evaluate-confirmed_example =
    evaluate-confirmed 10 (1 ∷ 6 ∷ []) (some TeamSide.team_a) agreeing agreeing_verdict

evaluate-disputed_example :
    Voters objects objecting (λ k. 2 ≤ k) ⊎ Contested (some TeamSide.team_a) objecting
evaluate-disputed_example =
    evaluate-disputed 10 (1 ∷ 6 ∷ []) (some TeamSide.team_a) objecting objecting_verdict

dispute_summary-evaluate_example :
    (evaluate 10 (1 ∷ 6 ∷ []) (some TeamSide.team_a) objecting ≡ ResultStatus.disputed) ↔ (
      (leb 2 (dispute_summary (some TeamSide.team_a) 10 objecting).conflicting_count
        || (dispute_summary (some TeamSide.team_a) 10 objecting).winning_team_conflict)
      ≡ true)
dispute_summary-evaluate_example =
    dispute_summary-evaluate 10 (1 ∷ 6 ∷ []) (some TeamSide.team_a) objecting

abbrev doubted_match : Match
doubted_match = record blank_match {
  result = some (record blank_result { confirmations = objecting });
}

abbrev doubted : World
doubted = record no_matches { matches = doubted_match ∷ [] }

doubted-read :
    finalize_ready 0 doubted ≡ ok (doubted_match, or_else doubted_match.result blank_result)
unfolding finalize_ready saved_result
doubted-read = refl

doubted-verdict :
    verdict doubted_match (or_else doubted_match.result blank_result) ≡ ResultStatus.disputed
unfolding verdict evaluate evaluate_latest latest_by_user sort insert_sorted keep_first keep_one
    captains_confirmed reaches_quorum saved_result
doubted-verdict = refl

doubted-new :
    (ResultStatus.disputed == (or_else doubted_match.result blank_result).result_status) ≡ false
unfolding saved_result
doubted-new = refl

finalize_result_status-IsTold_example :
    (sent : List Notification) × ((finalize_result_status 0 true doubted).1.notifications
      ≡ doubted.notifications ++ sent)
    × IsTold doubted_match.group_id (or_else doubted_match.result blank_result).id doubted sent
finalize_result_status-IsTold_example =
    finalize_result_status-IsTold 0 true doubted doubted_match
      (or_else doubted_match.result blank_result) doubted-read doubted-verdict doubted-new

access_flags_example :
    ((allowed (group_access 30 (some 4) no_matches) false Capability.create_match ≡ true)
      ↔ (assert_group_member 30 4 no_matches ≡ ok (group_access 30 (some 4) no_matches)))
    × ((allowed (group_access 30 (some 4) no_matches) false Capability.invite ≡ true)
        ↔ (assert_group_admin 30 4 no_matches ≡ ok (group_access 30 (some 4) no_matches)))
access_flags_example = access_flags 30 4 false no_matches

-- Five players: the last two are bound to each other's role.
abbrev flexible : ℕ → Position → AlgorithmPlayer
flexible u role = record {
  user_id = u;
  primary_position = some role;
  secondary_position = none;
  is_fill_available = true;
  locked_team_side = none;
  locked_role = none;
}

abbrev bound : ℕ → Position → Position → AlgorithmPlayer
bound u role locked = record (flexible u role) { locked_role = some locked }

abbrev five_players : List AlgorithmPlayer
five_players =
    flexible 1 Position.top
    ∷ flexible 2 Position.jungle
    ∷ flexible 3 Position.mid
    ∷ bound 4 Position.adc Position.support
    ∷ bound 5 Position.support Position.adc
    ∷ []

five_seats :
    Fills
      (indexed 0 five_players)
      TeamSide.team_a
      []
      lanes
      (seat_of TeamSide.team_a Position.top (flexible 1 Position.top)
        ∷ seat_of TeamSide.team_a Position.jungle (flexible 2 Position.jungle)
        ∷ seat_of TeamSide.team_a Position.mid (flexible 3 Position.mid)
        ∷ seat_of TeamSide.team_a Position.adc (bound 5 Position.support Position.adc)
        ∷ seat_of TeamSide.team_a Position.support (bound 4 Position.adc Position.support)
        ∷ [])
      (0 + (0 + (0 + (12 + (12 + 0)))))
unfolding indexed role_cost
five_seats = take_seat 0 _ _ _ _ _ 0 _ (inl refl) refl refl (
    take_seat 1 _ _ _ _ _ 0 _ (inr (inl refl)) refl refl (
      take_seat 2 _ _ _ _ _ 0 _ (inr (inr (inl refl))) refl refl (
        take_seat 4 _ _ _ _ _ 12 _ (inr (inr (inr (inr (inl refl))))) refl refl
          (take_seat 3 _ _ _ _ _ 12 _ (inr (inr (inr (inl refl)))) refl refl (done _)))))

find_best_role_assignment-IsCheapest_example :
    (r : RoleAssignment) × (find_best_role_assignment five_players TeamSide.team_a ≡ some r)
    × IsCheapest five_players TeamSide.team_a r
find_best_role_assignment-IsCheapest_example =
    find_best_role_assignment-IsCheapest five_players TeamSide.team_a _ _ five_seats

abbrev five_of_ten : List ℕ
five_of_ten = 0 ∷ 2 ∷ 3 ∷ 6 ∷ 9 ∷ []

-- The team of the players 0, 2, 3, 6 and 9 of ten is one of the combinations.
build_combinations-Rises_example :
    Exists (λ e. five_of_ten ≡ e) (build_combinations 10 5)
    ↔ (Rises 0 10 five_of_ten × (length five_of_ten ≡ 5))
build_combinations-Rises_example = build_combinations-Rises 10 5 five_of_ten
