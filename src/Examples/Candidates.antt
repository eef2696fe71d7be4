-- ===== src/Examples/Candidates.antt =====
-- Ten players for whom candidates are generated. The doubles are natural numbers here.
use inhouse_maker_core_serve.Common.{
  true, ℕ, ◌+◌, ◌-◌, ◌*◌, ◌≤◌, ◌≡◌, refl, false, none, some, List, [], ◌∷◌, ◌++◌, if◌then◌else◌,
  length, contains, string_eq, All, ltb, eq_nat,
}
use inhouse_maker_core_serve.Model.Enums.{Position, TeamSide}
use inhouse_maker_core_serve.Matchmaking.Roles.{
  respects_locked_teams, find_best_role_assignment, backtrack, indexed,
}
use inhouse_maker_core_serve.Matchmaking.Metrics.{Doubles, RatedPlayer}
use inhouse_maker_core_serve.Matchmaking.Splits.{split_of, split_candidates}
use inhouse_maker_core_serve.Matchmaking.Candidates.{
  KeyTexts, CandidateOptions, generate_candidates, unique_modes,
}
use inhouse_maker_core_serve.Matchmaking.Locks.{IsLegal}
use inhouse_maker_core_serve.Matchmaking.Chosen.{AreFresh, IsServed, generate_candidates-AreFresh}
use inhouse_maker_core_serve.Common.{◌⊎◌}
use inhouse_maker_core_serve.Model.Rows.{Match}
use inhouse_maker_core_serve.Model.Outcome.{err, HttpStatus, AppErrorCode}
use inhouse_maker_core_serve.Matchmaking.Candidates.{Candidate}
use inhouse_maker_core_serve.Matchmaking.Service.{Participant, Reroll, blocking_reasons, is_empty}
use inhouse_maker_core_serve.Matchmaking.Handlers.{reroll}
use inhouse_maker_core_serve.Matchmaking.Rerolled.{IsRerolled, reroll-IsRerolled}
use inhouse_maker_core_serve.Examples.Played.{after_seats, match_in}
use inhouse_maker_core_serve.Matches.Handlers.{create_match, save_manual_balance, add_players}
use inhouse_maker_core_serve.Matches.Guards.{
  manual_balance_ready, add_players_ready, assert_manual_editable, normalize_assignments,
}
use inhouse_maker_core_serve.Groups.{assert_group_member, assert_active, group_access}
use inhouse_maker_core_serve.Matches.Roster.{new_inputs, insertable, create_inputs}
use inhouse_maker_core_serve.Model.World.{put_match}
use inhouse_maker_core_serve.Matches.Teams.{seat_all, assignments, seat_one}
use inhouse_maker_core_serve.Common.Sorting.{insert_sorted, sort}
use inhouse_maker_core_serve.Matches.Access.{
  assert_host_or_captain, assert_host_or_group_admin, get_match, match_with_players,
}

abbrev whole : Doubles
whole = record {
  Double = ℕ;
  literal = λ n k. n;
  infinity = 1000000;
  plus = λ x y. x + y;
  minus = λ x y. x - y;
  times = λ x y. x * y;
  divided = λ x y. x;
  power = λ x y. x;
  absolute = λ x. x;
  root = λ x. x;
  less = ltb;
  same = eq_nat;
  to_fixed = λ k x. x;
}

abbrev letters : KeyTexts
letters = record { id_text = λ i. if eq_nat i 0 then "a" else "b"; char_codes = λ s. 1 ∷ [] }

abbrev fixed : ℕ → TeamSide → Position → RatedPlayer whole
fixed i side role = record {
  player = record {
    user_id = i;
    primary_position = some role;
    secondary_position = none;
    is_fill_available = false;
    locked_team_side = some side;
    locked_role = some role;
  };
  nickname = "p";
  overall_power = 50;
  lane_power = λ r. none;
  same_team_preferences = [];
  avoid_team_preferences = [];
}

abbrev team : ℕ → TeamSide → List (RatedPlayer whole)
team i side =
    fixed i side Position.top
    ∷ fixed (i + 1) side Position.jungle
    ∷ fixed (i + 2) side Position.mid
    ∷ fixed (i + 3) side Position.adc
    ∷ fixed (i + 4) side Position.support
    ∷ []

abbrev ten_players : List (RatedPlayer whole)
ten_players = team 0 TeamSide.team_a ++ team 5 TeamSide.team_b

abbrev no_exclusions : CandidateOptions
no_exclusions = record {
  excluded_candidate_ids = [];
  excluded_combination_keys = [];
  tiebreak_seed = none;
}

-- Two teams whose locks agree with their sides give one split.
locked_split : length (split_of whole none (team 0 TeamSide.team_a) (team 5 TeamSide.team_b)) ≡ 1
unfolding split_of respects_locked_teams find_best_role_assignment backtrack indexed
locked_split = refl

generate_candidates-AreFresh_example :
    let cs = generate_candidates whole letters ten_players none no_exclusions in
    (length cs ≤ 3)
    × All (λ c. (contains c.candidate_id [] ≡ false) × IsLegal whole ten_players c.split) cs
    × AreFresh whole letters no_exclusions (split_candidates whole none ten_players) [] cs
    × ((length ten_players ≡ 10)
        → All
            (IsServed whole letters no_exclusions (split_candidates whole none ten_players) cs)
            (unique_modes whole letters))
generate_candidates-AreFresh_example =
    generate_candidates-AreFresh whole letters ten_players none no_exclusions

abbrev plain_reroll : Reroll
plain_reroll = record {
  locked_player_ids = 1 ∷ 2 ∷ [];
  exclude_previous_combination_keys = [];
  exclude_candidate_ids = "BALANCED:a" ∷ [];
  exclude_previous_combination = true;
  regenerate_nonce = some "n";
}

reroll-IsRerolled_example :
    ((s : HttpStatus) × (c : AppErrorCode) × (reroll whole letters [] 1 100 plain_reroll after_seats
        ≡ (err s c, after_seats)))
    ⊎ ((m : Match) × (cs : List (Candidate whole)) × (first : Candidate whole) × (ps : List
          Participant)
        × IsRerolled whole letters [] 1 100 plain_reroll after_seats m ps cs first)
reroll-IsRerolled_example = reroll-IsRerolled whole letters [] 1 100 plain_reroll after_seats

-- The match of the example has nothing that blocks a balance.
nothing_blocks : is_empty (blocking_reasons (match_in after_seats) (1 ∷ 2 ∷ [])) ≡ true
unfolding blocking_reasons create_match save_manual_balance manual_balance_ready add_players
    add_players_ready assert_group_member new_inputs insertable put_match create_inputs seat_all
    insert_sorted sort assert_active group_access assert_host_or_captain assert_host_or_group_admin
    get_match match_with_players assert_manual_editable normalize_assignments assignments seat_one
nothing_blocks = refl
