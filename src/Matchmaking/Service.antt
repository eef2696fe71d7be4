-- ===== src/Matchmaking/Service.antt =====
-- What autoBalance and reroll of matchmaking/matchmaking.service.ts check and generate. The power map is what PowerService
-- answers for the players; what only goes into messages, log lines and debug output is left out.
use inhouse_maker_core_serve.Common.{
  ℕ, Bool, true, false, not, ◌&&◌, ◌||◌, Option, none, some, List, [], ◌∷◌, ◌++◌, map,
  if◌then◌else◌, ◌==◌, nat_eq, eq_nat, filter, find?, contains, length, ltb, is_some, or_else,
  String,
}
use inhouse_maker_core_serve.Model.Enums.{Position, BalanceMode, participation_eq}
use inhouse_maker_core_serve.Model.Rows.{Match, MatchPlayer, Assignment, StoredCandidate}
use inhouse_maker_core_serve.Model.World.{World, User}
use inhouse_maker_core_serve.Model.Outcome.{
  Outcome, ok, ◌>>=◌, ◌>>◌, reject_if, or_reject, HttpStatus, AppErrorCode,
}
use inhouse_maker_core_serve.Matches.Access.{match_with_players, has_joined}
use inhouse_maker_core_serve.Matchmaking.Metrics.{Doubles, RatedPlayer, Seat, number}
use inhouse_maker_core_serve.Matchmaking.Candidates.{
  KeyTexts, CandidateOptions, Candidate, head_of, generate_candidates,
}
use inhouse_maker_core_serve.Matchmaking.History.{build_match_history_context}

-- The write that follows the candidates of a balance.
unfoldable pub balanced_rows : BalanceMode → List StoredCandidate → Match → Match
balanced_rows mode cs m = record m { balance_mode = some mode; candidates = some cs }

-- buildMatchmakingDiagnostics: `blockingReasons`.
pub data BlockingReason : Type 0 where
  player_count_not_10 participants_not_accepted duplicate_players : BlockingReason
  locked_player_not_found locked_player_assignment_missing : BlockingReason

abbrev pub reason_if : Bool → BlockingReason → List BlockingReason
reason_if true r = r ∷ []
reason_if false r = []

abbrev pub is_empty : {A : Type 0} → List A → Bool
is_empty [] = true
is_empty (x ∷ xs) = false

-- `filter((userId, index) => userIds.indexOf(userId) !== index)`
abbrev repeated_ids : List ℕ → List ℕ → List ℕ
repeated_ids seen [] = []
repeated_ids seen (u ∷ us) =
    let rest = repeated_ids (u ∷ seen) us in if contains u seen then u ∷ rest else rest

abbrev pub lacks_assignment : List ℕ → MatchPlayer → Bool
lacks_assignment locked p =
    contains p.user_id locked && (not (is_some p.team_side) || not (is_some p.assigned_role))

abbrev pub player_ids : Match → List ℕ
player_ids m = map (λ p. p.user_id) m.players

unfoldable pub blocking_reasons : Match → List ℕ → List BlockingReason
blocking_reasons m locked =
    reason_if (not (eq_nat (length m.players) 10)) BlockingReason.player_count_not_10
    ++ reason_if (not (eq_nat (length (filter has_joined m.players)) 10))
        BlockingReason.participants_not_accepted
    ++ reason_if (ltb 0 (length (repeated_ids [] (player_ids m)))) BlockingReason.duplicate_players
    ++ reason_if (ltb 0 (length (filter (λ u. not (contains u (player_ids m))) locked)))
        BlockingReason.locked_player_not_found
    ++ reason_if (ltb 0 (length (filter (lacks_assignment locked) m.players)))
        BlockingReason.locked_player_assignment_missing

-- The users of the players, who are there by the foreign key.
abbrev pub Participant : Type 0
Participant = MatchPlayer × User

unfoldable pub participants_of : List User → List MatchPlayer → Option (List Participant)
participants_of us [] = some []
participants_of us (p ∷ ps) = elim (find? (λ u. u.id == p.user_id) us) [
  | none ↦ none
  | some u ↦ elim (participants_of us ps) [ none ↦ none | some rest ↦ some ((p, u) ∷ rest) ]
]

-- RerollDto
pub record Reroll : Type 0 where
  pub locked_player_ids : List ℕ
  pub exclude_previous_combination_keys : List String
  pub exclude_candidate_ids : List String
  pub exclude_previous_combination : Bool
  pub regenerate_nonce : Option String

-- `filter(id => typeof id === 'string')`
abbrev texts_in : List (Option String) → List String
texts_in [] = []
texts_in (none ∷ xs) = texts_in xs
texts_in (some x ∷ xs) = x ∷ texts_in xs

abbrev pub previous_ids : Match → List String
previous_ids m = texts_in (map (λ c. c.candidate_id) (or_else m.candidates []))

abbrev pub previous_keys : Match → List String
previous_keys m = texts_in (map (λ c. c.combination_key) (or_else m.candidates []))

-- What reroll passes on as excluded.
abbrev pub reroll_options : Reroll → Match → CandidateOptions
reroll_options r m = record {
  excluded_candidate_ids = previous_ids m ++ r.exclude_candidate_ids;
  excluded_combination_keys =
      (if r.exclude_previous_combination then previous_keys m else [])
      ++ r.exclude_previous_combination_keys;
  tiebreak_seed = r.regenerate_nonce;
}

module _ (d : Doubles) where
  open d use {Double}

  -- An entry of the map of getPowerMapForUsers.
  pub record PowerEntry : Type 0 where
    pub user_id : ℕ
    pub overall_power : Double
    pub lane_power : Position → Option Double

  abbrev overall_power_of : Option PowerEntry → Double
  overall_power_of none = number d 50
  overall_power_of (some e) = e.overall_power

  abbrev lane_power_of : Option PowerEntry → Position → Option Double
  lane_power_of none Position.fill = none
  lane_power_of none _ = some (number d 50)
  lane_power_of (some e) role = e.lane_power role

  -- The player of the algorithm: a lock takes over the team and role that the player has.
  abbrev pub rated_player : List PowerEntry → List ℕ → Participant → RatedPlayer d
  rated_player powers locked (p, u) =
      let entry = find? (λ e. e.user_id == p.user_id) powers in
      let is_locked = contains p.user_id locked in
      record {
        player = record {
          user_id = p.user_id;
          primary_position = u.primary_position;
          secondary_position = u.secondary_position;
          is_fill_available = u.is_fill_available;
          locked_team_side = if is_locked then p.team_side else none;
          locked_role = if is_locked then p.assigned_role else none;
        };
        nickname = u.nickname;
        overall_power = overall_power_of entry;
        lane_power = lane_power_of entry;
        same_team_preferences = p.same_team_preferences;
        avoid_team_preferences = p.avoid_team_preferences;
      }

  abbrev stored_seat : Seat d → Assignment
  stored_seat s = record {
    user_id = s.user_id;
    team_side = s.team_side;
    assigned_role = s.assigned_role;
  }

  -- What is read back later of a candidate in `candidatesJson`.
  abbrev pub stored_candidate : Candidate d → StoredCandidate
  stored_candidate c = record {
    candidate_no = c.candidate_no;
    mode = c.mode;
    candidate_id = some c.candidate_id;
    combination_key = some c.combination_key;
    team_a = map stored_seat c.split.team_a;
    team_b = map stored_seat c.split.team_b;
  }

  module _ (texts : KeyTexts) (powers : List PowerEntry) where
    abbrev pub candidates_for :
        ℕ → Match → List ℕ → CandidateOptions → List Participant → World → List (Candidate d)
    candidates_for k m locked options ps w =
        generate_candidates d texts (map (rated_player powers locked) ps)
          (some (build_match_history_context d m.group_id k (player_ids m) w)) options

    -- generateAndPersistCandidates, up to its write.
    unfoldable pub candidates_ready :
        ℕ → List ℕ → CandidateOptions → World → Outcome (Match × List (Candidate d) × Candidate d)
    unfolding match_with_players blocking_reasons participants_of generate_candidates
        build_match_history_context
    candidates_ready k locked options w = do
      m ← match_with_players k w
      ps ←
          or_reject (participants_of w.users m.players) HttpStatus.internal_server_error
            AppErrorCode.database_error
      reject_if (not (eq_nat (length m.players) 10)) HttpStatus.bad_request
          AppErrorCode.match_balance_invalid
      reject_if (not (is_empty (blocking_reasons m locked))) HttpStatus.bad_request
          AppErrorCode.match_balance_invalid
      let cs = candidates_for k m locked options ps w
      first ←
          or_reject (head_of d texts cs) HttpStatus.bad_request AppErrorCode.match_balance_invalid
      ok (m, cs, first)
