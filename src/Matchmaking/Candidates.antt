-- ===== src/Matchmaking/Candidates.antt =====
-- generateCandidates of matchmaking/matchmaking-algorithm.service.ts: the splits of ten players, their
-- scores, and the choice of one candidate for each mode.
use Prim.Native.String.{◌++◌ as concat}
use inhouse_maker_core_serve.Common.{
  ℕ, ◌+◌, ◌*◌, ◌%◌, Bool, true, false, not, ◌||◌, Option, none, some, List, [], ◌∷◌, ◌++◌, map,
  if◌then◌else◌, nat_eq, string_eq, eq_nat, filter, find?, contains, length, leb, ltb, or_else,
  String,
}
use inhouse_maker_core_serve.Common.Sorting.{sort}
use inhouse_maker_core_serve.Model.Enums.{Position, BalanceMode}
use inhouse_maker_core_serve.Matchmaking.Roles.{for_each}
use inhouse_maker_core_serve.Matchmaking.Metrics.{
  Doubles, RatedPlayer, Seat, HistoryContext, Metrics, number,
}
use inhouse_maker_core_serve.Matchmaking.Splits.{Split, split_candidates}

-- The text of an id, and `charCodeAt` at each place of a text.
pub record KeyTexts : Type 0 where
  pub id_text : ℕ → String
  pub char_codes : String → List ℕ

abbrev role_text : Position → String
role_text Position.top = "TOP"
role_text Position.jungle = "JUNGLE"
role_text Position.mid = "MID"
role_text Position.adc = "ADC"
role_text Position.support = "SUPPORT"
role_text Position.fill = "FILL"

abbrev mode_text : BalanceMode → String
mode_text BalanceMode.balanced = "BALANCED"
mode_text BalanceMode.position_first = "POSITION_FIRST"
mode_text BalanceMode.skill_first = "SKILL_FIRST"

-- `join('|')`
abbrev pub join : List String → String
join [] = ""
join (x ∷ []) = x
join (x ∷ y ∷ ys) = concat x (concat "|" (join (y ∷ ys)))

-- buildCandidateId
abbrev pub candidate_id_of : String → BalanceMode → String
candidate_id_of key mode = concat (mode_text mode) (concat ":" key)

-- computeTiebreakValue
unfoldable pub tiebreak_value : KeyTexts → String → BalanceMode → Option String → ℕ
unfolding for_each
tiebreak_value texts key mode seed =
    for_each (λ hash c. (hash * 31 + c) % 1000003) 0
      (texts.char_codes
        (concat (mode_text mode) (concat ":" (concat (or_else seed "default") (concat ":" key)))))

pub data ExplanationTag : Type 0 where
  tight_team_power_gap stable_lane_matchups low_offrole_count preference_safe : ExplanationTag
  low_repeat_pairing repeat_duo_detected : ExplanationTag

-- `options` and `excludedCandidateIds`.
pub record CandidateOptions : Type 0 where
  pub excluded_candidate_ids : List String
  pub excluded_combination_keys : List String
  pub tiebreak_seed : Option String

module _ (d : Doubles) where
  open d use {Double, literal, plus, times, less, same, to_fixed}

  -- MatchmakingCandidate
  pub record Candidate : Type 0 where
    pub candidate_id : String
    pub combination_key : String
    pub candidate_no : ℕ
    pub mode : BalanceMode
    pub score : Double
    pub split : Split d
    pub team_a_power : Double
    pub team_b_power : Double
    pub explanation_tags : List ExplanationTag

  -- scoreCandidate
  abbrev weighted : Metrics d → Double → Double → Double → Double → Double → Double → Double
  weighted m gap lane off repeat preference volatility = to_fixed 4 (
      plus
        (plus
          (plus
            (plus (plus (times m.team_power_gap gap) (times m.lane_matchup_gap lane))
              (times m.off_role_penalty off))
            (times m.repeat_team_penalty repeat))
          (times m.preference_violation_penalty preference))
        (times m.volatility_cluster_penalty volatility))

  unfoldable pub score_candidate : Metrics d → BalanceMode → Double
  score_candidate m BalanceMode.position_first =
      weighted m (literal 2 1) (literal 15 2) (literal 35 2) (literal 1 1) (literal 1 1)
        (literal 1 1)
  score_candidate m BalanceMode.skill_first =
      weighted m (literal 45 2) (literal 3 1) (literal 8 2) (literal 7 2) (literal 5 2)
        (literal 5 2)
  score_candidate m BalanceMode.balanced =
      weighted m (literal 35 2) (literal 25 2) (literal 15 2) (literal 1 1) (literal 8 2)
        (literal 7 2)

  -- buildExplanationTags
  abbrev tag_if : Bool → ExplanationTag → List ExplanationTag
  tag_if true t = t ∷ []
  tag_if false t = []

  abbrev at_most : Double → Double → Bool
  at_most x y = less x y || same x y

  unfoldable pub explanation_tags : Metrics d → ℕ → ℕ → List ExplanationTag
  explanation_tags m off_roles duos =
      tag_if (at_most m.team_power_gap (number d 1)) ExplanationTag.tight_team_power_gap
      ++ tag_if (at_most m.lane_matchup_gap (literal 15 1)) ExplanationTag.stable_lane_matchups
      ++ tag_if (leb off_roles 1) ExplanationTag.low_offrole_count
      ++ tag_if (same m.preference_violation_penalty (number d 0)) ExplanationTag.preference_safe
      ++ tag_if (at_most m.repeat_team_penalty (literal 12 1)) ExplanationTag.low_repeat_pairing
      ++ tag_if (ltb 0 duos) ExplanationTag.repeat_duo_detected

  module _ (texts : KeyTexts) where
    -- buildCombinationKey
    abbrev pub combination_key_of : List (Seat d) → String
    combination_key_of team =
        join (
          map (λ s. concat (texts.id_text s.user_id) (concat "-" (role_text s.assigned_role))) team)

    unfoldable pub candidate_of : BalanceMode → ℕ → Split d → Candidate
    unfolding score_candidate explanation_tags
    candidate_of mode index s =
        let key = combination_key_of s.team_a in
        record {
          candidate_id = candidate_id_of key mode;
          combination_key = key;
          candidate_no = index + 1;
          mode = mode;
          score = score_candidate s.metrics mode;
          split = s;
          team_a_power = to_fixed 2 s.team_a_power;
          team_b_power = to_fixed 2 s.team_b_power;
          explanation_tags =
              explanation_tags s.metrics s.off_role_count s.repeated.repeated_duo_count;
        }

    -- compareCandidates, where it is positive.
    abbrev pub comes_later : BalanceMode → Option String → Candidate → Candidate → Bool
    comes_later mode seed l r =
        if not (same l.score r.score)
        then less r.score l.score
        else ltb (tiebreak_value texts r.combination_key mode seed)
            (tiebreak_value texts l.combination_key mode seed)

    -- `ranked`
    unfoldable pub ranked : CandidateOptions → List (Split d) → BalanceMode → ℕ → List Candidate
    unfolding sort candidate_of tiebreak_value
    ranked options splits mode index = sort (comes_later mode options.tiebreak_seed) (
        filter (λ c. not (contains c.candidate_id options.excluded_candidate_ids))
          (map (candidate_of mode index) splits))

    abbrev pub head_of : List Candidate → Option Candidate
    head_of [] = none
    head_of (c ∷ cs) = some c

    -- `uniqueCandidate ?? ranked[0]`
    unfoldable pub selected : List String → List Candidate → Option Candidate
    selected used cs = elim (find? (λ c. not (contains c.combination_key used)) cs) [
      | none ↦ head_of cs
      | some c ↦ some c
    ]

    -- The modes in turn, with the keys that are used so far.
    unfoldable pub select_all :
        CandidateOptions → List (Split d) → List BalanceMode → ℕ → List String → List Candidate
    unfolding selected ranked
    select_all options splits [] index used = []
    select_all options splits (mode ∷ modes) index used =
        elim (selected used (ranked options splits mode index)) [
          | none ↦ select_all options splits modes (index + 1) used
          | some c ↦ c ∷ select_all options splits modes (index + 1) (c.combination_key ∷ used)
        ]

    abbrev pub unique_modes : List BalanceMode
    unique_modes = BalanceMode.balanced ∷ BalanceMode.position_first ∷ BalanceMode.skill_first ∷ []

    unfoldable pub generate_candidates :
        List (RatedPlayer d) → Option (HistoryContext d) → CandidateOptions → List Candidate
    unfolding select_all split_candidates
    generate_candidates players history options =
        if not (eq_nat (length players) 10)
        then []
        else select_all options (split_candidates d history players) unique_modes 0
            options.excluded_combination_keys
