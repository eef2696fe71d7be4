-- ===== src/Results/Input.antt =====
-- The input of a result: resolveBalanceFeeling, resolveOptionalBalanceFeeling and
-- assertQuickResultInputReady of results/results.service.ts. Ratings are whole numbers, as
-- results/dto/results.dto.ts asks of them.
use inhouse_maker_core_serve.Common.{
  ℕ, Bool, true, false, not, ◌||◌, Option, none, some, List, [], ◌∷◌, map, ◌==◌, nat_eq, eq_nat,
  filter, contains, any, length, ltb, repeated, is_some,
}
use inhouse_maker_core_serve.Model.Enums.{TeamSide, side_eq, Position, position_eq}
use inhouse_maker_core_serve.Model.Rows.{Match, MatchPlayer, QuickResultPlayer}
use inhouse_maker_core_serve.Model.Outcome.{
  Outcome, ok, err, ◌>>=◌, ◌>>◌, reject_if, HttpStatus, AppErrorCode,
}
use inhouse_maker_core_serve.Matches.Roster.{user_ids}
use inhouse_maker_core_serve.Matches.Teams.{lanes}

-- QuickResultDto
pub record QuickResult : Type 0 where
  pub winning_team : TeamSide
  pub mvp_user_id : ℕ
  pub balance_rating : Option ℕ
  pub balance_feeling : Option ℕ
  pub players : List QuickResultPlayer

abbrev pub refuse_input : Bool → Outcome (Unit {0})
refuse_input c = reject_if c HttpStatus.bad_request AppErrorCode.invalid_request

-- `first ?? second`
abbrev first_given : Option ℕ → Option ℕ → Option ℕ
first_given none second = second
first_given (some x) second = some x

abbrev in_range : Option ℕ → Outcome ℕ
in_range none = err HttpStatus.bad_request AppErrorCode.invalid_request
in_range (some v) = do refuse_input (ltb v 1 || ltb 5 v); ok v

-- resolveBalanceFeeling, of the rating and the feeling
unfoldable pub balance_feeling : Option ℕ → Option ℕ → Outcome ℕ
balance_feeling rating feeling = in_range (first_given feeling rating)

-- resolveOptionalBalanceFeeling
unfoldable pub optional_balance_feeling : Option ℕ → Option ℕ → Outcome (Option ℕ)
unfolding balance_feeling
optional_balance_feeling none none = ok none
optional_balance_feeling rating feeling = do v ← balance_feeling rating feeling; ok (some v)

abbrev pub plays_on : TeamSide → MatchPlayer → Bool
plays_on side p = elim p.team_side [ none ↦ false | some s ↦ s == side ]

abbrev pub plays_role : Position → MatchPlayer → Bool
plays_role role p = elim p.assigned_role [ none ↦ false | some r ↦ r == role ]

-- A side that `incompleteTeams` lists: not five players, or a lane that none of them has.
unfoldable pub is_incomplete : List MatchPlayer → TeamSide → Bool
is_incomplete ps side =
    let team = filter (plays_on side) ps in
    not (eq_nat (length team) 5) || any (λ role. not (any (plays_role role) team)) lanes

abbrev pub input_ids : List QuickResultPlayer → List ℕ
input_ids ps = map (λ p. p.user_id) ps

abbrev pub is_unassigned : MatchPlayer → Bool
is_unassigned p = not (is_some p.team_side) || not (is_some p.assigned_role)

-- `xs.length > 0`
abbrev pub is_nonempty : {A : Type 0} → List A → Bool
is_nonempty [] = false
is_nonempty (x ∷ xs) = true

-- assertQuickResultInputReady
unfoldable pub assert_input_ready : Match → QuickResult → Outcome (Unit {0})
unfolding is_incomplete
assert_input_ready m d =
    let ids = input_ids d.players in
    let current = user_ids m in
    do
      refuse_input (not (eq_nat (length d.players) (length m.players)))
      refuse_input (is_nonempty (repeated [] ids))
      refuse_input (
          is_nonempty (filter (λ u. not (contains u current)) ids)
          || is_nonempty (filter (λ u. not (contains u ids)) current))
      refuse_input (not (contains d.mvp_user_id current))
      refuse_input (is_nonempty (filter is_unassigned m.players))
      refuse_input
          (is_nonempty (filter (is_incomplete m.players) (TeamSide.team_a ∷ TeamSide.team_b ∷ [])))
