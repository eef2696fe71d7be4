-- ===== src/Results/Preview.antt =====
-- previewQuickResult of results/results.service.ts.
use inhouse_maker_core_serve.Common.{
  ℕ, ◌+◌, not, Option, List, [], ◌∷◌, map, ◌==◌, nat_eq, eq_nat, filter, any, length,
  count_distinct,
}
use inhouse_maker_core_serve.Model.Enums.{TeamSide, side_eq}
use inhouse_maker_core_serve.Model.Rows.{QuickResultPlayer}
use inhouse_maker_core_serve.Model.Outcome.{Outcome, ok, ◌>>=◌, ◌>>◌}
use inhouse_maker_core_serve.Results.Input.{balance_feeling, refuse_input}

-- QuickResultPreviewPlayerDto
pub record PreviewPlayer : Type 0 where
  pub player : QuickResultPlayer
  pub team_side : TeamSide

-- QuickResultPreviewDto
pub record PreviewInput : Type 0 where
  pub winning_team : TeamSide
  pub mvp_user_id : ℕ
  pub balance_rating : Option ℕ
  pub balance_feeling : Option ℕ
  pub players : List PreviewPlayer

pub record TeamSummary : Type 0 where
  pub team_side : TeamSide
  pub player_count : ℕ
  pub kills : ℕ
  pub deaths : ℕ
  pub assists : ℕ

pub record PreviewResponse : Type 0 where
  pub player_count : ℕ
  pub mvp_user_id : ℕ
  pub winning_team : TeamSide
  pub balance_rating : ℕ
  pub teams : List TeamSummary

-- `reduce((sum, player) => sum + f(player), 0)`
unfoldable pub sum_by : (QuickResultPlayer → ℕ) → List PreviewPlayer → ℕ
sum_by f [] = 0
sum_by f (p ∷ ps) = f p.player + sum_by f ps

abbrev pub on_side : TeamSide → List PreviewPlayer → List PreviewPlayer
on_side side ps = filter (λ p. p.team_side == side) ps

unfoldable pub team_summary : List PreviewPlayer → TeamSide → Outcome TeamSummary
unfolding sum_by
team_summary all_players side =
    let ps = on_side side all_players in
    do
      refuse_input (not (eq_nat (length ps) 5))
      ok (record {
        team_side = side;
        player_count = length ps;
        kills = sum_by (λ p. p.kills) ps;
        deaths = sum_by (λ p. p.deaths) ps;
        assists = sum_by (λ p. p.assists) ps;
      })

unfoldable pub preview_quick_result : PreviewInput → Outcome PreviewResponse
unfolding balance_feeling team_summary
preview_quick_result d =
    let ids = map (λ (p : PreviewPlayer). p.player.user_id) d.players in
    do
      balance ← balance_feeling d.balance_rating d.balance_feeling
      refuse_input (not (eq_nat (length d.players) 10))
      refuse_input (not (eq_nat (count_distinct ids) (length d.players)))
      refuse_input (not (any (λ p. p.player.user_id == d.mvp_user_id) d.players))
      a ← team_summary d.players TeamSide.team_a
      b ← team_summary d.players TeamSide.team_b
      ok (record {
        player_count = length d.players;
        mvp_user_id = d.mvp_user_id;
        winning_team = d.winning_team;
        balance_rating = balance;
        teams = a ∷ b ∷ [];
      })
