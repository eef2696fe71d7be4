-- ===== src/Examples/Played.antt =====
-- The match 100 step by step: created, filled, seated, submitted, confirmed by both captains; and,
-- from the submission on, disputed by two players.
use inhouse_maker_core_serve.Common.{some, refl}
use inhouse_maker_core_serve.Common.{or_else}
use inhouse_maker_core_serve.Model.Rows.{Match}
use inhouse_maker_core_serve.Model.World.{World, find_match}
use inhouse_maker_core_serve.Matches.Handlers.{
  create_match, add_players, save_manual_balance, new_match,
}
use inhouse_maker_core_serve.Results.Handlers.{submit_quick_result, confirm_result}
use inhouse_maker_core_serve.Lifecycle.Reach.{
  Reachable, created, added, seated, submitted, confirmed, start, next,
}
use inhouse_maker_core_serve.Examples.Data.{
  no_matches, plain_match, ten_players, two_teams, team_a_won, first_key, yes_sir, contradicts,
}

abbrev pub after_create : World
after_create = (create_match 1 30 plain_match no_matches).1

abbrev pub after_add : World
after_add = (add_players 1 100 ten_players after_create).1

abbrev pub after_seats : World
after_seats = (save_manual_balance 1 100 two_teams after_add).1

abbrev pub after_submit : World
after_submit = (submit_quick_result 1 100 team_a_won (some first_key) after_seats).1

abbrev pub after_captain : World
after_captain = (confirm_result 1 100 111 yes_sir after_submit).1

abbrev pub after_both : World
after_both = (confirm_result 6 100 111 yes_sir after_captain).1

abbrev pub after_doubt : World
after_doubt = (confirm_result 7 100 111 contradicts after_submit).1

abbrev pub after_dispute : World
after_dispute = (confirm_result 8 100 111 contradicts after_doubt).1

abbrev pub blank_match : Match
blank_match = new_match 100 0 30 1 plain_match

abbrev pub match_in : World → Match
match_in w = or_else (find_match 100 w.matches) blank_match

submit-Reachable : Reachable after_submit
submit-Reachable =
    next after_seats after_submit
      (next after_add after_seats
        (next after_create after_add
          (next no_matches after_create (start no_matches refl)
            (created 1 30 plain_match no_matches))
          (added 1 100 ten_players after_create))
        (seated 1 100 two_teams after_add))
      (submitted 1 100 team_a_won (some first_key) after_seats)

pub both-Reachable : Reachable after_both
both-Reachable =
    next after_captain after_both
      (next after_submit after_captain submit-Reachable (confirmed 1 100 111 yes_sir after_submit))
      (confirmed 6 100 111 yes_sir after_captain)
