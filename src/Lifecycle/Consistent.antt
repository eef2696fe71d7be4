-- ===== src/Lifecycle/Consistent.antt =====
-- When the rows of a match agree with one another.
use inhouse_maker_core_serve.Common.{
  ◌≤◌, ◌≡◌, Option, none, some, ◌==◌, is_some, All, Has, IsDistinct, nat_eq,
}
use inhouse_maker_core_serve.Model.Enums.{MatchStatus, ResultStatus, result_eq}
use inhouse_maker_core_serve.Model.Rows.{Match, MatchResult}
use inhouse_maker_core_serve.Matches.Roster.{user_ids}

-- There is a result, with this status.
abbrev pub HasStatus : ResultStatus → Option MatchResult → Type 0
HasStatus s none = ⊥
HasStatus s (some r) = r.result_status ≡ s

-- A status that speaks of a result has a result that bears it out. DRAFT, IN_PROGRESS and CLOSED
-- do not occur.
abbrev pub Reflects : MatchStatus → Option MatchResult → Type 0
Reflects MatchStatus.result_pending r = HasStatus ResultStatus.partial r
Reflects MatchStatus.confirmed r = HasStatus ResultStatus.confirmed r
Reflects MatchStatus.disputed r = HasStatus ResultStatus.disputed r
Reflects MatchStatus.recruiting r = Unit
Reflects MatchStatus.locked r = Unit
Reflects MatchStatus.balanced r = Unit
Reflects MatchStatus.draft r = ⊥
Reflects MatchStatus.in_progress r = ⊥
Reflects MatchStatus.closed r = ⊥

-- `confirmedAt` is set exactly while the result is CONFIRMED, and no confirmation is of a version
-- still to come.
abbrev pub IsStamped : Option MatchResult → Type 0
IsStamped none = Unit
IsStamped (some r) =
    (is_some r.confirmed_at ≡ (r.result_status == ResultStatus.confirmed))
    × All (λ c. c.result_version ≤ r.version) r.confirmations

pub record IsConsistent (m : Match) : Type 0 where
  pub reflects : Reflects m.status m.result
  pub stamped : IsStamped m.result
  pub players_distinct : IsDistinct (user_ids m)
  pub stats_of_players : All (λ s. Has s.user_id (user_ids m)) m.stats
  pub stats_in_step : All (λ s. HasStatus s.stat_status m.result) m.stats
