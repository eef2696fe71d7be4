-- ===== src/Results/Dispute.antt =====
-- buildDisputeSummary of results/results.service.ts, which sorts the confirmations and tests them with
-- code of its own, against the policy that made the dispute.
use inhouse_maker_core_serve.Common.{
  ℕ, Bool, true, false, not, ◌&&◌, ◌||◌, ◌≡◌, refl, ap, ◌↔◌, inl, inr, Option, none, some, List, [],
  ◌∷◌, ◌++◌, arith, filter, any, length, leb, ltb, ◌==◌, nat_eq, eq_option, is_some, if◌then◌else◌,
  Bool-cases, Option-cases,
}
use inhouse_maker_core_serve.Common.Sorting.{sort}
use inhouse_maker_core_serve.Model.Enums.{
  TeamSide, side_eq, ResultStatus, ConfirmationAction, action_eq,
}
use inhouse_maker_core_serve.Model.Rows.{Confirmation}
use inhouse_maker_core_serve.Results.Policy.{
  latest_by_user, keep_one, keep_first, by_user, opposes, evaluate, evaluate_latest,
}

pub record DisputeSummary : Type 0 where
  pub participant_count : ℕ
  pub confirm_count : ℕ
  pub conflicting_count : ℕ
  pub winning_team_conflict : Bool

-- The map is filled in the order of its list: a user who is in it stays as it is.
abbrev has_user : ℕ → List Confirmation → Bool
has_user u [] = false
has_user u (c ∷ cs) = c.user_id == u || has_user u cs

unfoldable pub set_latest : List Confirmation → List Confirmation → List Confirmation
set_latest latest [] = latest
set_latest latest (c ∷ cs) =
    set_latest (if not (has_user c.user_id latest) then latest ++ c ∷ [] else latest) cs

abbrev sorts_later : Confirmation → Confirmation → Bool
sorts_later left right = ltb left.created_at right.created_at

-- `proposedWinningTeam !== null && winningTeam !== null && proposedWinningTeam !== winningTeam`
abbrev names_other_team : Option TeamSide → Confirmation → Bool
names_other_team winning_team c =
    is_some c.proposed_winning_team
    && is_some winning_team
    && not (eq_option c.proposed_winning_team winning_team)

unfoldable pub dispute_summary : Option TeamSide → ℕ → List Confirmation → DisputeSummary
unfolding sort set_latest
dispute_summary winning_team participant_count confirmations =
    let latest = set_latest [] (sort sorts_later confirmations) in
    record {
      participant_count = participant_count;
      confirm_count = length (filter (λ c. c.action == ConfirmationAction.confirm) latest);
      conflicting_count =
          length (filter (λ c. not (c.action == ConfirmationAction.confirm)) latest);
      winning_team_conflict = any (names_other_team winning_team) latest;
    }

has_user-any : (u : ℕ) (cs : List Confirmation) → has_user u cs ≡ any (by_user u) cs
has_user-any u [] = refl
has_user-any u (c ∷ cs) = ap (λ b. (c.user_id == u) || b) (has_user-any u cs)

-- The two loops that fill a map keep the same confirmations.
set_latest-keep_first :
    (latest cs : List Confirmation) → set_latest latest cs ≡ keep_first latest cs
unfolding set_latest keep_first keep_one
set_latest-keep_first latest [] = refl
set_latest-keep_first latest (c ∷ cs) = elim (Bool-cases (any (by_user c.user_id) latest)) [
  | inl known ↦ rw (has_user-any, known) (set_latest-keep_first latest cs)
  | inr new ↦ rw (has_user-any, new) (set_latest-keep_first (latest ++ c ∷ []) cs)
]

-- The two tests for another winning team agree.
names_other_team-opposes :
    (winner : Option TeamSide) (c : Confirmation) → names_other_team winner c ≡ opposes winner c
names_other_team-opposes none c = ground arith
names_other_team-opposes (some side) c = elim (Option-cases c.proposed_winning_team) [
  | inl missing ↦ rw missing refl
  | inr (proposed, there) ↦ rw there refl
]

any-names_other_team :
    (winner : Option TeamSide) (cs : List Confirmation)
    → any (names_other_team winner) cs ≡ any (opposes winner) cs
any-names_other_team winner [] = refl
any-names_other_team winner (c ∷ cs) =
    rw (names_other_team-opposes winner c, any-names_other_team winner cs) refl

latest-set_latest :
    (cs : List Confirmation) → set_latest [] (sort sorts_later cs) ≡ latest_by_user cs
unfolding latest_by_user
latest-set_latest cs = set_latest-keep_first [] (sort sorts_later cs)

-- The summary of a dispute, which is worked out apart from the policy, shows the same case: the
-- policy makes a result DISPUTED exactly if the summary of the same confirmations counts two or
-- more conflicting ones or shows a conflict about the winning team.
pub dispute_summary-evaluate :
    (n : ℕ) (captains : List ℕ) (winner : Option TeamSide) (cs : List Confirmation)
    → (evaluate n captains winner cs ≡ ResultStatus.disputed) ↔ (
        (leb 2 (dispute_summary winner n cs).conflicting_count
          || (dispute_summary winner n cs).winning_team_conflict)
        ≡ true)
unfolding evaluate evaluate_latest dispute_summary
dispute_summary-evaluate n captains winner cs =
    rw (latest-set_latest cs, any-names_other_team winner (latest_by_user cs)) (ground arith)
