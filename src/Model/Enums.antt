-- ===== src/Model/Enums.antt =====
-- The enums of prisma/schema.prisma that the modelled services use, and the error codes of
-- common/app.exception.ts that they raise.
use inhouse_maker_core_serve.Common.{ℕ, ◌≡◌, ◌↔◌, arith, Eq, eq_nat, true}

pub data Position : Type 0 where
  top jungle mid adc support fill : Position

pub data MatchStatus : Type 0 where
  draft recruiting locked balanced in_progress result_pending confirmed disputed closed :
      MatchStatus

pub data TeamSide : Type 0 where
  team_a team_b : TeamSide

pub data ResultStatus : Type 0 where
  partial confirmed disputed : ResultStatus

pub data InputMode : Type 0 where
  quick detailed : InputMode

pub data GroupRole : Type 0 where
  owner admin member : GroupRole

pub data ParticipationStatus : Type 0 where
  invited accepted declined locked_in : ParticipationStatus

pub data LaneResult : Type 0 where
  win even lose unknown : LaneResult

pub data ConfirmationAction : Type 0 where
  confirm suggest_change dispute : ConfirmationAction

pub data BalanceMode : Type 0 where
  balanced position_first skill_first : BalanceMode

abbrev position_index : Position → ℕ
position_index Position.top = 0
position_index Position.jungle = 1
position_index Position.mid = 2
position_index Position.adc = 3
position_index Position.support = 4
position_index Position.fill = 5

abbrev status_index : MatchStatus → ℕ
status_index MatchStatus.draft = 0
status_index MatchStatus.recruiting = 1
status_index MatchStatus.locked = 2
status_index MatchStatus.balanced = 3
status_index MatchStatus.in_progress = 4
status_index MatchStatus.result_pending = 5
status_index MatchStatus.confirmed = 6
status_index MatchStatus.disputed = 7
status_index MatchStatus.closed = 8

abbrev side_index : TeamSide → ℕ
side_index TeamSide.team_a = 0
side_index TeamSide.team_b = 1

abbrev result_index : ResultStatus → ℕ
result_index ResultStatus.partial = 0
result_index ResultStatus.confirmed = 1
result_index ResultStatus.disputed = 2

abbrev pub role_index : GroupRole → ℕ
role_index GroupRole.owner = 0
role_index GroupRole.admin = 1
role_index GroupRole.member = 2

abbrev participation_index : ParticipationStatus → ℕ
participation_index ParticipationStatus.invited = 0
participation_index ParticipationStatus.accepted = 1
participation_index ParticipationStatus.declined = 2
participation_index ParticipationStatus.locked_in = 3

abbrev action_index : ConfirmationAction → ℕ
action_index ConfirmationAction.confirm = 0
action_index ConfirmationAction.suggest_change = 1
action_index ConfirmationAction.dispute = 2

pub position_eq_iff :
    (x y : Position) → (eq_nat (position_index x) (position_index y) ≡ true) ↔ (x ≡ y)
position_eq_iff x y = ground arith

pub status_eq_iff :
    (x y : MatchStatus) → (eq_nat (status_index x) (status_index y) ≡ true) ↔ (x ≡ y)
status_eq_iff x y = ground arith

pub side_eq_iff : (x y : TeamSide) → (eq_nat (side_index x) (side_index y) ≡ true) ↔ (x ≡ y)
side_eq_iff x y = ground arith

pub result_eq_iff :
    (x y : ResultStatus) → (eq_nat (result_index x) (result_index y) ≡ true) ↔ (x ≡ y)
result_eq_iff x y = ground arith

pub role_eq_iff : (x y : GroupRole) → (eq_nat (role_index x) (role_index y) ≡ true) ↔ (x ≡ y)
role_eq_iff x y = ground arith

pub participation_eq_iff :
    (x y : ParticipationStatus)
    → (eq_nat (participation_index x) (participation_index y) ≡ true) ↔ (x ≡ y)
participation_eq_iff x y = ground arith

pub action_eq_iff :
    (x y : ConfirmationAction) → (eq_nat (action_index x) (action_index y) ≡ true) ↔ (x ≡ y)
action_eq_iff x y = ground arith

instance abbrev pub position_eq : Eq Position
position_eq = record {
  beq = λ x y. eq_nat (position_index x) (position_index y);
  beq_iff = position_eq_iff;
}

instance abbrev pub status_eq : Eq MatchStatus
status_eq = record {
  beq = λ x y. eq_nat (status_index x) (status_index y);
  beq_iff = status_eq_iff;
}

instance abbrev pub side_eq : Eq TeamSide
side_eq = record { beq = λ x y. eq_nat (side_index x) (side_index y); beq_iff = side_eq_iff }

instance abbrev pub result_eq : Eq ResultStatus
result_eq = record {
  beq = λ x y. eq_nat (result_index x) (result_index y);
  beq_iff = result_eq_iff;
}

instance abbrev pub role_eq : Eq GroupRole
role_eq = record { beq = λ x y. eq_nat (role_index x) (role_index y); beq_iff = role_eq_iff }

instance abbrev pub participation_eq : Eq ParticipationStatus
participation_eq = record {
  beq = λ x y. eq_nat (participation_index x) (participation_index y);
  beq_iff = participation_eq_iff;
}

instance abbrev pub action_eq : Eq ConfirmationAction
action_eq = record {
  beq = λ x y. eq_nat (action_index x) (action_index y);
  beq_iff = action_eq_iff;
}
