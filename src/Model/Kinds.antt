-- ===== src/Model/Kinds.antt =====
-- The enums of prisma/schema.prisma for groups, recruiting posts, notifications, users and reports.
use inhouse_maker_core_serve.Common.{ℕ, ◌≡◌, ◌↔◌, true, eq_nat, Eq, arith}

pub data GroupVisibility : Type 0 where
  private_group public_group : GroupVisibility

pub data JoinPolicy : Type 0 where
  invite_only approval_required free_to_join : JoinPolicy

pub data RecruitingPostType : Type 0 where
  member_recruit opponent_recruit : RecruitingPostType

pub data RecruitingPostStatus : Type 0 where
  recruiting closed cancelled : RecruitingPostStatus

pub data NotificationStatus : Type 0 where
  pending sent read failed : NotificationStatus

pub data UserStatus : Type 0 where
  active suspended withdrawn : UserStatus

pub data AuthProvider : Type 0 where
  email apple google : AuthProvider

pub data ReportTargetType : Type 0 where
  user recruitment comment message : ReportTargetType

pub data ReportReason : Type 0 where
  harassment spam inappropriate_content impersonation other : ReportReason

pub data ReportStatus : Type 0 where
  pending reviewed resolved rejected : ReportStatus

abbrev visibility_index : GroupVisibility → ℕ
visibility_index GroupVisibility.private_group = 0
visibility_index GroupVisibility.public_group = 1

abbrev post_status_index : RecruitingPostStatus → ℕ
post_status_index RecruitingPostStatus.recruiting = 0
post_status_index RecruitingPostStatus.closed = 1
post_status_index RecruitingPostStatus.cancelled = 2

abbrev post_type_index : RecruitingPostType → ℕ
post_type_index RecruitingPostType.member_recruit = 0
post_type_index RecruitingPostType.opponent_recruit = 1

abbrev notification_status_index : NotificationStatus → ℕ
notification_status_index NotificationStatus.pending = 0
notification_status_index NotificationStatus.sent = 1
notification_status_index NotificationStatus.read = 2
notification_status_index NotificationStatus.failed = 3

abbrev user_status_index : UserStatus → ℕ
user_status_index UserStatus.active = 0
user_status_index UserStatus.suspended = 1
user_status_index UserStatus.withdrawn = 2

abbrev target_index : ReportTargetType → ℕ
target_index ReportTargetType.user = 0
target_index ReportTargetType.recruitment = 1
target_index ReportTargetType.comment = 2
target_index ReportTargetType.message = 3

pub visibility_eq_iff :
    (x y : GroupVisibility) → (eq_nat (visibility_index x) (visibility_index y) ≡ true) ↔ (x ≡ y)
visibility_eq_iff x y = ground arith

instance abbrev pub visibility_eq : Eq GroupVisibility
visibility_eq = record {
  beq = λ x y. eq_nat (visibility_index x) (visibility_index y);
  beq_iff = visibility_eq_iff;
}

pub post_status_eq_iff :
    (x y : RecruitingPostStatus)
    → (eq_nat (post_status_index x) (post_status_index y) ≡ true) ↔ (x ≡ y)
post_status_eq_iff x y = ground arith

instance abbrev pub post_status_eq : Eq RecruitingPostStatus
post_status_eq = record {
  beq = λ x y. eq_nat (post_status_index x) (post_status_index y);
  beq_iff = post_status_eq_iff;
}

pub post_type_eq_iff :
    (x y : RecruitingPostType) → (eq_nat (post_type_index x) (post_type_index y) ≡ true) ↔ (x ≡ y)
post_type_eq_iff x y = ground arith

instance abbrev pub post_type_eq : Eq RecruitingPostType
post_type_eq = record {
  beq = λ x y. eq_nat (post_type_index x) (post_type_index y);
  beq_iff = post_type_eq_iff;
}

pub user_status_eq_iff :
    (x y : UserStatus) → (eq_nat (user_status_index x) (user_status_index y) ≡ true) ↔ (x ≡ y)
user_status_eq_iff x y = ground arith

instance abbrev pub user_status_eq : Eq UserStatus
user_status_eq = record {
  beq = λ x y. eq_nat (user_status_index x) (user_status_index y);
  beq_iff = user_status_eq_iff;
}

pub target_eq_iff :
    (x y : ReportTargetType) → (eq_nat (target_index x) (target_index y) ≡ true) ↔ (x ≡ y)
target_eq_iff x y = ground arith

instance abbrev pub target_eq : Eq ReportTargetType
target_eq = record {
  beq = λ x y. eq_nat (target_index x) (target_index y);
  beq_iff = target_eq_iff;
}

pub notification_status_eq_iff :
    (x y : NotificationStatus)
    → (eq_nat (notification_status_index x) (notification_status_index y) ≡ true) ↔ (x ≡ y)
notification_status_eq_iff x y = ground arith

instance abbrev pub notification_status_eq : Eq NotificationStatus
notification_status_eq = record {
  beq = λ x y. eq_nat (notification_status_index x) (notification_status_index y);
  beq_iff = notification_status_eq_iff;
}

abbrev provider_index : AuthProvider → ℕ
provider_index AuthProvider.email = 0
provider_index AuthProvider.apple = 1
provider_index AuthProvider.google = 2

pub provider_eq_iff :
    (x y : AuthProvider) → (eq_nat (provider_index x) (provider_index y) ≡ true) ↔ (x ≡ y)
provider_eq_iff x y = ground arith

instance abbrev pub provider_eq : Eq AuthProvider
provider_eq = record {
  beq = λ x y. eq_nat (provider_index x) (provider_index y);
  beq_iff = provider_eq_iff;
}
