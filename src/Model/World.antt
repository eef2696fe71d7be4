-- ===== src/Model/World.antt =====
-- Everything that the handlers read and write: the tables, the outgoing queues and the clock.
-- Stored files are known by their URLs. Of an audit entry the JSON payloads are left out, of a notification its wording.
use inhouse_maker_core_serve.Common.{
  ℕ, Bool, Option, some, List, [], ◌∷◌, ◌≡◌, arith, if◌then◌else◌, eq_nat, find?, All, String,
}
use inhouse_maker_core_serve.Model.Enums.{Position, GroupRole}
use inhouse_maker_core_serve.Model.Kinds.{
  GroupVisibility, JoinPolicy, RecruitingPostType, RecruitingPostStatus, NotificationStatus,
  UserStatus, ReportTargetType, ReportReason, ReportStatus, AuthProvider,
}
use inhouse_maker_core_serve.Model.Rows.{Match}

pub record Group : Type 0 where
  pub id : ℕ
  pub owner_user_id : ℕ
  pub name : String
  pub region : Option String
  pub description : Option String
  pub visibility : GroupVisibility
  pub join_policy : JoinPolicy
  pub tags : Option (List String)
  pub archived_at : Option ℕ

pub record GroupMember : Type 0 where
  pub group_id : ℕ
  pub user_id : ℕ
  pub role : GroupRole

pub record User : Type 0 where
  pub id : ℕ
  pub is_admin : Bool
  pub email : String
  pub nickname : String
  pub refresh_token_hash : Option String
  pub status : UserStatus
  pub primary_position : Option Position
  pub secondary_position : Option Position
  pub is_fill_available : Bool
  pub overall_power : Option ℕ
  pub profile_image_url : Option String
  pub style_tags : Option (List String)
  pub manner_score : ℕ
  pub noshow_count : ℕ
  pub terms_agreed_at : Option ℕ
  pub privacy_agreed_at : Option ℕ
  pub marketing_opt_in_at : Option ℕ
  pub withdrawn_at : Option ℕ

-- RiotAccount, without what its synchronisation writes.
pub record RiotAccount : Type 0 where
  pub id : ℕ
  pub user_id : ℕ
  pub puuid : String
  pub riot_game_name : String
  pub tag_line : String
  pub region : String
  pub profile_icon_id : Option ℕ
  pub summoner_level : Option ℕ
  pub is_primary : Bool

-- The unique key of RiotMatchParticipantSummary.
pub record MatchSummary : Type 0 where
  pub riot_match_id : String
  pub puuid : String

-- AuthIdentity
pub record Identity : Type 0 where
  pub id : ℕ
  pub user_id : ℕ
  pub provider : AuthProvider
  pub provider_user_id : String
  pub email : Option String
  pub password_hash : Option String
  pub linked_at : ℕ
  pub last_login_at : Option ℕ

pub record Application : Type 0 where
  pub id : ℕ
  pub user_id : ℕ
  pub position : Option Position
  pub memo : Option String
  pub created_at : ℕ

-- A post carries its applications.
pub record RecruitingPost : Type 0 where
  pub id : ℕ
  pub group_id : ℕ
  pub created_by : ℕ
  pub post_type : RecruitingPostType
  pub title : String
  pub body : Option String
  pub tags : Option (List String)
  pub scheduled_at : Option ℕ
  pub required_positions : List Position
  pub status : RecruitingPostStatus
  pub deleted_at : Option ℕ
  pub created_at : ℕ
  pub applications : List Application

pub record UserBlock : Type 0 where
  pub user_id : ℕ
  pub target_user_id : ℕ
  pub created_at : ℕ

pub record Report : Type 0 where
  pub id : ℕ
  pub reporter_user_id : ℕ
  pub target_type : ReportTargetType
  pub target_id : ℕ
  pub reason : ReportReason
  pub detail : Option String
  pub status : ReportStatus
  pub created_at : ℕ

pub data AuditAction : Type 0 where
  match_player_updated match_locked match_manual_balance_saved match_balanced : AuditAction
  match_reopened result_submitted result_confirmation_updated : AuditAction
  result_admin_resolved result_status_transitioned : AuditAction
  group_updated group_archived : AuditAction
  recruiting_updated recruiting_deleted recruiting_apply recruiting_cancel : AuditAction
  admin_flag_changed recruiting_status_changed : AuditAction

pub record AuditEntry : Type 0 where
  pub user_id : Option ℕ
  pub action : AuditAction
  pub entity_id : ℕ

pub data NotificationType : Type 0 where
  result_confirmation_request result_disputed result_confirmed : NotificationType
  result_admin_resolved : NotificationType
  recruiting_posted recruiting_applied recruiting_application_cancelled : NotificationType

-- CreateNotificationInput of notifications/notification.service.ts
pub record NotificationInput : Type 0 where
  pub user_id : ℕ
  pub kind : NotificationType
  pub related_entity_id : ℕ

pub record Notification : Type 0 where
  pub id : ℕ
  pub input : NotificationInput
  pub status : NotificationStatus
  pub sent_at : Option ℕ
  pub read_at : Option ℕ

-- Why a power profile is computed again: the reasons that the services send, with the match.
pub data PowerReason : Type 0 where
  result_partial result_confirmed result_disputed admin_resolved : ℕ → PowerReason

pub data Job : Type 0 where
  recalculate_power_profile : ℕ → PowerReason → Job
  finalize_result_confirmation : ℕ → Job
  send_notification : ℕ → Job

pub record World : Type 0 where
  pub matches : List Match
  pub groups : List Group
  pub members : List GroupMember
  pub users : List User
  pub identities : List Identity
  pub riot_accounts : List RiotAccount
  pub match_summaries : List MatchSummary
  pub stored_urls : List String
  pub posts : List RecruitingPost
  pub blocks : List UserBlock
  pub reports : List Report
  pub audit_log : List AuditEntry
  pub notifications : List Notification
  pub jobs : List Job
  pub now : ℕ
  pub next_id : ℕ

-- `findUnique` on the match id, and a write to the row with that id.
abbrev pub find_match : ℕ → List Match → Option Match
find_match k ms = find? (λ m. eq_nat m.id k) ms

unfoldable pub put_match : Match → List Match → List Match
put_match m [] = []
put_match m (n ∷ ms) = if eq_nat n.id m.id then m ∷ ms else n ∷ put_match m ms

pub All-put_match :
    (P : Match → Type 0) (m : Match) (ms : List Match) → P m → All P ms → All P (put_match m ms)
unfolding put_match
All-put_match P m [] hm h = tt
All-put_match P m (n ∷ ms) hm h = ground (arith, All-put_match P m ms hm h.1)

pub find_match-put_match :
    (k : ℕ) (m : Match) (ms : List Match) {old : Match}
    → find_match m.id ms ≡ some old
    → find_match k (put_match m ms) ≡ (if eq_nat m.id k then some m else find_match k ms)
unfolding put_match
find_match-put_match k m [] e = cc
find_match-put_match k m (n ∷ ms) {old} e = ground (arith, find_match-put_match k m ms {old = old})
