-- ===== src/Types.antt =====
-- src/types.ts, and the rows of src/db/dropped-messages.ts: the entities of the central database.
-- Identifiers are texts; a timestamp is a number of milliseconds, since the ISO texts that the
-- host writes are all in one format and compare as their instants do.
use pocketclaw_telegram.Prelude.{ℕ, String, Option}

pub record AgentGroup : Type 0 where
  pub id : String
  pub name : String
  pub folder : String
  pub created_at : ℕ

pub data UnknownSenderPolicy : Type 0 where
  strict request_approval public : UnknownSenderPolicy

pub record MessagingGroup : Type 0 where
  pub id : String
  pub channel_type : String
  pub platform_id : String
  pub instance_name : String
  pub name : Option String
  pub is_group : ℕ
  pub unknown_sender_policy : UnknownSenderPolicy
  pub denied_at : Option ℕ
  pub created_at : ℕ

pub record User : Type 0 where
  pub id : String
  pub kind : String
  pub display_name : Option String
  pub created_at : ℕ

pub data UserRoleKind : Type 0 where
  owner admin : UserRoleKind

pub record UserRole : Type 0 where
  pub user_id : String
  pub role : UserRoleKind
  pub agent_group_id : Option String
  pub granted_by : Option String
  pub granted_at : ℕ

pub record AgentGroupMember : Type 0 where
  pub user_id : String
  pub agent_group_id : String
  pub added_by : Option String
  pub added_at : ℕ

pub data EngageMode : Type 0 where
  pattern_mode mention mention_sticky : EngageMode

pub data SenderScope : Type 0 where
  all_senders known_senders : SenderScope

pub data IgnoredMessagePolicy : Type 0 where
  drop accumulate : IgnoredMessagePolicy

pub data SessionMode : Type 0 where
  shared per_thread agent_shared : SessionMode

pub record MessagingGroupAgent : Type 0 where
  pub id : String
  pub messaging_group_id : String
  pub agent_group_id : String
  pub engage_mode : EngageMode
  pub engage_pattern : Option String
  pub sender_scope : SenderScope
  pub ignored_message_policy : IgnoredMessagePolicy
  pub session_mode : SessionMode
  pub priority : ℕ
  pub created_at : ℕ

pub data SessionStatus : Type 0 where
  active closed : SessionStatus

pub data ContainerStatus : Type 0 where
  running idle stopped : ContainerStatus

pub record Session : Type 0 where
  pub id : String
  pub agent_group_id : String
  pub messaging_group_id : Option String
  pub thread_id : Option String
  pub agent_provider : Option String
  pub status : SessionStatus
  pub container_status : ContainerStatus
  pub last_active : Option ℕ
  pub created_at : ℕ

pub data TargetType : Type 0 where
  channel agent : TargetType

pub record AgentDestination : Type 0 where
  pub agent_group_id : String
  pub local_name : String
  pub target_type : TargetType
  pub target_id : String
  pub created_at : ℕ

pub record AgentMessagePolicy : Type 0 where
  pub from_agent_group_id : String
  pub to_agent_group_id : String
  pub approver : String
  pub created_at : ℕ
