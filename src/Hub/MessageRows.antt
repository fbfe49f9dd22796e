-- ===== src/Hub/MessageRows.antt =====
-- migrations/0001_initial.sql and the row types of apps/hub/src/services/store/messages.ts: the
-- tables of messages, their recipients and their threads.
use ayanami_agent_hub.Base.{ℕ, Bool, String, List, Option}
use ayanami_agent_hub.Protocol.Push.{MessagePriority}

pub data MessageType : Type 0 where
  status task_proposal task_update question answer proposal decision conflict blocker : MessageType
  handoff review_request review_result finding_resolved artifact system : MessageType

pub record Reference : Type 0 where
  pub type : String
  pub id : ℕ

-- The content of a message. `detail`, a JSON object, is the list of its fields.
pub record Content : Type 0 where
  pub summary : String
  pub detail : Option (List (String × String))
  pub references : List Reference

pub record MessageRow : Type 0 where
  pub id : ℕ
  pub project_id : ℕ
  pub sequence : ℕ
  pub thread_id : ℕ
  pub reply_to : Option ℕ
  pub task_id : Option ℕ
  pub review_id : Option ℕ
  pub from_agent_id : String
  pub from_session_id : Option ℕ
  pub type : MessageType
  pub priority : MessagePriority
  pub requires_ack : Bool
  pub requires_response : Bool
  pub content : Content
  pub dedupe_key : Option String
  pub expires_at : Option ℕ
  pub created_at : ℕ

pub data RecipientState : Type 0 where
  pending delivered acknowledged processed responded expired failed : RecipientState

pub record RecipientRow : Type 0 where
  pub id : ℕ
  pub message_id : ℕ
  pub recipient_agent_id : String
  pub recipient_session_id : Option ℕ
  pub state : RecipientState
  pub attempt_count : ℕ
  pub surface_fence : ℕ

pub data ThreadStatus : Type 0 where
  opened resolved needs_user archived : ThreadStatus

pub record ThreadRow : Type 0 where
  pub id : ℕ
  pub project_id : ℕ
  pub subject : String
  pub status : ThreadStatus
  pub task_id : Option ℕ
  pub review_id : Option ℕ
  pub waiting_for_agent_id : Option String
  pub proposal_rounds : ℕ
  pub objection_rounds : ℕ
  pub version : ℕ
  pub created_at : ℕ
  pub updated_at : ℕ
