-- ===== src/Hub/Messages/Inputs.antt =====
-- apps/hub/src/services/store/messages.ts, postMessage: what is posted, the identifiers that are drawn
-- for it, and the keys of the tables.
use ayanami_agent_hub.Base.{ℕ, Bool, String, List, Option}
use ayanami_agent_hub.Protocol.Push.{MessagePriority}
use ayanami_agent_hub.Protocol.Recipients.{Target}
use ayanami_agent_hub.Hub.MessageRows.{MessageType, Content, MessageRow, RecipientRow, ThreadRow}

pub record PostInput : Type 0 where
  pub thread_id : Option ℕ
  pub subject : Option String
  pub reply_to : Option ℕ
  pub task_id : Option ℕ
  pub review_id : Option ℕ
  pub from_agent_id : String
  pub from_session_id : Option ℕ
  pub recipients : List Target
  pub type : MessageType
  pub priority : MessagePriority
  pub requires_ack : Bool
  pub requires_response : Bool
  pub content : Content
  pub dedupe_key : Option String
  pub expires_at : Option ℕ
  pub idempotency_key : String

-- The identifiers that createId draws, the recipients' by their place, and the digest of the request.
pub record Drawn : Type 0 where
  pub message_id : ℕ
  pub thread_id : ℕ
  pub recipient_id : ℕ → ℕ
  pub fingerprint : String

abbrev pub message_key : MessageRow → ℕ
message_key m = m.id

abbrev pub recipient_key : RecipientRow → ℕ
recipient_key r = r.id

abbrev pub thread_key : ThreadRow → ℕ
thread_key t = t.id
