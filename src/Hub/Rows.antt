-- ===== src/Hub/Rows.antt =====
-- migrations/0001_initial.sql and the row types of apps/hub/src/services/store: the tables of the
-- Hub, with the columns that the modelled operations read or write. Identifiers are only compared,
-- so those of rows are natural numbers; agents and free text are texts; times are natural numbers.
use ayanami_agent_hub.Base.{ℕ, Bool, String, List, Option}
use ayanami_agent_hub.Protocol.Task.{TaskStatus}
use ayanami_agent_hub.Protocol.Progress.{TodoStatus, FindingStatus}
use ayanami_agent_hub.Protocol.Push.{MessagePriority}
use ayanami_agent_hub.Protocol.Recipients.{Target}
use ayanami_agent_hub.Hub.MessageRows.{MessageType}

pub data Priority : Type 0 where
  low normal high critical : Priority

-- The columns of `tasks` that no rule of the store looks at.
pub record TaskDetails : Type 0 where
  pub title : String
  pub description : String
  pub objective_id : ℕ
  pub milestone_id : Option ℕ
  pub reviewer_agent_id : Option String
  pub capability_tags : List String
  pub scope_globs : List String
  pub protected_scope : Bool
  pub base_sha : Option String
  pub head_sha : Option String
  pub blocked_reason : Option String
  pub waiting_for : Option String
  pub self_reported_summary : Option String
  pub agent_estimate : Option ℕ
  pub created_at : ℕ

pub record TaskRow : Type 0 where
  pub id : ℕ
  pub project_id : ℕ
  pub parent_task_id : Option ℕ
  pub details : TaskDetails
  pub status : TaskStatus
  pub priority : Priority
  pub owner_agent_id : Option String
  pub owner_session_id : Option ℕ
  pub review_required : Bool
  pub computed_progress : ℕ
  pub weight : ℕ
  pub claim_stale_at : Option ℕ
  pub version : ℕ
  pub updated_at : ℕ

pub record TaskDependency : Type 0 where
  pub task_id : ℕ
  pub depends_on_task_id : ℕ

pub record TodoRow : Type 0 where
  pub id : ℕ
  pub task_id : ℕ
  pub title : String
  pub description : Option String
  pub type : String
  pub status : TodoStatus
  pub weight : ℕ
  pub evidence_required : Bool
  pub evidence : List String
  pub completed_by_session_id : Option ℕ
  pub completed_at : Option ℕ
  pub version : ℕ
  pub created_at : ℕ
  pub updated_at : ℕ

pub data ReviewStatus : Type 0 where
  pending delivered in_review changes_requested approved superseded cancelled : ReviewStatus

-- What an author presents as evidence of a test. A command or an exit code of another type counts as
-- none; an exit code is a natural number.
pub record Evidence : Type 0 where
  pub command : Option String
  pub exit_code : Option ℕ
  pub output_summary : String

-- The columns of `reviews` that no rule of the store looks at.
pub record ReviewDetails : Type 0 where
  pub base_sha : String
  pub head_sha : String
  pub patch_sha256 : String
  pub patch_artifact_id : ℕ
  pub changed_files : List String
  pub acceptance_criteria : List String
  pub test_evidence : List Evidence
  pub author_claims : List String
  pub known_risks : List String
  pub supersedes_review_id : Option ℕ
  pub created_at : ℕ

pub record ReviewRow : Type 0 where
  pub id : ℕ
  pub project_id : ℕ
  pub task_id : ℕ
  pub revision : ℕ
  pub author_agent_id : String
  pub author_session_id : ℕ
  pub reviewer_agent_id : String
  pub details : ReviewDetails
  pub status : ReviewStatus
  pub verdict_summary : Option String
  pub version : ℕ
  pub updated_at : ℕ

pub data Severity : Type 0 where
  info low medium high blocking : Severity

-- The columns of `review_findings` that no rule of the store looks at.
pub record FindingDetails : Type 0 where
  pub severity : Severity
  pub category : String
  pub title : String
  pub claim : String
  pub impact : String
  pub file_path : Option String
  pub line_start : Option ℕ
  pub line_end : Option ℕ
  pub symbol : Option String
  pub evidence : List String
  pub suggested_direction : Option String
  pub created_at : ℕ

pub record FindingRow : Type 0 where
  pub id : ℕ
  pub review_id : ℕ
  pub details : FindingDetails
  pub blocking : Bool
  pub status : FindingStatus
  pub resolution : Option String
  pub updated_at : ℕ

pub record ArtifactRow : Type 0 where
  pub id : ℕ
  pub project_id : ℕ
  pub task_id : ℕ
  pub review_id : ℕ
  pub name : String
  pub sha256 : String
  pub size_bytes : ℕ
  pub storage_path : String
  pub include_uncommitted : Bool
  pub created_by_session_id : ℕ
  pub created_at : ℕ

pub record TestEvidenceRow : Type 0 where
  pub id : ℕ
  pub review_id : ℕ
  pub command : String
  pub exit_code : ℕ
  pub output_summary : String
  pub created_at : ℕ

pub data ConnectionState : Type 0 where
  connecting online degraded stale offline closed : ConnectionState

pub data WorkState : Type 0 where
  idle planning working running_command waiting_for_peer waiting_for_user blocked : WorkState
  reviewing fixing_review completing error : WorkState

pub record SessionRow : Type 0 where
  pub id : ℕ
  pub project_id : ℕ
  pub agent_id : String
  pub connection_state : ConnectionState
  pub work_state : WorkState
  pub current_task_id : Option ℕ
  pub current_review_id : Option ℕ
  pub lineage_id : Option ℕ
  pub version : ℕ

pub record LineageRow : Type 0 where
  pub id : ℕ
  pub project_id : ℕ
  pub agent_id : String
  pub head_session_id : Option ℕ

pub record ProjectRow : Type 0 where
  pub id : ℕ
  pub current_sequence : ℕ
  pub updated_at : ℕ

pub data ActorType : Type 0 where
  agent user system : ActorType

-- What the event of a posted message tells.
pub record Posted : Type 0 where
  pub thread_id : ℕ
  pub task_id : Option ℕ
  pub review_id : Option ℕ
  pub type : MessageType
  pub priority : MessagePriority
  pub requires_ack : Bool
  pub requires_response : Bool
  pub recipients : List Target
  pub summary : String

-- The payload of an event, by the operation that emits it.
pub data Payload : Type 0 where
  task_created : String → TaskStatus → Priority → List ℕ → Payload
  task_split : List ℕ → Payload
  task_updated : List String → TaskStatus → TaskStatus → Payload
  task_claimed : ℕ → Bool → Payload
  task_released : Option ℕ → Payload
  todo_created : ℕ → String → String → Payload
  todo_updated : ℕ → TodoStatus → TodoStatus → Payload
  handed_off : String → String → Payload
  message_posted : Posted → Payload
  review_requested : ℕ → ReviewRow → Payload
  review_started : ℕ → Payload
  finding_created : ℕ → FindingRow → Payload
  finding_updated : FindingStatus → String → Payload
  verdict_given : ReviewStatus → String → Option String → TaskStatus → Payload

-- EventDraft; the identifier of an event, which nothing of the model reads, is left out.
pub record EventDraft : Type 0 where
  pub project_id : ℕ
  pub type : String
  pub actor_type : ActorType
  pub actor_id : String
  pub aggregate_type : String
  pub aggregate_id : ℕ
  pub causation_id : Option ℕ
  pub correlation_id : Option ℕ
  pub payload : Payload

pub record Event : Type 0 where
  pub draft : EventDraft
  pub open draft use *
  pub sequence : ℕ
  pub created_at : ℕ

-- A row of `idempotency_keys`, with the response that it holds as JSON.
pub record IdempotencyKey (R : Type 0) : Type 0 where
  pub project_id : ℕ
  pub key : String
  pub operation : String
  pub response : R
  pub created_at : ℕ
