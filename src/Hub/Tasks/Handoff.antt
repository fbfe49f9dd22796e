-- ===== src/Hub/Tasks/Handoff.antt =====
-- apps/hub/src/services/store/tasks.ts, handoffTask: an owner gives its task up to a peer.
pub mod Laws
use Prim.Native.String.{◌++◌ as ◌++s◌}
use ayanami_agent_hub.Base.{ℕ, ◌+◌, true, false, String, [], ◌∷◌, none, some, not, ◌==◌, opt_eq}
use ayanami_agent_hub.Base.Table.{update}
use ayanami_agent_hub.Protocol.Task.{TaskStatus}
use ayanami_agent_hub.Protocol.Push.{important}
use ayanami_agent_hub.Hub.Rows.{TaskRow, TaskDetails, SessionRow, idle, agent, handed_off}
use ayanami_agent_hub.Hub.MessageRows
use ayanami_agent_hub.Hub.Context.{
  Action, MutationOptions, conflict, forbidden, throw_if, modify, pure, ◌>>=◌, ◌>>◌, emit, mutate,
}
use ayanami_agent_hub.Hub.Sessions.{session_key, get_open_session}
use ayanami_agent_hub.Hub.Tasks.{Response, task_response, task_key, get_task}
use ayanami_agent_hub.Hub.Tasks.Ownership.{set_work}
use ayanami_agent_hub.Hub.Messages.{PostInput, Drawn, post_message}

pub record HandoffInput : Type 0 where
  pub session_id : ℕ
  pub expected_version : ℕ
  pub to_agent_id : String
  pub summary : String
  pub idempotency_key : String

abbrev pub handoff_details : HandoffInput → TaskDetails → TaskDetails
handoff_details input d = record d {
  waiting_for = some input.to_agent_id;
  self_reported_summary = some input.summary;
}

abbrev pub handoff_row : ℕ → HandoffInput → TaskRow → TaskRow
handoff_row now input t = record t {
  status = TaskStatus.waiting_for_peer;
  owner_agent_id = none;
  owner_session_id = none;
  details = handoff_details input t.details;
  version = t.version + 1;
  updated_at = now;
}

abbrev pub handoff_message : ℕ → SessionRow → HandoffInput → PostInput
handoff_message task_id owner input = record {
  thread_id = none;
  subject = none;
  reply_to = none;
  task_id = some task_id;
  review_id = none;
  from_agent_id = owner.agent_id;
  from_session_id = some input.session_id;
  recipients = record { agent_id = input.to_agent_id; session_id = none } ∷ [];
  type = MessageRows.handoff;
  priority = important;
  requires_ack = true;
  requires_response = false;
  content = record {
    summary = input.summary;
    detail = none;
    references = record { type = "task"; id = task_id } ∷ [];
  };
  dedupe_key = none;
  expires_at = none;
  idempotency_key = input.idempotency_key ++s ":message";
}

-- `owner` and the project were read before the mutation.
unfoldable pub handoff_body :
    ℕ → ℕ → ℕ → SessionRow → HandoffInput → Drawn → Action Response Response
handoff_body now task_id project_id owner input drawn = do
  current ← get_task task_id
  throw_if (not (current.version == input.expected_version)) (conflict "Task version changed")
  throw_if (not (opt_eq current.owner_session_id (some owner.id)))
      (forbidden "Only the current owner can hand off a task")
  modify λ s. record s {
    tasks = update task_key task_id (handoff_row now input) s.tasks;
    agent_sessions = update session_key owner.id (set_work none idle) s.agent_sessions;
  }
  emit now (record {
    project_id = current.project_id;
    type = "task.handed_off";
    actor_type = agent;
    actor_id = owner.agent_id;
    aggregate_type = "task";
    aggregate_id = task_id;
    causation_id = none;
    correlation_id = none;
    payload = handed_off input.to_agent_id input.summary;
  })
  handed ← get_task task_id
  _ ← post_message now project_id (handoff_message task_id owner input) drawn
  pure (task_response handed)

unfoldable pub handoff_replay : ℕ → HandoffInput → Action Response (Unit {0})
handoff_replay project_id input = do
  owner ← get_open_session input.session_id
  throw_if (not (owner.project_id == project_id))
      (forbidden "Task and owner session belong to different projects")

abbrev pub handoff_options : ℕ → HandoffInput → String → MutationOptions Response
handoff_options project_id input fingerprint = record {
  request_fingerprint = some fingerprint;
  validate_replay = λ _. handoff_replay project_id input;
}

unfoldable pub handoff_task : ℕ → ℕ → HandoffInput → Drawn → String → Action Response Response
handoff_task now task_id input drawn fingerprint = do
  task ← get_task task_id
  owner ← get_open_session input.session_id
  throw_if (not (owner.project_id == task.project_id))
      (forbidden "Task and owner session belong to different projects")
  mutate now task.project_id input.idempotency_key "task.handoff"
      (handoff_body now task_id task.project_id owner input drawn)
      (handoff_options task.project_id input fingerprint)
