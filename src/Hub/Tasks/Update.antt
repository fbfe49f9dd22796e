-- ===== src/Hub/Tasks/Update.antt =====
-- apps/hub/src/services/store/tasks.ts, updateTask. The actor is what resolveMutationActor returned,
-- and the fingerprint is the digest of the request.
pub mod Laws
pub mod Unowned
use ayanami_agent_hub.Base.{
  ℕ, ◌+◌, Bool, true, false, String, List, [], ◌∷◌, ◌++◌, Option, none, some, or_else, is_some, not,
  ◌==◌, if◌then◌else◌,
}
use ayanami_agent_hub.Base.Table.{update}
use ayanami_agent_hub.Protocol.Task.{TaskStatus, done, can_transition}
use ayanami_agent_hub.Hub.Rows.{TaskRow, TaskDetails, EventDraft, task_updated}
use ayanami_agent_hub.Hub.Context.{
  Action, conflict, invalid_transition, modify, throw_if, pure, ◌>>=◌, ◌>>◌, emit, mutate,
}
use ayanami_agent_hub.Hub.Tasks.{Task, Response, task_response, task_key, get_task, is_done}
use ayanami_agent_hub.Hub.MutationAuthority.{MutationActor, with_fingerprint}
use ayanami_agent_hub.Hub.Tasks.Progress.{assert_task_completion_gate}

-- `none` is a field that the request leaves out; what may be null is an option itself.
pub record UpdateInput : Type 0 where
  pub expected_version : ℕ
  pub status : Option TaskStatus
  pub title : Option String
  pub description : Option String
  pub blocked_reason : Option (Option String)
  pub waiting_for : Option (Option String)
  pub self_reported_summary : Option (Option String)
  pub agent_estimate : Option (Option ℕ)
  pub reviewer_agent_id : Option (Option String)
  pub scope_globs : Option (List String)
  pub capability_tags : Option (List String)
  pub idempotency_key : String

-- The assignment of a column, if the request has the field.
abbrev pub assign {ℓ} : {A : Type ℓ} → Option A → String → List String
assign none column = []
assign (some value) column = column ∷ []

-- The assignments of the UPDATE, in the order of `fields`.
unfoldable pub updates : UpdateInput → List String
updates input =
    assign input.status "status = ?"
    ++ assign input.title "title = ?"
    ++ assign input.description "description = ?"
    ++ assign input.blocked_reason "blocked_reason = ?"
    ++ assign input.waiting_for "waiting_for = ?"
    ++ assign input.self_reported_summary "self_reported_summary = ?"
    ++ assign input.agent_estimate "agent_estimate = ?"
    ++ assign input.reviewer_agent_id "reviewer_agent_id = ?"
    ++ assign input.scope_globs "scope_globs_json = ?"
    ++ assign input.capability_tags "capability_tags_json = ?"

abbrev pub update_details : UpdateInput → TaskDetails → TaskDetails
update_details input t = record t {
  title = or_else input.title t.title;
  description = or_else input.description t.description;
  blocked_reason = or_else input.blocked_reason t.blocked_reason;
  waiting_for = or_else input.waiting_for t.waiting_for;
  self_reported_summary = or_else input.self_reported_summary t.self_reported_summary;
  agent_estimate = or_else input.agent_estimate t.agent_estimate;
  reviewer_agent_id = or_else input.reviewer_agent_id t.reviewer_agent_id;
  scope_globs = or_else input.scope_globs t.scope_globs;
  capability_tags = or_else input.capability_tags t.capability_tags;
}

abbrev pub update_row : ℕ → UpdateInput → TaskRow → TaskRow
update_row now input t = record t {
  status = or_else input.status t.status;
  details = update_details input t.details;
  version = t.version + 1;
  updated_at = now;
}

-- `if (input.status === "DONE") assertTaskCompletionGate(ctx, current)`
unfoldable pub gate_if : Bool → TaskRow → Action Response (Unit {0})
gate_if true current = assert_task_completion_gate current
gate_if false current = pure tt

-- What is asked of a new status.
unfoldable pub check_status : TaskRow → Option TaskStatus → Action Response (Unit {0})
unfolding gate_if
check_status current none = pure tt
check_status current (some status) = do
  throw_if (not (can_transition current.status status)) invalid_transition
  gate_if (is_done status) current

unfoldable pub write_update :
    ℕ → ℕ → Task → UpdateInput → MutationActor → List String → Action Response Response
write_update now task_id current input actor [] = pure (task_response current)
write_update now task_id current input actor (column ∷ columns) = do
  modify λ s. record s { tasks = update task_key task_id (update_row now input) s.tasks }
  emit now (record {
    project_id = current.project_id;
    type = "task.updated";
    actor_type = actor.actor_type;
    actor_id = actor.actor_id;
    aggregate_type = "task";
    aggregate_id = task_id;
    causation_id = none;
    correlation_id = none;
    payload = task_updated (column ∷ columns) current.status (or_else input.status current.status);
  })
  updated ← get_task task_id
  pure (task_response updated)

unfoldable pub update_body : ℕ → ℕ → UpdateInput → MutationActor → Action Response Response
unfolding check_status write_update
update_body now task_id input actor = do
  current ← get_task task_id
  throw_if (not (current.version == input.expected_version)) (conflict "Task version changed")
  check_status current.row input.status
  write_update now task_id current input actor (updates input)

unfoldable pub update_task : ℕ → ℕ → UpdateInput → MutationActor → String → Action Response Response
update_task now task_id input actor fingerprint = do
  before ← get_task task_id
  mutate now before.project_id input.idempotency_key "task.update"
      (update_body now task_id input actor) (with_fingerprint fingerprint)
