-- ===== src/Hub/Tasks/Split.antt =====
-- apps/hub/src/services/store/tasks.ts, splitTask. `ids` are the identifiers that createId drew, one
-- for each child.
pub mod Laws
pub mod Parts
use Prim.Native.String.{◌++◌ as ◌++s◌}
use ayanami_agent_hub.Base.{
  ℕ, ◌+◌, String, List, [], ◌∷◌, Option, none, some, or_else, length, map, not, ◌==◌,
}
use ayanami_agent_hub.Base.Table.{update}
use ayanami_agent_hub.Base.Texts.{decimal}
use ayanami_agent_hub.Protocol.Task.{ready, blocked}
use ayanami_agent_hub.Hub.Rows.{TaskRow, TaskDetails, agent, task_split}
use ayanami_agent_hub.Hub.Context.{
  Action, conflict, modify, throw_if, pure, ◌>>=◌, ◌>>◌, emit, mutate, no_options,
}
use ayanami_agent_hub.Hub.Sessions.{get_session}
use ayanami_agent_hub.Hub.Tasks.{Task, Response, tasks_response, task_key, get_task}
use ayanami_agent_hub.Hub.Tasks.Creation.{insert_task}

-- A part of the task, with the identifier of its row.
pub record ChildInput : Type 0 where
  pub id : ℕ
  pub title : String
  pub description : Option String
  pub capability_tags : Option (List String)
  pub scope_globs : Option (List String)
  pub weight : Option ℕ

pub record SplitInput : Type 0 where
  pub expected_version : ℕ
  pub children : List ChildInput
  pub session_id : ℕ
  pub idempotency_key : String

abbrev pub child_details : ℕ → TaskDetails → ChildInput → TaskDetails
child_details now parent child = record {
  title = child.title;
  description = or_else child.description "";
  objective_id = parent.objective_id;
  milestone_id = parent.milestone_id;
  reviewer_agent_id = parent.reviewer_agent_id;
  capability_tags = or_else child.capability_tags parent.capability_tags;
  scope_globs = or_else child.scope_globs [];
  protected_scope = parent.protected_scope;
  base_sha = none;
  head_sha = none;
  blocked_reason = none;
  waiting_for = none;
  self_reported_summary = none;
  agent_estimate = none;
  created_at = now;
}

abbrev pub child_row : ℕ → TaskRow → ChildInput → TaskRow
child_row now parent child = record {
  id = child.id;
  project_id = parent.project_id;
  parent_task_id = some parent.id;
  details = child_details now parent.details child;
  status = ready;
  priority = parent.priority;
  owner_agent_id = none;
  owner_session_id = none;
  review_required = parent.review_required;
  computed_progress = 0;
  weight = or_else child.weight 1;
  claim_stale_at = none;
  version = 0;
  updated_at = now;
}

unfoldable pub insert_children : ℕ → TaskRow → List ChildInput → Action Response (List Task)
insert_children now parent [] = pure []
insert_children now parent (child ∷ rest) = do
  insert_task (child_row now parent child)
  created ← get_task child.id
  others ← insert_children now parent rest
  pure (created ∷ others)

abbrev pub split_reason : List Task → String
split_reason children = "Split into " ++s decimal (length children) ++s " child tasks"

abbrev pub split_row : ℕ → List Task → TaskRow → TaskRow
split_row now children t = record t {
  status = blocked;
  details = record t.details { blocked_reason = some (split_reason children) };
  version = t.version + 1;
  updated_at = now;
}

-- The parent is read once before the mutation and once in it.
unfoldable pub split_body : ℕ → TaskRow → SplitInput → Action Response Response
split_body now parent input = do
  current ← get_task parent.id
  throw_if (not (current.version == input.expected_version)) (conflict "Task version changed")
  session ← get_session input.session_id
  children ← insert_children now parent input.children
  modify λ s. record s { tasks = update task_key parent.id (split_row now children) s.tasks }
  emit now (record {
    project_id = parent.project_id;
    type = "task.split";
    actor_type = agent;
    actor_id = session.agent_id;
    aggregate_type = "task";
    aggregate_id = parent.id;
    causation_id = none;
    correlation_id = none;
    payload = task_split (map (λ (t : Task). t.row.id) children);
  })
  pure (tasks_response children)

unfoldable pub split_task : ℕ → ℕ → SplitInput → Action Response Response
split_task now task_id input = do
  parent ← get_task task_id
  mutate now parent.project_id input.idempotency_key "task.split" (split_body now parent.row input)
      no_options
