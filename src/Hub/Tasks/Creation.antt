-- ===== src/Hub/Tasks/Creation.antt =====
-- apps/hub/src/services/store/tasks.ts, createTask. The actor is what
-- resolveMutationActor returned, the fingerprint is the digest of the request, and `id` is the identifier that
-- createId drew.
pub mod Laws
pub mod Created
use ayanami_agent_hub.Base.{
  ℕ, ◌+◌, Bool, true, false, String, List, [], ◌∷◌, ◌++◌, Option, none, some, or_else, is_some,
  length, map, any, not, ◌==◌, ◌&&◌, if◌then◌else◌,
}
use ayanami_agent_hub.Base.Table.{find, update}
use ayanami_agent_hub.Protocol.Task.{
  TaskStatus, status_eq, ready, backlog, blocked, done, can_transition,
}
use ayanami_agent_hub.Hub.Rows.{
  TaskRow, TaskDetails, TaskDependency, Priority, ActorType, EventDraft, agent, task_created,
  task_split, task_updated,
}
use ayanami_agent_hub.Hub.Context.{
  Action, MutationOptions, conflict, constraint, forbidden, invalid_transition, modify, throw_if,
  pure, select, ◌>>=◌, ◌>>◌, emit, mutate, no_options,
}
use ayanami_agent_hub.Hub.MutationAuthority.{MutationActor, with_fingerprint}
use ayanami_agent_hub.Hub.Sessions.{get_session}
use ayanami_agent_hub.Hub.Tasks.{
  Task, Response, task_response, tasks_response, task_key, get_task, all_done, is_done,
}
use ayanami_agent_hub.Hub.Tasks.Progress.{assert_task_completion_gate}

pub record CreateInput : Type 0 where
  pub objective_id : ℕ
  pub milestone_id : Option ℕ
  pub parent_task_id : Option ℕ
  pub title : String
  pub description : String
  pub status : TaskStatus
  pub priority : Priority
  pub reviewer_agent_id : Option String
  pub capability_tags : List String
  pub scope_globs : List String
  pub protected_scope : Bool
  pub review_required : Bool
  pub depends_on : List ℕ
  pub weight : ℕ
  pub idempotency_key : String

-- A dependency must exist and belong to the project.
unfoldable pub check_dependencies : ℕ → List ℕ → Action Response (Unit {0})
check_dependencies project_id [] = pure tt
check_dependencies project_id (id ∷ ids) = do
  dependency ← get_task id
  throw_if (not (dependency.project_id == project_id))
      (forbidden "Task dependency belongs to a different project")
  check_dependencies project_id ids

-- `dependsOn.some((id) => getTask(ctx, id).status !== "DONE")`
unfoldable pub some_unfinished : List ℕ → Action Response Bool
some_unfinished [] = pure false
some_unfinished (id ∷ ids) =
    let rest = some_unfinished ids in
    do dependency ← get_task id; if is_done dependency.status then rest else pure true

-- A task that is asked for as READY starts in the BACKLOG while a dependency is unfinished.
unfoldable pub initial_if : Bool → TaskStatus → List ℕ → Action Response TaskStatus
initial_if true status ids = do
  waiting ← some_unfinished ids
  pure (if waiting then backlog else status)
initial_if false status ids = pure status

unfoldable pub initial_status : TaskStatus → List ℕ → Action Response TaskStatus
unfolding initial_if
initial_status status ids = initial_if (status_eq status ready) status ids

abbrev pub new_details : ℕ → CreateInput → TaskDetails
new_details now input = record {
  title = input.title;
  description = input.description;
  objective_id = input.objective_id;
  milestone_id = input.milestone_id;
  reviewer_agent_id = input.reviewer_agent_id;
  capability_tags = input.capability_tags;
  scope_globs = input.scope_globs;
  protected_scope = input.protected_scope;
  base_sha = none;
  head_sha = none;
  blocked_reason = none;
  waiting_for = none;
  self_reported_summary = none;
  agent_estimate = none;
  created_at = now;
}

abbrev pub new_row : ℕ → ℕ → ℕ → TaskStatus → CreateInput → TaskRow
new_row now project_id id status input = record {
  id = id;
  project_id = project_id;
  parent_task_id = input.parent_task_id;
  details = new_details now input;
  status = status;
  priority = input.priority;
  owner_agent_id = none;
  owner_session_id = none;
  review_required = input.review_required;
  computed_progress = 0;
  weight = input.weight;
  claim_stale_at = none;
  version = 0;
  updated_at = now;
}

-- INSERT INTO tasks; the identifier is the primary key.
unfoldable pub insert_task : TaskRow → Action Response (Unit {0})
insert_task row = do
  taken ← select (λ s. find task_key row.id s.tasks)
  throw_if (is_some taken) (constraint "tasks")
  modify λ s. record s { tasks = s.tasks ++ row ∷ [] }

abbrev pub has_dependency : ℕ → ℕ → List TaskDependency → Bool
has_dependency id dependency = any (λ d. d.task_id == id && d.depends_on_task_id == dependency)

-- INSERT INTO task_dependencies; the pair is the primary key.
unfoldable pub insert_dependencies : ℕ → List ℕ → Action Response (Unit {0})
insert_dependencies id [] = pure tt
insert_dependencies id (dependency ∷ ids) = do
  taken ← select (λ s. has_dependency id dependency s.task_dependencies)
  throw_if taken (constraint "task_dependencies")
  modify λ s. record s {
    task_dependencies =
        s.task_dependencies ++ record { task_id = id; depends_on_task_id = dependency } ∷ [];
  }
  insert_dependencies id ids

unfoldable pub create_body : ℕ → ℕ → ℕ → CreateInput → MutationActor → Action Response Response
create_body now project_id id input actor = do
  check_dependencies project_id input.depends_on
  status ← initial_status input.status input.depends_on
  insert_task (new_row now project_id id status input)
  insert_dependencies id input.depends_on
  emit now (record {
    project_id = project_id;
    type = "task.created";
    actor_type = actor.actor_type;
    actor_id = actor.actor_id;
    aggregate_type = "task";
    aggregate_id = id;
    causation_id = none;
    correlation_id = none;
    payload = task_created input.title status input.priority input.depends_on;
  })
  created ← get_task id
  pure (task_response created)

unfoldable pub create_task :
    ℕ → ℕ → ℕ → CreateInput → MutationActor → String → Action Response Response
create_task now project_id id input actor fingerprint =
    mutate now project_id input.idempotency_key "task.create"
      (create_body now project_id id input actor) (with_fingerprint fingerprint)
