-- ===== src/Hub/Tasks/Todos.antt =====
-- apps/hub/src/services/store/tasks.ts, createTodo and updateTodo: the checklist of a task. The actor
-- is what resolveMutationActor returned, the fingerprint is the digest of the request, and `id` is the
-- identifier that createId drew.
pub mod Laws
use ayanami_agent_hub.Base.{
  ℕ, ◌+◌, Bool, true, false, String, List, [], ◌∷◌, ◌++◌, Option, none, some, or_else, is_some, not,
  ◌==◌, ◌&&◌, if◌then◌else◌,
}
use ayanami_agent_hub.Base.Table.{find, update}
use ayanami_agent_hub.Protocol.Progress.{TodoStatus, todo, is_done}
use ayanami_agent_hub.Hub.Rows.{TaskRow, TodoRow, EventDraft, todo_created, todo_updated}
use ayanami_agent_hub.Hub.Context.{
  Action, conflict, constraint, not_found, modify, throw_if, or_throw, pure, select, ◌>>=◌, ◌>>◌,
  emit, mutate,
}
use ayanami_agent_hub.Hub.Tasks.{Response, todo_response, todo_key, task_key, get_task}
use ayanami_agent_hub.Hub.MutationAuthority.{MutationActor, with_fingerprint}
use ayanami_agent_hub.Hub.Tasks.Progress.{recompute_progress, is_nonempty}

pub record TodoInput : Type 0 where
  pub title : String
  pub description : Option String
  pub type : String
  pub weight : ℕ
  pub evidence_required : Bool
  pub idempotency_key : String

abbrev pub new_todo : ℕ → ℕ → ℕ → TodoInput → TodoRow
new_todo now id task_id input = record {
  id = id;
  task_id = task_id;
  title = input.title;
  description = input.description;
  type = input.type;
  status = todo;
  weight = input.weight;
  evidence_required = input.evidence_required;
  evidence = [];
  completed_by_session_id = none;
  completed_at = none;
  version = 0;
  created_at = now;
  updated_at = now;
}

-- SELECT * FROM todo_items WHERE id = ?
unfoldable pub get_todo : ℕ → Action Response TodoRow
get_todo todo_id = do
  row ← select (λ s. find todo_key todo_id s.todo_items)
  or_throw row (not_found "Todo" todo_id)

unfoldable pub insert_todo : TodoRow → Action Response (Unit {0})
insert_todo row = do
  taken ← select (λ s. find todo_key row.id s.todo_items)
  throw_if (is_some taken) (constraint "todo_items")
  modify λ s. record s { todo_items = s.todo_items ++ row ∷ [] }

unfoldable pub create_todo_body :
    ℕ → ℕ → ℕ → ℕ → TodoInput → MutationActor → Action Response Response
create_todo_body now project_id id task_id input actor = do
  insert_todo (new_todo now id task_id input)
  recompute_progress now task_id
  emit now (record {
    project_id = project_id;
    type = "todo.created";
    actor_type = actor.actor_type;
    actor_id = actor.actor_id;
    aggregate_type = "todo";
    aggregate_id = id;
    causation_id = none;
    correlation_id = some task_id;
    payload = todo_created task_id input.title input.type;
  })
  created ← get_todo id
  pure (todo_response created)

unfoldable pub create_todo :
    ℕ → ℕ → ℕ → TodoInput → MutationActor → String → Action Response Response
create_todo now id task_id input actor fingerprint = do
  task ← get_task task_id
  mutate now task.project_id input.idempotency_key "todo.create"
      (create_todo_body now task.project_id id task_id input actor) (with_fingerprint fingerprint)

pub record TodoUpdate : Type 0 where
  pub expected_version : ℕ
  pub status : TodoStatus
  pub evidence : Option (List String)
  pub completed_by_session_id : Option ℕ
  pub idempotency_key : String

-- `input.evidence ?? current.evidence`
abbrev pub evidence_of : TodoUpdate → TodoRow → List String
evidence_of input t = or_else input.evidence t.evidence

abbrev pub update_todo_row : ℕ → TodoUpdate → List String → TodoRow → TodoRow
update_todo_row now input evidence t = record t {
  status = input.status;
  evidence = evidence;
  completed_by_session_id = input.completed_by_session_id;
  completed_at = if is_done input.status then some now else none;
  version = t.version + 1;
  updated_at = now;
}

unfoldable pub update_todo_body : ℕ → ℕ → ℕ → TodoUpdate → MutationActor → Action Response Response
update_todo_body now project_id todo_id input actor = do
  current ← get_todo todo_id
  throw_if (not (current.version == input.expected_version)) (conflict "Todo version changed")
  throw_if
      (is_done input.status
        && (current.evidence_required && not (is_nonempty (evidence_of input current))))
      (conflict "Todo requires evidence before completion")
  modify λ s. record s {
    todo_items =
        update todo_key todo_id (update_todo_row now input (evidence_of input current))
          s.todo_items;
  }
  recompute_progress now current.task_id
  emit now (record {
    project_id = project_id;
    type = "todo.updated";
    actor_type = actor.actor_type;
    actor_id = actor.actor_id;
    aggregate_type = "todo";
    aggregate_id = todo_id;
    causation_id = none;
    correlation_id = some current.task_id;
    payload = todo_updated current.task_id current.status input.status;
  })
  updated ← get_todo todo_id
  pure (todo_response updated)

-- The project comes from the task of the item, by a join.
unfoldable pub update_todo : ℕ → ℕ → TodoUpdate → MutationActor → String → Action Response Response
update_todo now todo_id input actor fingerprint = do
  row ← get_todo todo_id
  joined ← select (λ s. find task_key row.task_id s.tasks)
  task ← or_throw joined (not_found "Todo" todo_id)
  mutate now task.project_id input.idempotency_key "todo.update"
      (update_todo_body now task.project_id todo_id input actor) (with_fingerprint fingerprint)
