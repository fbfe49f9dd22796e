-- ===== src/Hub/Tasks/Creation/Created.antt =====
-- apps/hub/src/services/store/tasks.ts, createTask: what a task that was created looks like.
use ayanami_agent_hub.Base.{ℕ, ◌≡◌, ◌≢◌, List, ◌++◌, none, some, map}
use ayanami_agent_hub.Base.Table.{find}
use ayanami_agent_hub.Protocol.Task.{TaskStatus}
use ayanami_agent_hub.Hub.Rows.{TaskRow}
use ayanami_agent_hub.Hub.Context.{Store, Hub}
use ayanami_agent_hub.Hub.Tasks.{Response, task_key}
use ayanami_agent_hub.Hub.Tasks.Creation.{CreateInput}
use ayanami_agent_hub.Hub.Tasks.Creation.Laws.{dependency_of}

-- The row is new, and it and its dependencies are all that the two tables gain.
pub record IsCreated (s s' : Store Response) (id : ℕ) (row : TaskRow) (depends_on : List ℕ)
    : Type 0 where
  pub fresh : find task_key id s.tasks ≡ none
  pub task : find task_key id s'.tasks ≡ some row
  pub other_tasks : (j : ℕ) → id ≢ j → find task_key j s'.tasks ≡ find task_key j s.tasks
  pub dependencies : s'.task_dependencies ≡ s.task_dependencies ++ map (dependency_of id) depends_on

-- The row of a task that is created: what the request says, at version 0, unowned and without
-- progress.
pub record IsNew (now project_id id : ℕ) (status : TaskStatus) (input : CreateInput) (t : TaskRow)
    : Type 0 where
  pub key : t.id ≡ id
  pub project : t.project_id ≡ project_id
  pub parent_task : t.parent_task_id ≡ input.parent_task_id
  pub start : t.status ≡ status
  pub owner_agent : t.owner_agent_id ≡ none
  pub owner_session : t.owner_session_id ≡ none
  pub stale : t.claim_stale_at ≡ none
  pub progress : t.computed_progress ≡ 0
  pub version : t.version ≡ 0
  pub updated_at : t.updated_at ≡ now
  pub created_at : t.details.created_at ≡ now
  pub title : t.details.title ≡ input.title
  pub objective : t.details.objective_id ≡ input.objective_id
  pub reviewer : t.details.reviewer_agent_id ≡ input.reviewer_agent_id
  pub scope_globs : t.details.scope_globs ≡ input.scope_globs
  pub capability_tags : t.details.capability_tags ≡ input.capability_tags
  pub weight : t.weight ≡ input.weight
  pub review_required : t.review_required ≡ input.review_required
  pub priority : t.priority ≡ input.priority
