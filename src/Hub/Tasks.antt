-- ===== src/Hub/Tasks.antt =====
-- apps/hub/src/services/store/tasks.ts: the task as the store reads it, and its checklist.
pub mod Reads
pub mod Ownership
pub mod Progress
pub mod Creation
pub mod Split
pub mod Update
pub mod Handoff
pub mod Listing
pub mod Todos
pub mod Orderly
pub mod Calls
pub mod Versions
pub mod Versioned
pub mod History
use ayanami_agent_hub.Base.{
  ℕ, Bool, true, false, List, [], ◌∷◌, Option, none, some, keep, map, sort_by, ◌==◌, if◌then◌else◌,
  ltb,
}
use ayanami_agent_hub.Base.Table.{find}
use ayanami_agent_hub.Protocol.Task.{TaskStatus, done}
use ayanami_agent_hub.Hub.Rows.{TaskRow, TaskDependency, TodoRow, ReviewRow, FindingRow}
use ayanami_agent_hub.Hub.Context.{Action, Store, not_found, select, or_throw, pure, ◌>>=◌, ◌>>◌}

-- A `Task`: its row and the tasks that it depends on.
pub record Task : Type 0 where
  pub row : TaskRow
  pub open row use *
  pub depends_on : List ℕ

-- What a mutation of the store answers, and what its idempotency row holds.
pub data Response : Type 0 where
  task_response : Task → Response
  tasks_response : List Task → Response
  todo_response : TodoRow → Response
  -- `{ messageId }`
  posted_response : ℕ → Response
  review_response : ReviewRow → Response
  finding_response : FindingRow → Response

abbrev pub task_key : TaskRow → ℕ
task_key t = t.id

abbrev pub todo_key : TodoRow → ℕ
todo_key t = t.id

abbrev pub is_done : TaskStatus → Bool
is_done done = true
is_done _ = false

-- dependenciesForTask
unfoldable pub dependencies_for_task : ℕ → List TaskDependency → List ℕ
dependencies_for_task task_id ds =
    sort_by (λ d. d)
      (map (λ (d : TaskDependency). d.depends_on_task_id) (keep (λ d. d.task_id == task_id) ds))

unfoldable pub get_task : ℕ → Action Response Task
get_task task_id = do
  row ← select (λ s. find task_key task_id s.tasks)
  found ← or_throw row (not_found "Task" task_id)
  select λ s. record { row = found; depends_on = dependencies_for_task task_id s.task_dependencies }

-- `dependsOn.every((id) => getTask(ctx, id).status === "DONE")`
unfoldable pub all_done : List ℕ → Action Response Bool
all_done [] = pure true
all_done (id ∷ ids) =
    let rest = all_done ids in
    do dependency ← get_task id; if is_done dependency.status then rest else pure false

unfoldable pub list_todos : ℕ → List TodoRow → List TodoRow
list_todos task_id todos =
    sort_by (λ (t : TodoRow). t.created_at) (keep (λ t. t.task_id == task_id) todos)

-- SELECT * FROM reviews WHERE task_id = ? ORDER BY revision DESC LIMIT 1
unfoldable pub latest : Option ReviewRow → List ReviewRow → Option ReviewRow
latest best [] = best
latest none (r ∷ rs) = latest (some r) rs
latest (some b) (r ∷ rs) = latest (some (if ltb b.revision r.revision then r else b)) rs

unfoldable pub latest_review : ℕ → List ReviewRow → Option ReviewRow
unfolding latest
latest_review task_id rs = latest none (keep (λ r. r.task_id == task_id) rs)
