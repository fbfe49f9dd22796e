-- ===== src/Hub/Tasks/Listing.antt =====
-- apps/hub/src/services/store/tasks.ts, listTasks: the tasks of a project, for the dashboard and for
-- an agent that looks for work.
pub mod Laws
pub mod Complete
use ayanami_agent_hub.Base.{
  ℕ, Bool, true, false, String, List, [], ◌∷◌, Option, none, some, every, keep, map, not, is_some,
  sort_by, ◌==◌, ◌&&◌, ◌||◌,
}
use ayanami_agent_hub.Base.Table.{find}
use ayanami_agent_hub.Protocol.Task.{TaskStatus, status_eq}
use ayanami_agent_hub.Hub.Rows.{TaskRow, TodoRow, Priority, critical, high, normal, low}
use ayanami_agent_hub.Hub.Context.{Store}
use ayanami_agent_hub.Hub.Tasks.{
  Task, Response, task_key, is_done, dependencies_for_task, list_todos,
}
use text.Mathlib.Text.{◌==◌ as str_eq}

pub record Filters : Type 0 where
  pub status : Option TaskStatus
  pub owner_agent_id : Option String
  pub ready_only : Bool

pub record ListedTask : Type 0 where
  pub task : Task
  pub todos : List TodoRow
  pub dependency_ready : Bool

-- `owner_agent_id = ?`; a NULL column is equal to nothing.
abbrev pub owned_by : String → Option String → Bool
owned_by agent_id none = false
owned_by agent_id (some owner) = str_eq owner agent_id

abbrev pub has_status : Option TaskStatus → TaskStatus → Bool
has_status none s = true
has_status (some t) s = status_eq s t

abbrev pub has_owner : Option String → Option String → Bool
has_owner none owner = true
has_owner (some agent_id) owner = owned_by agent_id owner

-- The WHERE clause.
unfoldable pub selected : ℕ → Filters → TaskRow → Bool
selected project_id filters t =
    t.project_id == project_id
    && (has_status filters.status t.status && has_owner filters.owner_agent_id t.owner_agent_id)

-- CASE priority … END
abbrev pub rank : Priority → ℕ
rank critical = 0
rank high = 1
rank normal = 2
rank low = 3

-- `dependency?.status === "DONE"`
abbrev pub is_finished : Option TaskRow → Bool
is_finished none = false
is_finished (some t) = is_done t.status

unfoldable pub listed : Store Response → TaskRow → ListedTask
listed s t =
    let depends_on = dependencies_for_task t.id s.task_dependencies in
    record {
      task = record { row = t; depends_on = depends_on };
      todos = list_todos t.id s.todo_items;
      dependency_ready = every (λ d. is_finished (find task_key d s.tasks)) depends_on;
    }

unfoldable pub wanted : Filters → ListedTask → Bool
wanted filters l =
    not filters.ready_only || (l.dependency_ready && not (is_some l.task.owner_session_id))

-- ORDER BY the rank, then the time: a stable sort by the time and then by the rank.
unfoldable pub list_tasks : ℕ → Filters → Store Response → List ListedTask
list_tasks project_id filters s = keep (wanted filters) (
    map (listed s) (
      sort_by (λ (t : TaskRow). rank t.priority)
        (sort_by (λ (t : TaskRow). t.details.created_at)
          (keep (selected project_id filters) s.tasks))))
