-- ===== src/Hub/Tasks/History.antt =====
-- apps/hub/src/services/store/tasks.ts: the calls that concern a task alone keep the meaning of a
-- task's version.
use ayanami_agent_hub.Hub.Context.{pure}
use ayanami_agent_hub.Hub.Context.Readers.{
  IsReader, pure-IsReader, select-IsReader, or_throw-IsReader,
}
use ayanami_agent_hub.Hub.Tasks.{Response}
use ayanami_agent_hub.Hub.Tasks.Reads.{get_task-IsReader}
use ayanami_agent_hub.Hub.Tasks.Ownership.{claim_task, release_task}
use ayanami_agent_hub.Hub.Tasks.Creation.{create_task}
use ayanami_agent_hub.Hub.Tasks.Split.{split_task}
use ayanami_agent_hub.Hub.Tasks.Update.{update_task}
use ayanami_agent_hub.Hub.Tasks.Todos.{create_todo, update_todo}
use ayanami_agent_hub.Hub.Tasks.Calls.{
  Call, claim, release, create, split, change, add_todo, change_todo, run, get_todo-IsReader,
}
use ayanami_agent_hub.Hub.Tasks.Versions.{IsVersioned, mutate-IsVersioned}
use ayanami_agent_hub.Hub.Tasks.Versioned.{
  reading, claim_body-IsVersioned, release_body-IsVersioned, create_body-IsVersioned,
  split_body-IsVersioned, update_body-IsVersioned, create_todo_body-IsVersioned,
  update_todo_body-IsVersioned,
}

-- These calls do not check a replay.
unchecked : (r : Response) → IsReader {R = Response} (pure tt)
unchecked r = pure-IsReader tt

pub run-IsVersioned : (c : Call) → IsVersioned (run c)
unfolding run claim_task release_task create_task split_task update_task create_todo update_todo
run-IsVersioned (claim now task_id input) =
    reading _ _ (get_task-IsReader task_id)
      λ t. mutate-IsVersioned now _ _ _ _ _ (claim_body-IsVersioned now task_id input) unchecked
run-IsVersioned (release now task_id input) =
    reading _ _ (get_task-IsReader task_id)
      λ t. mutate-IsVersioned now _ _ _ _ _ (release_body-IsVersioned now task_id input) unchecked
run-IsVersioned (create now project_id id input actor fingerprint) =
    mutate-IsVersioned now _ _ _ _ _ (create_body-IsVersioned now project_id id input actor)
      unchecked
run-IsVersioned (split now task_id input) =
    reading _ _ (get_task-IsReader task_id)
      λ t. mutate-IsVersioned now _ _ _ _ _ (split_body-IsVersioned now t.row input) unchecked
run-IsVersioned (change now task_id input actor fingerprint) =
    reading _ _ (get_task-IsReader task_id) λ t.
      mutate-IsVersioned now _ _ _ _ _ (update_body-IsVersioned now task_id input actor) unchecked
run-IsVersioned (add_todo now id task_id input actor fingerprint) =
    reading _ _ (get_task-IsReader task_id) λ t.
      mutate-IsVersioned now _ _ _ _ _
        (create_todo_body-IsVersioned now t.project_id id task_id input actor) unchecked
run-IsVersioned (change_todo now todo_id input actor fingerprint) =
    reading _ _ (get_todo-IsReader todo_id) λ row. reading _ _ (select-IsReader _) λ joined.
      reading _ _ (or_throw-IsReader joined _) λ task.
        mutate-IsVersioned now _ _ _ _ _
          (update_todo_body-IsVersioned now task.project_id todo_id input actor) unchecked
