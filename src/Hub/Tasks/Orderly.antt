-- ===== src/Hub/Tasks/Orderly.antt =====
-- apps/hub/src/services/store/tasks.ts: no operation on tasks writes an event but by `emit`, so what
-- holds of mutations in general holds of them.
use ayanami_agent_hub.Base.{ℕ, List, [], ◌∷◌, String, refl}
use ayanami_agent_hub.Hub.Rows.{TaskRow, TodoRow}
use ayanami_agent_hub.Hub.Context.Orderly.{
  IsOrderly, pure-IsOrderly, select-IsOrderly, or_throw-IsOrderly, throw_if-IsOrderly,
  modify-IsOrderly, emit-IsOrderly, >>=-IsOrderly,
}
use ayanami_agent_hub.Hub.Context.Readers.{IsReader-IsOrderly}
use ayanami_agent_hub.Hub.Tasks.{Task}
use ayanami_agent_hub.Hub.Tasks.Ownership.Orderly.{get_task-IsOrderly, get_session-IsOrderly}
use ayanami_agent_hub.Hub.Tasks.Progress.{recompute_progress}
use ayanami_agent_hub.Hub.MutationAuthority.{MutationActor}
use ayanami_agent_hub.Hub.Tasks.Creation.{
  CreateInput, insert_task, insert_dependencies, create_body,
}
use ayanami_agent_hub.Hub.Tasks.Creation.Laws.{check_dependencies-IsReader, initial_status-IsReader}
use ayanami_agent_hub.Hub.Tasks.Split.{ChildInput, SplitInput, insert_children, split_body}
use ayanami_agent_hub.Hub.Tasks.Update.{UpdateInput, updates, write_update, update_body}
use ayanami_agent_hub.Hub.Tasks.Update.Laws.{check_status-IsReader}
use ayanami_agent_hub.Hub.Tasks.Todos.{
  TodoInput, TodoUpdate, get_todo, insert_todo, create_todo_body, update_todo_body,
}

insert_task-IsOrderly : (row : TaskRow) → IsOrderly (insert_task row)
unfolding insert_task
insert_task-IsOrderly row =
    >>=-IsOrderly _ _ (select-IsOrderly _) λ taken.
      >>=-IsOrderly _ _ (throw_if-IsOrderly _ _) λ _. modify-IsOrderly _ (λ s. (refl, refl))

insert_dependencies-IsOrderly : (id : ℕ) (ids : List ℕ) → IsOrderly (insert_dependencies id ids)
unfolding insert_dependencies
insert_dependencies-IsOrderly id [] = pure-IsOrderly tt
insert_dependencies-IsOrderly id (d ∷ ds) = >>=-IsOrderly _ _ (select-IsOrderly _) λ taken.
    >>=-IsOrderly _ _ (throw_if-IsOrderly _ _) λ _.
      >>=-IsOrderly _ _ (modify-IsOrderly _ (λ s. (refl, refl)))
        λ _. insert_dependencies-IsOrderly id ds

pub create_body-IsOrderly :
    (now project_id id : ℕ) (input : CreateInput) (actor : MutationActor)
    → IsOrderly (create_body now project_id id input actor)
unfolding create_body
create_body-IsOrderly now project_id id input actor =
    >>=-IsOrderly _ _
      (IsReader-IsOrderly _ (check_dependencies-IsReader project_id input.depends_on))
      λ _.
        >>=-IsOrderly _ _
          (IsReader-IsOrderly _ (initial_status-IsReader input.status input.depends_on))
          λ status. >>=-IsOrderly _ _ (insert_task-IsOrderly _) λ _.
            >>=-IsOrderly _ _ (insert_dependencies-IsOrderly id input.depends_on) λ _.
              >>=-IsOrderly _ _ (emit-IsOrderly now _)
                λ _. >>=-IsOrderly _ _ (get_task-IsOrderly id) λ t. pure-IsOrderly _

insert_children-IsOrderly :
    (now : ℕ) (parent : TaskRow) (children : List ChildInput)
    → IsOrderly (insert_children now parent children)
unfolding insert_children
insert_children-IsOrderly now parent [] = pure-IsOrderly []
insert_children-IsOrderly now parent (c ∷ cs) = >>=-IsOrderly _ _ (insert_task-IsOrderly _) λ _.
    >>=-IsOrderly _ _ (get_task-IsOrderly c.id)
      λ t. >>=-IsOrderly _ _ (insert_children-IsOrderly now parent cs) λ ts. pure-IsOrderly _

pub split_body-IsOrderly :
    (now : ℕ) (parent : TaskRow) (input : SplitInput) → IsOrderly (split_body now parent input)
unfolding split_body
split_body-IsOrderly now parent input = >>=-IsOrderly _ _ (get_task-IsOrderly parent.id) λ t.
    >>=-IsOrderly _ _ (throw_if-IsOrderly _ _) λ _.
      >>=-IsOrderly _ _ (get_session-IsOrderly input.session_id) λ s.
        >>=-IsOrderly _ _ (insert_children-IsOrderly now parent input.children) λ ts.
          >>=-IsOrderly _ _ (modify-IsOrderly _ (λ s. (refl, refl)))
            λ _. >>=-IsOrderly _ _ (emit-IsOrderly now _) λ _. pure-IsOrderly _

write_update-IsOrderly :
    (now task_id : ℕ) (current : Task) (input : UpdateInput) (actor : MutationActor)
    (columns : List String)
    → IsOrderly (write_update now task_id current input actor columns)
unfolding write_update
write_update-IsOrderly now task_id current input actor [] = pure-IsOrderly _
write_update-IsOrderly now task_id current input actor (c ∷ cs) =
    >>=-IsOrderly _ _ (modify-IsOrderly _ (λ s. (refl, refl))) λ _.
      >>=-IsOrderly _ _ (emit-IsOrderly now _)
        λ _. >>=-IsOrderly _ _ (get_task-IsOrderly task_id) λ t. pure-IsOrderly _

pub update_body-IsOrderly :
    (now task_id : ℕ) (input : UpdateInput) (actor : MutationActor)
    → IsOrderly (update_body now task_id input actor)
unfolding update_body
update_body-IsOrderly now task_id input actor = >>=-IsOrderly _ _ (get_task-IsOrderly task_id) λ t.
    >>=-IsOrderly _ _ (throw_if-IsOrderly _ _) λ _.
      >>=-IsOrderly _ _ (IsReader-IsOrderly _ (check_status-IsReader t.row input.status))
        λ _. write_update-IsOrderly now task_id t input actor (updates input)

pub recompute_progress-IsOrderly : (now task_id : ℕ) → IsOrderly (recompute_progress now task_id)
unfolding recompute_progress
recompute_progress-IsOrderly now task_id = >>=-IsOrderly _ _ (get_task-IsOrderly task_id) λ t.
    >>=-IsOrderly _ _ (select-IsOrderly _)
      λ progress. >>=-IsOrderly _ _ (modify-IsOrderly _ (λ s. (refl, refl))) λ _. pure-IsOrderly _

get_todo-IsOrderly : (id : ℕ) → IsOrderly (get_todo id)
unfolding get_todo
get_todo-IsOrderly id = >>=-IsOrderly _ _ (select-IsOrderly _) λ o. or_throw-IsOrderly _ _

insert_todo-IsOrderly : (row : TodoRow) → IsOrderly (insert_todo row)
unfolding insert_todo
insert_todo-IsOrderly row =
    >>=-IsOrderly _ _ (select-IsOrderly _) λ taken.
      >>=-IsOrderly _ _ (throw_if-IsOrderly _ _) λ _. modify-IsOrderly _ (λ s. (refl, refl))

pub create_todo_body-IsOrderly :
    (now project_id id task_id : ℕ) (input : TodoInput) (actor : MutationActor)
    → IsOrderly (create_todo_body now project_id id task_id input actor)
unfolding create_todo_body
create_todo_body-IsOrderly now project_id id task_id input actor =
    >>=-IsOrderly _ _ (insert_todo-IsOrderly _) λ _.
      >>=-IsOrderly _ _ (recompute_progress-IsOrderly now task_id) λ _.
        >>=-IsOrderly _ _ (emit-IsOrderly now _)
          λ _. >>=-IsOrderly _ _ (get_todo-IsOrderly id) λ t. pure-IsOrderly _

pub update_todo_body-IsOrderly :
    (now project_id todo_id : ℕ) (input : TodoUpdate) (actor : MutationActor)
    → IsOrderly (update_todo_body now project_id todo_id input actor)
unfolding update_todo_body
update_todo_body-IsOrderly now project_id todo_id input actor =
    >>=-IsOrderly _ _ (get_todo-IsOrderly todo_id) λ t.
      >>=-IsOrderly _ _ (throw_if-IsOrderly _ _) λ _.
        >>=-IsOrderly _ _ (throw_if-IsOrderly _ _) λ _.
          >>=-IsOrderly _ _ (modify-IsOrderly _ (λ s. (refl, refl))) λ _.
            >>=-IsOrderly _ _ (recompute_progress-IsOrderly now t.task_id) λ _.
              >>=-IsOrderly _ _ (emit-IsOrderly now _)
                λ _. >>=-IsOrderly _ _ (get_todo-IsOrderly todo_id) λ t. pure-IsOrderly _
