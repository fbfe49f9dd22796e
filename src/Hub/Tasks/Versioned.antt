-- ===== src/Hub/Tasks/Versioned.antt =====
-- apps/hub/src/services/store/tasks.ts: no operation changes what the version of a task stands for and keeps
-- the version.
use ayanami_agent_hub.Base.{ℕ, ◌+◌, ◌≡◌, refl, inl, inr, true, false, String, List, [], ◌∷◌, arith}
use ayanami_agent_hub.Hub.Rows.{TaskRow, TodoRow}
use ayanami_agent_hub.Hub.Context.{Action, pure, ◌>>=◌}
use ayanami_agent_hub.Hub.Context.Readers.{
  IsReader, pure-IsReader, select-IsReader, or_throw-IsReader, throw_if-IsReader, >>=-IsReader,
  if-IsReader,
}
use ayanami_agent_hub.Hub.Sessions.{get_session}
use ayanami_agent_hub.Hub.Tasks.{Response, Task, all_done, is_done}
use ayanami_agent_hub.Hub.Tasks.Reads.{get_task-IsReader}
use ayanami_agent_hub.Hub.Tasks.Versions.{
  Newer, same-Evolves, update-Evolves, append-Evolves, IsVersioned, IsReader-IsVersioned,
  modify-IsVersioned, >>=-IsVersioned, emit-IsVersioned,
}
use ayanami_agent_hub.Hub.Tasks.Ownership.{
  ClaimInput, ReleaseInput, claim_row, release_row, claim_body, release_body,
}
use ayanami_agent_hub.Hub.Tasks.Progress.{recompute_progress, set_progress}
use ayanami_agent_hub.Hub.MutationAuthority.{MutationActor}
use ayanami_agent_hub.Hub.Tasks.Creation.{
  CreateInput, insert_task, insert_dependencies, create_body,
}
use ayanami_agent_hub.Hub.Tasks.Creation.Laws.{check_dependencies-IsReader, initial_status-IsReader}
use ayanami_agent_hub.Hub.Tasks.Split.{
  ChildInput, SplitInput, insert_children, split_row, split_body,
}
use ayanami_agent_hub.Hub.Tasks.Update.{UpdateInput, updates, update_row, write_update, update_body}
use ayanami_agent_hub.Hub.Tasks.Update.Laws.{check_status-IsReader}
use ayanami_agent_hub.Hub.Tasks.Todos.{
  TodoInput, TodoUpdate, insert_todo, create_todo_body, update_todo_body,
}
use ayanami_agent_hub.Hub.Tasks.Calls.{get_todo-IsReader}

-- A step that reads, and what follows it.
pub reading :
    {A B : Type 0} (m : Action Response A) (f : A → Action Response B)
    → IsReader m
    → ((a : A) → IsVersioned (f a))
    → IsVersioned (m >>= f)
reading m f r v = >>=-IsVersioned m f (IsReader-IsVersioned m r) v

get_session-IsReader : (id : ℕ) → IsReader {R = Response} (get_session id)
unfolding get_session
get_session-IsReader id = >>=-IsReader _ _ (select-IsReader _) λ o. or_throw-IsReader o _

pub all_done-IsReader : (ids : List ℕ) → IsReader (all_done ids)
unfolding all_done
all_done-IsReader [] = pure-IsReader true
all_done-IsReader (id ∷ ids) =
    >>=-IsReader _ _ (get_task-IsReader id)
      λ t. if-IsReader (is_done t.status) _ _ (all_done-IsReader ids) (pure-IsReader false)

-- The last steps of most calls: the event, and the answer.
answer-IsVersioned :
    {B : Type 0} (m : Action Response B) (f : B → Response)
    → IsReader m
    → IsVersioned (m >>= λ b. pure (f b))
answer-IsVersioned m f r = reading m _ r λ b. IsReader-IsVersioned _ (pure-IsReader (f b))

next_version : (t t' : TaskRow) → t'.version ≡ t.version + 1 → Newer t t'
next_version t t' e = inl (omega (arith, e))

pub claim_body-IsVersioned :
    (now task_id : ℕ) (input : ClaimInput) → IsVersioned (claim_body now task_id input)
unfolding claim_body
claim_body-IsVersioned now task_id input = reading _ _ (get_task-IsReader task_id) λ t.
    reading _ _ (get_session-IsReader input.session_id) λ s.
      reading _ _ (throw_if-IsReader _ _) λ _. reading _ _ (throw_if-IsReader _ _) λ _.
        reading _ _ (throw_if-IsReader _ _) λ _.
          reading _ _ (all_done-IsReader t.depends_on) λ ready.
            reading _ _ (throw_if-IsReader _ _) λ _. reading _ _ (throw_if-IsReader _ _) λ _.
              >>=-IsVersioned _ _
                (modify-IsVersioned _ λ st.
                  update-Evolves task_id (claim_row now s) st.tasks (λ r. refl)
                    (λ r. next_version r (claim_row now s r) refl))
                λ _.
                  >>=-IsVersioned _ _ (emit-IsVersioned now _)
                    λ _. answer-IsVersioned _ _ (get_task-IsReader task_id)

pub release_body-IsVersioned :
    (now task_id : ℕ) (input : ReleaseInput) → IsVersioned (release_body now task_id input)
unfolding release_body
release_body-IsVersioned now task_id input = reading _ _ (get_task-IsReader task_id) λ t.
    reading _ _ (get_session-IsReader input.session_id) λ s.
      reading _ _ (throw_if-IsReader _ _) λ _. reading _ _ (throw_if-IsReader _ _) λ _.
        >>=-IsVersioned _ _
          (modify-IsVersioned _ λ st.
            update-Evolves task_id (release_row now) st.tasks (λ r. refl)
              (λ r. next_version r (release_row now r) refl))
          λ _.
            >>=-IsVersioned _ _ (emit-IsVersioned now _)
              λ _. answer-IsVersioned _ _ (get_task-IsReader task_id)

insert_task-IsVersioned : (row : TaskRow) → IsVersioned (insert_task row)
unfolding insert_task
insert_task-IsVersioned row = reading _ _ (select-IsReader _) λ taken.
    reading _ _ (throw_if-IsReader _ _) λ _. modify-IsVersioned _ λ s. append-Evolves s.tasks row

insert_dependencies-IsVersioned : (id : ℕ) (ids : List ℕ) → IsVersioned (insert_dependencies id ids)
unfolding insert_dependencies
insert_dependencies-IsVersioned id [] = IsReader-IsVersioned _ (pure-IsReader tt)
insert_dependencies-IsVersioned id (d ∷ ds) = reading _ _ (select-IsReader _) λ taken.
    reading _ _ (throw_if-IsReader _ _) λ _.
      >>=-IsVersioned _ _ (modify-IsVersioned _ λ s. same-Evolves _ _ refl)
        λ _. insert_dependencies-IsVersioned id ds

pub create_body-IsVersioned :
    (now project_id id : ℕ) (input : CreateInput) (actor : MutationActor)
    → IsVersioned (create_body now project_id id input actor)
unfolding create_body
create_body-IsVersioned now project_id id input actor =
    reading _ _ (check_dependencies-IsReader project_id input.depends_on) λ _.
      reading _ _ (initial_status-IsReader input.status input.depends_on) λ status.
        >>=-IsVersioned _ _ (insert_task-IsVersioned _) λ _.
          >>=-IsVersioned _ _ (insert_dependencies-IsVersioned id input.depends_on) λ _.
            >>=-IsVersioned _ _ (emit-IsVersioned now _)
              λ _. answer-IsVersioned _ _ (get_task-IsReader id)

insert_children-IsVersioned :
    (now : ℕ) (parent : TaskRow) (children : List ChildInput)
    → IsVersioned (insert_children now parent children)
unfolding insert_children
insert_children-IsVersioned now parent [] = IsReader-IsVersioned _ (pure-IsReader [])
insert_children-IsVersioned now parent (c ∷ cs) =
    >>=-IsVersioned _ _ (insert_task-IsVersioned _) λ _. reading _ _ (get_task-IsReader c.id) λ t.
      >>=-IsVersioned _ _ (insert_children-IsVersioned now parent cs)
        λ ts. IsReader-IsVersioned _ (pure-IsReader _)

pub split_body-IsVersioned :
    (now : ℕ) (parent : TaskRow) (input : SplitInput) → IsVersioned (split_body now parent input)
unfolding split_body
split_body-IsVersioned now parent input = reading _ _ (get_task-IsReader parent.id) λ t.
    reading _ _ (throw_if-IsReader _ _) λ _.
      reading _ _ (get_session-IsReader input.session_id) λ s.
        >>=-IsVersioned _ _ (insert_children-IsVersioned now parent input.children) λ ts.
          >>=-IsVersioned _ _
            (modify-IsVersioned _ λ st.
              update-Evolves parent.id (split_row now ts) st.tasks (λ r. refl)
                (λ r. next_version r (split_row now ts r) refl))
            λ _.
              >>=-IsVersioned _ _ (emit-IsVersioned now _)
                λ _. IsReader-IsVersioned _ (pure-IsReader _)

write_update-IsVersioned :
    (now task_id : ℕ) (current : Task) (input : UpdateInput) (actor : MutationActor)
    (columns : List String)
    → IsVersioned (write_update now task_id current input actor columns)
unfolding write_update
write_update-IsVersioned now task_id current input actor [] =
    IsReader-IsVersioned _ (pure-IsReader _)
write_update-IsVersioned now task_id current input actor (c ∷ cs) =
    >>=-IsVersioned _ _
      (modify-IsVersioned _ λ st.
        update-Evolves task_id (update_row now input) st.tasks (λ r. refl)
          (λ r. next_version r (update_row now input r) refl))
      λ _.
        >>=-IsVersioned _ _ (emit-IsVersioned now _)
          λ _. answer-IsVersioned _ _ (get_task-IsReader task_id)

pub update_body-IsVersioned :
    (now task_id : ℕ) (input : UpdateInput) (actor : MutationActor)
    → IsVersioned (update_body now task_id input actor)
unfolding update_body
update_body-IsVersioned now task_id input actor = reading _ _ (get_task-IsReader task_id) λ t.
    reading _ _ (throw_if-IsReader _ _) λ _.
      reading _ _ (check_status-IsReader t.row input.status)
        λ _. write_update-IsVersioned now task_id t input actor (updates input)

-- Recomputing the progress keeps the version, and what the version stands for.
pub recompute_progress-IsVersioned :
    (now task_id : ℕ) → IsVersioned (recompute_progress now task_id)
unfolding recompute_progress
recompute_progress-IsVersioned now task_id = reading _ _ (get_task-IsReader task_id) λ t.
    reading _ _ (select-IsReader _) λ progress.
      >>=-IsVersioned _ _
        (modify-IsVersioned _ λ st.
          update-Evolves task_id (set_progress now progress) st.tasks (λ r. refl)
            (λ r. inr (refl, refl, refl, refl)))
        λ _. IsReader-IsVersioned _ (pure-IsReader progress)

insert_todo-IsVersioned : (row : TodoRow) → IsVersioned (insert_todo row)
unfolding insert_todo
insert_todo-IsVersioned row = reading _ _ (select-IsReader _) λ taken.
    reading _ _ (throw_if-IsReader _ _) λ _. modify-IsVersioned _ λ s. same-Evolves _ _ refl

pub create_todo_body-IsVersioned :
    (now project_id id task_id : ℕ) (input : TodoInput) (actor : MutationActor)
    → IsVersioned (create_todo_body now project_id id task_id input actor)
unfolding create_todo_body
create_todo_body-IsVersioned now project_id id task_id input actor =
    >>=-IsVersioned _ _ (insert_todo-IsVersioned _) λ _.
      >>=-IsVersioned _ _ (recompute_progress-IsVersioned now task_id) λ _.
        >>=-IsVersioned _ _ (emit-IsVersioned now _)
          λ _. answer-IsVersioned _ _ (get_todo-IsReader id)

pub update_todo_body-IsVersioned :
    (now project_id todo_id : ℕ) (input : TodoUpdate) (actor : MutationActor)
    → IsVersioned (update_todo_body now project_id todo_id input actor)
unfolding update_todo_body
update_todo_body-IsVersioned now project_id todo_id input actor =
    reading _ _ (get_todo-IsReader todo_id) λ t. reading _ _ (throw_if-IsReader _ _) λ _.
      reading _ _ (throw_if-IsReader _ _) λ _.
        >>=-IsVersioned _ _ (modify-IsVersioned _ λ s. same-Evolves _ _ refl) λ _.
          >>=-IsVersioned _ _ (recompute_progress-IsVersioned now t.task_id) λ _.
            >>=-IsVersioned _ _ (emit-IsVersioned now _)
              λ _. answer-IsVersioned _ _ (get_todo-IsReader todo_id)
