-- ===== src/Hub/Reviews/Quiet.antt =====
-- apps/hub/src/services/store/tasks.ts, and the findings of reviews.ts: the operations that leave the
-- table of reviews alone.
use ayanami_agent_hub.Base.{ℕ, refl, Bool, true, false, String, List, [], ◌∷◌}
use ayanami_agent_hub.Hub.Rows.{TaskRow, TodoRow, FindingRow, SessionRow, ReviewRow}
use ayanami_agent_hub.Hub.Context.Blind.{
  IsReader-IsBlind, pure-IsBlind, select-IsBlind, or_throw-IsBlind, throw_if-IsBlind,
  modify-IsBlind, >>=-IsBlind, >>-IsBlind,
}
use ayanami_agent_hub.Hub.MutationAuthority.{MutationActor}
use ayanami_agent_hub.Hub.Sessions.{get_session}
use ayanami_agent_hub.Hub.Tasks.{Task}
use ayanami_agent_hub.Hub.Tasks.Versioned.{all_done-IsReader}
use ayanami_agent_hub.Hub.Tasks.Ownership.{ClaimInput, ReleaseInput, claim_body, release_body}
use ayanami_agent_hub.Hub.Tasks.Creation.{
  CreateInput, insert_task, insert_dependencies, create_body,
}
use ayanami_agent_hub.Hub.Tasks.Creation.Laws.{check_dependencies-IsReader, initial_status-IsReader}
use ayanami_agent_hub.Hub.Tasks.Split.{ChildInput, SplitInput, insert_children, split_body}
use ayanami_agent_hub.Hub.Tasks.Update.{UpdateInput, updates, write_update, update_body}
use ayanami_agent_hub.Hub.Tasks.Update.Laws.{check_status-IsReader}
use ayanami_agent_hub.Hub.Tasks.Todos.{
  TodoInput, TodoUpdate, get_todo, insert_todo, create_todo_body, update_todo_body,
}
use ayanami_agent_hub.Hub.Tasks.Handoff.{HandoffInput, handoff_body}
use ayanami_agent_hub.Hub.Messages.{Drawn}
use ayanami_agent_hub.Hub.Reviews.Blind.{
  Quiet, get_session-IsReader, get_task-Quiet, emit-Quiet, recompute_progress-Quiet,
  post_message-Quiet,
}
use ayanami_agent_hub.Hub.Reviews.Guards.{
  get_review-IsReader, session_in_project-IsReader, reviewer-IsReader, latest-IsReader,
}
use ayanami_agent_hub.Hub.Reviews.Findings.{
  FindingInput, ResolveInput, insert_finding, get_finding, create_finding_body,
  assert_resolution_role, resolve_body,
}

ruleset quiet = (
  pure-IsBlind, select-IsBlind, or_throw-IsBlind, throw_if-IsBlind, >>=-IsBlind, >>-IsBlind,
  modify-IsBlind, refl, emit-Quiet, get_task-Quiet, recompute_progress-Quiet, post_message-Quiet,
)

get_session-Quiet : (id : ℕ) → Quiet (get_session id)
get_session-Quiet id = IsReader-IsBlind _ _ (get_session-IsReader id)

pub claim_body-Quiet : (now id : ℕ) (input : ClaimInput) → Quiet (claim_body now id input)
unfolding claim_body
claim_body-Quiet now id input = >>=-IsBlind _ _ _ (get_task-Quiet id) λ t.
    >>=-IsBlind _ _ _ (get_session-Quiet _) λ s. >>-IsBlind _ _ _ (throw_if-IsBlind _ _ _) (
      >>-IsBlind _ _ _ (throw_if-IsBlind _ _ _) (
        >>-IsBlind _ _ _ (throw_if-IsBlind _ _ _) (
          >>=-IsBlind _ _ _ (IsReader-IsBlind _ _ (all_done-IsReader t.depends_on))
            λ ready. search quiet depth 20 fits 5000)))

pub release_body-Quiet : (now id : ℕ) (input : ReleaseInput) → Quiet (release_body now id input)
unfolding release_body
release_body-Quiet now id input = search (quiet, get_session-Quiet) depth 20 fits 5000

insert_task-Quiet : (row : TaskRow) → Quiet (insert_task row)
unfolding insert_task
insert_task-Quiet row = search quiet

insert_dependencies-Quiet : (id : ℕ) (ids : List ℕ) → Quiet (insert_dependencies id ids)
unfolding insert_dependencies
insert_dependencies-Quiet id [] = search quiet
insert_dependencies-Quiet id (d ∷ ds) = >>=-IsBlind _ _ _ (select-IsBlind _ _) λ taken.
    >>-IsBlind _ _ _ (throw_if-IsBlind _ _ _)
      (>>-IsBlind _ _ _ (search quiet) (insert_dependencies-Quiet id ds))

pub create_body-Quiet :
    (now p id : ℕ) (input : CreateInput) (actor : MutationActor)
    → Quiet (create_body now p id input actor)
unfolding create_body
create_body-Quiet now p id input actor =
    >>-IsBlind _ _ _ (IsReader-IsBlind _ _ (check_dependencies-IsReader p input.depends_on)) (
      >>=-IsBlind _ _ _
        (IsReader-IsBlind _ _ (initial_status-IsReader input.status input.depends_on))
        λ status. search (quiet, insert_task-Quiet, insert_dependencies-Quiet) depth 20 fits 5000)

insert_children-Quiet :
    (now : ℕ) (parent : TaskRow) (children : List ChildInput)
    → Quiet (insert_children now parent children)
unfolding insert_children
insert_children-Quiet now parent [] = search quiet
insert_children-Quiet now parent (c ∷ cs) = >>-IsBlind _ _ _ (insert_task-Quiet _) (
    >>=-IsBlind _ _ _ (get_task-Quiet c.id)
      λ t. >>=-IsBlind _ _ _ (insert_children-Quiet now parent cs) λ ts. pure-IsBlind _ _)

pub split_body-Quiet :
    (now : ℕ) (parent : TaskRow) (input : SplitInput) → Quiet (split_body now parent input)
unfolding split_body
split_body-Quiet now parent input =
    search (quiet, get_session-Quiet, insert_children-Quiet) depth 20 fits 5000

write_update-Quiet :
    (now id : ℕ) (current : Task) (input : UpdateInput) (actor : MutationActor) (cs : List String)
    → Quiet (write_update now id current input actor cs)
unfolding write_update
write_update-Quiet now id current input actor [] = search quiet
write_update-Quiet now id current input actor (c ∷ cs) = search quiet depth 20

pub update_body-Quiet :
    (now id : ℕ) (input : UpdateInput) (actor : MutationActor)
    → Quiet (update_body now id input actor)
unfolding update_body
update_body-Quiet now id input actor = >>=-IsBlind _ _ _ (get_task-Quiet id) λ t.
    >>-IsBlind _ _ _ (throw_if-IsBlind _ _ _) (
      >>-IsBlind _ _ _ (IsReader-IsBlind _ _ (check_status-IsReader t.row input.status))
        (write_update-Quiet now id t input actor (updates input)))

get_todo-Quiet : (id : ℕ) → Quiet (get_todo id)
unfolding get_todo
get_todo-Quiet id = search quiet

insert_todo-Quiet : (row : TodoRow) → Quiet (insert_todo row)
unfolding insert_todo
insert_todo-Quiet row = search quiet

pub create_todo_body-Quiet :
    (now p id t : ℕ) (input : TodoInput) (actor : MutationActor)
    → Quiet (create_todo_body now p id t input actor)
unfolding create_todo_body
create_todo_body-Quiet now p id t input actor =
    search (quiet, insert_todo-Quiet, get_todo-Quiet) depth 20 fits 5000

pub update_todo_body-Quiet :
    (now p id : ℕ) (input : TodoUpdate) (actor : MutationActor)
    → Quiet (update_todo_body now p id input actor)
unfolding update_todo_body
update_todo_body-Quiet now p id input actor = search (quiet, get_todo-Quiet) depth 20 fits 5000

pub handoff_body-Quiet :
    (now id p : ℕ) (owner : SessionRow) (input : HandoffInput) (drawn : Drawn)
    → Quiet (handoff_body now id p owner input drawn)
unfolding handoff_body
handoff_body-Quiet now id p owner input drawn = search quiet depth 20 fits 5000

insert_finding-Quiet : (row : FindingRow) → Quiet (insert_finding row)
unfolding insert_finding
insert_finding-Quiet row = search quiet

get_finding-Quiet : (id : ℕ) → Quiet (get_finding id)
unfolding get_finding
get_finding-Quiet id = search quiet

pub create_finding_body-Quiet :
    (now id review_id : ℕ) (input : FindingInput)
    → Quiet (create_finding_body now id review_id input)
unfolding create_finding_body
create_finding_body-Quiet now id review_id input =
    >>=-IsBlind _ _ _ (IsReader-IsBlind _ _ (get_review-IsReader review_id)) λ current.
      >>=-IsBlind _ _ _ (IsReader-IsBlind _ _ (reviewer-IsReader current.row input.session_id))
        λ session.
          >>-IsBlind _ _ _ (IsReader-IsBlind _ _ (latest-IsReader current.row _))
            (search (quiet, insert_finding-Quiet, get_finding-Quiet) depth 20 fits 5000)

role-Quiet : (s : SessionRow) (r : ReviewRow) (c : Bool) → Quiet (assert_resolution_role s r c)
unfolding assert_resolution_role
role-Quiet s r true = search quiet
role-Quiet s r false = search quiet

pub resolve_body-Quiet :
    (now id review_id : ℕ) (input : ResolveInput) → Quiet (resolve_body now id review_id input)
unfolding resolve_body
resolve_body-Quiet now id review_id input =
    >>=-IsBlind _ _ _ (IsReader-IsBlind _ _ (get_review-IsReader review_id)) λ current.
      >>=-IsBlind _ _ _
        (IsReader-IsBlind _ _ (session_in_project-IsReader input.session_id current.project_id))
        λ session.
          >>-IsBlind _ _ _ (IsReader-IsBlind _ _ (latest-IsReader current.row _))
            (search (quiet, role-Quiet, get_finding-Quiet) depth 20 fits 5000)
