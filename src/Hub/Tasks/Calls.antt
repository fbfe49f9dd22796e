-- ===== src/Hub/Tasks/Calls.antt =====
-- apps/hub/src/services/store/tasks.ts: the calls that concern a task alone, as data.
use ayanami_agent_hub.Base.{ℕ, String}
use ayanami_agent_hub.Hub.Context.{Action, mutate, no_options}
use ayanami_agent_hub.Hub.Context.Readers.{
  IsReader, select-IsReader, or_throw-IsReader, >>=-IsReader, lead-Keeps, Keeps,
}
use ayanami_agent_hub.Hub.Context.Orderly.{IsOrderly, pure-IsOrderly}
use ayanami_agent_hub.Hub.Context.Atomic.{IsConsistent, mutate-IsConsistent}
use ayanami_agent_hub.Hub.Tasks.{Response}
use ayanami_agent_hub.Hub.Tasks.Reads.{get_task-IsReader}
use ayanami_agent_hub.Hub.Tasks.Ownership.{ClaimInput, ReleaseInput, claim_task, release_task}
use ayanami_agent_hub.Hub.Tasks.Ownership.Orderly.{claim_body-IsOrderly, release_body-IsOrderly}
use ayanami_agent_hub.Hub.MutationAuthority.{MutationActor, with_fingerprint}
use ayanami_agent_hub.Hub.Tasks.Creation.{CreateInput, create_task}
use ayanami_agent_hub.Hub.Tasks.Split.{SplitInput, split_task}
use ayanami_agent_hub.Hub.Tasks.Update.{UpdateInput, update_task}
use ayanami_agent_hub.Hub.Tasks.Todos.{TodoInput, TodoUpdate, get_todo, create_todo, update_todo}
use ayanami_agent_hub.Hub.Tasks.Orderly.{
  create_body-IsOrderly, split_body-IsOrderly, update_body-IsOrderly, create_todo_body-IsOrderly,
  update_todo_body-IsOrderly,
}

-- A call, with the time, the identifiers and the fingerprint that it computes.
pub data Call : Type 0 where
  claim : ℕ → ℕ → ClaimInput → Call
  release : ℕ → ℕ → ReleaseInput → Call
  create : ℕ → ℕ → ℕ → CreateInput → MutationActor → String → Call
  split : ℕ → ℕ → SplitInput → Call
  change : ℕ → ℕ → UpdateInput → MutationActor → String → Call
  add_todo : ℕ → ℕ → ℕ → TodoInput → MutationActor → String → Call
  change_todo : ℕ → ℕ → TodoUpdate → MutationActor → String → Call

unfoldable pub run : Call → Action Response Response
run (claim now task_id input) = claim_task now task_id input
run (release now task_id input) = release_task now task_id input
run (create now project_id id input actor fingerprint) =
    create_task now project_id id input actor fingerprint
run (split now task_id input) = split_task now task_id input
run (change now task_id input actor fingerprint) = update_task now task_id input actor fingerprint
run (add_todo now id task_id input actor fingerprint) =
    create_todo now id task_id input actor fingerprint
run (change_todo now todo_id input actor fingerprint) =
    update_todo now todo_id input actor fingerprint

-- An action that keeps the hub consistent.
abbrev pub Safe : Action Response Response → Type 0
Safe = Keeps IsConsistent

mutate_plain-Safe :
    (now project_id : ℕ) (key operation : String) (action : Action Response Response)
    → IsOrderly action
    → Safe (mutate now project_id key operation action no_options)
mutate_plain-Safe now project_id key operation action o h c =
    mutate-IsConsistent now project_id key operation action no_options o (λ r. pure-IsOrderly tt) h
      c

mutate_fingerprint-Safe :
    (now project_id : ℕ) (key operation fingerprint : String) (action : Action Response Response)
    → IsOrderly action
    → Safe (mutate now project_id key operation action (with_fingerprint fingerprint))
mutate_fingerprint-Safe now project_id key operation fingerprint action o h c =
    mutate-IsConsistent now project_id key operation action (with_fingerprint fingerprint) o
      (λ r. pure-IsOrderly tt) h c

pub get_todo-IsReader : (id : ℕ) → IsReader (get_todo id)
unfolding get_todo
get_todo-IsReader id = >>=-IsReader _ _ (select-IsReader _) λ o. or_throw-IsReader _ _

pub run-Safe : (c : Call) → Safe (run c)
unfolding run claim_task release_task create_task split_task update_task create_todo update_todo
run-Safe (claim now task_id input) =
    lead-Keeps IsConsistent _ _ (get_task-IsReader task_id)
      λ t. mutate_plain-Safe now _ _ _ _ (claim_body-IsOrderly now task_id input)
run-Safe (release now task_id input) =
    lead-Keeps IsConsistent _ _ (get_task-IsReader task_id)
      λ t. mutate_plain-Safe now _ _ _ _ (release_body-IsOrderly now task_id input)
run-Safe (create now project_id id input actor fingerprint) =
    mutate_fingerprint-Safe now project_id _ _ fingerprint _
      (create_body-IsOrderly now project_id id input actor)
run-Safe (split now task_id input) =
    lead-Keeps IsConsistent _ _ (get_task-IsReader task_id)
      λ t. mutate_plain-Safe now _ _ _ _ (split_body-IsOrderly now t.row input)
run-Safe (change now task_id input actor fingerprint) =
    lead-Keeps IsConsistent _ _ (get_task-IsReader task_id) λ t.
      mutate_fingerprint-Safe now _ _ _ fingerprint _
        (update_body-IsOrderly now task_id input actor)
run-Safe (add_todo now id task_id input actor fingerprint) =
    lead-Keeps IsConsistent _ _ (get_task-IsReader task_id) λ t.
      mutate_fingerprint-Safe now _ _ _ fingerprint _
        (create_todo_body-IsOrderly now t.project_id id task_id input actor)
run-Safe (change_todo now todo_id input actor fingerprint) =
    lead-Keeps IsConsistent _ _ (get_todo-IsReader todo_id) λ row.
      lead-Keeps IsConsistent _ _ (select-IsReader _) λ joined.
        lead-Keeps IsConsistent _ _ (or_throw-IsReader joined _) λ task.
          mutate_fingerprint-Safe now _ _ _ fingerprint _
            (update_todo_body-IsOrderly now task.project_id todo_id input actor)
