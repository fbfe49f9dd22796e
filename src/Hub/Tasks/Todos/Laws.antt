-- ===== src/Hub/Tasks/Todos/Laws.antt =====
-- apps/hub/src/services/store/tasks.ts, createTodo and updateTodo: what they leave, and that the
-- progress of the task follows the checklist.
use mathlib.Core.Option
use mathlib.Core.Option.{some-injective}
use ayanami_agent_hub.Base.{
  ℕ, ◌+◌, or_else, if◌then◌else◌, ◌≢◌, String, ◌≡◌, refl, sym, ap, subst, ◌∙◌, inl, inr, true,
  false, List, [], ◌∷◌, ◌++◌, none, some, not, arith, ◌==◌, ◌&&◌, Option-cases,
}
use ayanami_agent_hub.Base.Table.{find, update, find-update, find-append_new}
use ayanami_agent_hub.Protocol.Progress.{is_done, done}
use ayanami_agent_hub.Hub.Rows.{TaskRow, TodoRow}
use ayanami_agent_hub.Hub.Context.{Store, Hub, Action, ok, monad, ◌>>=◌, ◌>>◌}
use ayanami_agent_hub.Hub.Context.Steps.{
  throw_if-then, modify-then, emit-then, pure-then, SameTables,
}
use ayanami_agent_hub.Hub.Tasks.{Response, todo_response, task_key, todo_key, get_task}
use ayanami_agent_hub.Hub.Tasks.Progress.{
  progress_in, set_progress, recompute_progress, is_nonempty,
}
use ayanami_agent_hub.Hub.MutationAuthority.{MutationActor}
use ayanami_agent_hub.Hub.Tasks.Todos.{
  TodoInput, TodoUpdate, new_todo, get_todo, insert_todo, create_todo_body, evidence_of,
  update_todo_row, update_todo_body,
}

-- The task is there, and its stored progress is what its checklist and its latest review give.
abbrev pub IsCurrent : Store Response → ℕ → Type 0
IsCurrent s task_id =
    (task : TaskRow) × (find task_key task_id s.tasks ≡ some task)
    × (task.computed_progress ≡ progress_in task s)

-- The tables after recomputeProgress.
abbrev pub with_progress : ℕ → ℕ → ℕ → Hub Response → Hub Response
with_progress now task_id progress h = record h {
  store = record h.store {
    tasks = update task_key task_id (set_progress now progress) h.store.tasks;
  };
}

abbrev with_todos : List TodoRow → Hub Response → Hub Response
with_todos todos h = record h { store = record h.store { todo_items = todos } }

with_progress-IsCurrent :
    (now task_id : ℕ) (h : Hub Response) (row : TaskRow)
    → find task_key task_id h.store.tasks ≡ some row
    → IsCurrent (with_progress now task_id (progress_in row h.store) h).store task_id
unfolding progress_in
with_progress-IsCurrent now task_id h row found =
    let p = progress_in row h.store in
    (
      set_progress now p row,
      find-update task_key (set_progress now p) (λ r. refl) task_id h.store.tasks
          ∙ ap (Option.map (set_progress now p)) found,
      refl,
    )

-- What a table gains by an event has no part in it.
IsCurrent-same :
    (s s' : Store Response) (task_id : ℕ)
    → SameTables s s'
    → IsCurrent s task_id
    → IsCurrent s' task_id
unfolding progress_in
IsCurrent-same s s' task_id kept (task, found, agrees) =
    subst (λ (u : Store Response). IsCurrent u task_id) (sym kept) (task, found, agrees)

module _ {B P : Type 0} {b : B} (h : Hub Response) {h' : Hub Response} where
  pub recompute_progress-then :
      (now task_id : ℕ) (m : Action Response B)
      → (recompute_progress now task_id >> m) h ≡ (ok b, h')
      → ((row : TaskRow)
          → find task_key task_id h.store.tasks ≡ some row
          → m (with_progress now task_id (progress_in row h.store) h) ≡ (ok b, h')
          → P)
      → P
  unfolding recompute_progress get_task monad
  recompute_progress-then now task_id m e k =
      elim (Option-cases (find task_key task_id h.store.tasks)) [
        | inl missing ↦ absurd (ground arith)
        | inr (row, found) ↦ k row found (ground arith)
      ]

  get_todo-then :
      (id : ℕ) (f : TodoRow → Action Response B)
      → (get_todo id >>= f) h ≡ (ok b, h')
      → ((row : TodoRow)
          → find todo_key id h.store.todo_items ≡ some row
          → f row h ≡ (ok b, h')
          → P)
      → P
  unfolding get_todo monad
  get_todo-then id f e k = elim (Option-cases (find todo_key id h.store.todo_items)) [
    | inl missing ↦ absurd (ground arith)
    | inr (row, found) ↦ k row found (ground arith)
  ]

module _ {B P : Type 0} {b : B} (h : Hub Response) {h' : Hub Response} where
  insert_todo-then :
      (row : TodoRow) (m : Action Response B)
      → (insert_todo row >> m) h ≡ (ok b, h')
      → (find todo_key row.id h.store.todo_items ≡ none
          → m (with_todos (h.store.todo_items ++ row ∷ []) h) ≡ (ok b, h')
          → P)
      → P
  unfolding insert_todo monad
  insert_todo-then row m e k = elim (Option-cases (find todo_key row.id h.store.todo_items)) [
    | inl free ↦ k free (ground arith)
    | inr (r, taken) ↦ absurd (ground arith)
  ]

-- An item is added only under an identifier that no item has. It is TODO, at version 0 and the
-- answer; and the stored progress of its task is what the longer checklist gives.
pub create_todo_body_lem :
    (now project_id id task_id : ℕ) (input : TodoInput) (actor : MutationActor)
    (h h' : Hub Response) (r : Response)
    → create_todo_body now project_id id task_id input actor h ≡ (ok r, h')
    → (find todo_key id h.store.todo_items ≡ none)
      × (find todo_key id h'.store.todo_items ≡ some (new_todo now id task_id input))
      × (r ≡ todo_response (new_todo now id task_id input))
      × IsCurrent h'.store task_id
unfolding create_todo_body
create_todo_body_lem now project_id id task_id input actor h h' r e =
    let new = new_todo now id task_id input in
    insert_todo-then h new _ e λ free e. recompute_progress-then _ now task_id _ e λ task known e.
      emit-then _ now _ _ e λ event h₁ kept same_draft e. get_todo-then h₁ id _ e λ t' found' e.
        let (answer, end) = pure-then h₁ _ e in
        let stored =
          ap (find todo_key id) (ap (λ (s : Store Response). s.todo_items) kept)
          ∙ find-append_new todo_key h.store.todo_items new free in
        (
          free,
          ap (λ (k : Hub Response). find todo_key id k.store.todo_items) (sym end) ∙ stored,
          sym answer ∙ ap todo_response (some-injective t' new (sym found' ∙ stored)),
          subst (λ (k : Hub Response). IsCurrent k.store task_id) end
              (IsCurrent-same _ h₁.store task_id kept (
                with_progress-IsCurrent now task_id (with_todos (h.store.todo_items ++ new ∷ []) h)
                  task known)),
        )

-- The item may change so: the version is current, and DONE has the evidence that the item asks for.
abbrev pub MayChange : TodoUpdate → TodoRow → Type 0
MayChange input t =
    (t.version ≡ input.expected_version)
    × (input.status ≡ done → t.evidence_required ≡ true → or_else input.evidence t.evidence ≢ [])

is_nonempty-ne : (xs : List String) → is_nonempty xs ≡ true → xs ≢ []
is_nonempty-ne xs h e = ground arith

evidence_checked :
    (input : TodoUpdate) (t : TodoRow)
    → not (t.version == input.expected_version) ≡ false
    → (is_done input.status && (t.evidence_required && not (is_nonempty (evidence_of input t))))
      ≡ false
    → MayChange input t
evidence_checked input t u v =
    (ground arith, λ p q. is_nonempty-ne (evidence_of input t) (ground (arith, ap is_done p)))

-- A change of a checklist item that succeeds names the version of the item, and brings evidence, or
-- finds it there, if it completes an item that asks for it. Then the item has the new status, the
-- evidence of the request or else the one it had, and the session that completed it, at the next
-- version, with the time of completion if it is DONE and none otherwise; it is the answer, and the stored progress of its task is what the
-- checklist and the latest review now give.
pub update_todo_body_lem :
    (now project_id todo_id : ℕ) (input : TodoUpdate) (actor : MutationActor) (h h' : Hub Response)
    (r : Response)
    → update_todo_body now project_id todo_id input actor h ≡ (ok r, h')
    → (t : TodoRow) × (find todo_key todo_id h.store.todo_items ≡ some t)
      × MayChange input t
      × (find todo_key todo_id h'.store.todo_items
          ≡ some (record t {
            status = input.status;
            evidence = or_else input.evidence t.evidence;
            completed_by_session_id = input.completed_by_session_id;
            completed_at = if is_done input.status then some now else none;
            version = t.version + 1;
            updated_at = now;
          }))
      × (r ≡ todo_response (update_todo_row now input (evidence_of input t) t))
      × IsCurrent h'.store t.task_id
unfolding update_todo_body
update_todo_body_lem now project_id todo_id input actor h h' r e =
    get_todo-then h todo_id _ e λ t found e. throw_if-then h _ _ _ e λ unchanged e.
      throw_if-then h _ _ _ e λ evident e. modify-then h _ _ e λ e.
        recompute_progress-then _ now t.task_id _ e λ task known e.
          emit-then _ now _ _ e λ event h₁ kept same_draft e.
            get_todo-then h₁ todo_id _ e λ t' found' e.
              let (answer, end) = pure-then h₁ _ e in
              let change = update_todo_row now input (evidence_of input t) in
              let stored =
                ap (find todo_key todo_id) (ap (λ (s : Store Response). s.todo_items) kept)
                ∙ find-update todo_key change (λ r. refl) todo_id h.store.todo_items
                ∙ ap (Option.map change) found in
              (
                t,
                found,
                evidence_checked input t unchanged evident,
                ap (λ (k : Hub Response). find todo_key todo_id k.store.todo_items) (sym end)
                    ∙ stored,
                sym answer ∙ ap todo_response (some-injective t' (change t) (sym found' ∙ stored)),
                subst (λ (k : Hub Response). IsCurrent k.store t.task_id) end
                    (IsCurrent-same _ h₁.store t.task_id kept (
                      with_progress-IsCurrent now t.task_id
                        (with_todos (update todo_key todo_id change h.store.todo_items) h) task
                        known)),
              )
