-- ===== src/Hub/Tasks/Update/Laws.antt =====
-- apps/hub/src/services/store/tasks.ts, updateTask: when an update succeeds, and what it changes.
use mathlib.Core.Path.{ap₂}
use mathlib.Core.Option
use mathlib.Core.Option.{some-injective}
use ayanami_agent_hub.Base.{
  ℕ, ◌+◌, or_else, ◌≡◌, ◌≢◌, refl, sym, ap, subst, ◌∙◌, ◌⊎◌, inl, inr, Bool, true, false, String,
  List, [], ◌∷◌, Option, none, some, arith,
}
use ayanami_agent_hub.Base.Table.{find, find-update, find-update_ne}
use ayanami_agent_hub.Protocol.Task.{TaskStatus, done, can_transition}
use ayanami_agent_hub.Hub.Rows.{TaskRow, TaskDependency}
use ayanami_agent_hub.Hub.Context.{Store, Hub, ok}
use ayanami_agent_hub.Hub.Context.Steps.{throw_if-then, modify-then, emit-then, pure-then}
use ayanami_agent_hub.Hub.Context.Readers.{
  IsReader, pure-IsReader, select-IsReader, throw_if-IsReader, >>=-IsReader, read-then,
}
use ayanami_agent_hub.Hub.Tasks.{Response, is_done, task_response, task_key, dependencies_for_task}
use ayanami_agent_hub.Hub.Tasks.Reads.{task_at, get_task-then}
use ayanami_agent_hub.Hub.MutationAuthority.{MutationActor}
use ayanami_agent_hub.Hub.Tasks.Progress.{assert_task_completion_gate, review_gate}
use ayanami_agent_hub.Hub.Tasks.Progress.Gate.{IsComplete, completion_gate_iff}
use ayanami_agent_hub.Hub.Tasks.Update.{
  UpdateInput, updates, update_row, gate_if, check_status, write_update, update_body,
}

review_gate-IsReader : (required : Bool) (task_id : ℕ) → IsReader (review_gate required task_id)
unfolding review_gate
review_gate-IsReader false task_id = pure-IsReader tt
review_gate-IsReader true task_id = >>=-IsReader _ _ (select-IsReader _) λ review.
    >>=-IsReader _ _ (throw_if-IsReader _ _)
      λ _. >>=-IsReader _ _ (select-IsReader _) λ blocking. throw_if-IsReader _ _

gate-IsReader : (task : TaskRow) → IsReader (assert_task_completion_gate task)
unfolding assert_task_completion_gate
gate-IsReader task = >>=-IsReader _ _ (select-IsReader _) λ todos.
    >>=-IsReader _ _ (throw_if-IsReader _ _) λ _. review_gate-IsReader task.review_required task.id

gate_if-IsReader : (c : Bool) (current : TaskRow) → IsReader (gate_if c current)
unfolding gate_if
gate_if-IsReader true current = gate-IsReader current
gate_if-IsReader false current = pure-IsReader tt

pub check_status-IsReader :
    (current : TaskRow) (o : Option TaskStatus) → IsReader (check_status current o)
unfolding check_status
check_status-IsReader current none = pure-IsReader tt
check_status-IsReader current (some status) =
    >>=-IsReader _ _ (throw_if-IsReader _ _) λ _. gate_if-IsReader (is_done status) current

-- A new status is one that TASK_TRANSITIONS allows; DONE is left to complete tasks.
abbrev pub Allows : Store Response → TaskRow → Option TaskStatus → Type 0
Allows s row o =
    (status : TaskStatus)
    → o ≡ some status
    → (can_transition row.status status ≡ true) × (status ≡ done → IsComplete s row)

gate_if-IsComplete :
    (h : Hub Response) (c : Bool) (row : TaskRow)
    → gate_if c row h ≡ (ok tt, h)
    → c ≡ true
    → IsComplete h.store row
unfolding gate_if
gate_if-IsComplete h true row e p = (completion_gate_iff h row).0 e
gate_if-IsComplete h false row e p = cc

check_status-Allows :
    (h : Hub Response) (row : TaskRow) (o : Option TaskStatus)
    → check_status row o h ≡ (ok tt, h)
    → Allows h.store row o
unfolding check_status
check_status-Allows h row none e status p = cc
check_status-Allows h row (some s) e status p =
    let same = some-injective s status p in
    throw_if-then h _ _ _ e λ moves e.
      subst (λ t. (can_transition row.status t ≡ true) × (t ≡ done → IsComplete h.store row)) same
        (ground arith, λ q. gate_if-IsComplete h (is_done s) row e (ap is_done q))

-- What an update with an assignment leaves: the row with the fields of the request at the next
-- version, and every other task as it was.
abbrev pub IsUpdated : Store Response → Store Response → ℕ → ℕ → UpdateInput → TaskRow → Type 0
IsUpdated s s' now task_id input row =
    (find task_key task_id s'.tasks
      ≡ some (record row {
        status = or_else input.status row.status;
        details = record row.details {
          title = or_else input.title row.details.title;
          description = or_else input.description row.details.description;
          blocked_reason = or_else input.blocked_reason row.details.blocked_reason;
          waiting_for = or_else input.waiting_for row.details.waiting_for;
          self_reported_summary =
              or_else input.self_reported_summary row.details.self_reported_summary;
          agent_estimate = or_else input.agent_estimate row.details.agent_estimate;
          reviewer_agent_id = or_else input.reviewer_agent_id row.details.reviewer_agent_id;
          scope_globs = or_else input.scope_globs row.details.scope_globs;
          capability_tags = or_else input.capability_tags row.details.capability_tags;
        };
        version = row.version + 1;
        updated_at = now;
      }))
    × ((j : ℕ) → task_id ≢ j → find task_key j s'.tasks ≡ find task_key j s.tasks)

abbrev pub Written :
    ℕ → ℕ → UpdateInput → TaskRow → List String → Hub Response → Hub Response → Response → Type 0
Written now task_id input row columns h h' r =
    ((columns ≡ []) × (h' ≡ h) × (r ≡ task_response (task_at h.store task_id row)))
    ⊎ ((columns ≢ [])
        × IsUpdated h.store h'.store now task_id input row
        × (r ≡ task_response (task_at h.store task_id (update_row now input row))))

module _ (now task_id : ℕ) (input : UpdateInput) (actor : MutationActor) (h h' : Hub Response)
    (r : Response) where
  write_update-Written :
      (row : TaskRow) (columns : List String)
      → find task_key task_id h.store.tasks ≡ some row
      → write_update now task_id (task_at h.store task_id row) input actor columns h ≡ (ok r, h')
      → Written now task_id input row columns h h' r
  unfolding write_update
  write_update-Written row [] found e =
      let (answer, end) = pure-then h _ e in inl (refl, sym end, sym answer)
  write_update-Written row (c ∷ cs) found e = modify-then h _ _ e λ e.
      emit-then _ now _ _ e λ event h₁ kept same_draft e.
        get_task-then h₁ task_id _ e λ row' found' e.
          let (answer, end) = pure-then h₁ _ e in
          let tasks = ap (λ (s : Store Response). s.tasks) kept in
          let there = ap (λ (k : Hub Response). k.store.tasks) (sym end) ∙ tasks in
          let stored =
            find-update task_key (update_row now input) (λ r. refl) task_id h.store.tasks
            ∙ ap (Option.map (update_row now input)) found in
          inr (
            (λ (p : c ∷ cs ≡ []). cc),
            (
              ap (find task_key task_id) there ∙ stored,
              λ j ne.
                  ap (find task_key j) there
                  ∙ find-update_ne task_key (update_row now input) (λ r. refl) task_id j
                      h.store.tasks ne,
            ),
            sym answer
                ∙ ap₂
                    (λ (t : TaskRow) (ds : List TaskDependency).
                      task_response
                        (record { row = t; depends_on = dependencies_for_task task_id ds }))
                    (some-injective row' (update_row now input row)
                      (sym found' ∙ ap (find task_key task_id) tasks ∙ stored))
                    (ap (λ (s : Store Response). s.task_dependencies) kept),
          )

  -- An update that succeeds names the version of the task; a status that it names is allowed from
  -- the current one, and if that is DONE, the checklist is done and a required review passed. Without
  -- a field to change it changes nothing and the answer is the task; with one, and only then, the task
  -- has the new fields at the next version, no other task has changed, and the answer is the task as it
  -- then stands.
  pub update_body_lem :
      update_body now task_id input actor h ≡ (ok r, h')
      → (row : TaskRow) × (find task_key task_id h.store.tasks ≡ some row)
        × (row.version ≡ input.expected_version)
        × Allows h.store row input.status
        × Written now task_id input row (updates input) h h' r
  unfolding update_body
  update_body_lem e = get_task-then h task_id _ e λ row found e.
      throw_if-then h _ _ _ e λ unchanged e.
        read-then h _ _ (check_status-IsReader row input.status) e λ _ checked e. (
          row,
          found,
          ground arith,
          check_status-Allows h row input.status checked,
          write_update-Written row (updates input) found e,
        )
