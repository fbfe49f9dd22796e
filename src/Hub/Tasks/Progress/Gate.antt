-- ===== src/Hub/Tasks/Progress/Gate.antt =====
-- apps/hub/src/services/store/tasks.ts, assertTaskCompletionGate: which tasks may be completed, and
-- how it agrees with recomputeProgress.
use mathlib.Core.Option
use ayanami_agent_hub.Base.Table.{find, find-update}
use ayanami_agent_hub.Base.{
  ℕ, ◌<◌, ◌≡◌, refl, ◌↔◌, ◌⊎◌, inl, inr, Bool, true, false, List, [], ◌∷◌, some, ◌||◌, not, keep,
  map, every, All, arith, Option-cases, ap, ◌∙◌,
}
use ayanami_agent_hub.Protocol.Progress.{sum_from, has_blocking, is_done, is_skipped}
use ayanami_agent_hub.Protocol.Progress.Laws.{progress_complete}
use ayanami_agent_hub.Hub.Rows.{TaskRow, TodoRow, ReviewRow, FindingRow, ReviewStatus, approved}
use ayanami_agent_hub.Hub.Context.{Hub, Store, ok, monad}
use ayanami_agent_hub.Hub.Tasks.{Response, task_key, get_task, list_todos, latest_review}
use ayanami_agent_hub.Hub.Tasks.Progress.{
  is_approved, findings_of, todo_weight, finding_state, progress_in, is_incomplete, is_nonempty,
  is_blocking, review_gate, assert_task_completion_gate, set_progress, recompute_progress,
}

abbrev pub reviewed_findings : Store Response → ReviewRow → List FindingRow
reviewed_findings s r = keep is_blocking (findings_of (some r) s.review_findings)

-- The review is the task's latest, it is APPROVED, and none of its blocking findings is open.
abbrev pub IsReviewed : Store Response → ℕ → Type 0
IsReviewed s task_id =
    (r : ReviewRow) × (latest_review task_id s.reviews ≡ some r)
    × (r.status ≡ approved)
    × (All (λ f. is_blocking f ≡ false) (findings_of (some r) s.review_findings))

-- Every item of the checklist is DONE or SKIPPED, and a review that is required has been passed.
abbrev pub IsComplete : Store Response → TaskRow → Type 0
IsComplete s task =
    (All (λ t. is_incomplete t ≡ false) (list_todos task.id s.todo_items))
    × ((task.review_required ≡ false) ⊎ IsReviewed s task.id)

module _ {ℓ} {A : Type ℓ} (p : A → Bool) where
  pub keep-none : (xs : List A) → is_nonempty (keep p xs) ≡ false → All (λ x. p x ≡ false) xs
  keep-none [] h = tt
  keep-none (x ∷ xs) h = ground (arith, keep-none xs)

  none-keep : (xs : List A) → All (λ x. p x ≡ false) xs → is_nonempty (keep p xs) ≡ false
  none-keep [] h = refl
  none-keep (x ∷ xs) h = ground (arith, none-keep xs)

is_approved-eq : (s : ReviewStatus) → is_approved s ≡ true → s ≡ approved
is_approved-eq s h = ground arith

module _ (h : Hub Response) where
  review_gate-IsReviewed :
      (required : Bool) (task_id : ℕ)
      → review_gate required task_id h ≡ (ok tt, h)
      → (required ≡ false) ⊎ IsReviewed h.store task_id
  unfolding review_gate monad
  review_gate-IsReviewed false task_id e = inl refl
  review_gate-IsReviewed true task_id e =
      elim (Option-cases (latest_review task_id h.store.reviews)) [
        | inl missing ↦ absurd (ground arith)
        | inr (r, found) ↦ inr (
          r,
          found,
          ground (arith, is_approved-eq r.status),
          keep-none is_blocking (findings_of (some r) h.store.review_findings) (ground arith),
        )
      ]

  IsReviewed-review_gate :
      (required : Bool) (task_id : ℕ)
      → (required ≡ false) ⊎ IsReviewed h.store task_id
      → review_gate required task_id h ≡ (ok tt, h)
  unfolding review_gate monad
  IsReviewed-review_gate false task_id e = refl
  IsReviewed-review_gate true task_id (inl e) = cc
  IsReviewed-review_gate true task_id (inr (r, found, passed, clear)) =
      ground (arith, none-keep is_blocking (findings_of (some r) h.store.review_findings) clear)

  -- The completion gate lets a task pass exactly when every item of its checklist is DONE or SKIPPED
  -- and, if the task requires a review, its latest review is APPROVED and has no open blocking
  -- finding.
  pub completion_gate_iff :
      (task : TaskRow) → (assert_task_completion_gate task h ≡ (ok tt, h)) ↔ IsComplete h.store task
  unfolding assert_task_completion_gate monad
  completion_gate_iff task =
      let todos = list_todos task.id h.store.todo_items in
      (
        λ e. (
          keep-none is_incomplete todos (ground arith),
          review_gate-IsReviewed task.review_required task.id (ground arith),
        ),
        λ c. ground (
          arith,
          none-keep is_incomplete todos (c.0),
          IsReviewed-review_gate task.review_required task.id (c.1),
        ),
      )

every-settled :
    (todos : List TodoRow)
    → All (λ t. is_incomplete t ≡ false) todos
    → every (λ t. is_done t.status || is_skipped t.status) (map todo_weight todos) ≡ true
every-settled [] h = refl
every-settled (t ∷ ts) h = ground (arith, every-settled ts)

not-blocking :
    (fs : List FindingRow)
    → All (λ f. is_blocking f ≡ false) fs
    → has_blocking (map finding_state fs) ≡ false
unfolding has_blocking
not-blocking [] h = refl
not-blocking (f ∷ fs) h = ground (arith, not-blocking fs)

-- What counts of a checklist: the weight of what is not SKIPPED.
abbrev pub counted : List TodoRow → ℕ
counted todos = sum_from 0 (keep (λ t. not (is_skipped t.status)) (map todo_weight todos))

complete-progress :
    (s : Store Response) (task : TaskRow)
    → task.review_required ≡ true
    → IsComplete s task
    → 0 < counted (list_todos task.id s.todo_items)
    → progress_in task s ≡ 1000
unfolding progress_in
complete-progress s task required (all, inl e) weighty = cc
complete-progress s task required (all, inr (r, found, passed, clear)) weighty =
    let todos = map todo_weight (list_todos task.id s.todo_items) in
    rw found (
      progress_complete todos task.review_required (is_approved r.status)
        (map finding_state (findings_of (some r) s.review_findings)) (every-settled _ all) weighty
        (inr (ground arith)) (not-blocking _ clear))

-- Where a task that requires a review passes the completion gate and its checklist has weight,
-- recomputing its progress stores 100 % in its row, and nothing else of the row changes but its time.
pub completion_gate-recompute_progress :
    (now task_id : ℕ) (h : Hub Response) (task : TaskRow)
    → find task_key task_id h.store.tasks ≡ some task
    → task.review_required ≡ true
    → assert_task_completion_gate task h ≡ (ok tt, h)
    → 0 < counted (list_todos task.id h.store.todo_items)
    → let after = recompute_progress now task_id h in
      (after.0 ≡ ok 1000)
      × (find task_key task_id after.1.store.tasks ≡ some (set_progress now 1000 task))
unfolding recompute_progress get_task monad
completion_gate-recompute_progress now task_id h task found required passed weighty =
    let progress =
      complete-progress h.store task required ((completion_gate_iff h task).0 passed) weighty in
    let stored = find-update task_key (set_progress now 1000) (λ r. refl) task_id h.store.tasks in
    rw found (rw progress (refl, stored ∙ ap (Option.map (set_progress now 1000)) found))
