-- ===== src/Hub/Tasks/Progress.antt =====
-- apps/hub/src/services/store/tasks.ts, recomputeProgress and assertTaskCompletionGate: what the
-- checklist and the latest review of a task mean for it.
pub mod Gate
use ayanami_agent_hub.Base.{
  ℕ, Bool, true, false, List, [], ◌∷◌, Option, none, some, ◌&&◌, not, keep, map, ◌==◌,
}
use ayanami_agent_hub.Base.Table.{update}
use ayanami_agent_hub.Protocol.Progress.{
  TodoStatus, TodoWeight, FindingState, is_settled, compute_task_progress,
}
use ayanami_agent_hub.Protocol.Progress
use ayanami_agent_hub.Hub.Rows.{TaskRow, TodoRow, ReviewRow, FindingRow, ReviewStatus, approved}
use ayanami_agent_hub.Hub.Context.{
  Action, Store, conflict, modify, select, throw_if, pure, ◌>>=◌, ◌>>◌,
}
use ayanami_agent_hub.Hub.Tasks.{Task, Response, task_key, get_task, list_todos, latest_review}

abbrev pub is_approved : ReviewStatus → Bool
is_approved approved = true
is_approved _ = false

-- `latestReview?.status === "APPROVED"`
abbrev pub review_approved : Option ReviewRow → Bool
review_approved none = false
review_approved (some r) = is_approved r.status

-- SELECT * FROM review_findings WHERE review_id = ?
abbrev pub findings_of : Option ReviewRow → List FindingRow → List FindingRow
findings_of none fs = []
findings_of (some r) fs = keep (λ f. f.review_id == r.id) fs

abbrev pub todo_weight : TodoRow → TodoWeight
todo_weight t = record { status = t.status; weight = t.weight }

abbrev pub finding_state : FindingRow → FindingState
finding_state f = record { blocking = f.blocking; status = f.status }

-- The progress of a task, from the tables.
unfoldable pub progress_in : TaskRow → Store Response → ℕ
progress_in task s =
    let review = latest_review task.id s.reviews in
    compute_task_progress (map todo_weight (list_todos task.id s.todo_items)) task.review_required
      (review_approved review) (map finding_state (findings_of review s.review_findings))

abbrev pub set_progress : ℕ → ℕ → TaskRow → TaskRow
set_progress now progress t = record t { computed_progress = progress; updated_at = now }

unfoldable pub recompute_progress : ℕ → ℕ → Action Response ℕ
recompute_progress now task_id = do
  task ← get_task task_id
  progress ← select (progress_in task.row)
  modify λ s. record s { tasks = update task_key task_id (set_progress now progress) s.tasks }
  pure progress

-- `status !== "DONE" && status !== "SKIPPED"`
abbrev pub is_incomplete : TodoRow → Bool
is_incomplete t = not (Progress.is_done t.status) && not (Progress.is_skipped t.status)

abbrev pub is_nonempty {ℓ} : {A : Type ℓ} → List A → Bool
is_nonempty [] = false
is_nonempty (x ∷ xs) = true

-- `blocking = 1 AND status NOT IN ('VERIFIED', 'WONT_FIX')`
abbrev pub is_blocking : FindingRow → Bool
is_blocking f = f.blocking && not (is_settled f.status)

-- What is asked of a task that requires a review.
unfoldable pub review_gate : Bool → ℕ → Action Response (Unit {0})
review_gate false task_id = pure tt
review_gate true task_id = do
  review ← select (λ s. latest_review task_id s.reviews)
  throw_if (not (review_approved review)) (conflict "Task requires an approved review")
  blocking ← select (λ s. keep is_blocking (findings_of review s.review_findings))
  throw_if (is_nonempty blocking) (conflict "Task has unresolved blocking review findings")

unfoldable pub assert_task_completion_gate : TaskRow → Action Response (Unit {0})
unfolding review_gate
assert_task_completion_gate task = do
  todos ← select (λ s. list_todos task.id s.todo_items)
  throw_if (is_nonempty (keep is_incomplete todos)) (conflict "Task has incomplete TODO items")
  review_gate task.review_required task.id
