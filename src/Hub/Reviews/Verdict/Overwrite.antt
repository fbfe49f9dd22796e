-- ===== src/Hub/Reviews/Verdict/Overwrite.antt =====
-- apps/hub/src/services/store/reviews.ts, submitReviewVerdict with APPROVED: the progress that is
-- stored.

use mathlib.Core.Option.{some-injective}
use ayanami_agent_hub.Base.{
  ℕ, ◌+◌, ◌*◌, ◌/◌, min, max, ◌≡◌, refl, sym, ap, ◌∙◌, Bool, true, false, List, some, ◌⊎◌, inl, inr,
  keep, not, map, if◌then◌else◌,
}
use ayanami_agent_hub.Base.Table.{find}
use ayanami_agent_hub.Protocol.Task.{TaskStatus}
use ayanami_agent_hub.Protocol.Progress.{
  compute_task_progress, numerator, denominator, clamped, tenths, sum_from, has_blocking,
  TodoWeight, FindingState, is_skipped,
}
use ayanami_agent_hub.Hub.Rows.{TaskRow, ReviewRow}
use ayanami_agent_hub.Hub.Context.{Hub, Store, ok}
use ayanami_agent_hub.Hub.Tasks.{Response, task_key, list_todos}
use ayanami_agent_hub.Hub.Tasks.Progress.{progress_in, set_progress, todo_weight}
use ayanami_agent_hub.Hub.Tasks.Progress.Gate.{IsReviewed, counted}
use ayanami_agent_hub.Hub.Messages.{Drawn}
use ayanami_agent_hub.Hub.Reviews.{review_key}
use ayanami_agent_hub.Hub.Reviews.Verdict.{approve, VerdictInput, verdict_body}
use ayanami_agent_hub.Hub.Reviews.Verdict.Laws.{judged}
use ayanami_agent_hub.Hub.Reviews.Verdict.Approved.{IsApproved, approved_row}
use ayanami_agent_hub.Hub.Reviews.Verdict.Approval.{approval_lem}

-- Without weight there is nothing done, and 15 % for the review.
weightless-progress :
    (todos : List TodoWeight) (findings : List FindingState)
    → sum_from 0 (keep (λ t. not (is_skipped t.status)) todos) ≡ 0
    → compute_task_progress todos true true findings ≡ 150
unfolding compute_task_progress numerator denominator clamped tenths
weightless-progress todos findings bare = rw bare (weightless (has_blocking findings))
  where
    weightless :
        (blocking : Bool)
        → (20 * (let n' : ℕ = if blocking then min 15 (99 * 1) else 15 in max 0 (min (100 * 1) n'))
              + 1)
            / (2 * 1)
          ≡ 150
    weightless true = refl
    weightless false = refl

IsApproved-bare :
    (s s' : Store Response) (now review_id : ℕ) (input : VerdictInput) (row : ReviewRow)
    (task : TaskRow)
    → (a : IsApproved s s' now review_id input row task) → task.review_required ≡ true
    → counted (list_todos task.id s.todo_items) ≡ 0
    → a.progress ≡ 150
unfolding progress_in
IsApproved-bare s s' now review_id input row task a required bare = latest (a.complete.1)
  where
    latest :
        (task.review_required ≡ false)
          ⊎ IsReviewed (judged now review_id row.task_id input s) task.id
        → a.progress ≡ 150
    latest (inl e) = absurd (cc)
    latest (inr (last, found, passed, _)) =
        a.is_current
        ∙ rw a.reviews (
            rw found (
              rw a.todos (
                rw required (
                  rw passed (
                    weightless-progress (map todo_weight (list_todos task.id s.todo_items)) _
                      bare)))))

-- Where a task requires a review and nothing in its checklist has weight, as when the checklist is
-- empty, an approval stores `computed_progress = 100` and then overwrites it: the task is DONE, and
-- its stored progress is 15 %.
pub approval_overwrites_progress :
    (now review_id : ℕ) (input : VerdictInput) (drawn : Drawn) (h h' : Hub Response) (r : Response)
    (row : ReviewRow) (task : TaskRow)
    → input.verdict ≡ approve
    → verdict_body now review_id input drawn h ≡ (ok r, h')
    → find review_key review_id h.store.reviews ≡ some row
    → find task_key row.task_id h.store.tasks ≡ some task
    → task.review_required ≡ true
    → counted (list_todos task.id h.store.todo_items) ≡ 0
    → (after : TaskRow) × (find task_key row.task_id h'.store.tasks ≡ some after)
      × (after.status ≡ TaskStatus.done)
      × (after.computed_progress ≡ 150)
approval_overwrites_progress now review_id input drawn h h' r row task approval ran found there
      required bare =
    let (row', _, task', may, approved) =
      approval_lem now review_id input drawn h h' r approval ran in
    let same_row = some-injective row' row (sym may.found ∙ found) in
    let same : task' ≡ task = some-injective task' task (
      sym approved.found
      ∙ ap (λ (x : ReviewRow). find task_key x.task_id h.store.tasks) same_row
      ∙ there) in
    (
      set_progress now approved.progress (approved_row now input task'),
      ap (λ (x : ReviewRow). find task_key x.task_id h'.store.tasks) (sym same_row)
          ∙ approved.is_done,
      refl,
      IsApproved-bare h.store h'.store now review_id input row' task' approved
          (ap (λ (t : TaskRow). t.review_required) same ∙ required)
          (ap (λ (t : TaskRow). counted (list_todos t.id h.store.todo_items)) same ∙ bare),
    )
