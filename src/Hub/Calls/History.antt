-- ===== src/Hub/Calls/History.antt =====
-- apps/hub/src/services/store: what becomes of a task through every sequence of calls.
use ayanami_agent_hub.Base.{ℕ, ◌≡◌, refl, some}
use ayanami_agent_hub.Base.Table.{find}
use ayanami_agent_hub.Hub.Rows.{TaskRow}
use ayanami_agent_hub.Hub.Context.{Hub}
use ayanami_agent_hub.Hub.Context.Readers.{select-IsReader, or_throw-IsReader, throw_if-IsReader}
use ayanami_agent_hub.Hub.Tasks.{Response, task_key}
use ayanami_agent_hub.Hub.Tasks.Reads.{get_task-IsReader}
use ayanami_agent_hub.Hub.Tasks.Versions.{
  Newer, Evolves, same-Evolves, Evolves-trans, IsVersioned, mutate-IsVersioned,
}
use ayanami_agent_hub.Hub.Tasks.Versioned.{reading}
use ayanami_agent_hub.Hub.Tasks.History.{run-IsVersioned}
use ayanami_agent_hub.Hub.Tasks.Handoff.{handoff_task}
use ayanami_agent_hub.Hub.Messages.Blind.{get_open_session-IsReader}
use ayanami_agent_hub.Hub.Reviews.Guards.{get_review-IsReader}
use ayanami_agent_hub.Hub.Reviews.Replays.{
  get_finding-IsReader, lift-IsReader, handoff_replay-IsReader, begin_replay-IsReader,
  create_finding_replay-IsReader, resolve_replay-IsReader, verdict_replay-IsReader,
  request_replay-IsReader,
}
use ayanami_agent_hub.Hub.Reviews.Begin.{begin_review}
use ayanami_agent_hub.Hub.Reviews.Findings.{create_finding, resolve_finding}
use ayanami_agent_hub.Hub.Reviews.Verdict.{submit_review_verdict}
use ayanami_agent_hub.Hub.Reviews.Request.{request_review}
use ayanami_agent_hub.Hub.Reviews.Versioned.{
  handoff_body-IsVersioned, begin_body-IsVersioned, create_finding_body-IsVersioned,
  resolve_body-IsVersioned, verdict_body-IsVersioned, request_body-IsVersioned,
}
use ayanami_agent_hub.Hub.Calls.{
  Call, on_task, handoff, request, begin, find_fault, resolve, judge, run, Reachable, start, step,
}

call-IsVersioned : (c : Call) → IsVersioned (run c)
unfolding run handoff_task request_review begin_review create_finding resolve_finding
    submit_review_verdict
call-IsVersioned (on_task c) = run-IsVersioned c
call-IsVersioned (handoff now task_id input drawn fingerprint) =
    reading _ _ (get_task-IsReader task_id) λ t. reading _ _ (get_open_session-IsReader _) λ owner.
      reading _ _ (throw_if-IsReader _ _) λ _.
        mutate-IsVersioned now _ _ _ _ _ (handoff_body-IsVersioned now task_id _ owner input drawn)
          (λ _. handoff_replay-IsReader _ input)
call-IsVersioned (request now ids task_id input snapshot saving drawn fingerprint) =
    reading _ _ (get_task-IsReader task_id) λ t. reading _ _ (get_open_session-IsReader _) λ s.
      reading _ _ (throw_if-IsReader _ _) λ _. reading _ _ (select-IsReader _) λ todos.
        reading _ _ (throw_if-IsReader _ _) λ _. reading _ _ (lift-IsReader snapshot) λ files.
          mutate-IsVersioned now _ _ _ _ _
            (request_body-IsVersioned now ids t.row s input files saving drawn)
            (request_replay-IsReader task_id input)
call-IsVersioned (begin now review_id input fingerprint) =
    reading _ _ (get_review-IsReader review_id) λ review.
      mutate-IsVersioned now _ _ _ _ _ (begin_body-IsVersioned now review_id review.row input)
        (λ _. begin_replay-IsReader review_id input)
call-IsVersioned (find_fault now id review_id input fingerprint) =
    reading _ _ (get_review-IsReader review_id) λ review.
      mutate-IsVersioned now _ _ _ _ _ (create_finding_body-IsVersioned now id review_id input)
        (λ _. create_finding_replay-IsReader review_id input)
call-IsVersioned (resolve now finding_id input fingerprint) =
    reading _ _ (get_finding-IsReader finding_id) λ row. reading _ _ (select-IsReader _) λ joined.
      reading _ _ (or_throw-IsReader joined _) λ review.
        mutate-IsVersioned now _ _ _ _ _
          (resolve_body-IsVersioned now finding_id row.review_id input)
          (λ _. resolve_replay-IsReader row.review_id input)
call-IsVersioned (judge now review_id input drawn fingerprint) =
    reading _ _ (get_review-IsReader review_id) λ review.
      mutate-IsVersioned now _ _ _ _ _ (verdict_body-IsVersioned now review_id input drawn)
        (λ _. verdict_replay-IsReader review_id input)

Reachable-Evolves : (h₀ h : Hub Response) → Reachable h₀ h → Evolves h₀.store.tasks h.store.tasks
Reachable-Evolves h₀ h start = same-Evolves _ _ refl
Reachable-Evolves h₀ h (step {h = before} r c) =
    Evolves-trans _ before.store.tasks _ (Reachable-Evolves h₀ before r)
      ((call-IsVersioned c).evolves before)

-- No sequence of calls of the task and review operations, whatever fails in it, loses a task or lets
-- its version go back; and as long as the version is the same, so are the status, the owner and the
-- details. So a client whose expected version is still the version of the task decides on what the
-- task is.
pub task_history :
    (h₀ h : Hub Response) (id : ℕ) (t : TaskRow)
    → Reachable h₀ h
    → find task_key id h₀.store.tasks ≡ some t
    → (t' : TaskRow) × (find task_key id h.store.tasks ≡ some t') × Newer t t'
task_history h₀ h id t r found = (Reachable-Evolves h₀ h r).later id t found
