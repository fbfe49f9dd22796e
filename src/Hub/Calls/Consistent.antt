-- ===== src/Hub/Calls/Consistent.antt =====
-- apps/hub/src/services/store: what every sequence of calls keeps of the events.
use ayanami_agent_hub.Base.{ℕ, String}
use ayanami_agent_hub.Hub.Context.{Hub, Action, MutationOptions, mutate, ◌>>=◌}
use ayanami_agent_hub.Hub.Context.Readers.{
  IsReader, select-IsReader, or_throw-IsReader, throw_if-IsReader, lead-Keeps,
}
use ayanami_agent_hub.Hub.Context.Orderly.{IsOrderly}
use ayanami_agent_hub.Hub.Context.Atomic.{IsConsistent, mutate-IsConsistent}
use ayanami_agent_hub.Hub.Tasks.{Response}
use ayanami_agent_hub.Hub.Tasks.Reads.{get_task-IsReader}
use ayanami_agent_hub.Hub.Tasks.Calls.{Safe, run-Safe}
use ayanami_agent_hub.Hub.Tasks.Handoff.{handoff_task}
use ayanami_agent_hub.Hub.Messages.Blind.{get_open_session-IsReader}
use ayanami_agent_hub.Hub.Reviews.Guards.{get_review-IsReader}
use ayanami_agent_hub.Hub.Reviews.Replays.{get_finding-IsReader, lift-IsReader}
use ayanami_agent_hub.Hub.Reviews.Begin.{begin_review}
use ayanami_agent_hub.Hub.Reviews.Findings.{create_finding, resolve_finding}
use ayanami_agent_hub.Hub.Reviews.Verdict.{submit_review_verdict}
use ayanami_agent_hub.Hub.Reviews.Request.{request_review}
use ayanami_agent_hub.Hub.Reviews.Orderly.{
  handoff_body-IsOrderly, handoff_replay-IsOrderly, begin_body-IsOrderly, begin_replay-IsOrderly,
  create_finding_body-IsOrderly, create_finding_replay-IsOrderly, resolve_body-IsOrderly,
  resolve_replay-IsOrderly, verdict_body-IsOrderly, verdict_replay-IsOrderly,
  request_body-IsOrderly, request_replay-IsOrderly,
}
use ayanami_agent_hub.Hub.Calls.{
  Call, on_task, handoff, request, begin, find_fault, resolve, judge, run, Reachable, start, step,
}

mutate-Safe :
    (now p : ℕ) (key operation : String) (action : Action Response Response)
    (options : MutationOptions Response)
    → IsOrderly action
    → ((r : Response) → IsOrderly (options.validate_replay r))
    → Safe (mutate now p key operation action options)
mutate-Safe now p key operation action options o v h c =
    mutate-IsConsistent now p key operation action options o v h c

leading :
    {A : Type 0} (m : Action Response A) (f : A → Action Response Response)
    → IsReader m
    → ((a : A) → Safe (f a))
    → Safe (m >>= f)
leading m f r k = lead-Keeps IsConsistent m f r k

call-Safe : (c : Call) → Safe (run c)
unfolding run handoff_task request_review begin_review create_finding resolve_finding
    submit_review_verdict
call-Safe (on_task c) = run-Safe c
call-Safe (handoff now task_id input drawn fingerprint) =
    leading _ _ (get_task-IsReader task_id) λ t. leading _ _ (get_open_session-IsReader _) λ owner.
      leading _ _ (throw_if-IsReader _ _) λ _.
        mutate-Safe now _ _ _ _ _ (handoff_body-IsOrderly now task_id _ owner input drawn)
          λ _. handoff_replay-IsOrderly _ input
call-Safe (request now ids task_id input snapshot saving drawn fingerprint) =
    leading _ _ (get_task-IsReader task_id) λ t. leading _ _ (get_open_session-IsReader _) λ s.
      leading _ _ (throw_if-IsReader _ _) λ _. leading _ _ (select-IsReader _) λ todos.
        leading _ _ (throw_if-IsReader _ _) λ _. leading _ _ (lift-IsReader snapshot) λ files.
          mutate-Safe now _ _ _ _ _
            (request_body-IsOrderly now ids t.row s input files saving drawn)
            (request_replay-IsOrderly task_id input)
call-Safe (begin now review_id input fingerprint) =
    leading _ _ (get_review-IsReader review_id) λ review.
      mutate-Safe now _ _ _ _ _ (begin_body-IsOrderly now review_id review.row input)
        λ _. begin_replay-IsOrderly review_id input
call-Safe (find_fault now id review_id input fingerprint) =
    leading _ _ (get_review-IsReader review_id) λ review.
      mutate-Safe now _ _ _ _ _ (create_finding_body-IsOrderly now id review_id input)
        λ _. create_finding_replay-IsOrderly review_id input
call-Safe (resolve now finding_id input fingerprint) =
    leading _ _ (get_finding-IsReader finding_id) λ row. leading _ _ (select-IsReader _) λ joined.
      leading _ _ (or_throw-IsReader joined _) λ review.
        mutate-Safe now _ _ _ _ _ (resolve_body-IsOrderly now finding_id row.review_id input)
          λ _. resolve_replay-IsOrderly row.review_id input
call-Safe (judge now review_id input drawn fingerprint) =
    leading _ _ (get_review-IsReader review_id) λ review.
      mutate-Safe now _ _ _ _ _ (verdict_body-IsOrderly now review_id input drawn)
        λ _. verdict_replay-IsOrderly review_id input

-- Whatever calls of the task and review operations are made from a consistent hub, in whatever order
-- and with whatever failures among them: the hub stays consistent. No buffer is left over, the
-- subscribers have seen exactly the stored events, and each project's events are numbered without a
-- gap.
pub Reachable-IsConsistent :
    (h₀ h : Hub Response) → IsConsistent h₀ → Reachable h₀ h → IsConsistent h
Reachable-IsConsistent h₀ h c start = c
Reachable-IsConsistent h₀ h c (step {h = before} r call) =
    call-Safe call before (Reachable-IsConsistent h₀ before c r)
