-- ===== src/Hub/Calls.antt =====
-- apps/hub/src/services/store: the calls of the store that the model has, and every state that they
-- lead to.
pub mod Consistent
pub mod Turns
pub mod Ordered
pub mod History
use ayanami_agent_hub.Base.{ℕ, String, List}
use ayanami_agent_hub.Hub.Context.{Hub, Action, Result}
use ayanami_agent_hub.Hub.Tasks.{Response}
use ayanami_agent_hub.Hub.Tasks.Calls as TaskCalls
use ayanami_agent_hub.Hub.Tasks.Handoff.{HandoffInput, handoff_task}
use ayanami_agent_hub.Hub.Messages.{Drawn}
use ayanami_agent_hub.Hub.Reviews.Begin.{BeginInput, begin_review}
use ayanami_agent_hub.Hub.Reviews.Findings.{
  FindingInput, ResolveInput, create_finding, resolve_finding,
}
use ayanami_agent_hub.Hub.Reviews.Verdict.{VerdictInput, submit_review_verdict}
use ayanami_agent_hub.Hub.Reviews.Request.{RequestIds, RequestInput, SavedArtifact, request_review}

-- A call, with the time, the identifiers and the fingerprint that it computes, and with what it gets
-- from git and from the file system.
pub data Call : Type 0 where
  on_task : TaskCalls.Call → Call
  handoff : ℕ → ℕ → HandoffInput → Drawn → String → Call
  request :
      ℕ
      → RequestIds
      → ℕ
      → RequestInput
      → Result (List String)
      → Result SavedArtifact
      → Drawn
      → String
      → Call
  begin : ℕ → ℕ → BeginInput → String → Call
  find_fault : ℕ → ℕ → ℕ → FindingInput → String → Call
  resolve : ℕ → ℕ → ResolveInput → String → Call
  judge : ℕ → ℕ → VerdictInput → Drawn → String → Call

unfoldable pub run : Call → Action Response Response
run (on_task c) = TaskCalls.run c
run (handoff now task_id input drawn fingerprint) = handoff_task now task_id input drawn fingerprint
run (request now ids task_id input snapshot saving drawn fingerprint) =
    request_review now ids task_id input snapshot saving drawn fingerprint
run (begin now review_id input fingerprint) = begin_review now review_id input fingerprint
run (find_fault now id review_id input fingerprint) =
    create_finding now id review_id input fingerprint
run (resolve now finding_id input fingerprint) = resolve_finding now finding_id input fingerprint
run (judge now review_id input drawn fingerprint) =
    submit_review_verdict now review_id input drawn fingerprint

-- The states that any sequence of calls leads to, the failing ones among them.
pub data Reachable (h₀ : Hub Response) : Hub Response → Type 0 where
  start : Reachable h₀ h₀
  step : {h : Hub Response} → Reachable h₀ h → (c : Call) → Reachable h₀ (run c h).1
