-- ===== src/Hub/Reviews/Replays.antt =====
-- apps/hub/src/services/store/reviews.ts and handoffTask of tasks.ts: the checks of a replayed call
-- only read.
use ayanami_agent_hub.Base.{ℕ, refl, Bool, true, false}
use ayanami_agent_hub.Hub.Rows.{ReviewRow, SessionRow}
use ayanami_agent_hub.Hub.Context.{Result, ok, err, monad}
use ayanami_agent_hub.Hub.Context.Readers.{
  IsReader, pure-IsReader, select-IsReader, or_throw-IsReader, throw_if-IsReader, >>=-IsReader,
}
use ayanami_agent_hub.Hub.Tasks.{Response}
use ayanami_agent_hub.Hub.Tasks.Reads.{get_task-IsReader}
use ayanami_agent_hub.Hub.Tasks.Handoff.{HandoffInput, handoff_replay}
use ayanami_agent_hub.Hub.Messages.Blind.{get_open_session-IsReader}
use ayanami_agent_hub.Hub.Reviews.Guards.{
  get_review-IsReader, session_in_project-IsReader, reviewer-IsReader, latest-IsReader,
}
use ayanami_agent_hub.Hub.Reviews.Blind.{author-IsReader}
use ayanami_agent_hub.Hub.Reviews.Begin.{BeginInput, begin_replay}
use ayanami_agent_hub.Hub.Reviews.Findings.{
  FindingInput, ResolveInput, create_finding_replay, assert_resolution_role, resolve_replay,
  get_finding,
}
use ayanami_agent_hub.Hub.Reviews.Verdict.{VerdictInput, verdict_replay}
use ayanami_agent_hub.Hub.Reviews.Request.{RequestInput, request_replay, lift}

ruleset checks = (
  pure-IsReader, select-IsReader, or_throw-IsReader, throw_if-IsReader, >>=-IsReader,
  get_task-IsReader, get_open_session-IsReader, get_review-IsReader, session_in_project-IsReader,
  reviewer-IsReader, latest-IsReader, author-IsReader,
)

pub handoff_replay-IsReader : (p : ℕ) (input : HandoffInput) → IsReader (handoff_replay p input)
unfolding handoff_replay
handoff_replay-IsReader p input = search checks depth 20

pub begin_replay-IsReader : (id : ℕ) (input : BeginInput) → IsReader (begin_replay id input)
unfolding begin_replay
begin_replay-IsReader id input = search checks depth 20

pub create_finding_replay-IsReader :
    (id : ℕ) (input : FindingInput) → IsReader (create_finding_replay id input)
unfolding create_finding_replay
create_finding_replay-IsReader id input = search checks depth 20

pub get_finding-IsReader : (id : ℕ) → IsReader (get_finding id)
unfolding get_finding
get_finding-IsReader id = search checks

pub role-IsReader :
    (s : SessionRow) (r : ReviewRow) (c : Bool) → IsReader (assert_resolution_role s r c)
unfolding assert_resolution_role
role-IsReader s r true = search checks
role-IsReader s r false = search checks

pub resolve_replay-IsReader : (id : ℕ) (input : ResolveInput) → IsReader (resolve_replay id input)
unfolding resolve_replay
resolve_replay-IsReader id input = search (checks, role-IsReader) depth 20

pub verdict_replay-IsReader : (id : ℕ) (input : VerdictInput) → IsReader (verdict_replay id input)
unfolding verdict_replay
verdict_replay-IsReader id input = search checks depth 20

pub request_replay-IsReader :
    (id : ℕ) (input : RequestInput) (cached : Response) → IsReader (request_replay id input cached)
unfolding request_replay
request_replay-IsReader id input cached = search checks depth 20

pub lift-IsReader : {A : Type 0} (r : Result A) → IsReader (lift r)
unfolding lift monad
lift-IsReader (ok a) = pure-IsReader a
lift-IsReader (err e) = record { reads = λ h. refl }
