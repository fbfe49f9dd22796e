-- ===== src/Hub/Reviews/Orderly.antt =====
-- apps/hub/src/services/store/reviews.ts and handoffTask of tasks.ts: these operations and their
-- checks of replays write no event but by `emit`.
use ayanami_agent_hub.Base.{ℕ, suc, Bool, true, false, List, [], ◌∷◌, Option, none, some, String}
use ayanami_agent_hub.Hub.Rows.{
  TaskRow, SessionRow, ReviewRow, ReviewStatus, FindingRow, Evidence, ArtifactRow,
}
use ayanami_agent_hub.Hub.Context.{Result, ok, err}
use ayanami_agent_hub.Hub.Context.Orderly.{
  IsOrderly, pure-IsOrderly, throw-IsOrderly, >>-IsOrderly, orderly,
}
use ayanami_agent_hub.Hub.Tasks.{Response}
use ayanami_agent_hub.Hub.Tasks.Progress.{review_gate, assert_task_completion_gate}
use ayanami_agent_hub.Hub.Tasks.Orderly.{recompute_progress-IsOrderly}
use ayanami_agent_hub.Hub.Tasks.Ownership.Orderly.{get_task-IsOrderly, get_session-IsOrderly}
use ayanami_agent_hub.Hub.Tasks.Handoff.{HandoffInput, handoff_body, handoff_replay}
use ayanami_agent_hub.Hub.Messages.{Drawn}
use ayanami_agent_hub.Hub.Messages.Orderly.{get_open_session-IsOrderly, post_message-IsOrderly}
use ayanami_agent_hub.Hub.Reviews.{
  get_review, session_in_project, assert_only, assert_latest_active_review,
  assert_at_most_one_active_review, assigned_reviewer_session, review_row,
}
use ayanami_agent_hub.Hub.Reviews.Begin.{BeginInput, begin_body, begin_replay}
use ayanami_agent_hub.Hub.Reviews.Findings.{
  FindingInput, ResolveInput, insert_finding, get_finding, create_finding_body,
  create_finding_replay, assert_resolution_role, resolve_body, resolve_replay,
}
use ayanami_agent_hub.Hub.Reviews.Verdict.{
  Verdict, approve, request_changes, VerdictInput, author_head, current_author_session,
  apply_verdict, verdict_body, verdict_replay,
}
use ayanami_agent_hub.Hub.Reviews.Request.{
  RequestInput, RequestIds, SavedArtifact, lift, supersede, insert_artifact, insert_review,
  insert_one_evidence, insert_evidence, start_if_claimed, request_body, request_replay,
}

get_review-IsOrderly : (id : ℕ) → IsOrderly (get_review id)
unfolding get_review
get_review-IsOrderly id = search orderly

session_in_project-IsOrderly : (s p : ℕ) → IsOrderly (session_in_project s p)
unfolding session_in_project
session_in_project-IsOrderly s p = search (orderly, get_open_session-IsOrderly)

reviewer-IsOrderly : (r : ReviewRow) (s : ℕ) → IsOrderly (assigned_reviewer_session r s)
unfolding assigned_reviewer_session
reviewer-IsOrderly r s = search (orderly, session_in_project-IsOrderly)

only-IsOrderly : (r : ReviewRow) (rs : List ReviewRow) → IsOrderly (assert_only r rs)
unfolding assert_only
only-IsOrderly r [] = search orderly
only-IsOrderly r (a ∷ []) = search orderly
only-IsOrderly r (a ∷ b ∷ rs) = search orderly

latest-IsOrderly :
    (r : ReviewRow) (allowed : ReviewStatus → Bool)
    → IsOrderly (assert_latest_active_review r allowed)
unfolding assert_latest_active_review
latest-IsOrderly r allowed = search (orderly, only-IsOrderly)

at_most_one-IsOrderly : (t : ℕ) → IsOrderly (assert_at_most_one_active_review t)
unfolding assert_at_most_one_active_review
at_most_one-IsOrderly t = search orderly

review_row-IsOrderly : (id : ℕ) → IsOrderly (review_row id)
unfolding review_row
review_row-IsOrderly id = search orderly

ruleset parts = (
  orderly, get_task-IsOrderly, get_session-IsOrderly, get_open_session-IsOrderly,
  get_review-IsOrderly, session_in_project-IsOrderly, reviewer-IsOrderly, latest-IsOrderly,
  at_most_one-IsOrderly, review_row-IsOrderly, recompute_progress-IsOrderly, post_message-IsOrderly,
)

pub handoff_body-IsOrderly :
    (now task_id p : ℕ) (owner : SessionRow) (input : HandoffInput) (drawn : Drawn)
    → IsOrderly (handoff_body now task_id p owner input drawn)
unfolding handoff_body
handoff_body-IsOrderly now task_id p owner input drawn = search parts depth 20

pub handoff_replay-IsOrderly : (p : ℕ) (input : HandoffInput) → IsOrderly (handoff_replay p input)
unfolding handoff_replay
handoff_replay-IsOrderly p input = search parts depth 20

pub begin_body-IsOrderly :
    (now id : ℕ) (review : ReviewRow) (input : BeginInput)
    → IsOrderly (begin_body now id review input)
unfolding begin_body
begin_body-IsOrderly now id review input = search parts depth 20

pub begin_replay-IsOrderly : (id : ℕ) (input : BeginInput) → IsOrderly (begin_replay id input)
unfolding begin_replay
begin_replay-IsOrderly id input = search parts depth 20

insert_finding-IsOrderly : (row : FindingRow) → IsOrderly (insert_finding row)
unfolding insert_finding
insert_finding-IsOrderly row = search orderly

pub get_finding-IsOrderly : (id : ℕ) → IsOrderly (get_finding id)
unfolding get_finding
get_finding-IsOrderly id = search orderly

pub create_finding_body-IsOrderly :
    (now id review_id : ℕ) (input : FindingInput)
    → IsOrderly (create_finding_body now id review_id input)
unfolding create_finding_body
create_finding_body-IsOrderly now id review_id input =
    search (parts, insert_finding-IsOrderly, get_finding-IsOrderly) depth 20

pub create_finding_replay-IsOrderly :
    (id : ℕ) (input : FindingInput) → IsOrderly (create_finding_replay id input)
unfolding create_finding_replay
create_finding_replay-IsOrderly id input = search parts depth 20

role-IsOrderly :
    (s : SessionRow) (r : ReviewRow) (c : Bool) → IsOrderly (assert_resolution_role s r c)
unfolding assert_resolution_role
role-IsOrderly s r true = search orderly
role-IsOrderly s r false = search orderly

pub resolve_body-IsOrderly :
    (now id review_id : ℕ) (input : ResolveInput) → IsOrderly (resolve_body now id review_id input)
unfolding resolve_body
resolve_body-IsOrderly now id review_id input =
    search (parts, role-IsOrderly, get_finding-IsOrderly) depth 20

pub resolve_replay-IsOrderly : (id : ℕ) (input : ResolveInput) → IsOrderly (resolve_replay id input)
unfolding resolve_replay
resolve_replay-IsOrderly id input = search (parts, role-IsOrderly) depth 20

author_head-IsOrderly : (r : ReviewRow) (id : ℕ) (o : Option ℕ) → IsOrderly (author_head r id o)
unfolding author_head
author_head-IsOrderly r id none = search orderly
author_head-IsOrderly r id (some l) = search parts depth 20

author-IsOrderly : (r : ReviewRow) → IsOrderly (current_author_session r)
unfolding current_author_session
author-IsOrderly r = search (parts, author_head-IsOrderly) depth 20

review_gate-IsOrderly : (c : Bool) (id : ℕ) → IsOrderly (review_gate c id)
unfolding review_gate
review_gate-IsOrderly true id = search orderly depth 20
review_gate-IsOrderly false id = search orderly

gate-IsOrderly : (t : TaskRow) → IsOrderly (assert_task_completion_gate t)
unfolding assert_task_completion_gate
gate-IsOrderly t = search (orderly, review_gate-IsOrderly) depth 20

apply_verdict-IsOrderly :
    (now id t a r : ℕ) (v : Verdict) → IsOrderly (apply_verdict now id t a r v)
unfolding apply_verdict
apply_verdict-IsOrderly now id t a r approve = search (parts, gate-IsOrderly) depth 20
apply_verdict-IsOrderly now id t a r request_changes = search orderly

pub verdict_body-IsOrderly :
    (now id : ℕ) (input : VerdictInput) (drawn : Drawn)
    → IsOrderly (verdict_body now id input drawn)
unfolding verdict_body
verdict_body-IsOrderly now id input drawn =
    search (parts, author-IsOrderly, apply_verdict-IsOrderly) depth 30 fits 20000

pub verdict_replay-IsOrderly : (id : ℕ) (input : VerdictInput) → IsOrderly (verdict_replay id input)
unfolding verdict_replay
verdict_replay-IsOrderly id input = search (parts, author-IsOrderly) depth 20

pub lift-IsOrderly : {A : Type 0} (r : Result A) → IsOrderly (lift r)
unfolding lift
lift-IsOrderly (ok a) = pure-IsOrderly a
lift-IsOrderly (err e) = throw-IsOrderly e

supersede-IsOrderly : (now : ℕ) (o : Option ReviewRow) → IsOrderly (supersede now o)
unfolding supersede
supersede-IsOrderly now none = search orderly
supersede-IsOrderly now (some r) = search orderly

insert_artifact-IsOrderly : (a : ArtifactRow) → IsOrderly (insert_artifact a)
unfolding insert_artifact
insert_artifact-IsOrderly a = search orderly

insert_review-IsOrderly : (r : ReviewRow) → IsOrderly (insert_review r)
unfolding insert_review
insert_review-IsOrderly r = search orderly

one_evidence-IsOrderly :
    (now id r : ℕ) (t : String) (c : Option String) (e : Option ℕ)
    → IsOrderly (insert_one_evidence now id r t c e)
unfolding insert_one_evidence
one_evidence-IsOrderly now id r t none e = search orderly
one_evidence-IsOrderly now id r t (some c) none = search orderly
one_evidence-IsOrderly now id r t (some c) (some e) = search orderly

evidence-IsOrderly :
    (now : ℕ) (draw : ℕ → ℕ) (i r : ℕ) (es : List Evidence)
    → IsOrderly (insert_evidence now draw i r es)
unfolding insert_evidence
evidence-IsOrderly now draw i r [] = search orderly
evidence-IsOrderly now draw i r (e ∷ es) =
    >>-IsOrderly _ _ (one_evidence-IsOrderly now (draw i) r e.output_summary e.command e.exit_code)
      (evidence-IsOrderly now draw (suc i) r es)

start-IsOrderly : (now id : ℕ) → IsOrderly (start_if_claimed now id)
unfolding start_if_claimed
start-IsOrderly now id = search parts depth 20

pub request_body-IsOrderly :
    (now : ℕ) (ids : RequestIds) (task : TaskRow) (session : SessionRow) (input : RequestInput)
    (files : List String) (saving : Result SavedArtifact) (drawn : Drawn)
    → IsOrderly (request_body now ids task session input files saving drawn)
unfolding request_body
request_body-IsOrderly now ids task session input files saving drawn =
    search
      (
        parts, lift-IsOrderly, supersede-IsOrderly, insert_artifact-IsOrderly,
        insert_review-IsOrderly, evidence-IsOrderly, start-IsOrderly,
      )
      depth 40 fits 20000

pub request_replay-IsOrderly :
    (id : ℕ) (input : RequestInput) (cached : Response) → IsOrderly (request_replay id input cached)
unfolding request_replay
request_replay-IsOrderly id input cached = search parts depth 20
