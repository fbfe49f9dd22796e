-- ===== src/Hub/Reviews/Versioned.antt =====
-- apps/hub/src/services/store/reviews.ts and handoffTask of tasks.ts: no operation changes what the
-- version of a task stands for and keeps the version.
use ayanami_agent_hub.Base.{
  ℕ, suc, ◌+◌, ◌≡◌, refl, ap, inl, Bool, true, false, String, List, [], ◌∷◌, Option, none, some,
  arith, if◌then◌else◌,
}
use ayanami_agent_hub.Hub.Rows.{TaskRow, SessionRow, ReviewRow, FindingRow, Evidence, ArtifactRow}
use ayanami_agent_hub.Hub.Context.{Action, Store, Result, ◌>>◌}
use ayanami_agent_hub.Hub.Context.Readers.{
  pure-IsReader, select-IsReader, or_throw-IsReader, throw_if-IsReader,
}
use ayanami_agent_hub.Hub.Tasks.{Response}
use ayanami_agent_hub.Hub.Tasks.Reads.{get_task-IsReader}
use ayanami_agent_hub.Hub.Tasks.Versions.{
  Newer, Evolves, same-Evolves, update-Evolves, IsVersioned, IsReader-IsVersioned,
  modify-IsVersioned, >>=-IsVersioned, emit-IsVersioned,
}
use ayanami_agent_hub.Hub.Tasks.Versioned.{reading, recompute_progress-IsVersioned}
use ayanami_agent_hub.Hub.Tasks.Handoff.{HandoffInput, handoff_body}
use ayanami_agent_hub.Hub.Messages.{PostInput, Drawn, post_message}
use ayanami_agent_hub.Hub.Messages.Blind.{post_message-Silent}
use ayanami_agent_hub.Hub.Reviews.Guards.{
  get_review-IsReader, session_in_project-IsReader, reviewer-IsReader, latest-IsReader,
  at_most_one-IsReader, review_row-IsReader,
}
use ayanami_agent_hub.Hub.Reviews.Blind.{author-IsReader, gate-IsReader}
use ayanami_agent_hub.Hub.Reviews.Replays.{get_finding-IsReader, role-IsReader, lift-IsReader}
use ayanami_agent_hub.Hub.Reviews.Begin.{BeginInput, begin_body}
use ayanami_agent_hub.Hub.Reviews.Findings.{
  FindingInput, ResolveInput, insert_finding, create_finding_body, resolve_body,
}
use ayanami_agent_hub.Hub.Reviews.Verdict.{
  Verdict, approve, request_changes, VerdictInput, apply_verdict, verdict_body,
}
use ayanami_agent_hub.Hub.Reviews.Request.{
  RequestInput, RequestIds, SavedArtifact, supersede, insert_artifact, insert_review,
  insert_one_evidence, insert_evidence, start_if_claimed, request_body,
}

-- An update of the columns that a version stands for raises it by one.
next_version : (t t' : TaskRow) → t'.version ≡ t.version + 1 → Newer t t'
next_version t t' e = inl (omega (arith, e))

post_message-IsVersioned :
    (now p : ℕ) (input : PostInput) (drawn : Drawn) → IsVersioned (post_message now p input drawn)
post_message-IsVersioned now p input drawn = record {
  evolves = λ h.
      same-Evolves _ _
        (ap (λ (s : Store Response). s.tasks) ((post_message-Silent now p input drawn).same h));
}

>>-IsVersioned :
    {A B : Type 0} (m : Action Response A) (n : Action Response B)
    → IsVersioned m
    → IsVersioned n
    → IsVersioned (m >> n)
>>-IsVersioned m n v w = >>=-IsVersioned m _ v λ _. w

ruleset readers = (
  pure-IsReader, select-IsReader, or_throw-IsReader, throw_if-IsReader, get_task-IsReader,
  get_review-IsReader, session_in_project-IsReader, reviewer-IsReader, latest-IsReader,
  at_most_one-IsReader, review_row-IsReader, author-IsReader, gate-IsReader, get_finding-IsReader,
  role-IsReader, lift-IsReader,
)

ruleset versioned = (
  readers, IsReader-IsVersioned, >>=-IsVersioned, >>-IsVersioned, modify-IsVersioned, same-Evolves,
  update-Evolves, next_version, refl, emit-IsVersioned, recompute_progress-IsVersioned,
  post_message-IsVersioned,
)

pub handoff_body-IsVersioned :
    (now task_id p : ℕ) (owner : SessionRow) (input : HandoffInput) (drawn : Drawn)
    → IsVersioned (handoff_body now task_id p owner input drawn)
unfolding handoff_body
handoff_body-IsVersioned now task_id p owner input drawn = search versioned depth 20

pub begin_body-IsVersioned :
    (now id : ℕ) (review : ReviewRow) (input : BeginInput)
    → IsVersioned (begin_body now id review input)
unfolding begin_body
begin_body-IsVersioned now id review input = search versioned depth 20

insert_finding-IsVersioned : (row : FindingRow) → IsVersioned (insert_finding row)
unfolding insert_finding
insert_finding-IsVersioned row = search versioned

pub create_finding_body-IsVersioned :
    (now id review_id : ℕ) (input : FindingInput)
    → IsVersioned (create_finding_body now id review_id input)
unfolding create_finding_body
create_finding_body-IsVersioned now id review_id input =
    search (versioned, insert_finding-IsVersioned) depth 20

pub resolve_body-IsVersioned :
    (now id review_id : ℕ) (input : ResolveInput)
    → IsVersioned (resolve_body now id review_id input)
unfolding resolve_body
resolve_body-IsVersioned now id review_id input = search versioned depth 20

apply_verdict-IsVersioned :
    (now id t a r : ℕ) (v : Verdict) → IsVersioned (apply_verdict now id t a r v)
unfolding apply_verdict
apply_verdict-IsVersioned now id t a r approve = search versioned depth 20
apply_verdict-IsVersioned now id t a r request_changes = search versioned

pub verdict_body-IsVersioned :
    (now id : ℕ) (input : VerdictInput) (drawn : Drawn)
    → IsVersioned (verdict_body now id input drawn)
unfolding verdict_body
verdict_body-IsVersioned now id input drawn =
    search (versioned, apply_verdict-IsVersioned) depth 30 fits 20000

supersede-IsVersioned : (now : ℕ) (o : Option ReviewRow) → IsVersioned (supersede now o)
unfolding supersede
supersede-IsVersioned now none = search versioned
supersede-IsVersioned now (some r) = search versioned

insert_artifact-IsVersioned : (a : ArtifactRow) → IsVersioned (insert_artifact a)
unfolding insert_artifact
insert_artifact-IsVersioned a = search versioned

insert_review-IsVersioned : (r : ReviewRow) → IsVersioned (insert_review r)
unfolding insert_review
insert_review-IsVersioned r = search versioned

one_evidence-IsVersioned :
    (now id r : ℕ) (summary : String) (command : Option String) (code : Option ℕ)
    → IsVersioned (insert_one_evidence now id r summary command code)
unfolding insert_one_evidence
one_evidence-IsVersioned now id r summary none code = search versioned
one_evidence-IsVersioned now id r summary (some c) none = search versioned
one_evidence-IsVersioned now id r summary (some c) (some x) = search versioned

evidence-IsVersioned :
    (now : ℕ) (draw : ℕ → ℕ) (i r : ℕ) (es : List Evidence)
    → IsVersioned (insert_evidence now draw i r es)
unfolding insert_evidence
evidence-IsVersioned now draw i r [] = search versioned
evidence-IsVersioned now draw i r (e ∷ es) =
    >>-IsVersioned _ _
      (one_evidence-IsVersioned now (draw i) r e.output_summary e.command e.exit_code)
      (evidence-IsVersioned now draw (suc i) r es)

-- An update under a test.
guarded-Evolves :
    (c : Bool) (ts us : List TaskRow) → Evolves ts us → Evolves ts (if c then us else ts)
guarded-Evolves true ts us e = e
guarded-Evolves false ts us e = same-Evolves ts ts refl

start-IsVersioned : (now id : ℕ) → IsVersioned (start_if_claimed now id)
unfolding start_if_claimed
start-IsVersioned now id = search (versioned, guarded-Evolves) depth 20

pub request_body-IsVersioned :
    (now : ℕ) (ids : RequestIds) (task : TaskRow) (session : SessionRow) (input : RequestInput)
    (files : List String) (saving : Result SavedArtifact) (drawn : Drawn)
    → IsVersioned (request_body now ids task session input files saving drawn)
unfolding request_body
request_body-IsVersioned now ids task session input files saving drawn =
    reading _ _ (at_most_one-IsReader task.id) λ _. reading _ _ (lift-IsReader saving) λ saved.
      reading _ _ (select-IsReader _) λ previous.
        >>-IsVersioned _ _ (supersede-IsVersioned now previous) (
          >>-IsVersioned _ _ (insert_artifact-IsVersioned _) (
            >>-IsVersioned _ _ (insert_review-IsVersioned _) (
              >>-IsVersioned _ _
                (evidence-IsVersioned now ids.evidence_id 0 ids.review_id input.test_evidence)
                (>>-IsVersioned _ _ (start-IsVersioned now task.id) (
                  reading _ _ (get_task-IsReader task.id) λ current.
                    reading _ _ (throw_if-IsReader _ _)
                      λ _. search versioned depth 20 fits 20000)))))
