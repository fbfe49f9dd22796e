-- ===== src/Hub/Reviews/Verdict.antt =====
-- apps/hub/src/services/store/reviews.ts, submitReviewVerdict.
pub mod Laws
pub mod Approved
pub mod Approval
pub mod Overwrite
use text.Mathlib.Text.{◌==◌ as str_eq}
use Prim.Native.String.{◌++◌ as ◌++s◌}
use ayanami_agent_hub.Base.{
  ℕ, ◌+◌, Bool, true, false, String, List, [], ◌∷◌, Option, none, some, keep, not, ◌==◌, ◌&&◌, ◌||◌,
  if◌then◌else◌, map,
}
use ayanami_agent_hub.Base.Table.{find, update}
use ayanami_agent_hub.Base.Texts.{decimal}
use ayanami_agent_hub.Protocol.Task.{TaskStatus}
use ayanami_agent_hub.Protocol.Push.{important, interrupt}
use ayanami_agent_hub.Hub.Rows.{
  TaskRow, ReviewRow, ReviewStatus, in_review, FindingRow, SessionRow, LineageRow, idle,
  fixing_review, agent, EventDraft, verdict_given,
}
use ayanami_agent_hub.Hub.MessageRows.{review_result}
use ayanami_agent_hub.Hub.Context.{
  Action, conflict, select, or_throw, throw_if, modify, pure, ◌>>=◌, ◌>>◌, emit, mutate,
}
use ayanami_agent_hub.Hub.Sessions.{session_key, get_session}
use ayanami_agent_hub.Hub.Tasks.{Response, review_response, task_key, get_task}
use ayanami_agent_hub.Hub.Tasks.Progress.{
  is_blocking, is_nonempty, recompute_progress, assert_task_completion_gate,
}
use ayanami_agent_hub.Hub.Messages.{PostInput, Drawn, post_message}
use ayanami_agent_hub.Hub.Reviews.{
  Review, review_key, get_review, assigned_reviewer_session, assert_latest_active_review,
  review_row, validated,
}
use ayanami_agent_hub.Hub.Reviews.Begin.{set_task_status, set_review_work}

-- `["IN_REVIEW"]`
abbrev pub is_in_review : ReviewStatus → Bool
is_in_review in_review = true
is_in_review _ = false

pub data Verdict : Type 0 where
  approve request_changes : Verdict

pub record VerdictInput : Type 0 where
  pub session_id : ℕ
  pub expected_version : ℕ
  pub verdict : Verdict
  pub summary : String
  pub override_reason : Option String
  pub idempotency_key : String

abbrev pub is_approval : Verdict → Bool
is_approval approve = true
is_approval request_changes = false

abbrev verdict_text : Verdict → String
verdict_text approve = "APPROVED"
verdict_text request_changes = "CHANGES_REQUESTED"

abbrev pub verdict_status : Verdict → ReviewStatus
verdict_status approve = ReviewStatus.approved
verdict_status request_changes = ReviewStatus.changes_requested

-- The status that the verdict itself gives the task.
abbrev pub verdict_task_status : Verdict → TaskStatus
verdict_task_status approve = TaskStatus.approved
verdict_task_status request_changes = TaskStatus.changes_requested

-- `taskStatus` of the event.
abbrev pub final_task_status : Verdict → TaskStatus
final_task_status approve = TaskStatus.done
final_task_status request_changes = TaskStatus.changes_requested

-- SELECT head_session_id FROM session_lineages WHERE id = ? AND project_id = ? AND agent_id = ?
unfoldable pub head_of : ℕ → ℕ → String → List LineageRow → Option ℕ
head_of id project_id agent_id [] = none
head_of id project_id agent_id (l ∷ ls) =
    if l.id == id && l.project_id == project_id && str_eq l.agent_id agent_id
    then l.head_session_id
    else head_of id project_id agent_id ls

-- `lineageId` of two sessions, one of which is known.
abbrev pub same_lineage : Option ℕ → ℕ → Bool
same_lineage none id = false
same_lineage (some l) id = l == id

-- The session that now stands for the author: the head of its lineage, if it has one.
unfoldable pub author_head : ReviewRow → ℕ → Option ℕ → Action Response ℕ
author_head review author_id none = pure author_id
author_head review author_id (some lineage_id) = do
  head ←
      select (λ s. head_of lineage_id review.project_id review.author_agent_id s.session_lineages)
  head_session_id ← or_throw head (conflict "Review author lineage has no current head")
  session ← get_session head_session_id
  throw_if
      (not (same_lineage session.lineage_id lineage_id)
        || not (session.project_id == review.project_id)
        || not (str_eq session.agent_id review.author_agent_id))
      (conflict "Review author lineage head does not match the review")
  pure session.id

-- currentAuthorProjectionSessionId
unfoldable pub current_author_session : ReviewRow → Action Response ℕ
unfolding author_head
current_author_session review = do
  author ← get_session review.author_session_id
  throw_if
      (not (author.project_id == review.project_id)
        || not (str_eq author.agent_id review.author_agent_id))
      (conflict "Immutable review author does not match the review")
  author_head review author.id author.lineage_id

abbrev pub verdict_row : ℕ → VerdictInput → ReviewRow → ReviewRow
verdict_row now input r = record r {
  status = verdict_status input.verdict;
  verdict_summary = some input.summary;
  version = r.version + 1;
  updated_at = now;
}

-- `status = 'DONE', computed_progress = 100`, in tenths of a percent.
abbrev pub finish_row : ℕ → TaskRow → TaskRow
finish_row now t = record t {
  status = TaskStatus.done;
  computed_progress = 1000;
  version = t.version + 1;
  updated_at = now;
}

abbrev pub free_session : SessionRow → SessionRow
free_session s = record s {
  current_task_id = none;
  current_review_id = none;
  work_state = idle;
  version = s.version + 1;
}

-- UPDATE agent_sessions … WHERE id IN (?, ?)
abbrev pub update_two : ℕ → ℕ → (SessionRow → SessionRow) → List SessionRow → List SessionRow
update_two a b f = map (λ s. if s.id == a || s.id == b then f s else s)

-- What the verdict means for the task and the two sessions. An approved task passes the completion
-- gate and is DONE.
unfoldable pub apply_verdict : ℕ → ℕ → ℕ → ℕ → ℕ → Verdict → Action Response (Unit {0})
apply_verdict now review_id task_id author_id reviewer_id approve = do
  task ← get_task task_id
  assert_task_completion_gate task.row
  modify λ s. record s {
    tasks = update task_key task_id (finish_row now) s.tasks;
    agent_sessions = update_two author_id reviewer_id free_session s.agent_sessions;
  }
apply_verdict now review_id task_id author_id reviewer_id request_changes = modify λ s. record s {
  agent_sessions = update session_key reviewer_id (set_review_work none idle) (
      update session_key author_id (set_review_work (some review_id) fixing_review)
        s.agent_sessions);
}

-- The result that the reviewer sends to the author.
abbrev pub verdict_message : ReviewRow → SessionRow → ℕ → VerdictInput → ReviewRow → PostInput
verdict_message review session author_id input row = record {
  thread_id = none;
  subject = none;
  reply_to = none;
  task_id = some review.task_id;
  review_id = some review.id;
  from_agent_id = session.agent_id;
  from_session_id = some session.id;
  recipients = record { agent_id = review.author_agent_id; session_id = some author_id } ∷ [];
  type = review_result;
  priority = if is_approval input.verdict then important else interrupt;
  requires_ack = true;
  requires_response = not (is_approval input.verdict);
  content = record {
    summary = input.summary;
    detail = some (("verdict", verdict_text input.verdict) ∷ ("reviewId", decimal review.id) ∷ []);
    references =
        record { type = "task"; id = review.task_id }
        ∷ record { type = "review"; id = review.id }
        ∷ [];
  };
  dedupe_key = some ("review-result:" ++s decimal review.id ++s ":" ++s decimal row.version);
  expires_at = none;
  idempotency_key = input.idempotency_key ++s ":message";
}

unfoldable pub verdict_body : ℕ → ℕ → VerdictInput → Drawn → Action Response Response
verdict_body now review_id input drawn = do
  current ← get_review review_id
  session ← assigned_reviewer_session current.row input.session_id
  assert_latest_active_review current.row is_in_review
  throw_if (not (current.version == input.expected_version)) (conflict "Review version changed")
  throw_if (is_approval input.verdict && is_nonempty (keep is_blocking current.findings))
      (conflict "Blocking findings must be resolved before approval")
  author_id ← current_author_session current.row
  modify λ s. record s {
    reviews = update review_key review_id (verdict_row now input) s.reviews;
    tasks =
        update task_key current.task_id (set_task_status now (verdict_task_status input.verdict))
          s.tasks;
  }
  apply_verdict now review_id current.task_id author_id session.id input.verdict
  emit now (record {
    project_id = current.project_id;
    type = if is_approval input.verdict then "review.approved" else "review.changes_requested";
    actor_type = agent;
    actor_id = session.agent_id;
    aggregate_type = "review";
    aggregate_id = review_id;
    causation_id = none;
    correlation_id = some current.task_id;
    payload =
        verdict_given (verdict_status input.verdict) input.summary input.override_reason
          (final_task_status input.verdict);
  })
  _ ← recompute_progress now current.task_id
  row ← review_row review_id
  _ ←
      post_message now current.project_id (verdict_message current.row session author_id input row)
        drawn
  pure (review_response row)

-- The check of a replayed verdict.
unfoldable pub verdict_replay : ℕ → VerdictInput → Action Response (Unit {0})
verdict_replay review_id input = do
  current ← get_review review_id
  _ ← assigned_reviewer_session current.row input.session_id
  _ ← current_author_session current.row
  pure tt

unfoldable pub submit_review_verdict :
    ℕ → ℕ → VerdictInput → Drawn → String → Action Response Response
submit_review_verdict now review_id input drawn fingerprint = do
  review ← get_review review_id
  mutate now review.project_id input.idempotency_key "review.verdict"
      (verdict_body now review_id input drawn)
      (validated fingerprint (verdict_replay review_id input))
