-- ===== src/Hub/Reviews/Request.antt =====
-- apps/hub/src/services/store/reviews.ts, requestReview. What git and the file system give, the
-- patch of the snapshot and the artifact that holds it, are arguments, which may be errors.
pub mod Inserts
pub mod Inputs
pub mod Laws
unfoldable pub use Inputs.*
unfoldable pub use Inserts.*
use text.Mathlib.Text.{◌==◌ as str_eq}
use Prim.Native.String.{◌++◌ as ◌++s◌}
use ayanami_agent_hub.Base.{
  ℕ, ◌+◌, Bool, true, false, String, List, [], ◌∷◌, Option, none, some, keep, not, ◌==◌, ◌&&◌,
  opt_eq, if◌then◌else◌,
}
use ayanami_agent_hub.Base.Table.{update}
use ayanami_agent_hub.Base.Texts.{decimal}
use ayanami_agent_hub.Protocol.Task.{TaskStatus, claimed, review_pending, can_transition}
use ayanami_agent_hub.Protocol.Push.{important}
use ayanami_agent_hub.Hub.Rows.{
  TaskRow, TaskDetails, ReviewRow, SessionRow, waiting_for_peer, agent, review_requested,
}
use ayanami_agent_hub.Hub.MessageRows.{review_request}
use ayanami_agent_hub.Hub.Context.{
  Action, Result, MutationOptions, conflict, forbidden, invalid_transition, select, or_throw,
  throw_if, modify, pure, ◌>>=◌, ◌>>◌, emit, mutate,
}
use ayanami_agent_hub.Hub.Sessions.{session_key, get_open_session}
use ayanami_agent_hub.Hub.Tasks.{
  Response, review_response, task_key, get_task, list_todos, latest_review,
}
use ayanami_agent_hub.Hub.Tasks.Progress.{is_incomplete, is_nonempty, recompute_progress}
use ayanami_agent_hub.Hub.Messages.{PostInput, Drawn, post_message}
use ayanami_agent_hub.Hub.Reviews.{
  get_review, is_active, assert_latest_active_review, assert_at_most_one_active_review, review_row,
}
use ayanami_agent_hub.Hub.Reviews.Begin.{set_task_status, set_review_work}

abbrev pub is_claimed : TaskStatus → Bool
is_claimed claimed = true
is_claimed _ = false

-- A task that was only CLAIMED is first taken to be IN_PROGRESS.
unfoldable pub start_if_claimed : ℕ → ℕ → Action Response (Unit {0})
start_if_claimed now task_id = do
  task ← get_task task_id
  modify λ s. record s {
    tasks =
        if is_claimed task.status
        then update task_key task_id (set_task_status now TaskStatus.in_progress) s.tasks
        else s.tasks;
  }

abbrev pub request_details : RequestInput → TaskDetails → TaskDetails
request_details input d = record d {
  base_sha = some input.base_sha;
  head_sha = some input.head_sha;
  reviewer_agent_id = some input.reviewer_agent_id;
}

abbrev pub request_row : ℕ → RequestInput → TaskRow → TaskRow
request_row now input t = record t {
  status = review_pending;
  details = request_details input t.details;
  version = t.version + 1;
  updated_at = now;
}

-- The request that the author sends to the reviewer.
abbrev pub request_message : TaskRow → SessionRow → RequestInput → ReviewRow → PostInput
request_message task session input row = record {
  thread_id = none;
  subject = none;
  reply_to = none;
  task_id = some task.id;
  review_id = some row.id;
  from_agent_id = session.agent_id;
  from_session_id = some session.id;
  recipients = record { agent_id = input.reviewer_agent_id; session_id = none } ∷ [];
  type = review_request;
  priority = important;
  requires_ack = true;
  requires_response = true;
  content = record {
    summary =
        "Review requested for " ++s task.details.title ++s " · revision " ++s decimal row.revision;
    detail = some (
        ("reviewId", decimal row.id)
        ∷ ("baseSha", row.details.base_sha)
        ∷ ("headSha", row.details.head_sha)
        ∷ ("patchSha256", row.details.patch_sha256)
        ∷ []);
    references =
        record { type = "task"; id = task.id } ∷ record { type = "review"; id = row.id } ∷ [];
  };
  dedupe_key = some ("review-request:" ++s decimal row.id);
  expires_at = none;
  idempotency_key = input.idempotency_key ++s ":message";
}

-- The function that requestReview hands to `mutate`; `task`, `session` and the files that the patch
-- changes were read before it.
unfoldable pub request_body :
    ℕ
    → RequestIds
    → TaskRow
    → SessionRow
    → RequestInput
    → List String
    → Result SavedArtifact
    → Drawn
    → Action Response Response
request_body now ids task session input changed_files saving drawn = do
  assert_at_most_one_active_review task.id
  saved ← lift saving
  previous ← select (λ s. latest_review task.id s.reviews)
  supersede now previous
  insert_artifact (new_artifact now ids task session input saved)
  insert_review (new_review now ids task session input changed_files saved previous)
  insert_evidence now ids.evidence_id 0 ids.review_id input.test_evidence
  start_if_claimed now task.id
  current ← get_task task.id
  throw_if (not (can_transition current.status review_pending)) invalid_transition
  modify λ s. record s {
    tasks = update task_key task.id (request_row now input) s.tasks;
    agent_sessions =
        update session_key session.id (set_review_work (some ids.review_id) waiting_for_peer)
          s.agent_sessions;
  }
  emit now (record {
    project_id = task.project_id;
    type = "review.requested";
    actor_type = agent;
    actor_id = session.agent_id;
    aggregate_type = "review";
    aggregate_id = ids.review_id;
    causation_id = none;
    correlation_id = some task.id;
    payload =
        review_requested task.id
          (new_review now ids task session input changed_files saved previous);
  })
  _ ← recompute_progress now task.id
  row ← review_row ids.review_id
  _ ← post_message now task.project_id (request_message task session input row) drawn
  pure (review_response row)

-- `cachedResponse.id`
abbrev pub review_id_of : Response → Option ℕ
review_id_of (review_response r) = some r.id
review_id_of _ = none

-- The check of a replayed request: the session still owns the task, and the cached review is still
-- its latest active one.
unfoldable pub request_replay : ℕ → RequestInput → Response → Action Response (Unit {0})
request_replay task_id input cached = do
  task ← get_task task_id
  session ← get_open_session input.session_id
  throw_if
      (not
        (task.project_id == session.project_id && opt_eq task.owner_session_id (some session.id)))
      (forbidden "Only the live task owner can replay a review request")
  review_id ← or_throw (review_id_of cached) (conflict "Cached review request is invalid")
  review ← get_review review_id
  throw_if
      (not (
        review.task_id == task.id
        && review.project_id == task.project_id
        && review.author_session_id == session.id
        && str_eq review.reviewer_agent_id input.reviewer_agent_id))
      (conflict "Cached review request no longer matches the live task owner")
  assert_latest_active_review review.row is_active

abbrev pub request_options : ℕ → RequestInput → String → MutationOptions Response
request_options task_id input fingerprint = record {
  request_fingerprint = some fingerprint;
  validate_replay = request_replay task_id input;
}

-- `snapshot` is what resolveProjectRoot and createReviewPatch give, the changed files or an error, and
-- `saving` what saveArtifact gives.
unfoldable pub request_review :
    ℕ
    → RequestIds
    → ℕ
    → RequestInput
    → Result (List String)
    → Result SavedArtifact
    → Drawn
    → String
    → Action Response Response
request_review now ids task_id input snapshot saving drawn fingerprint = do
  task ← get_task task_id
  session ← get_open_session input.session_id
  throw_if (not (opt_eq task.owner_session_id (some session.id)))
      (forbidden "Only the task owner can request review")
  todos ← select (λ s. list_todos task_id s.todo_items)
  throw_if (is_nonempty (keep is_incomplete todos))
      (conflict "All non-skipped TODO items must be complete before review")
  changed_files ← lift snapshot
  mutate now task.project_id input.idempotency_key "review.request"
      (request_body now ids task.row session input changed_files saving drawn)
      (request_options task_id input fingerprint)
