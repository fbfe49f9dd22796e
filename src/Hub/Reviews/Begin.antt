-- ===== src/Hub/Reviews/Begin.antt =====
-- apps/hub/src/services/store/reviews.ts, beginReview.
pub mod Laws
use ayanami_agent_hub.Base.{ℕ, ◌+◌, Bool, true, false, String, Option, none, some, not, ◌==◌}
use ayanami_agent_hub.Base.Table.{update}
use ayanami_agent_hub.Protocol.Task.{TaskStatus}
use ayanami_agent_hub.Hub.Rows.{
  TaskRow, ReviewRow, ReviewStatus, pending, delivered, in_review, SessionRow, WorkState, reviewing,
  agent, EventDraft, review_started,
}
use ayanami_agent_hub.Hub.Context.{
  Action, conflict, throw_if, modify, pure, ◌>>=◌, ◌>>◌, emit, mutate,
}
use ayanami_agent_hub.Hub.Sessions.{session_key}
use ayanami_agent_hub.Hub.Tasks.{Response, review_response, task_key}
use ayanami_agent_hub.Hub.Reviews.{
  review_key, get_review, assigned_reviewer_session, assert_latest_active_review, review_row,
  validated,
}

pub record BeginInput : Type 0 where
  pub session_id : ℕ
  pub expected_version : ℕ
  pub idempotency_key : String

-- `["PENDING", "DELIVERED"]`
abbrev pub is_waiting : ReviewStatus → Bool
is_waiting pending = true
is_waiting delivered = true
is_waiting _ = false

abbrev pub set_review_status : ℕ → ReviewStatus → ReviewRow → ReviewRow
set_review_status now status r = record r {
  status = status;
  version = r.version + 1;
  updated_at = now;
}

abbrev pub set_task_status : ℕ → TaskStatus → TaskRow → TaskRow
set_task_status now status t = record t {
  status = status;
  version = t.version + 1;
  updated_at = now;
}

-- UPDATE agent_sessions SET work_state = ?, current_review_id = ?, version = version + 1
abbrev pub set_review_work : Option ℕ → WorkState → SessionRow → SessionRow
set_review_work review_id state s = record s {
  work_state = state;
  current_review_id = review_id;
  version = s.version + 1;
}

unfoldable pub begin_body : ℕ → ℕ → ReviewRow → BeginInput → Action Response Response
begin_body now review_id review input = do
  current ← get_review review_id
  session ← assigned_reviewer_session current.row input.session_id
  assert_latest_active_review current.row is_waiting
  throw_if (not (current.version == input.expected_version)) (conflict "Review version changed")
  modify λ s. record s {
    reviews = update review_key review_id (set_review_status now in_review) s.reviews;
    tasks = update task_key review.task_id (set_task_status now TaskStatus.in_review) s.tasks;
    agent_sessions =
        update session_key session.id (set_review_work (some review_id) reviewing) s.agent_sessions;
  }
  emit now (record {
    project_id = review.project_id;
    type = "review.started";
    actor_type = agent;
    actor_id = session.agent_id;
    aggregate_type = "review";
    aggregate_id = review_id;
    causation_id = none;
    correlation_id = some review.task_id;
    payload = review_started session.id;
  })
  row ← review_row review_id
  pure (review_response row)

-- A replay is checked for its reviewer.
unfoldable pub begin_replay : ℕ → BeginInput → Action Response (Unit {0})
begin_replay review_id input = do
  current ← get_review review_id
  _ ← assigned_reviewer_session current.row input.session_id
  pure tt

unfoldable pub begin_review : ℕ → ℕ → BeginInput → String → Action Response Response
begin_review now review_id input fingerprint = do
  review ← get_review review_id
  mutate now review.project_id input.idempotency_key "review.begin"
      (begin_body now review_id review.row input)
      (validated fingerprint (begin_replay review_id input))
