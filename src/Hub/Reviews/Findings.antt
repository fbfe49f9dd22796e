-- ===== src/Hub/Reviews/Findings.antt =====
-- apps/hub/src/services/store/reviews.ts, createFinding and resolveFinding.
use text.Mathlib.Text.{◌==◌ as str_eq}
use ayanami_agent_hub.Base.{
  ℕ, Bool, true, false, String, List, [], ◌∷◌, ◌++◌, Option, none, some, is_some, not, ◌&&◌,
}
use ayanami_agent_hub.Base.Table.{find, update}
use ayanami_agent_hub.Protocol.Progress.{FindingStatus, opened, is_settled}
use ayanami_agent_hub.Hub.Rows.{
  ReviewRow, Severity, info, FindingRow, SessionRow, agent, finding_created, finding_updated,
}
use ayanami_agent_hub.Hub.Context.{
  Action, not_found, forbidden, constraint, unprocessable, select, or_throw, throw_if, modify, pure,
  ◌>>=◌, ◌>>◌, emit, mutate,
}
use ayanami_agent_hub.Hub.Tasks.{Response, finding_response}
use ayanami_agent_hub.Hub.Tasks.Progress.{is_nonempty, recompute_progress}
use ayanami_agent_hub.Hub.Reviews.{
  finding_key, get_review, session_in_project, is_active, assert_latest_active_review,
  assigned_reviewer_session, validated,
}

pub record FindingInput : Type 0 where
  pub session_id : ℕ
  pub severity : Severity
  pub category : String
  pub title : String
  pub claim : String
  pub impact : String
  pub file_path : Option String
  pub line_start : Option ℕ
  pub line_end : Option ℕ
  pub symbol : Option String
  pub evidence : List String
  pub suggested_direction : Option String
  pub idempotency_key : String

abbrev pub is_info : Severity → Bool
is_info info = true
is_info _ = false

-- `severity === "blocking"`
abbrev pub blocks : Severity → Bool
blocks Severity.blocking = true
blocks _ = false

-- A text that is missing or empty counts as none.
abbrev pub is_given : Option String → Bool
is_given none = false
is_given (some t) = not (str_eq t "")

-- A finding that is no information needs a location or evidence.
abbrev pub lacks_evidence : FindingInput → Bool
lacks_evidence input =
    not (is_info input.severity)
    && not (is_given input.file_path)
    && not (is_given input.symbol)
    && not (is_nonempty input.evidence)

abbrev pub new_finding : ℕ → ℕ → ℕ → FindingInput → FindingRow
new_finding now id review_id input = record {
  id = id;
  review_id = review_id;
  details = record {
    severity = input.severity;
    category = input.category;
    title = input.title;
    claim = input.claim;
    impact = input.impact;
    file_path = input.file_path;
    line_start = input.line_start;
    line_end = input.line_end;
    symbol = input.symbol;
    evidence = input.evidence;
    suggested_direction = input.suggested_direction;
    created_at = now;
  };
  blocking = blocks input.severity;
  status = opened;
  resolution = none;
  updated_at = now;
}

unfoldable pub insert_finding : FindingRow → Action Response (Unit {0})
insert_finding row = do
  taken ← select (λ s. find finding_key row.id s.review_findings)
  throw_if (is_some taken) (constraint "review_findings")
  modify λ s. record s { review_findings = s.review_findings ++ row ∷ [] }

unfoldable pub get_finding : ℕ → Action Response FindingRow
get_finding id = do
  row ← select (λ s. find finding_key id s.review_findings)
  or_throw row (not_found "Finding" id)

unfoldable pub create_finding_body : ℕ → ℕ → ℕ → FindingInput → Action Response Response
create_finding_body now id review_id input = do
  current ← get_review review_id
  session ← assigned_reviewer_session current.row input.session_id
  assert_latest_active_review current.row is_active
  throw_if (lacks_evidence input) (unprocessable "FINDING_EVIDENCE_REQUIRED")
  insert_finding (new_finding now id review_id input)
  emit now (record {
    project_id = current.project_id;
    type = "review.finding.created";
    actor_type = agent;
    actor_id = session.agent_id;
    aggregate_type = "finding";
    aggregate_id = id;
    causation_id = none;
    correlation_id = some review_id;
    payload = finding_created current.task_id (new_finding now id review_id input);
  })
  _ ← recompute_progress now current.task_id
  row ← get_finding id
  pure (finding_response row)

-- The check of a replayed createFinding.
unfoldable pub create_finding_replay : ℕ → FindingInput → Action Response (Unit {0})
create_finding_replay review_id input = do
  current ← get_review review_id
  _ ← assigned_reviewer_session current.row input.session_id
  assert_latest_active_review current.row is_active

unfoldable pub create_finding : ℕ → ℕ → ℕ → FindingInput → String → Action Response Response
create_finding now id review_id input fingerprint = do
  review ← get_review review_id
  mutate now review.project_id input.idempotency_key "finding.create"
      (create_finding_body now id review_id input)
      (validated fingerprint (create_finding_replay review_id input))

pub data Resolution : Type 0 where
  accepted disputed fixed verified wont_fix : Resolution

abbrev pub resolution_status : Resolution → FindingStatus
resolution_status Resolution.accepted = FindingStatus.accepted
resolution_status Resolution.disputed = FindingStatus.disputed
resolution_status Resolution.fixed = FindingStatus.fixed
resolution_status Resolution.verified = FindingStatus.verified
resolution_status Resolution.wont_fix = FindingStatus.wont_fix

pub record ResolveInput : Type 0 where
  pub session_id : ℕ
  pub status : Resolution
  pub resolution : String
  pub idempotency_key : String

-- assertFindingResolutionRole, by whether the status is VERIFIED or WONT_FIX.
unfoldable pub assert_resolution_role : SessionRow → ReviewRow → Bool → Action Response (Unit {0})
assert_resolution_role session review true =
    throw_if (not (str_eq session.agent_id review.reviewer_agent_id))
      (forbidden "Only the reviewer can verify or waive a finding")
assert_resolution_role session review false =
    throw_if (not (str_eq session.agent_id review.author_agent_id))
      (forbidden "Only the author can respond to this finding")

abbrev pub resolve_row : ℕ → ResolveInput → FindingRow → FindingRow
resolve_row now input f = record f {
  status = resolution_status input.status;
  resolution = some input.resolution;
  updated_at = now;
}

unfoldable pub resolve_body : ℕ → ℕ → ℕ → ResolveInput → Action Response Response
resolve_body now finding_id review_id input = do
  current ← get_review review_id
  session ← session_in_project input.session_id current.project_id
  assert_latest_active_review current.row is_active
  assert_resolution_role session current.row (is_settled (resolution_status input.status))
  modify λ s. record s {
    review_findings = update finding_key finding_id (resolve_row now input) s.review_findings;
  }
  emit now (record {
    project_id = current.project_id;
    type = "review.finding.updated";
    actor_type = agent;
    actor_id = session.agent_id;
    aggregate_type = "finding";
    aggregate_id = finding_id;
    causation_id = none;
    correlation_id = some current.id;
    payload = finding_updated (resolution_status input.status) input.resolution;
  })
  _ ← recompute_progress now current.task_id
  row ← get_finding finding_id
  pure (finding_response row)

-- The check of a replayed resolveFinding.
unfoldable pub resolve_replay : ℕ → ResolveInput → Action Response (Unit {0})
resolve_replay review_id input = do
  current ← get_review review_id
  session ← session_in_project input.session_id current.project_id
  assert_latest_active_review current.row is_active
  assert_resolution_role session current.row (is_settled (resolution_status input.status))

-- The finding is joined with its review, so a finding without one is not found.
unfoldable pub resolve_finding : ℕ → ℕ → ResolveInput → String → Action Response Response
resolve_finding now finding_id input fingerprint = do
  row ← get_finding finding_id
  joined ← select (λ s. find (λ (r : ReviewRow). r.id) row.review_id s.reviews)
  review ← or_throw joined (not_found "Finding" finding_id)
  mutate now review.project_id input.idempotency_key "finding.resolve"
      (resolve_body now finding_id row.review_id input)
      (validated fingerprint (resolve_replay row.review_id input))
