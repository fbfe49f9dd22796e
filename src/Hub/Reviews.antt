-- ===== src/Hub/Reviews.antt =====
-- apps/hub/src/services/store/reviews.ts: a review as the store reads it, and the guards that its
-- operations share.
pub mod Begin
pub mod Findings
pub mod Verdict
pub mod Request
pub mod Guards
pub mod Blind
pub mod Quiet
pub mod Turns
pub mod Latest
pub mod Order
pub mod Lasts
pub mod Orderly
pub mod Replays
pub mod Versioned
use text.Mathlib.Text.{◌==◌ as str_eq}
use ayanami_agent_hub.Base.{
  ℕ, Bool, true, false, String, List, [], ◌∷◌, Option, none, some, keep, sort_by, ◌==◌, ◌&&◌, not,
}
use ayanami_agent_hub.Base.Table.{find}
use ayanami_agent_hub.Hub.Rows.{
  ReviewRow, ReviewStatus, pending, delivered, in_review, changes_requested, FindingRow, SessionRow,
}
use ayanami_agent_hub.Hub.Context.{
  Action, Store, MutationOptions, not_found, forbidden, conflict, throw, select, or_throw, throw_if,
  pure, ◌>>=◌, ◌>>◌,
}
use ayanami_agent_hub.Hub.Sessions.{get_open_session}
use ayanami_agent_hub.Hub.Tasks.{Response}

-- A `ReviewBundle` with its findings. The rows of its artifact and its evidence, which getReview reads
-- too, are used by no operation.
pub record Review : Type 0 where
  pub row : ReviewRow
  pub open row use *
  pub findings : List FindingRow

abbrev pub review_key : ReviewRow → ℕ
review_key r = r.id

abbrev pub finding_key : FindingRow → ℕ
finding_key f = f.id

-- SELECT * FROM review_findings WHERE review_id = ? ORDER BY created_at
abbrev pub findings_in : ℕ → List FindingRow → List FindingRow
findings_in review_id fs =
    sort_by (λ (f : FindingRow). f.details.created_at) (keep (λ f. f.review_id == review_id) fs)

unfoldable pub get_review : ℕ → Action Response Review
get_review review_id = do
  row ← select (λ s. find review_key review_id s.reviews)
  found ← or_throw row (not_found "Review" review_id)
  select λ s. record { row = found; findings = findings_in review_id s.review_findings }

-- sessionInProject
unfoldable pub session_in_project : ℕ → ℕ → Action Response SessionRow
session_in_project session_id project_id = do
  session ← get_open_session session_id
  throw_if (not (session.project_id == project_id))
      (forbidden "Session and review belong to different projects")
  pure session

-- `status IN ('PENDING', 'DELIVERED', 'IN_REVIEW', 'CHANGES_REQUESTED')`
abbrev pub is_active : ReviewStatus → Bool
is_active pending = true
is_active delivered = true
is_active in_review = true
is_active changes_requested = true
is_active _ = false

-- The active reviews of a task. Their order and the LIMIT make no difference: where there are two,
-- the caller throws.
abbrev pub active_reviews : ℕ → List ReviewRow → List ReviewRow
active_reviews task_id = keep (λ r. r.task_id == task_id && is_active r.status)

-- At most one review may be active, and it must be this one.
unfoldable pub assert_only : ReviewRow → List ReviewRow → Action Response (Unit {0})
assert_only review [] = throw (conflict "Only the latest active review can be mutated")
assert_only review (latest ∷ []) =
    throw_if (not (latest.id == review.id))
      (conflict "Only the latest active review can be mutated")
assert_only review (latest ∷ other ∷ rs) = throw (conflict "Task has multiple active reviews")

unfoldable pub assert_latest_active_review :
    ReviewRow → (ReviewStatus → Bool) → Action Response (Unit {0})
unfolding assert_only
assert_latest_active_review review allowed = do
  active ← select (λ s. active_reviews review.task_id s.reviews)
  assert_only review active
  throw_if (not (allowed review.status)) (conflict "Review cannot be mutated from its status")

abbrev pub has_two {ℓ} : {A : Type ℓ} → List A → Bool
has_two (a ∷ b ∷ xs) = true
has_two _ = false

unfoldable pub assert_at_most_one_active_review : ℕ → Action Response (Unit {0})
assert_at_most_one_active_review task_id = do
  active ← select (λ s. active_reviews task_id s.reviews)
  throw_if (has_two active) (conflict "Task has multiple active reviews")

unfoldable pub assigned_reviewer_session : ReviewRow → ℕ → Action Response SessionRow
assigned_reviewer_session review session_id = do
  session ← session_in_project session_id review.project_id
  throw_if (not (str_eq session.agent_id review.reviewer_agent_id))
      (forbidden "Session is not the assigned reviewer")
  pure session

-- The row as an operation answers it.
unfoldable pub review_row : ℕ → Action Response ReviewRow
review_row review_id = do
  row ← select (λ s. find review_key review_id s.reviews)
  or_throw row (not_found "Review" review_id)

-- Options with the digest of the request and a check of replays.
abbrev pub validated : String → Action Response (Unit {0}) → MutationOptions Response
validated fingerprint check = record {
  request_fingerprint = some fingerprint;
  validate_replay = λ _. check;
}
