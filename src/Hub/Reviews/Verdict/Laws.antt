-- ===== src/Hub/Reviews/Verdict/Laws.antt =====
-- apps/hub/src/services/store/reviews.ts, submitReviewVerdict: when a verdict stands, and what it
-- means for the task.

use ayanami_agent_hub.Base.{ℕ, ◌≡◌, ap, refl, Bool, true, false, some, arith, All, ◌&&◌}
use ayanami_agent_hub.Base.Table.{find, update}
use ayanami_agent_hub.Hub.Rows.{in_review, ReviewRow, ReviewStatus, SessionRow}
use ayanami_agent_hub.Hub.Context.{Hub, Store, ok}
use ayanami_agent_hub.Hub.Context.Steps.{throw_if-then, modify-then}
use ayanami_agent_hub.Hub.Context.Readers.{read-then}
use ayanami_agent_hub.Hub.Context.Blind.{pure-IsBlind, >>=-IsBlind, >>-IsBlind, blind_end}
use ayanami_agent_hub.Hub.Tasks.{Response, task_key}
use ayanami_agent_hub.Hub.Tasks.Progress.{is_blocking}
use ayanami_agent_hub.Hub.Tasks.Progress.Gate.{keep-none}
use ayanami_agent_hub.Hub.Messages.{Drawn}
use ayanami_agent_hub.Hub.Reviews.{review_key, findings_in}
use ayanami_agent_hub.Hub.Reviews.Begin.{set_task_status}
use ayanami_agent_hub.Hub.Reviews.Verdict.{
  Verdict, verdict_status, VerdictInput, is_in_review, is_approval, verdict_task_status,
  verdict_row, verdict_body,
}
use ayanami_agent_hub.Hub.Reviews.Guards.{
  IsReviewer, IsOnly, get_review-then, reviewer-then, latest-then,
}
use ayanami_agent_hub.Hub.Reviews.Blind.{
  author-IsReader, emit-Quiet, recompute_progress-Quiet, review_row-Quiet, post_message-Quiet,
  apply_verdict-Quiet, reviews_of,
}
use ayanami_agent_hub.Hub.Reviews.Turns.{Moves, Turn, moved, passes}

-- The tables once the verdict stands in the review and in its task.
abbrev pub judged : ℕ → ℕ → ℕ → VerdictInput → Store Response → Store Response
judged now review_id task_id input s = record s {
  reviews = update review_key review_id (verdict_row now input) s.reviews;
  tasks = update task_key task_id (set_task_status now (verdict_task_status input.verdict)) s.tasks;
}

-- The review may be judged by the session.
pub record MayJudge (s : Store Response) (review_id : ℕ) (input : VerdictInput) (row : ReviewRow)
    (session : SessionRow) : Type 0 where
  pub found : find review_key review_id s.reviews ≡ some row
  pub assigned : IsReviewer s row input.session_id session
  pub only : IsOnly s row
  pub is_reviewed : row.status ≡ in_review
  pub unchanged : row.version ≡ input.expected_version
  pub clear :
      is_approval input.verdict ≡ true
      → All (λ f. is_blocking f ≡ false) (findings_in review_id s.review_findings)

ruleset quiet = (
  >>=-IsBlind, >>-IsBlind, emit-Quiet, recompute_progress-Quiet, review_row-Quiet,
  post_message-Quiet, apply_verdict-Quiet, pure-IsBlind,
)

verdict-Moves : (now : ℕ) (input : VerdictInput) → Moves (verdict_row now input)
verdict-Moves now input r = refl

is_in_review-eq : (s : ReviewStatus) → is_in_review s ≡ true → s ≡ in_review
is_in_review-eq s h = ground arith

is_in_review-passes :
    (s : ReviewStatus) (v : Verdict) → is_in_review s ≡ true → passes s (verdict_status v) ≡ true
is_in_review-passes s v h = ground arith

both-true : (a b : Bool) → (a && b) ≡ false → a ≡ true → b ≡ false
both-true a b h e = ground arith

module _ (now review_id : ℕ) (input : VerdictInput) (drawn : Drawn) (h h' : Hub Response)
    (r : Response) (ran : verdict_body now review_id input drawn h ≡ (ok r, h')) where
  -- A verdict that stands was allowed, and no other review has changed.
  pub verdict_body-known :
      (row : ReviewRow) × (session : SessionRow) × MayJudge h.store review_id input row session
      × (h'.store.reviews ≡ update review_key review_id (verdict_row now input) h.store.reviews)
  unfolding verdict_body
  verdict_body-known = get_review-then h review_id _ ran λ row found e.
      reviewer-then h row input.session_id _ e λ session assigned e.
        latest-then h row is_in_review _ e λ only passed e. throw_if-then h _ _ _ e λ unchanged e.
          throw_if-then h _ _ _ e λ clear e.
            read-then h _ _ (author-IsReader row) e λ author read e. modify-then h _ _ e λ e. (
              row,
              session,
              record {
                found = found;
                assigned = assigned;
                only = only;
                is_reviewed = is_in_review-eq row.status passed;
                unchanged = ground arith;
                clear = λ approval.
                    keep-none is_blocking (findings_in review_id h.store.review_findings)
                      (both-true (is_approval input.verdict) _ clear approval);
              },
              blind_end reviews_of _ _ _ e (apply_verdict-Quiet now review_id _ author _ _)
                  (search quiet depth 20 fits 5000),
            )

  pub verdict_body-Turn : Turn h.store.reviews h'.store.reviews
  verdict_body-Turn =
      let (row, session, may, table) = verdict_body-known in
      moved review_id (verdict_row now input) row (verdict-Moves now input) may.found
        (is_in_review-passes row.status input.verdict (ap is_in_review may.is_reviewed)) refl table
