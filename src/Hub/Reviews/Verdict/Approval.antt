-- ===== src/Hub/Reviews/Verdict/Approval.antt =====
-- apps/hub/src/services/store/reviews.ts, submitReviewVerdict with APPROVED: when an approval stands.

use mathlib.Core.Option.{some-injective}
use ayanami_agent_hub.Base.{ℕ, ◌≡◌, sym, subst, ◌∙◌, some}
use ayanami_agent_hub.Base.Table.{find}
use ayanami_agent_hub.Hub.Rows.{TaskRow, ReviewRow, SessionRow}
use ayanami_agent_hub.Hub.Context.{Hub, ok}
use ayanami_agent_hub.Hub.Context.Steps.{throw_if-then, modify-then, emit-then, step-then}
use ayanami_agent_hub.Hub.Context.Readers.{read-then}
use ayanami_agent_hub.Hub.Tasks.{Response}
use ayanami_agent_hub.Hub.Tasks.Todos.Laws.{recompute_progress-then}
use ayanami_agent_hub.Hub.Messages.{Drawn}
use ayanami_agent_hub.Hub.Reviews.{review_key}
use ayanami_agent_hub.Hub.Reviews.Verdict.{approve, VerdictInput, is_in_review, verdict_body}
use ayanami_agent_hub.Hub.Reviews.Verdict.Laws.{MayJudge, verdict_body-known}
use ayanami_agent_hub.Hub.Reviews.Guards.{get_review-then, reviewer-then, latest-then}
use ayanami_agent_hub.Hub.Reviews.Blind.{author-IsReader}
use ayanami_agent_hub.Hub.Reviews.Verdict.Approved.{IsApproved, apply-known, ending, assemble}

module _ (now review_id : ℕ) (input : VerdictInput) (drawn : Drawn) (h h' : Hub Response)
    (r : Response) (approval : input.verdict ≡ approve)
    (ran : verdict_body now review_id input drawn h ≡ (ok r, h')) where
  approval-known :
      (row : ReviewRow) × (session : SessionRow) × (task : TaskRow) × (find review_key review_id
          h.store.reviews
        ≡ some row)
      × IsApproved h.store h'.store now review_id input row task
  unfolding verdict_body
  approval-known = get_review-then h review_id _ ran λ row found e.
      reviewer-then h row input.session_id _ e λ session assigned e.
        latest-then h row is_in_review _ e λ only passed e. throw_if-then h _ _ _ e λ unchanged e.
          throw_if-then h _ _ _ e λ clear e.
            read-then h _ _ (author-IsReader row) e λ author read e. modify-then h _ _ e λ e.
              step-then _ _ _ e λ _ h₁ applied e. emit-then h₁ now _ _ e λ event h₂ kept same e.
                recompute_progress-then h₂ now row.task_id _ e λ last known e.
                  let (judged_task, there, complete, e₁) =
                    apply-known now review_id row.task_id author session.id input.verdict _ h₁
                      approval applied in
                  let (task, approved) =
                    assemble now review_id input row h.store h₁.store h₂.store h'.store judged_task
                      last approval found there complete e₁ kept known
                      (ending now review_id row.project_id _ drawn _ h' r e) in
                  (row, session, task, found, approved)

  -- An approval stands only if the session is open, in the project of the review and its assigned
  -- reviewer's, the review is IN_REVIEW, at the expected version and the only active one of its task,
  -- none of its blocking findings is open, and the task passes the completion gate. Then the review is
  -- APPROVED, its task is DONE, and the stored progress of the task is what its checklist and its
  -- latest review give after it. The checklist and the findings are as before, and of the reviews only this
  -- one has changed.
  pub approval_lem :
      (row : ReviewRow) × (session : SessionRow) × (task : TaskRow) × MayJudge h.store review_id
        input row session
      × IsApproved h.store h'.store now review_id input row task
  approval_lem =
      let (row, session, may, _) = verdict_body-known now review_id input drawn h h' r ran in
      let (row', _, task, found, approved) = approval-known in
      (
        row,
        session,
        task,
        may,
        subst (λ (x : ReviewRow). IsApproved h.store h'.store now review_id input x task)
            (some-injective row' row (sym found ∙ may.found)) approved,
      )
