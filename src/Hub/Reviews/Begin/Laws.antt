-- ===== src/Hub/Reviews/Begin/Laws.antt =====
-- apps/hub/src/services/store/reviews.ts, beginReview: when a review begins, and what that changes.
use mathlib.Core.Option
use mathlib.Core.Option.{some-injective}
use ayanami_agent_hub.Base.{
  ◌⊎◌, inl, inr, ℕ, ◌+◌, ◌≡◌, refl, sym, ap, ◌∙◌, true, false, some, arith,
}
use ayanami_agent_hub.Base.Table.{find, update, find-update}
use ayanami_agent_hub.Protocol.Task.{TaskStatus, can_transition}
use ayanami_agent_hub.Hub.Rows.{
  TaskRow, ReviewRow, ReviewStatus, pending, delivered, in_review, SessionRow, ProjectRow,
  reviewing,
}
use ayanami_agent_hub.Hub.Context.{Hub, Store, ok}
use ayanami_agent_hub.Hub.Context.Steps.{throw_if-then, modify-then, emit-then, pure-then}
use ayanami_agent_hub.Hub.Context.Succeeds.{
  Succeeds, after, after_throw_if, after_modify, after_emit, pure_succeeds,
}
use ayanami_agent_hub.Hub.Sessions.{session_key}
use ayanami_agent_hub.Hub.Tasks.{Response, review_response, task_key}
use ayanami_agent_hub.Hub.Reviews.{review_key}
use ayanami_agent_hub.Hub.Reviews.Begin.{
  BeginInput, is_waiting, set_review_status, set_task_status, begin_body,
}
use ayanami_agent_hub.Hub.Reviews.Guards.{
  IsReviewer, IsOnly, get_review-then, reviewer-then, latest-then, review_row-then,
  get_review-found, reviewer-passes, latest-passes, review_row-found,
}
use ayanami_agent_hub.Hub.Reviews.Turns.{Turn, moved, passes}

is_waiting-cases : (s : ReviewStatus) → is_waiting s ≡ true → (s ≡ pending) ⊎ (s ≡ delivered)
is_waiting-cases s h = ground arith

-- The three tables after a review has begun; no other row of them differs.
pub record IsBegun (s s' : Store Response) (now review_id task_id : ℕ) (session : SessionRow)
    : Type 0 where
  pub reviews :
      s'.reviews
      ≡ update review_key review_id
          (λ (r : ReviewRow). record r {
            status = in_review;
            version = r.version + 1;
            updated_at = now;
          })
          s.reviews
  pub tasks :
      s'.tasks
      ≡ update task_key task_id
          (λ (t : TaskRow). record t {
            status = TaskStatus.in_review;
            version = t.version + 1;
            updated_at = now;
          })
          s.tasks
  pub sessions :
      s'.agent_sessions
      ≡ update session_key session.id
          (λ (x : SessionRow). record x {
            work_state = reviewing;
            current_review_id = some review_id;
            version = x.version + 1;
          })
          s.agent_sessions

-- A review that begins is the only active one of its task, PENDING or DELIVERED, at the expected
-- version, and the session is open, in its project and its assigned reviewer's. Then the review and
-- its task are IN_REVIEW, each at its next version, the session is REVIEWING it, no other review, task
-- or session has changed, and the answer is the review.
pub begin_body_lem :
    (now review_id : ℕ) (review : ReviewRow) (input : BeginInput) (h h' : Hub Response)
    (r : Response)
    → begin_body now review_id review input h ≡ (ok r, h')
    → (row : ReviewRow) × (session : SessionRow) × (find review_key review_id h.store.reviews
        ≡ some row)
      × IsReviewer h.store row input.session_id session
      × IsOnly h.store row
      × ((row.status ≡ pending) ⊎ (row.status ≡ delivered))
      × (row.version ≡ input.expected_version)
      × IsBegun h.store h'.store now review_id review.task_id session
      × (r
          ≡ review_response
              (record row { status = in_review; version = row.version + 1; updated_at = now }))
unfolding begin_body
begin_body_lem now review_id review input h h' r e = get_review-then h review_id _ e λ row found e.
    reviewer-then h row input.session_id _ e λ session assigned e.
      latest-then h row is_waiting _ e λ only waiting e. throw_if-then h _ _ _ e λ unchanged e.
        modify-then h _ _ e λ e. emit-then _ now _ _ e λ event h₁ kept same e.
          review_row-then h₁ review_id _ e λ row' found' e.
            let (answer, end) = pure-then h₁ _ e in
            let table = ap (λ (s : Store Response). s.reviews) kept in
            (
              row,
              session,
              found,
              assigned,
              only,
              is_waiting-cases row.status waiting,
              ground arith,
              record {
                reviews = ap (λ (k : Hub Response). k.store.reviews) (sym end) ∙ table;
                tasks =
                    ap (λ (k : Hub Response). k.store.tasks) (sym end)
                    ∙ ap (λ (s : Store Response). s.tasks) kept;
                sessions =
                    ap (λ (k : Hub Response). k.store.agent_sessions) (sym end)
                    ∙ ap (λ (s : Store Response). s.agent_sessions) kept;
              },
              sym answer
                  ∙ ap review_response (
                      some-injective row' (set_review_status now in_review row) (
                        sym found'
                        ∙ ap (find review_key review_id) table
                        ∙ find-update review_key (set_review_status now in_review) (λ x. refl)
                            review_id h.store.reviews
                        ∙ ap (Option.map (set_review_status now in_review)) found)),
            )

is_waiting-passes : (s : ReviewStatus) → (s ≡ pending) ⊎ (s ≡ delivered) → passes s in_review ≡ true
is_waiting-passes s (inl e) = ground arith
is_waiting-passes s (inr e) = ground arith

cases-is_waiting : (s : ReviewStatus) → (s ≡ pending) ⊎ (s ≡ delivered) → is_waiting s ≡ true
cases-is_waiting s (inl e) = ap is_waiting e
cases-is_waiting s (inr e) = ap is_waiting e

pub begin_body-Turn :
    (now review_id : ℕ) (review : ReviewRow) (input : BeginInput) (h h' : Hub Response)
    (r : Response)
    → begin_body now review_id review input h ≡ (ok r, h')
    → Turn h.store.reviews h'.store.reviews
begin_body-Turn now review_id review input h h' r e =
    let (row, session, found, _, _, waiting, _, begun, _) =
      begin_body_lem now review_id review input h h' r e in
    moved review_id (set_review_status now in_review) row (λ x. refl) found
      (is_waiting-passes row.status waiting) refl begun.reviews

-- The review, the session, the project and the task with which a review may begin.
pub record MayBegin (s : Store Response) (review_id : ℕ) (input : BeginInput) (row : ReviewRow)
    (session : SessionRow) (project : ProjectRow) : Type 0 where
  pub found : find review_key review_id s.reviews ≡ some row
  pub assigned : IsReviewer s row input.session_id session
  pub only : IsOnly s row
  pub waiting : (row.status ≡ pending) ⊎ (row.status ≡ delivered)
  pub unchanged : row.version ≡ input.expected_version
  pub in_project : find (λ (p : ProjectRow). p.id) row.project_id s.projects ≡ some project

module _ (now review_id : ℕ) (input : BeginInput) (h : Hub Response) (row : ReviewRow)
    (session : SessionRow) (project : ProjectRow)
    (may : MayBegin h.store review_id input row session project) where
  -- Such a review begins.
  begin_succeeds : Succeeds (begin_body now review_id row input h)
  unfolding begin_body
  begin_succeeds = after h _ _ _ h (get_review-found h review_id row may.found) (
      after h _ _ _ h (reviewer-passes h row input.session_id session may.assigned) (
        after h _ _ _ h
          (latest-passes h row is_waiting may.only (cases-is_waiting row.status may.waiting))
          (after_throw_if h _ _ _ (ground (arith, may.unchanged)) (
            after_modify h _ _ (
              after_emit _ now _ project _ may.in_project λ event h₁ kept.
                after h₁ _ _ (set_review_status now in_review row) h₁
                  (review_row-found h₁ review_id _ (
                    ap (λ (s : Store Response). find review_key review_id s.reviews) kept
                    ∙ find-update review_key (set_review_status now in_review) (λ x. refl) review_id
                        h.store.reviews
                    ∙ ap (Option.map (set_review_status now in_review)) may.found))
                  (pure_succeeds h₁ _))))))

  -- A waiting review begins for its reviewer whatever the status of its task is. So where
  -- TASK_TRANSITIONS has no way from that status, the task is IN_REVIEW afterwards all the same: one
  -- that was CANCELLED while its review was waiting is taken up again.
  pub begin_against_transitions :
      (task : TaskRow)
      → find task_key row.task_id h.store.tasks ≡ some task
      → can_transition task.status TaskStatus.in_review ≡ false
      → (r : Response) × (h' : Hub Response) × (begin_body now review_id row input h ≡ (ok r, h'))
        × (find task_key row.task_id h'.store.tasks
            ≡ some (record task {
              status = TaskStatus.in_review;
              version = task.version + 1;
              updated_at = now;
            }))
  begin_against_transitions task found refused =
      let (r, h', e) = begin_succeeds in
      let (_, _, _, _, _, _, _, begun, _) = begin_body_lem now review_id row input h h' r e in
      (
        r,
        h',
        e,
        ap (find task_key row.task_id) begun.tasks
            ∙ find-update task_key (set_task_status now TaskStatus.in_review) (λ x. refl)
                row.task_id h.store.tasks
            ∙ ap (Option.map (set_task_status now TaskStatus.in_review)) found,
      )
