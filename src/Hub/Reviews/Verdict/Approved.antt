-- ===== src/Hub/Reviews/Verdict/Approved.antt =====
-- apps/hub/src/services/store/reviews.ts, submitReviewVerdict with APPROVED: the tables after it.
use mathlib.Core.Option
use mathlib.Core.Option.{some-injective}
use ayanami_agent_hub.Base.{ℕ, ◌+◌, ◌≡◌, refl, sym, ap, subst, ◌∙◌, List, some, inl, inr}
use ayanami_agent_hub.Base.Members.{update-found}
use ayanami_agent_hub.Base.Table.{find, update, find-update}
use ayanami_agent_hub.Protocol.Task.{TaskStatus}
use ayanami_agent_hub.Hub.Rows.{TaskRow, ReviewRow, ReviewStatus, SessionRow}
use ayanami_agent_hub.Hub.Context.{Hub, Store, ok, Result, modify, ◌>>=◌, pure}
use ayanami_agent_hub.Hub.Context.Steps.{SameTables}
use ayanami_agent_hub.Hub.Context.Readers.{read-then}
use ayanami_agent_hub.Hub.Context.Blind.{IsReader-IsBlind, pure-IsBlind, >>=-IsBlind, blind_end}
use ayanami_agent_hub.Hub.Tasks.{Response, review_response, task_key}
use ayanami_agent_hub.Hub.Tasks.Reads.{get_task-then}
use ayanami_agent_hub.Hub.Tasks.Progress.{progress_in, set_progress}
use ayanami_agent_hub.Hub.Tasks.Progress.Gate.{IsComplete, completion_gate_iff}
use ayanami_agent_hub.Hub.Messages.{PostInput, Drawn, post_message}
use ayanami_agent_hub.Hub.Messages.Blind.{but_messages, post_message-Silent}
use ayanami_agent_hub.Hub.Reviews.{review_key, review_row}
use ayanami_agent_hub.Hub.Reviews.Begin.{set_task_status}
use ayanami_agent_hub.Hub.Reviews.Verdict.{
  Verdict, approve, request_changes, VerdictInput, verdict_status, verdict_task_status, verdict_row,
  finish_row, apply_verdict,
}
use ayanami_agent_hub.Hub.Reviews.Verdict.Laws.{judged}
use ayanami_agent_hub.Hub.Reviews.Guards.{review_row-IsReader}
use ayanami_agent_hub.Hub.Reviews.Blind.{gate-IsReader}

modify-ran :
    (f : Store Response → Store Response) (h h' : Hub Response)
    → modify f h ≡ (ok tt, h')
    → h'.store ≡ f h.store
unfolding modify
modify-ran f h h' e = ap (λ (x : Result (Unit {0}) × Hub Response). x.1.store) (sym e)

-- What an approval does after the verdict stands.
pub apply-known :
    (now id task_id author reviewer : ℕ) (v : Verdict) (h h' : Hub Response)
    → v ≡ approve
    → apply_verdict now id task_id author reviewer v h ≡ (ok tt, h')
    → (task : TaskRow) × (find task_key task_id h.store.tasks ≡ some task)
      × IsComplete h.store task
      × (h'.store ≡ record h.store {
        tasks = update task_key task_id (finish_row now) h.store.tasks;
        agent_sessions = h'.store.agent_sessions;
      })
unfolding apply_verdict
apply-known now id task_id author reviewer approve h h' p e =
    get_task-then h task_id _ e λ task found e. read-then h _ _ (gate-IsReader task) e λ _ passed e.
      (
        task,
        found,
        (completion_gate_iff h task).0 passed,
        modify-ran _ h h' e
            ∙ ap
                (λ (ss : List SessionRow). record h.store {
                  tasks = update task_key task_id (finish_row now) h.store.tasks;
                  agent_sessions = ss;
                })
                (sym (ap (λ (s : Store Response). s.agent_sessions) (modify-ran _ h h' e))),
      )
apply-known now id task_id author reviewer request_changes h h' p e = absurd (cc)

-- The row of the task after an approval, up to its progress.
abbrev pub approved_row : ℕ → VerdictInput → TaskRow → TaskRow
approved_row now input task =
    finish_row now (set_task_status now (verdict_task_status input.verdict) task)

-- The task is DONE, and its stored progress is what its checklist and its latest review give.
pub record IsApproved (s s' : Store Response) (now review_id : ℕ) (input : VerdictInput)
    (row : ReviewRow) (task : TaskRow) : Type 0 where
  pub found : find task_key row.task_id s.tasks ≡ some task
  pub complete :
      IsComplete
        (judged now review_id row.task_id input s)
        (set_task_status now (verdict_task_status input.verdict) task)
  pub review :
      find review_key review_id s'.reviews
      ≡ some (record row {
        status = verdict_status input.verdict;
        verdict_summary = some input.summary;
        version = row.version + 1;
        updated_at = now;
      })
  pub is_approved : verdict_status input.verdict ≡ ReviewStatus.approved
  pub progress : ℕ
  pub is_done :
      find task_key row.task_id s'.tasks
      ≡ some (record task {
        status = TaskStatus.done;
        computed_progress = progress;
        version = task.version + 1 + 1;
        updated_at = now;
      })
  pub is_current : progress ≡ progress_in task s'
  pub todos : s'.todo_items ≡ s.todo_items
  pub reviews : s'.reviews ≡ (judged now review_id row.task_id input s).reviews
  pub findings : s'.review_findings ≡ s.review_findings

updated :
    (task_id : ℕ) (f : TaskRow → TaskRow) (ts : List TaskRow) (t : TaskRow)
    → ((t : TaskRow) → task_key (f t) ≡ task_key t)
    → find task_key task_id ts ≡ some t
    → find task_key task_id (update task_key task_id f ts) ≡ some (f t)
updated task_id f ts t keeps found =
    find-update task_key f keeps task_id ts ∙ ap (Option.map f) found

before-update :
    (task_id : ℕ) (f : TaskRow → TaskRow) (ts : List TaskRow) (t' : TaskRow)
    → ((t : TaskRow) → task_key (f t) ≡ task_key t)
    → find task_key task_id (update task_key task_id f ts) ≡ some t'
    → (t : TaskRow) × (find task_key task_id ts ≡ some t) × (t' ≡ f t)
before-update task_id f ts t' keeps found =
    let (t, there, was) = update-found task_key f keeps task_id task_id ts t' found in
    elim was [ inl (_, e) ↦ (t, there, e) | inr (ne, _) ↦ absurd (ne refl) ]

-- The last steps of a verdict leave the tables alone but those of messages.
pub ending :
    (now review_id project_id : ℕ) (message : ReviewRow → PostInput) (drawn : Drawn)
    (h h' : Hub Response) (r : Response)
    → (review_row review_id >>= λ row.
          post_message now project_id (message row) drawn >>= λ _. pure (review_response row))
        h
      ≡ (ok r, h')
    → but_messages h'.store ≡ but_messages h.store
ending now review_id project_id message drawn h h' r e =
    blind_end but_messages h _ _ e (IsReader-IsBlind _ _ (review_row-IsReader review_id)) λ row.
      >>=-IsBlind _ _ _ (post_message-Silent now project_id (message row) drawn)
        λ m. pure-IsBlind _ _

progress-same :
    (t t' : TaskRow) (s s' : Store Response)
    → t.id ≡ t'.id
    → t.review_required ≡ t'.review_required
    → s.todo_items ≡ s'.todo_items
    → s.reviews ≡ s'.reviews
    → s.review_findings ≡ s'.review_findings
    → progress_in t s ≡ progress_in t' s'
unfolding progress_in
progress-same t t' s s' i c a b d = rw i (rw c (rw a (rw b (rw d refl))))

-- From the tables after each step of an approval.
pub assemble :
    (now review_id : ℕ) (input : VerdictInput) (row : ReviewRow) (s s₁ s₂ s' : Store Response)
    (judged_task last : TaskRow)
    → input.verdict ≡ approve
    → find review_key review_id s.reviews ≡ some row
    → find task_key row.task_id (judged now review_id row.task_id input s).tasks ≡ some judged_task
    → IsComplete (judged now review_id row.task_id input s) judged_task
    → s₁ ≡ record (judged now review_id row.task_id input s) {
      tasks =
          update task_key row.task_id
            (finish_row now)
            (judged now review_id row.task_id input s).tasks;
      agent_sessions = s₁.agent_sessions;
    }
    → SameTables s₁ s₂
    → find task_key row.task_id s₂.tasks ≡ some last
    → but_messages s'
      ≡ but_messages (record s₂ {
        tasks = update task_key row.task_id (set_progress now (progress_in last s₂)) s₂.tasks;
      })
    → (task : TaskRow) × IsApproved s s' now review_id input row task
assemble now review_id input row s s₁ s₂ s' judged_task last approval found there complete e₁ kept
      known e =
    let judge = set_task_status now (verdict_task_status input.verdict) in
    let (task, was, same) = before-update row.task_id judge s.tasks judged_task (λ t. refl) there in
    let progress = progress_in last s₂ in
    let tasks₂ =
      ap (λ (u : Store Response). u.tasks) kept ∙ ap (λ (u : Store Response). u.tasks) e₁ in
    let finished : last ≡ approved_row now input task =
      some-injective last (approved_row now input task) (
        sym known
        ∙ ap (find task_key row.task_id) tasks₂
        ∙ updated row.task_id (finish_row now) _ (judge task) (λ t. refl)
            (updated row.task_id judge s.tasks task (λ t. refl) was)) in
    let todos =
      ap (λ (u : Store Response). u.todo_items) e
      ∙ ap (λ (u : Store Response). u.todo_items) kept
      ∙ ap (λ (u : Store Response). u.todo_items) e₁ in
    let reviews =
      ap (λ (u : Store Response). u.reviews) e
      ∙ ap (λ (u : Store Response). u.reviews) kept
      ∙ ap (λ (u : Store Response). u.reviews) e₁ in
    let findings =
      ap (λ (u : Store Response). u.review_findings) e
      ∙ ap (λ (u : Store Response). u.review_findings) kept
      ∙ ap (λ (u : Store Response). u.review_findings) e₁ in
    (
      task,
      record {
        found = was;
        complete = subst (IsComplete (judged now review_id row.task_id input s)) same complete;
        review =
            ap (find review_key review_id) reviews
            ∙ find-update review_key (verdict_row now input) (λ x. refl) review_id s.reviews
            ∙ ap (Option.map (verdict_row now input)) found;
        is_approved = ap verdict_status approval;
        progress = progress;
        is_done =
            ap (find task_key row.task_id) (ap (λ (u : Store Response). u.tasks) e)
            ∙ updated row.task_id (set_progress now progress) s₂.tasks last (λ t. refl) known
            ∙ ap (λ (t : TaskRow). some (set_progress now progress t)) finished;
        is_current =
            progress-same last task s₂ s' (ap (λ (t : TaskRow). t.id) finished)
              (ap (λ (t : TaskRow). t.review_required) finished)
              (ap (λ (u : Store Response). u.todo_items) (sym e))
              (ap (λ (u : Store Response). u.reviews) (sym e))
              (ap (λ (u : Store Response). u.review_findings) (sym e));
        todos = todos;
        reviews = reviews;
        findings = findings;
      },
    )
