-- ===== src/Hub/Calls/Turns.antt =====
-- apps/hub/src/services/store: every call makes a turn of the board of reviews.
use ayanami_agent_hub.Base.{ℕ, ◌≡◌, refl, sym, ap, subst, ◌∙◌, inl, inr, String}
use ayanami_agent_hub.Hub.Context.{
  Hub, Action, Result, ok, err, continue, monad, MutationOptions, mutate, no_options, ◌>>=◌,
}
use ayanami_agent_hub.Hub.Context.Readers.{
  IsReader, pure-IsReader, select-IsReader, or_throw-IsReader, throw_if-IsReader,
}
use ayanami_agent_hub.Hub.Context.Outcome.{inside}
use ayanami_agent_hub.Hub.Context.Blind.{IsReader-IsBlind}
use ayanami_agent_hub.Hub.Context.Cases.{mutate-Changes}
use ayanami_agent_hub.Hub.MutationAuthority.{with_fingerprint}
use ayanami_agent_hub.Hub.Tasks.{Response}
use ayanami_agent_hub.Hub.Tasks.Reads.{get_task-IsReader}
use ayanami_agent_hub.Hub.Tasks.Calls as TaskCalls
use ayanami_agent_hub.Hub.Tasks.Calls.{get_todo-IsReader}
use ayanami_agent_hub.Hub.Tasks.Ownership.{claim_task, release_task}
use ayanami_agent_hub.Hub.Tasks.Creation.{create_task}
use ayanami_agent_hub.Hub.Tasks.Split.{split_task}
use ayanami_agent_hub.Hub.Tasks.Update.{update_task}
use ayanami_agent_hub.Hub.Tasks.Todos.{create_todo, update_todo}
use ayanami_agent_hub.Hub.Tasks.Handoff.{handoff_task}
use ayanami_agent_hub.Hub.Messages.Blind.{get_open_session-IsReader}
use ayanami_agent_hub.Hub.Reviews.Guards.{get_review-IsReader}
use ayanami_agent_hub.Hub.Reviews.Blind.{Quiet, reviews_of}
use ayanami_agent_hub.Hub.Reviews.Quiet.{
  claim_body-Quiet, release_body-Quiet, create_body-Quiet, split_body-Quiet, update_body-Quiet,
  create_todo_body-Quiet, update_todo_body-Quiet, handoff_body-Quiet, create_finding_body-Quiet,
  resolve_body-Quiet,
}
use ayanami_agent_hub.Hub.Reviews.Turns.{Turn, unchanged}
use ayanami_agent_hub.Hub.Reviews.Replays.{
  get_finding-IsReader, lift-IsReader, handoff_replay-IsReader, begin_replay-IsReader,
  create_finding_replay-IsReader, resolve_replay-IsReader, verdict_replay-IsReader,
  request_replay-IsReader,
}
use ayanami_agent_hub.Hub.Reviews.Begin.{begin_review}
use ayanami_agent_hub.Hub.Reviews.Begin.Laws.{begin_body-Turn}
use ayanami_agent_hub.Hub.Reviews.Findings.{create_finding, resolve_finding}
use ayanami_agent_hub.Hub.Reviews.Verdict.{submit_review_verdict}
use ayanami_agent_hub.Hub.Reviews.Verdict.Laws.{verdict_body-Turn}
use ayanami_agent_hub.Hub.Reviews.Request.{request_review}
use ayanami_agent_hub.Hub.Reviews.Request.Laws.{request_body-Turn}
use ayanami_agent_hub.Hub.Calls.{
  Call, on_task, handoff, request, begin, find_fault, resolve, judge, run,
}

-- Where it returns, an action has made a turn.
abbrev Turns : Action Response Response → Type 0
Turns m =
    (h h' : Hub Response) (r : Response) → m h ≡ (ok r, h') → Turn h.store.reviews h'.store.reviews

-- However it ends, a call has made a turn.
abbrev IsTurn : Action Response Response → Type 0
IsTurn m = (h : Hub Response) → Turn h.store.reviews (m h).1.store.reviews

Quiet-Turns : (m : Action Response Response) → Quiet m → Turns m
Quiet-Turns m q h h' r e =
    unchanged (ap (λ (x : Result Response × Hub Response). x.1.store.reviews) (sym e) ∙ q.same h)

mutate-IsTurn :
    (now p : ℕ) (key operation : String) (action : Action Response Response)
    (options : MutationOptions Response)
    → Turns action
    → ((r : Response) → IsReader (options.validate_replay r))
    → IsTurn (mutate now p key operation action options)
mutate-IsTurn now p key operation action options turns reads h =
    elim (mutate-Changes reviews_of (λ s ps es ks. refl) now p key operation action options
      (λ r. IsReader-IsBlind _ _ (reads r)) h) [
        | inl e ↦ unchanged e
        | inr (r, h₂, ran, e) ↦ subst (Turn h.store.reviews) (sym e) (turns (inside h) h₂ r ran)
      ]

after_reading :
    {A : Type 0} (f : A → Action Response Response) (h : Hub Response) (x : Result A × Hub Response)
    → ((a : A) → IsTurn (f a))
    → x.1 ≡ h
    → Turn h.store.reviews (continue f x).1.store.reviews
unfolding continue
after_reading f h (ok a, h₁) k e =
    subst (λ (g : Hub Response). Turn g.store.reviews (f a h₁).1.store.reviews) e (k a h₁)
after_reading f h (err y, h₁) k e = unchanged (ap (λ (g : Hub Response). g.store.reviews) e)

leading :
    {A : Type 0} (m : Action Response A) (f : A → Action Response Response)
    → IsReader m
    → ((a : A) → IsTurn (f a))
    → IsTurn (m >>= f)
unfolding monad
leading m f r k h = after_reading f h (m h) k (r.reads h)

-- A mutation whose action leaves the reviews alone, and whose replays are not checked.
Quiet-plain :
    (now p : ℕ) (key operation : String) (action : Action Response Response)
    → Quiet action
    → IsTurn (mutate now p key operation action no_options)
Quiet-plain now p key operation action q =
    mutate-IsTurn now p key operation action no_options (Quiet-Turns action q)
      (λ r. pure-IsReader tt)

Quiet-fingerprint :
    (now p : ℕ) (key operation fingerprint : String) (action : Action Response Response)
    → Quiet action
    → IsTurn (mutate now p key operation action (with_fingerprint fingerprint))
Quiet-fingerprint now p key operation fingerprint action q =
    mutate-IsTurn now p key operation action (with_fingerprint fingerprint) (Quiet-Turns action q)
      (λ r. pure-IsReader tt)

task_call-IsTurn : (c : TaskCalls.Call) → IsTurn (TaskCalls.run c)
unfolding TaskCalls.run claim_task release_task create_task split_task update_task create_todo
    update_todo
task_call-IsTurn (TaskCalls.claim now task_id input) =
    leading _ _ (get_task-IsReader task_id)
      λ t. Quiet-plain now _ _ _ _ (claim_body-Quiet now task_id input)
task_call-IsTurn (TaskCalls.release now task_id input) =
    leading _ _ (get_task-IsReader task_id)
      λ t. Quiet-plain now _ _ _ _ (release_body-Quiet now task_id input)
task_call-IsTurn (TaskCalls.create now p id input actor fingerprint) =
    Quiet-fingerprint now p _ _ fingerprint _ (create_body-Quiet now p id input actor)
task_call-IsTurn (TaskCalls.split now task_id input) =
    leading _ _ (get_task-IsReader task_id)
      λ t. Quiet-plain now _ _ _ _ (split_body-Quiet now t.row input)
task_call-IsTurn (TaskCalls.change now task_id input actor fingerprint) =
    leading _ _ (get_task-IsReader task_id)
      λ t. Quiet-fingerprint now _ _ _ fingerprint _ (update_body-Quiet now task_id input actor)
task_call-IsTurn (TaskCalls.add_todo now id task_id input actor fingerprint) =
    leading _ _ (get_task-IsReader task_id) λ t.
      Quiet-fingerprint now _ _ _ fingerprint _
        (create_todo_body-Quiet now t.project_id id task_id input actor)
task_call-IsTurn (TaskCalls.change_todo now todo_id input actor fingerprint) =
    leading _ _ (get_todo-IsReader todo_id) λ row. leading _ _ (select-IsReader _) λ joined.
      leading _ _ (or_throw-IsReader joined _) λ task.
        Quiet-fingerprint now _ _ _ fingerprint _
          (update_todo_body-Quiet now task.project_id todo_id input actor)

-- However a call ends, it makes one turn of the board of reviews: it leaves the reviews alone; or it
-- moves one of them to its next version, from PENDING or DELIVERED to IN_REVIEW or from there to a
-- verdict, and changes nothing but its status, verdict, version and time; or it supersedes the latest review of a task, unless
-- that is APPROVED, and appends the next revision, which is PENDING.
pub call-Turn : (c : Call) (h : Hub Response) → Turn h.store.reviews (run c h).1.store.reviews
unfolding run handoff_task request_review begin_review create_finding resolve_finding
    submit_review_verdict
call-Turn (on_task c) = task_call-IsTurn c
call-Turn (handoff now task_id input drawn fingerprint) =
    leading _ _ (get_task-IsReader task_id) λ t. leading _ _ (get_open_session-IsReader _) λ owner.
      leading _ _ (throw_if-IsReader _ _) λ _.
        mutate-IsTurn now _ _ _ _ _
          (Quiet-Turns _ (handoff_body-Quiet now task_id _ owner input drawn))
          (λ _. handoff_replay-IsReader _ input)
call-Turn (request now ids task_id input snapshot saving drawn fingerprint) =
    leading _ _ (get_task-IsReader task_id) λ t. leading _ _ (get_open_session-IsReader _) λ s.
      leading _ _ (throw_if-IsReader _ _) λ _. leading _ _ (select-IsReader _) λ todos.
        leading _ _ (throw_if-IsReader _ _) λ _. leading _ _ (lift-IsReader snapshot) λ files.
          mutate-IsTurn now _ _ _ _ _ (request_body-Turn now ids t.row s input files saving drawn)
            (request_replay-IsReader task_id input)
call-Turn (begin now review_id input fingerprint) =
    leading _ _ (get_review-IsReader review_id) λ review.
      mutate-IsTurn now _ _ _ _ _ (begin_body-Turn now review_id review.row input)
        (λ _. begin_replay-IsReader review_id input)
call-Turn (find_fault now id review_id input fingerprint) =
    leading _ _ (get_review-IsReader review_id) λ review.
      mutate-IsTurn now _ _ _ _ _ (Quiet-Turns _ (create_finding_body-Quiet now id review_id input))
        (λ _. create_finding_replay-IsReader review_id input)
call-Turn (resolve now finding_id input fingerprint) =
    leading _ _ (get_finding-IsReader finding_id) λ row. leading _ _ (select-IsReader _) λ joined.
      leading _ _ (or_throw-IsReader joined _) λ review.
        mutate-IsTurn now _ _ _ _ _
          (Quiet-Turns _ (resolve_body-Quiet now finding_id row.review_id input))
          (λ _. resolve_replay-IsReader row.review_id input)
call-Turn (judge now review_id input drawn fingerprint) =
    leading _ _ (get_review-IsReader review_id) λ review.
      mutate-IsTurn now _ _ _ _ _ (verdict_body-Turn now review_id input drawn)
        (λ _. verdict_replay-IsReader review_id input)
