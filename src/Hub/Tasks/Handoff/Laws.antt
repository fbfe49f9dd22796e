-- ===== src/Hub/Tasks/Handoff/Laws.antt =====
-- apps/hub/src/services/store/tasks.ts, handoffTask: when a task is handed off, and what that changes.
use mathlib.Core.Option
use mathlib.Core.Option.{some-injective}
use ayanami_agent_hub.Base.{
  ℕ, ◌+◌, ◌≡◌, refl, sym, ap, ◌∙◌, false, Option, none, some, arith, opt_eq, ==_iff, not,
}
use ayanami_agent_hub.Base.Table.{find, update, find-update}
use ayanami_agent_hub.Protocol.Task.{TaskStatus}
use ayanami_agent_hub.Hub.Rows.{TaskRow, SessionRow, idle}
use ayanami_agent_hub.Hub.Context.{Hub, Store, Result, ok}
use ayanami_agent_hub.Hub.Context.Steps.{
  throw_if-then, modify-then, emit-then, step-then, pure-then,
}
use ayanami_agent_hub.Hub.Sessions.{session_key}
use ayanami_agent_hub.Hub.Tasks.{Response, task_response, task_key, dependencies_for_task}
use ayanami_agent_hub.Hub.Tasks.Reads.{get_task-then, task_at}
use ayanami_agent_hub.Hub.Tasks.Handoff.{HandoffInput, handoff_row, handoff_message, handoff_body}
use ayanami_agent_hub.Hub.Messages.{Drawn, Message}
use ayanami_agent_hub.Hub.Messages.Blind.{but_messages, post_message-Silent}

-- A task that is handed off has the expected version and is the session's. Then it has no owner and is
-- WAITING_FOR_PEER for the receiver at its next version, with the summary of the handoff; the session
-- is idle and has no task, no other task or session has changed, and
-- the answer is the task as it is now.
pub handoff_body_lem :
    (now id p : ℕ) (owner : SessionRow) (input : HandoffInput) (drawn : Drawn) (h h' : Hub Response)
    (r : Response)
    → handoff_body now id p owner input drawn h ≡ (ok r, h')
    → (row : TaskRow) × (find task_key id h.store.tasks ≡ some row)
      × (row.version ≡ input.expected_version)
      × (row.owner_session_id ≡ some owner.id)
      × (h'.store.tasks
          ≡ update task_key id
              (λ (t : TaskRow). record t {
                status = TaskStatus.waiting_for_peer;
                owner_agent_id = none;
                owner_session_id = none;
                details = record t.details {
                  waiting_for = some input.to_agent_id;
                  self_reported_summary = some input.summary;
                };
                version = t.version + 1;
                updated_at = now;
              })
              h.store.tasks)
      × (h'.store.agent_sessions
          ≡ update session_key owner.id
              (λ (x : SessionRow). record x {
                current_task_id = none;
                work_state = idle;
                version = x.version + 1;
              })
              h.store.agent_sessions)
      × (r ≡ task_response (task_at h.store id (handoff_row now input row)))
unfolding handoff_body
handoff_body_lem now id p owner input drawn h h' r e = get_task-then h id _ e λ row found e.
    throw_if-then h _ _ _ e λ unchanged e. throw_if-then h _ _ _ e λ owned e.
      modify-then h _ _ e λ e. emit-then _ now _ _ e λ event h₁ kept same e.
        get_task-then h₁ id _ e λ row' found' e. step-then h₁ _ _ e λ message h₂ posted e.
          let (answer, last) = pure-then h₂ _ e in
          let silent =
            ap (λ (x : Result Message × Hub Response). but_messages x.1.store) (sym posted)
            ∙ (post_message-Silent now p (handoff_message id owner input) drawn).same h₁ in
          let end = ap (λ (k : Hub Response). but_messages k.store) (sym last) ∙ silent in
          let tasks = ap (λ (s : Store Response). s.tasks) kept in
          let handed = some-injective row' (handoff_row now input row) (
            sym found'
            ∙ ap (find task_key id) tasks
            ∙ find-update task_key (handoff_row now input) (λ t. refl) id h.store.tasks
            ∙ ap (Option.map (handoff_row now input)) found) in
          (
            row,
            found,
            ground (arith, ==_iff row.version input.expected_version),
            owner-known row.owner_session_id owner.id owned,
            ap (λ (s : Store Response). s.tasks) end ∙ tasks,
            ap (λ (s : Store Response). s.agent_sessions) end
                ∙ ap (λ (s : Store Response). s.agent_sessions) kept,
            sym answer
                ∙ ap (λ (t : TaskRow). task_response (task_at h₁.store id t)) handed
                ∙ ap
                    (λ ds. task_response (record {
                      row = handoff_row now input row;
                      depends_on = dependencies_for_task id ds;
                    }))
                    (ap (λ (s : Store Response). s.task_dependencies) kept),
          )
  where
    owner-known : (o : Option ℕ) (i : ℕ) → not (opt_eq o (some i)) ≡ false → o ≡ some i
    owner-known none i e = absurd (cc)
    owner-known (some a) i e = ground (arith, ==_iff a i)
