-- ===== src/Hub/Scenarios/Posted.antt =====
-- apps/hub/src/services/store/messages.ts, and handoffTask of tasks.ts, on the small database: session 3
-- writes to the agent of session 4, and hands its task off to it.
use ayanami_agent_hub.Base.{◌+◌, true, ◌≡◌, refl, ◌⊎◌, ℕ, false, [], ◌∷◌, none, some}
use ayanami_agent_hub.Protocol.Push.{important}
use ayanami_agent_hub.Protocol.Task.{TaskStatus, in_progress}
use ayanami_agent_hub.Hub.Rows.{ReviewStatus}
use ayanami_agent_hub.Hub.MessageRows.{MessageRow, proposal}
use ayanami_agent_hub.Hub.Context.{Hub, ok}
use ayanami_agent_hub.Hub.Tasks.{Response, posted_response}
use ayanami_agent_hub.Hub.Messages.{PostInput, post_body}
use ayanami_agent_hub.Hub.Messages.Duplicates.{IsDuplicate, IsUnused}
use ayanami_agent_hub.Hub.Messages.Laws.{IsSender, post_body_lem}
use ayanami_agent_hub.Hub.Messages.Posted.{IsPosted}
use ayanami_agent_hub.Base.Table.{find, update}
use ayanami_agent_hub.Hub.Rows.{TaskRow, SessionRow, idle}
use ayanami_agent_hub.Hub.Sessions.{session_key}
use ayanami_agent_hub.Hub.Tasks.{task_response, task_key}
use ayanami_agent_hub.Hub.Tasks.Reads.{task_at}
use ayanami_agent_hub.Hub.Tasks.Handoff.{HandoffInput, handoff_row, handoff_body}
use ayanami_agent_hub.Hub.Tasks.Handoff.Laws.{handoff_body_lem}
use ayanami_agent_hub.Hub.Scenarios.{row, session}
use ayanami_agent_hub.Hub.Scenarios.Checklists.{actor}
use ayanami_agent_hub.Hub.Scenarios.Reviewed.{review_calls, reviewing_hub, drawn}

abbrev pub proposing : PostInput
proposing = record {
  thread_id = none;
  subject = some "plan";
  reply_to = none;
  task_id = some 7;
  review_id = none;
  from_agent_id = "codex";
  from_session_id = some 3;
  recipients = record { agent_id = "claude"; session_id = some 4 } ∷ [];
  type = proposal;
  priority = important;
  requires_ack = false;
  requires_response = false;
  content = record { summary = "split the parser"; detail = none; references = [] };
  dedupe_key = some "plan-1";
  expires_at = none;
  idempotency_key = "p1";
}

abbrev pub talking_hub : Hub Response
talking_hub = reviewing_hub in_progress ReviewStatus.pending

abbrev pub within_post : Hub Response
within_post = (post_body 9 1 proposing drawn actor talking_hub).1

post_body_lem_example :
    IsSender talking_hub.store 1 "codex" (some 3)
    × (((m : MessageRow) × IsDuplicate 1 (some "plan-1") talking_hub.store.messages m
          × (posted_response 70 ≡ posted_response m.id)
          × (within_post.store ≡ talking_hub.store))
        ⊎ (IsUnused 1 (some "plan-1") talking_hub.store.messages
            × (posted_response 70 ≡ posted_response 70)
            × ((thread : ℕ) × IsPosted talking_hub.store within_post.store 9 1 proposing drawn actor
                  thread)))
unfolding review_calls
post_body_lem_example =
    post_body_lem 9 1 proposing drawn actor talking_hub within_post (posted_response 70) refl

-- The same message again, under its dedupe key, is the one that is there.
posted_once : (post_body 12 1 proposing drawn actor within_post).0 ≡ ok (posted_response 70)
unfolding review_calls
posted_once = refl

abbrev pub handing : HandoffInput
handing = record {
  session_id = 3;
  expected_version = 0;
  to_agent_id = "claude";
  summary = "the lexer is done";
  idempotency_key = "h1";
}

abbrev pub in_hand : TaskRow
in_hand = record (row 7 in_progress (some 3)) { review_required = true }

abbrev pub within_handoff : Hub Response
within_handoff = (handoff_body 9 7 1 session handing drawn talking_hub).1

handoff_body_lem_example :
    (t : TaskRow) × (find task_key 7 talking_hub.store.tasks ≡ some t)
    × (t.version ≡ 0)
    × (t.owner_session_id ≡ some 3)
    × (within_handoff.store.tasks
        ≡ update task_key 7
            (λ (t : TaskRow). record t {
              status = TaskStatus.waiting_for_peer;
              owner_agent_id = none;
              owner_session_id = none;
              details = record t.details {
                waiting_for = some "claude";
                self_reported_summary = some "the lexer is done";
              };
              version = t.version + 1;
              updated_at = 9;
            })
            talking_hub.store.tasks)
    × (within_handoff.store.agent_sessions
        ≡ update session_key 3
            (λ (x : SessionRow). record x {
              current_task_id = none;
              work_state = idle;
              version = x.version + 1;
            })
            talking_hub.store.agent_sessions)
    × (task_response (task_at talking_hub.store 7 (handoff_row 9 handing in_hand))
        ≡ task_response (task_at talking_hub.store 7 (handoff_row 9 handing t)))
unfolding review_calls handoff_body
handoff_body_lem_example =
    handoff_body_lem 9 7 1 session handing drawn talking_hub within_handoff
      (task_response (task_at talking_hub.store 7 (handoff_row 9 handing in_hand))) refl
