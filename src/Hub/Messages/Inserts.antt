-- ===== src/Hub/Messages/Inserts.antt =====
-- apps/hub/src/services/store/messages.ts, postMessage: the rows that it inserts.
use ayanami_agent_hub.Hub.Messages.Checks.{find_duplicate}
use ayanami_agent_hub.Hub.Messages.Inputs.{PostInput, Drawn, message_key, recipient_key}
use ayanami_agent_hub.Base.{
  ℕ, suc, Bool, true, List, [], ◌∷◌, ◌++◌, Option, some, any, is_some, ◌==◌, ◌&&◌, ◌||◌,
}
use text.Mathlib.Text.{◌==◌ as str_eq}
use ayanami_agent_hub.Base.Table.{find}
use ayanami_agent_hub.Protocol.Recipients.{Target}
use ayanami_agent_hub.Hub.MessageRows.{MessageRow, RecipientRow, RecipientState}
use ayanami_agent_hub.Hub.Context.{Action, constraint, select, throw_if, modify, pure, ◌>>=◌, ◌>>◌}
use ayanami_agent_hub.Hub.Tasks.{Response}

abbrev pub new_message : ℕ → ℕ → PostInput → Drawn → ℕ → ℕ → MessageRow
new_message now project_id input drawn thread_id sequence = record {
  id = drawn.message_id;
  project_id = project_id;
  sequence = sequence;
  thread_id = thread_id;
  reply_to = input.reply_to;
  task_id = input.task_id;
  review_id = input.review_id;
  from_agent_id = input.from_agent_id;
  from_session_id = input.from_session_id;
  type = input.type;
  priority = input.priority;
  requires_ack = input.requires_ack;
  requires_response = input.requires_response;
  content = input.content;
  dedupe_key = input.dedupe_key;
  expires_at = input.expires_at;
  created_at = now;
}

-- INSERT INTO messages; the identifier is the primary key, and a project has a dedupe key once.
unfoldable pub insert_message : MessageRow → Action Response (Unit {0})
insert_message row = do
  taken ← select (λ s. find message_key row.id s.messages)
  duplicate ← select (λ s. find_duplicate row.project_id row.dedupe_key s.messages)
  throw_if (is_some taken) (constraint "messages")
  throw_if (is_some duplicate) (constraint "messages")
  modify λ s. record s { messages = s.messages ++ row ∷ [] }

abbrev pub new_recipient : ℕ → ℕ → Target → RecipientRow
new_recipient id message_id t = record {
  id = id;
  message_id = message_id;
  recipient_agent_id = t.agent_id;
  recipient_session_id = t.session_id;
  state = RecipientState.pending;
  attempt_count = 0;
  surface_fence = 0;
}

-- Beside another row for the same agent and message the table does not take one for the same session,
-- nor one for no session or beside one for no session (UNIQUE in migrations/0001_initial.sql, the index
-- and the trigger in migrations/0005_session_surface_fences.sql).
abbrev pub sessions_clash : Option ℕ → Option ℕ → Bool
sessions_clash (some a) (some b) = a == b
sessions_clash _ _ = true

abbrev pub recipient_clashes : ℕ → Target → RecipientRow → Bool
recipient_clashes message_id t r =
    r.message_id == message_id
    && (str_eq r.recipient_agent_id t.agent_id
        && sessions_clash r.recipient_session_id t.session_id)

-- The INSERTs INTO message_recipients, the first one with the identifier `draw i`.
unfoldable pub insert_recipients : (ℕ → ℕ) → ℕ → ℕ → List Target → Action Response (Unit {0})
insert_recipients draw i message_id [] = pure tt
insert_recipients draw i message_id (t ∷ ts) = do
  refused ← select (λ s.
      is_some (find recipient_key (draw i) s.message_recipients)
      || any (recipient_clashes message_id t) s.message_recipients)
  throw_if refused (constraint "message_recipients")
  modify λ s. record s {
    message_recipients = s.message_recipients ++ new_recipient (draw i) message_id t ∷ [];
  }
  insert_recipients draw (suc i) message_id ts
