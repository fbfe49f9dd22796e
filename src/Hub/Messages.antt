-- ===== src/Hub/Messages.antt =====
-- apps/hub/src/services/store/messages.ts, postMessage without a principal: how the store itself
-- composes a message, and getMessage.
pub mod Inserts
pub mod Conversation
pub mod Checks
pub mod Inputs
pub mod Orderly
pub mod Blind
pub mod Parts
pub mod Laws
pub mod Posted
pub mod Duplicates
unfoldable pub use Inputs.*
unfoldable pub use Checks.*
unfoldable pub use Conversation.*
unfoldable pub use Inserts.*
use ayanami_agent_hub.Base.{ℕ, String, List, Option, none, some, is_some, not, keep, ◌==◌}
use ayanami_agent_hub.Base.Table.{find, update}
use ayanami_agent_hub.Protocol.Recipients.{describe_message_recipient_conflict}
use ayanami_agent_hub.Hub.Rows.{message_posted}
use ayanami_agent_hub.Hub.MessageRows.{MessageRow, RecipientRow}
use ayanami_agent_hub.Hub.Context.{
  Action, MutationOptions, not_found, forbidden, unprocessable, select, or_throw, throw_if, modify,
  pure, ◌>>=◌, ◌>>◌, emit, mutate,
}
use ayanami_agent_hub.Hub.MutationAuthority.{MutationActor, resolve_session_mutation_actor}
use ayanami_agent_hub.Hub.Tasks.{Response, posted_response}

unfoldable pub write_message : ℕ → ℕ → PostInput → Drawn → MutationActor → Action Response Response
write_message now project_id input drawn actor = do
  check_recipients project_id input.recipients
  thread_id ← open_thread now project_id input drawn input.thread_id
  event ← emit now (record {
    project_id = project_id;
    type = "message.posted";
    actor_type = actor.actor_type;
    actor_id = actor.actor_id;
    aggregate_type = "message";
    aggregate_id = drawn.message_id;
    causation_id = input.reply_to;
    correlation_id = some thread_id;
    payload = message_posted (record {
      thread_id = thread_id;
      task_id = input.task_id;
      review_id = input.review_id;
      type = input.type;
      priority = input.priority;
      requires_ack = input.requires_ack;
      requires_response = input.requires_response;
      recipients = input.recipients;
      summary = input.content.summary;
    });
  })
  insert_message (new_message now project_id input drawn thread_id event.sequence)
  insert_recipients drawn.recipient_id 0 drawn.message_id input.recipients
  modify λ s. record s {
    threads = update thread_key thread_id (advance now input (round_column input.type)) s.threads;
  }
  pure (posted_response drawn.message_id)

-- A message whose dedupe key is known is not posted again.
unfoldable pub post_unless :
    ℕ → ℕ → PostInput → Drawn → MutationActor → Option MessageRow → Action Response Response
post_unless now project_id input drawn actor (some duplicate) = pure (posted_response duplicate.id)
post_unless now project_id input drawn actor none = do
  throw_if (is_some (describe_message_recipient_conflict input.recipients))
      (unprocessable "DUPLICATE_MESSAGE_RECIPIENT")
  write_message now project_id input drawn actor

unfoldable pub post_body : ℕ → ℕ → PostInput → Drawn → MutationActor → Action Response Response
unfolding post_unless
post_body now project_id input drawn actor = do
  assert_message_sender project_id input.from_agent_id input.from_session_id
  duplicate ← select (λ s. find_duplicate project_id (truthy input.dedupe_key) s.messages)
  post_unless now project_id input drawn actor duplicate

-- The actor of a composed message is its open session.
unfoldable pub message_actor : ℕ → String → Option ℕ → Action Response MutationActor
message_actor project_id agent_id (some session_id) =
    resolve_session_mutation_actor project_id session_id agent_id
message_actor project_id agent_id none =
    or_throw none (forbidden "Trusted Agent message composition requires an open session")

abbrev pub post_options : ℕ → PostInput → Drawn → MutationOptions Response
post_options project_id input drawn = record {
  request_fingerprint = some drawn.fingerprint;
  validate_replay = λ _. assert_message_sender project_id input.from_agent_id input.from_session_id;
}

-- A `CrossAgentMessage`.
pub record Message : Type 0 where
  pub row : MessageRow
  pub recipients : List RecipientRow

unfoldable pub get_message : ℕ → Action Response Message
get_message message_id = do
  row ← select (λ s. find message_key message_id s.messages)
  found ← or_throw row (not_found "Message" message_id)
  select λ s. record {
    row = found;
    recipients = keep (λ r. r.message_id == message_id) s.message_recipients;
  }

-- `cached.messageId`
abbrev pub message_id_of : Response → Option ℕ
message_id_of (posted_response id) = some id
message_id_of _ = none

unfoldable pub post_message : ℕ → ℕ → PostInput → Drawn → Action Response Message
unfolding message_actor
post_message now project_id input drawn = do
  actor ← message_actor project_id input.from_agent_id input.from_session_id
  cached ←
      mutate now project_id input.idempotency_key "message.post"
        (post_body now project_id input drawn actor) (post_options project_id input drawn)
  id ← or_throw (message_id_of cached) (not_found "Message" drawn.message_id)
  get_message id
