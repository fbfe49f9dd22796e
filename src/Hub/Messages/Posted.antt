-- ===== src/Hub/Messages/Posted.antt =====
-- apps/hub/src/services/store/messages.ts, postMessage: the tables after a message has been posted.
use ayanami_agent_hub.Base.{
  ℕ, ◌+◌, or_else, ◌≡◌, sym, ap, ◌∙◌, List, [], ◌∷◌, ◌++◌, none, some, All,
}
use ayanami_agent_hub.Base.Table.{find}
use ayanami_agent_hub.Protocol.Recipients.Laws.{Disjoint}
use ayanami_agent_hub.Hub.Rows.{ProjectRow, Event, message_posted}
use ayanami_agent_hub.Hub.MessageRows.{ThreadRow}
use ayanami_agent_hub.Hub.Context.{Store}
use ayanami_agent_hub.Hub.MutationAuthority.{MutationActor}
use ayanami_agent_hub.Hub.Tasks.{Response}
use ayanami_agent_hub.Hub.Messages.{PostInput, Drawn, message_key, new_message}
use ayanami_agent_hub.Hub.Messages.Parts.{IsAddressed, new_recipients, with_recipients}

-- The event that announces a message.
abbrev pub announcement : ℕ → ℕ → PostInput → Drawn → MutationActor → ℕ → ℕ → Event
announcement now project_id input drawn actor thread sequence = record {
  draft = record {
    project_id = project_id;
    type = "message.posted";
    actor_type = actor.actor_type;
    actor_id = actor.actor_id;
    aggregate_type = "message";
    aggregate_id = drawn.message_id;
    causation_id = input.reply_to;
    correlation_id = some thread;
    payload = message_posted (record {
      thread_id = thread;
      task_id = input.task_id;
      review_id = input.review_id;
      type = input.type;
      priority = input.priority;
      requires_ack = input.requires_ack;
      requires_response = input.requires_response;
      recipients = input.recipients;
      summary = input.content.summary;
    });
  };
  sequence = sequence;
  created_at = now;
}

-- The tables after a message has been posted, in the thread of the request or in a new one.
pub record IsPosted (s s' : Store Response) (now project_id : ℕ) (input : PostInput) (drawn : Drawn)
    (actor : MutationActor) (thread : ℕ) : Type 0 where
  pub threaded : thread ≡ or_else input.thread_id drawn.thread_id
  pub disjoint : Disjoint [] input.recipients
  pub addressed : All (IsAddressed s project_id) input.recipients
  pub fresh : find message_key drawn.message_id s.messages ≡ none
  pub project : ProjectRow
  pub found : find (λ (q : ProjectRow). q.id) project_id s.projects ≡ some project
  pub messages :
      s'.messages
      ≡ s.messages
        ++ record {
          id = drawn.message_id;
          project_id = project_id;
          sequence = project.current_sequence + 1;
          thread_id = thread;
          reply_to = input.reply_to;
          task_id = input.task_id;
          review_id = input.review_id;
          from_agent_id = input.from_agent_id;
          from_session_id = input.from_session_id;
          type = input.type;
          priority = input.priority;
          requires_ack = input.requires_ack;
          requires_response = input.requires_response;
          content = input.content;
          dedupe_key = input.dedupe_key;
          expires_at = input.expires_at;
          created_at = now;
        }
          ∷ []
  pub recipients :
      s'.message_recipients
      ≡ s.message_recipients
        ++ new_recipients drawn.recipient_id 0 drawn.message_id input.recipients
  pub events :
      s'.events
      ≡ s.events
        ++ announcement now project_id input drawn actor thread (project.current_sequence + 1) ∷ []

-- The steps put together.
pub steps-IsPosted :
    (now p : ℕ) (input : PostInput) (drawn : Drawn) (actor : MutationActor) (thread : ℕ)
    (event : Event) (project : ProjectRow) (projects : List ProjectRow) (threads : List ThreadRow)
    (s s₁ s₂ s₄ s' : Store Response)
    → Disjoint [] input.recipients
    → All (IsAddressed s p) input.recipients
    → s₁ ≡ record s { threads = s₁.threads }
    → find (λ (q : ProjectRow). q.id) p s₁.projects ≡ some project
    → event ≡ announcement now p input drawn actor thread (project.current_sequence + 1)
    → thread ≡ or_else input.thread_id drawn.thread_id
    → s₂ ≡ record s₁ { projects = projects; events = s₁.events ++ event ∷ [] }
    → find message_key drawn.message_id s₂.messages ≡ none
    → s₄
      ≡ with_recipients
          (new_recipients drawn.recipient_id 0 drawn.message_id input.recipients)
          (record s₂ {
            messages = s₂.messages ++ new_message now p input drawn thread event.sequence ∷ [];
          })
    → s' ≡ record s₄ { threads = threads }
    → IsPosted s s' now p input drawn actor thread
steps-IsPosted now p input drawn actor thread event project projects threads s s₁ s₂ s₄ s' disjoint
      addressed kept₁ found made threaded kept₂ fresh kept₄ kept' =
    record {
      threaded = threaded;
      disjoint = disjoint;
      addressed = addressed;
      fresh = ap (find message_key drawn.message_id) (sym before) ∙ fresh;
      project = project;
      found =
          ap (find (λ (q : ProjectRow). q.id) p)
            (sym (ap (λ (x : Store Response). x.projects) kept₁))
          ∙ found;
      messages =
          ap (λ (x : Store Response). x.messages) kept'
          ∙ ap (λ (x : Store Response). x.messages) kept₄
          ∙ ap (λ ms. ms ++ new_message now p input drawn thread event.sequence ∷ []) before
          ∙ ap (λ n. s.messages ++ new_message now p input drawn thread n ∷ [])
              (ap (λ (x : Event). x.sequence) made);
      recipients =
          ap (λ (x : Store Response). x.message_recipients) kept'
          ∙ ap (λ (x : Store Response). x.message_recipients) kept₄
          ∙ ap (λ rs. rs ++ new_recipients drawn.recipient_id 0 drawn.message_id input.recipients)
              (ap (λ (x : Store Response). x.message_recipients) kept₂
                ∙ ap (λ (x : Store Response). x.message_recipients) kept₁);
      events =
          ap (λ (x : Store Response). x.events) kept'
          ∙ ap (λ (x : Store Response). x.events) kept₄
          ∙ ap (λ (x : Store Response). x.events) kept₂
          ∙ ap (λ es. es ++ event ∷ []) (ap (λ (x : Store Response). x.events) kept₁)
          ∙ ap (λ (x : Event). s.events ++ x ∷ []) made;
    }
  where
    before : s₂.messages ≡ s.messages
    before =
        ap (λ (x : Store Response). x.messages) kept₂
        ∙ ap (λ (x : Store Response). x.messages) kept₁
