-- ===== src/Hub/Messages/Blind.antt =====
-- apps/hub/src/services/store/messages.ts: posting a message changes the tables of messages alone.
use ayanami_agent_hub.Base.{ℕ, suc, refl, List, [], ◌∷◌, Option, none, some, String}
use ayanami_agent_hub.Protocol.Recipients.{Target}
use ayanami_agent_hub.Hub.MessageRows.{MessageRow}
use ayanami_agent_hub.Hub.Rows.{EventDraft}
use ayanami_agent_hub.Hub.Context.{Action, Store, emit}
use ayanami_agent_hub.Hub.Context.Readers.{
  IsReader, pure-IsReader, select-IsReader, or_throw-IsReader, throw_if-IsReader, >>=-IsReader,
}
use ayanami_agent_hub.Hub.Context.Blind.{
  IsBlind, IsReader-IsBlind, pure-IsBlind, select-IsBlind, or_throw-IsBlind, throw_if-IsBlind,
  modify-IsBlind, >>=-IsBlind, >>-IsBlind, emit-IsBlind, mutate-IsBlind,
}
use ayanami_agent_hub.Hub.MutationAuthority.{MutationActor, resolve_session_mutation_actor}
use ayanami_agent_hub.Hub.Sessions.{get_session, get_open_session}
use ayanami_agent_hub.Hub.Tasks.{Response}
use ayanami_agent_hub.Hub.Messages.{
  PostInput, Drawn, assert_message_sender, check_recipient, check_recipients, open_thread,
  insert_message, insert_recipients, write_message, post_unless, post_body, message_actor,
  get_message, post_message,
}

-- The tables but those that posting a message writes to.
abbrev pub but_messages : Store Response → Store Response
but_messages s = record s {
  projects = [];
  events = [];
  idempotency_keys = [];
  messages = [];
  message_recipients = [];
  threads = [];
}

ruleset reading =
    (pure-IsReader, select-IsReader, or_throw-IsReader, throw_if-IsReader, >>=-IsReader)

pub get_open_session-IsReader : (id : ℕ) → IsReader {R = Response} (get_open_session id)
unfolding get_open_session get_session
get_open_session-IsReader id = search reading

pub assert_message_sender-IsReader :
    (p : ℕ) (a : String) (s : Option ℕ) → IsReader (assert_message_sender p a s)
unfolding assert_message_sender
assert_message_sender-IsReader p a none = search reading
assert_message_sender-IsReader p a (some i) = search (reading, get_open_session-IsReader)

pub check_recipient-IsReader :
    (p : ℕ) (a : String) (s : Option ℕ) → IsReader (check_recipient p a s)
unfolding check_recipient
check_recipient-IsReader p a none = search reading
check_recipient-IsReader p a (some i) = search reading

pub check_recipients-IsReader : (p : ℕ) (ts : List Target) → IsReader (check_recipients p ts)
unfolding check_recipients
check_recipients-IsReader p [] = search reading
check_recipients-IsReader p (t ∷ ts) =
    >>=-IsReader _ _ (check_recipient-IsReader p t.agent_id t.session_id)
      λ _. check_recipients-IsReader p ts

message_actor-IsReader : (p : ℕ) (a : String) (s : Option ℕ) → IsReader (message_actor p a s)
unfolding message_actor resolve_session_mutation_actor
message_actor-IsReader p a none = search reading
message_actor-IsReader p a (some i) = search (reading, get_open_session-IsReader)

get_message-IsReader : (id : ℕ) → IsReader (get_message id)
unfolding get_message
get_message-IsReader id = search reading

abbrev Silent : {A : Type 0} → Action Response A → Type 0
Silent m = IsBlind but_messages m

ruleset silence = (
  pure-IsBlind, select-IsBlind, or_throw-IsBlind, throw_if-IsBlind, >>=-IsBlind, >>-IsBlind,
  modify-IsBlind, refl,
)

emit-Silent : (now : ℕ) (draft : EventDraft) → Silent (emit now draft)
emit-Silent now draft = emit-IsBlind but_messages (λ s p e k. refl) now draft

insert_message-Silent : (row : MessageRow) → Silent (insert_message row)
unfolding insert_message
insert_message-Silent row = search silence

insert_recipients-Silent :
    (draw : ℕ → ℕ) (i id : ℕ) (ts : List Target) → Silent (insert_recipients draw i id ts)
unfolding insert_recipients
insert_recipients-Silent draw i id [] = search silence
insert_recipients-Silent draw i id (t ∷ ts) = >>=-IsBlind _ _ _ (select-IsBlind _ _) λ taken.
    >>-IsBlind _ _ _ (throw_if-IsBlind _ _ _)
      (>>-IsBlind _ _ _ (search silence) (insert_recipients-Silent draw (suc i) id ts))

open_thread-Silent :
    (now p : ℕ) (input : PostInput) (drawn : Drawn) (o : Option ℕ)
    → Silent (open_thread now p input drawn o)
unfolding open_thread
open_thread-Silent now p input drawn none = search silence
open_thread-Silent now p input drawn (some id) = search silence

write_message-Silent :
    (now p : ℕ) (input : PostInput) (drawn : Drawn) (actor : MutationActor)
    → Silent (write_message now p input drawn actor)
unfolding write_message
write_message-Silent now p input drawn actor =
    >>-IsBlind _ _ _ (IsReader-IsBlind _ _ (check_recipients-IsReader p input.recipients)) (
      search
        (silence, emit-Silent, open_thread-Silent, insert_message-Silent, insert_recipients-Silent)
        depth 20)

post_unless-Silent :
    (now p : ℕ) (input : PostInput) (drawn : Drawn) (actor : MutationActor) (o : Option MessageRow)
    → Silent (post_unless now p input drawn actor o)
unfolding post_unless
post_unless-Silent now p input drawn actor none = search (silence, write_message-Silent)
post_unless-Silent now p input drawn actor (some m) = search silence

post_body-Silent :
    (now p : ℕ) (input : PostInput) (drawn : Drawn) (actor : MutationActor)
    → Silent (post_body now p input drawn actor)
unfolding post_body
post_body-Silent now p input drawn actor =
    >>-IsBlind _ _ _
      (IsReader-IsBlind _ _
        (assert_message_sender-IsReader p input.from_agent_id input.from_session_id))
      (search (silence, post_unless-Silent))

-- However a post ends, the other tables are as before.
pub post_message-Silent :
    (now p : ℕ) (input : PostInput) (drawn : Drawn) → Silent (post_message now p input drawn)
unfolding post_message
post_message-Silent now p input drawn =
    >>=-IsBlind _ _ _
      (IsReader-IsBlind _ _ (message_actor-IsReader p input.from_agent_id input.from_session_id))
      λ actor.
        >>=-IsBlind _ _ _
          (mutate-IsBlind but_messages (λ s p e k. refl) now p _ _
            (post_body-Silent now p input drawn actor) _ _
            λ r.
              IsReader-IsBlind _ _
                (assert_message_sender-IsReader p input.from_agent_id input.from_session_id))
          λ cached.
            >>=-IsBlind _ _ _ (or_throw-IsBlind _ _ _)
              λ id. IsReader-IsBlind _ _ (get_message-IsReader id)
