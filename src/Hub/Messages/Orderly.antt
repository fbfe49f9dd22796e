-- ===== src/Hub/Messages/Orderly.antt =====
-- apps/hub/src/services/store/messages.ts: posting a message writes no event but by `emit`.
use ayanami_agent_hub.Base.{ℕ, suc, List, [], ◌∷◌, Option, none, some, String}
use ayanami_agent_hub.Protocol.Recipients.{Target}
use ayanami_agent_hub.Hub.MessageRows.{MessageRow}
use ayanami_agent_hub.Hub.Context.Orderly.{
  IsOrderly, select-IsOrderly, throw_if-IsOrderly, >>=-IsOrderly, >>-IsOrderly, orderly,
}
use ayanami_agent_hub.Hub.Context.Atomic.{mutate-IsOrderly}
use ayanami_agent_hub.Hub.MutationAuthority.{MutationActor, resolve_session_mutation_actor}
use ayanami_agent_hub.Hub.Sessions.{get_session, get_open_session}
use ayanami_agent_hub.Hub.Tasks.{Response}
use ayanami_agent_hub.Hub.Messages.{
  PostInput, Drawn, assert_message_sender, check_recipient, check_recipients, open_thread,
  insert_message, insert_recipients, write_message, post_unless, post_body, message_actor,
  get_message, post_message,
}

pub get_open_session-IsOrderly : (id : ℕ) → IsOrderly {R = Response} (get_open_session id)
unfolding get_open_session get_session
get_open_session-IsOrderly id = search orderly

assert_message_sender-IsOrderly :
    (p : ℕ) (a : String) (s : Option ℕ) → IsOrderly (assert_message_sender p a s)
unfolding assert_message_sender
assert_message_sender-IsOrderly p a none = search orderly
assert_message_sender-IsOrderly p a (some i) = search (orderly, get_open_session-IsOrderly)

insert_message-IsOrderly : (row : MessageRow) → IsOrderly (insert_message row)
unfolding insert_message
insert_message-IsOrderly row = search orderly

insert_recipients-IsOrderly :
    (draw : ℕ → ℕ) (i id : ℕ) (ts : List Target) → IsOrderly (insert_recipients draw i id ts)
unfolding insert_recipients
insert_recipients-IsOrderly draw i id [] = search orderly
insert_recipients-IsOrderly draw i id (t ∷ ts) = >>=-IsOrderly _ _ (select-IsOrderly _) λ taken.
    >>-IsOrderly _ _ (throw_if-IsOrderly _ _)
      (>>-IsOrderly _ _ (search orderly) (insert_recipients-IsOrderly draw (suc i) id ts))

check_recipient-IsOrderly : (p : ℕ) (a : String) (s : Option ℕ) → IsOrderly (check_recipient p a s)
unfolding check_recipient
check_recipient-IsOrderly p a none = search orderly
check_recipient-IsOrderly p a (some i) = search orderly

check_recipients-IsOrderly : (p : ℕ) (ts : List Target) → IsOrderly (check_recipients p ts)
unfolding check_recipients
check_recipients-IsOrderly p [] = search orderly
check_recipients-IsOrderly p (t ∷ ts) =
    >>=-IsOrderly _ _ (check_recipient-IsOrderly p t.agent_id t.session_id)
      λ _. check_recipients-IsOrderly p ts

open_thread-IsOrderly :
    (now p : ℕ) (input : PostInput) (drawn : Drawn) (o : Option ℕ)
    → IsOrderly (open_thread now p input drawn o)
unfolding open_thread
open_thread-IsOrderly now p input drawn none = search orderly
open_thread-IsOrderly now p input drawn (some id) = search orderly

write_message-IsOrderly :
    (now p : ℕ) (input : PostInput) (drawn : Drawn) (actor : MutationActor)
    → IsOrderly (write_message now p input drawn actor)
unfolding write_message
write_message-IsOrderly now p input drawn actor =
    search
      (
        orderly, check_recipients-IsOrderly, open_thread-IsOrderly, insert_message-IsOrderly,
        insert_recipients-IsOrderly,
      )
      depth 20

post_unless-IsOrderly :
    (now p : ℕ) (input : PostInput) (drawn : Drawn) (actor : MutationActor) (o : Option MessageRow)
    → IsOrderly (post_unless now p input drawn actor o)
unfolding post_unless
post_unless-IsOrderly now p input drawn actor none = search (orderly, write_message-IsOrderly)
post_unless-IsOrderly now p input drawn actor (some m) = search orderly

post_body-IsOrderly :
    (now p : ℕ) (input : PostInput) (drawn : Drawn) (actor : MutationActor)
    → IsOrderly (post_body now p input drawn actor)
unfolding post_body
post_body-IsOrderly now p input drawn actor =
    search (orderly, assert_message_sender-IsOrderly, post_unless-IsOrderly)

message_actor-IsOrderly : (p : ℕ) (a : String) (s : Option ℕ) → IsOrderly (message_actor p a s)
unfolding message_actor resolve_session_mutation_actor
message_actor-IsOrderly p a none = search orderly
message_actor-IsOrderly p a (some i) = search (orderly, get_open_session-IsOrderly)

get_message-IsOrderly : (id : ℕ) → IsOrderly (get_message id)
unfolding get_message
get_message-IsOrderly id = search orderly

-- Inside another mutation, a post adds its event to the buffer.
pub post_message-IsOrderly :
    (now p : ℕ) (input : PostInput) (drawn : Drawn) → IsOrderly (post_message now p input drawn)
unfolding post_message
post_message-IsOrderly now p input drawn =
    >>=-IsOrderly _ _ (message_actor-IsOrderly p input.from_agent_id input.from_session_id) λ actor.
      >>=-IsOrderly _ _
        (mutate-IsOrderly now p _ _ _ _ (post_body-IsOrderly now p input drawn actor)
          (λ r. assert_message_sender-IsOrderly p input.from_agent_id input.from_session_id))
        λ cached. search (orderly, get_message-IsOrderly)
