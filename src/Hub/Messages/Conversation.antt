-- ===== src/Hub/Messages/Conversation.antt =====
-- apps/hub/src/services/store/messages.ts, postMessage: the thread of a message.
use Prim.Native.Char.{code}
use Prim.Native.String.{String as Text}
use ayanami_agent_hub.Hub.Messages.Inputs.{PostInput, Drawn, thread_key}
use ayanami_agent_hub.Base.{
  ℕ, ◌+◌, ◌-◌, Bool, false, String, List, [], ◌∷◌, ◌++◌, Option, none, some, or_else, is_some, not,
  ◌==◌, ◌&&◌, ltb, leb, if◌then◌else◌,
}
use ayanami_agent_hub.Base.Table.{find}
use ayanami_agent_hub.Protocol.Recipients.{Target}
use ayanami_agent_hub.Hub.MessageRows.{
  MessageType, proposal, conflict, blocker, ThreadRow, ThreadStatus,
}
use ayanami_agent_hub.Hub.Context.{
  Action, not_found, constraint, select, throw_if, modify, pure, ◌>>=◌, ◌>>◌,
}
use ayanami_agent_hub.Hub.Tasks.{Response}

-- `text.slice(0, n)`, which counts a character beyond U+FFFF twice.
unfoldable pub slice : String → ℕ → String
slice Text.[] n = Text.[]
slice (Text.◌∷◌ c cs) n =
    let units : ℕ = if ltb 65535 (code c) then 2 else 1 in
    let rest = slice cs (n - units) in if leb units n then Text.◌∷◌ c rest else Text.[]

-- `recipients[0]?.agentId ?? null`
abbrev pub first_agent : List Target → Option String
first_agent [] = none
first_agent (t ∷ ts) = some t.agent_id

abbrev pub new_thread : ℕ → ℕ → PostInput → Drawn → ThreadRow
new_thread now project_id input drawn = record {
  id = drawn.thread_id;
  project_id = project_id;
  subject = or_else input.subject (slice input.content.summary 160);
  status = ThreadStatus.opened;
  task_id = input.task_id;
  review_id = input.review_id;
  waiting_for_agent_id = if input.requires_response then first_agent input.recipients else none;
  proposal_rounds = 0;
  objection_rounds = 0;
  version = 0;
  created_at = now;
  updated_at = now;
}

abbrev pub is_thread_of : ℕ → Option ThreadRow → Bool
is_thread_of project_id none = false
is_thread_of project_id (some t) = t.project_id == project_id

-- The thread that is named, which must be the project's, or a new one.
unfoldable pub open_thread : ℕ → ℕ → PostInput → Drawn → Option ℕ → Action Response ℕ
open_thread now project_id input drawn (some id) = do
  thread ← select (λ s. find thread_key id s.threads)
  throw_if (not (is_thread_of project_id thread)) (not_found "Thread" id)
  pure id
open_thread now project_id input drawn none = do
  taken ← select (λ s. find thread_key drawn.thread_id s.threads)
  throw_if (is_some taken) (constraint "threads")
  modify λ s. record s { threads = s.threads ++ new_thread now project_id input drawn ∷ [] }
  pure drawn.thread_id

-- `roundColumn`
pub data Round : Type 0 where
  proposal_rounds objection_rounds : Round

abbrev pub round_column : MessageType → Option Round
round_column proposal = some proposal_rounds
round_column conflict = some objection_rounds
round_column blocker = some objection_rounds
round_column _ = none

abbrev pub count_round : ℕ → Round → ThreadRow → ThreadRow
count_round now proposal_rounds t = record t {
  proposal_rounds = t.proposal_rounds + 1;
  version = t.version + 1;
  updated_at = now;
}
count_round now objection_rounds t = record t {
  objection_rounds = t.objection_rounds + 1;
  version = t.version + 1;
  updated_at = now;
}

-- After two rounds of proposals and two of objections, the user has to decide.
abbrev pub escalate : ℕ → ThreadRow → ThreadRow
escalate now t =
    if leb 2 t.proposal_rounds && leb 2 t.objection_rounds
    then record t {
      status = ThreadStatus.needs_user;
      waiting_for_agent_id = none;
      version = t.version + 1;
      updated_at = now;
    }
    else t

abbrev pub await : ℕ → Option String → ThreadRow → ThreadRow
await now agent t = record t {
  waiting_for_agent_id = agent;
  version = t.version + 1;
  updated_at = now;
}

-- What a message does to the row of its thread.
abbrev pub advance : ℕ → PostInput → Option Round → ThreadRow → ThreadRow
advance now input (some round) t = escalate now (count_round now round t)
advance now input none t =
    if input.requires_response then await now (first_agent input.recipients) t else t
