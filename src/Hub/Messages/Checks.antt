-- ===== src/Hub/Messages/Checks.antt =====
-- apps/hub/src/services/store/messages.ts: assertMessageSender, the dedupe key and the recipients of
-- postMessage.
use text.Mathlib.Text.{◌==◌ as str_eq}
use ayanami_agent_hub.Base.{
  ℕ, Bool, false, String, List, [], ◌∷◌, Option, none, some, or_else, is_some, not, any, ◌==◌, ◌&&◌,
  if◌then◌else◌,
}
use ayanami_agent_hub.Base.Table.{find}
use ayanami_agent_hub.Protocol.Recipients.{Target}
use ayanami_agent_hub.Hub.Rows.{SessionRow}
use ayanami_agent_hub.Hub.MessageRows.{MessageRow}
use ayanami_agent_hub.Hub.Context.{
  Action, forbidden, unprocessable, select, throw_if, pure, ◌>>=◌, ◌>>◌,
}
use ayanami_agent_hub.Hub.Sessions.{session_key, get_open_session}
use ayanami_agent_hub.Hub.Tasks.{Response}

-- SELECT 1 FROM agent_sessions WHERE project_id = ? AND agent_id = ?
abbrev pub is_registered : ℕ → String → List SessionRow → Bool
is_registered project_id agent_id =
    any (λ s. s.project_id == project_id && str_eq s.agent_id agent_id)

unfoldable pub assert_message_sender : ℕ → String → Option ℕ → Action Response (Unit {0})
assert_message_sender project_id from_agent_id none = do
  registered ← select (λ s. is_registered project_id from_agent_id s.agent_sessions)
  throw_if registered (forbidden "A registered agent message sender requires its session id")
assert_message_sender project_id from_agent_id (some session_id) = do
  session ← get_open_session session_id
  throw_if (not (session.project_id == project_id && str_eq session.agent_id from_agent_id))
      (forbidden "Message sender session does not match the project and agent")

-- `if (dedupeKey)`
abbrev pub truthy : Option String → Option String
truthy none = none
truthy (some k) = if str_eq k "" then none else some k

abbrev pub has_dedupe_key : ℕ → String → MessageRow → Bool
has_dedupe_key project_id key m =
    m.project_id == project_id && str_eq (or_else m.dedupe_key "") key && is_some m.dedupe_key

-- SELECT * FROM messages WHERE project_id = ? AND dedupe_key = ?
unfoldable pub find_duplicate : ℕ → Option String → List MessageRow → Option MessageRow
find_duplicate project_id none ms = none
find_duplicate project_id (some key) [] = none
find_duplicate project_id (some key) (m ∷ ms) =
    if has_dedupe_key project_id key m then some m else find_duplicate project_id (some key) ms

-- A session that is named belongs to the project and the agent.
abbrev pub is_recipient : ℕ → String → Option SessionRow → Bool
is_recipient project_id agent_id none = false
is_recipient project_id agent_id (some s) = s.project_id == project_id && str_eq s.agent_id agent_id

unfoldable pub check_recipient : ℕ → String → Option ℕ → Action Response (Unit {0})
check_recipient project_id agent_id none = pure tt
check_recipient project_id agent_id (some session_id) = do
  session ← select (λ s. find session_key session_id s.agent_sessions)
  throw_if (not (is_recipient project_id agent_id session))
      (unprocessable "MESSAGE_RECIPIENT_SESSION_INVALID")

unfoldable pub check_recipients : ℕ → List Target → Action Response (Unit {0})
unfolding check_recipient
check_recipients project_id [] = pure tt
check_recipients project_id (t ∷ ts) = do
  check_recipient project_id t.agent_id t.session_id
  check_recipients project_id ts
