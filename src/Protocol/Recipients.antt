-- ===== src/Protocol/Recipients.antt =====
-- packages/protocol/src/schemas.ts, describeMessageRecipientConflict: whom a message may go to.
pub mod Laws
use text.Mathlib.Text.{◌==◌ as str_eq}
use Prim.Native.String.{◌++◌ as ◌++s◌}
use ayanami_agent_hub.Base.{
  ℕ, Bool, true, false, String, List, [], ◌∷◌, Option, none, some, opt_eq, ◌&&◌, any, is_some, not,
  if◌then◌else◌,
}

-- A recipient; without a session it is agent-wide.
pub record Target : Type 0 where
  pub agent_id : String
  pub session_id : Option ℕ

-- `sessions.has(target)`, where `sessions` holds the targets of the same agent among `seen`.
abbrev pub has_target : Target → List Target → Bool
has_target t = any (λ s. str_eq s.agent_id t.agent_id && opt_eq s.session_id t.session_id)

-- `sessions.size > 0`
abbrev pub has_agent : Target → List Target → Bool
has_agent t = any (λ s. str_eq s.agent_id t.agent_id)

-- `sessions.has("<agent-wide>")`
abbrev pub has_agent_wide : Target → List Target → Bool
has_agent_wide t = any (λ s. str_eq s.agent_id t.agent_id && not (is_some s.session_id))

-- `target === "<agent-wide>" ? sessions.size > 0 : sessions.has("<agent-wide>")`
abbrev pub mixes : Target → List Target → Bool
mixes t seen = if is_some t.session_id then has_agent_wide t seen else has_agent t seen

-- The loop, with the targets that it has added to its map.
unfoldable pub conflict_after : List Target → List Target → Option String
conflict_after seen [] = none
conflict_after seen (t ∷ ts) =
    let rest = conflict_after (t ∷ seen) ts in
    if has_target t seen
    then some ("Duplicate recipient target for agent " ++s t.agent_id)
    else if mixes t seen
    then some ("Agent-wide recipient cannot be mixed with another target for agent " ++s t.agent_id)
    else rest

unfoldable pub describe_message_recipient_conflict : List Target → Option String
unfolding conflict_after
describe_message_recipient_conflict recipients = conflict_after [] recipients
