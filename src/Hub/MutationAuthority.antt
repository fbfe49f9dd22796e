-- ===== src/Hub/MutationAuthority.antt =====
-- apps/hub/src/services/store/mutation-authority.ts: who is the actor of a mutation.
use Prim.Native.String.{String}
use text.Mathlib.Text.{◌==◌ as str_eq}
use ayanami_agent_hub.Base.{ℕ, some, not, ◌==◌, ◌&&◌}
use ayanami_agent_hub.Hub.Rows.{ActorType, agent}
use ayanami_agent_hub.Hub.Context.{Action, MutationOptions, forbidden, pure, throw_if, ◌>>=◌, ◌>>◌}
use ayanami_agent_hub.Hub.Sessions.{get_open_session}

-- The fields of a MutationActor that an event records.
pub record MutationActor : Type 0 where
  pub actor_type : ActorType
  pub actor_id : String

-- mutationOptions, given the digest that mutationFingerprint makes of the actor and the request.
abbrev pub with_fingerprint : {R : Type 0} → String → MutationOptions R
with_fingerprint fingerprint = record {
  request_fingerprint = some fingerprint;
  validate_replay = λ _. pure tt;
}

-- resolveSessionMutationActor, with the project and the agent that are claimed: a composition within
-- the process still proves its actor by the open session. An empty claim counts as none.
unfoldable pub resolve_session_mutation_actor :
    {R : Type 0} → ℕ → ℕ → String → Action R MutationActor
resolve_session_mutation_actor project_id session_id claimed_agent_id = do
  session ← get_open_session session_id
  throw_if (not (session.project_id == project_id))
      (forbidden "Session and mutation belong to different projects")
  throw_if (not (str_eq claimed_agent_id "") && not (str_eq claimed_agent_id session.agent_id))
      (forbidden "Claimed Agent identity does not match the authenticated session")
  pure (record { actor_type = agent; actor_id = session.agent_id })
