-- ===== src/Protocol/Push.antt =====
-- packages/protocol/src/helpers.ts, choosePushAction: how a message reaches an agent.
use ayanami_agent_hub.Base.{◌≡◌, ◌↔◌, ◌⊎◌, Bool, true, false, arith, if◌then◌else◌}

pub data MessagePriority : Type 0 where
  background normal important interrupt : MessagePriority

pub data WakePolicy : Type 0 where
  interrupt_only urgent_and_action_required never : WakePolicy

pub data PushAction : Type 0 where
  mailbox queue steer inject wake : PushAction

pub record AgentPushState : Type 0 where
  pub active_turn : Bool
  pub online : Bool
  pub at_safe_checkpoint : Bool
  pub wake_policy : WakePolicy

-- The branch for an online agent in the middle of a turn.
unfoldable pub during_turn : MessagePriority → Bool → PushAction
during_turn interrupt safe = steer
during_turn important safe = if safe then steer else queue
during_turn _ safe = queue

-- The branch for an online agent without a turn.
unfoldable pub while_idle : MessagePriority → WakePolicy → PushAction
while_idle normal policy = wake
while_idle interrupt policy = wake
while_idle _ urgent_and_action_required = wake
while_idle _ _ = inject

unfoldable pub choose_online : MessagePriority → AgentPushState → PushAction
choose_online priority state =
    if state.active_turn
    then during_turn priority state.at_safe_checkpoint
    else while_idle priority state.wake_policy

unfoldable pub choose_push_action : MessagePriority → AgentPushState → PushAction
unfolding during_turn while_idle choose_online
choose_push_action background state = mailbox
choose_push_action normal state = if state.online then choose_online normal state else mailbox
choose_push_action important state = if state.online then choose_online important state else mailbox
choose_push_action interrupt state = if state.online then choose_online interrupt state else mailbox

-- A message stays in the mailbox exactly when it is of BACKGROUND priority or the agent is offline.
-- Otherwise, in a turn: it steers the turn exactly when it is an INTERRUPT, or IMPORTANT at a safe
-- checkpoint, and is queued exactly when it is NORMAL, or IMPORTANT between checkpoints. Without a turn:
-- it wakes the agent exactly when it is NORMAL or an INTERRUPT, or IMPORTANT under the policy that wakes
-- for urgent messages, and is injected exactly when it is IMPORTANT under another policy. So a NORMAL
-- message never steers a turn and is never injected.
pub choose_push_action_lem :
    (priority : MessagePriority) (state : AgentPushState)
    → let a = choose_push_action priority state in
      ((a ≡ mailbox) ↔ ((priority ≡ background) ⊎ (state.online ≡ false)))
      × ((a ≡ steer) ↔ (
          (state.online ≡ true)
          × (state.active_turn ≡ true)
          × ((priority ≡ interrupt)
              ⊎ ((priority ≡ important) × (state.at_safe_checkpoint ≡ true)))))
      × ((a ≡ queue) ↔ (
          (state.online ≡ true)
          × (state.active_turn ≡ true)
          × ((priority ≡ normal) ⊎ ((priority ≡ important) × (state.at_safe_checkpoint ≡ false)))))
      × ((a ≡ wake) ↔ (
          (state.online ≡ true)
          × (state.active_turn ≡ false)
          × ((priority ≡ normal)
              ⊎ (priority ≡ interrupt)
              ⊎ ((priority ≡ important) × (state.wake_policy ≡ urgent_and_action_required)))))
      × ((a ≡ inject) ↔ (
          (state.online ≡ true)
          × (state.active_turn ≡ false)
          × (priority ≡ important)
          × ((state.wake_policy ≡ interrupt_only) ⊎ (state.wake_policy ≡ never))))
unfolding choose_push_action
choose_push_action_lem background state = ground arith
choose_push_action_lem normal state = ground arith
choose_push_action_lem important state = ground arith
choose_push_action_lem interrupt state = ground arith
