-- ===== src/Protocol/Scenarios.antt =====
-- The rules of packages/protocol on concrete inputs.
use ayanami_agent_hub.Base.{◌≡◌, refl, ◌≤◌, ◌↔◌, ◌⊎◌, true, false, List, [], ◌∷◌, none, some}
use ayanami_agent_hub.Protocol.Recipients.{Target, describe_message_recipient_conflict}
use ayanami_agent_hub.Protocol.Recipients.Laws.{Disjoint, message_recipient_conflict_iff}
use ayanami_agent_hub.Protocol.Task.{
  TaskStatus, backlog, ready, claimed, in_progress, review_pending, approved, done, can_transition,
}
use ayanami_agent_hub.Protocol.Task.Lifecycle.{accepts, includes, completion_needs_review}
use ayanami_agent_hub.Protocol.Progress.{
  TodoWeight, TodoStatus, FindingState, opened, compute_task_progress, sum_from, numerator,
  denominator, clamped, tenths, has_blocking,
}
use ayanami_agent_hub.Protocol.Progress.Laws.{progress_bounds}
use ayanami_agent_hub.Protocol.Push.{
  AgentPushState, important, background, normal, interrupt, mailbox, queue, steer, inject, wake,
  urgent_and_action_required, interrupt_only, never, choose_push_action, choose_push_action_lem,
}

abbrev reviewed_history : List TaskStatus
reviewed_history = ready ∷ claimed ∷ in_progress ∷ review_pending ∷ approved ∷ done ∷ []

completion_needs_review_example :
    (includes review_pending reviewed_history ≡ true) × (includes approved reviewed_history ≡ true)
unfolding accepts can_transition
completion_needs_review_example = completion_needs_review backlog reviewed_history refl refl refl

abbrev checklist : List TodoWeight
checklist =
    record { status = TodoStatus.done; weight = 2 }
    ∷ record { status = TodoStatus.skipped; weight = 5 }
    ∷ record { status = TodoStatus.doing; weight = 1 }
    ∷ []

abbrev finding : FindingState
finding = record { blocking = true; status = opened }

-- Two of three parts of 85 %.
two_thirds : compute_task_progress checklist true false (finding ∷ []) ≡ 567
unfolding compute_task_progress sum_from numerator denominator clamped tenths has_blocking
two_thirds = refl

progress_bounds_example :
    let p = compute_task_progress checklist true false (finding ∷ []) in
    (p ≤ 1000)
    × (has_blocking (finding ∷ []) ≡ true → p ≤ 990)
    × (true ≡ true → false ≡ false → p ≤ 850)
progress_bounds_example = progress_bounds checklist true false (finding ∷ [])

abbrev finished_list : List TodoWeight
finished_list =
    record { status = TodoStatus.done; weight = 2 }
    ∷ record { status = TodoStatus.skipped; weight = 5 }
    ∷ []

abbrev busy : AgentPushState
busy = record {
  active_turn = true;
  online = true;
  at_safe_checkpoint = false;
  wake_policy = urgent_and_action_required;
}

busy_important : choose_push_action important busy ≡ queue
unfolding choose_push_action
busy_important = refl

choose_push_action_lem_example :
    let a = choose_push_action important busy in
    ((a ≡ mailbox) ↔ ((important ≡ background) ⊎ (true ≡ false)))
    × ((a ≡ steer) ↔ (
        (true ≡ true)
        × (true ≡ true)
        × ((important ≡ interrupt) ⊎ ((important ≡ important) × (false ≡ true)))))
    × ((a ≡ queue) ↔ (
        (true ≡ true)
        × (true ≡ true)
        × ((important ≡ normal) ⊎ ((important ≡ important) × (false ≡ false)))))
    × ((a ≡ wake) ↔ (
        (true ≡ true)
        × (true ≡ false)
        × ((important ≡ normal)
            ⊎ (important ≡ interrupt)
            ⊎ ((important ≡ important) × (busy.wake_policy ≡ urgent_and_action_required)))))
    × ((a ≡ inject) ↔ (
        (true ≡ true)
        × (true ≡ false)
        × (important ≡ important)
        × ((busy.wake_policy ≡ interrupt_only) ⊎ (busy.wake_policy ≡ never))))
choose_push_action_lem_example = choose_push_action_lem important busy

-- An agent-wide recipient beside a session of another agent.
abbrev pub two_targets : List Target
two_targets =
    record { agent_id = "codex"; session_id = none }
    ∷ record { agent_id = "claude"; session_id = some 4 }
    ∷ []

message_recipient_conflict_iff_example :
    (describe_message_recipient_conflict two_targets ≡ none) ↔ Disjoint [] two_targets
message_recipient_conflict_iff_example = message_recipient_conflict_iff two_targets
