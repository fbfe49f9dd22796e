-- ===== src/Protocol/Task.antt =====
-- packages/protocol/src/constants.ts and helpers.ts: the task statuses and their transitions.
pub mod Lifecycle
use ayanami_agent_hub.Base.{
  ℕ, String, ◌≡◌, ◌↔◌, Bool, true, List, [], ◌∷◌, any, arith, ◌==◌, if◌then◌else◌,
}

pub data TaskStatus : Type 0 where
  backlog ready claimed in_progress blocked waiting_for_peer waiting_for_user : TaskStatus
  review_pending in_review changes_requested approved done cancelled : TaskStatus

-- The position of a status in TASK_STATUSES.
index : TaskStatus → ℕ
index backlog = 0
index ready = 1
index claimed = 2
index in_progress = 3
index blocked = 4
index waiting_for_peer = 5
index waiting_for_user = 6
index review_pending = 7
index in_review = 8
index changes_requested = 9
index approved = 10
index done = 11
index cancelled = 12

-- The name of a status.
unfoldable pub status_text : TaskStatus → String
status_text backlog = "BACKLOG"
status_text ready = "READY"
status_text claimed = "CLAIMED"
status_text in_progress = "IN_PROGRESS"
status_text blocked = "BLOCKED"
status_text waiting_for_peer = "WAITING_FOR_PEER"
status_text waiting_for_user = "WAITING_FOR_USER"
status_text review_pending = "REVIEW_PENDING"
status_text in_review = "IN_REVIEW"
status_text changes_requested = "CHANGES_REQUESTED"
status_text approved = "APPROVED"
status_text done = "DONE"
status_text cancelled = "CANCELLED"

-- `===` on two statuses.
unfoldable pub status_eq : TaskStatus → TaskStatus → Bool
unfolding index
status_eq s t = index s == index t

pub status_eq_iff : (s t : TaskStatus) → (status_eq s t ≡ true) ↔ (s ≡ t)
unfolding status_eq
status_eq_iff s t = ground arith

-- TASK_TRANSITIONS
unfoldable pub transitions : TaskStatus → List TaskStatus
transitions backlog = ready ∷ cancelled ∷ []
transitions ready = claimed ∷ cancelled ∷ []
transitions claimed = in_progress ∷ ready ∷ cancelled ∷ []
transitions in_progress =
    blocked ∷ waiting_for_peer ∷ waiting_for_user ∷ review_pending ∷ cancelled ∷ []
transitions blocked = in_progress ∷ ready ∷ cancelled ∷ []
transitions waiting_for_peer = in_progress ∷ review_pending ∷ cancelled ∷ []
transitions waiting_for_user = in_progress ∷ cancelled ∷ []
transitions review_pending = in_review ∷ changes_requested ∷ approved ∷ cancelled ∷ []
transitions in_review = changes_requested ∷ approved ∷ []
transitions changes_requested = in_progress ∷ review_pending ∷ []
transitions approved = done ∷ []
transitions done = []
transitions cancelled = []

-- assertTaskTransition, as the test whether it returns.
unfoldable pub can_transition : TaskStatus → TaskStatus → Bool
unfolding status_eq transitions
can_transition from to =
    if status_eq from to then true else any (λ t. status_eq t to) (transitions from)
