-- ===== src/Protocol/Task/Lifecycle.antt =====
-- packages/protocol/src/constants.ts, TASK_TRANSITIONS: what every sequence of accepted status
-- changes has in common.
use ayanami_agent_hub.Base.{
  ◌≡◌, ap, sym, subst, inl, inr, ◌≢◌, ◌⊎◌, Bool, true, false, List, [], ◌∷◌, any, ◌&&◌, arith, All,
}
use ayanami_agent_hub.Protocol.Task.{
  TaskStatus, review_pending, in_review, changes_requested, approved, done, cancelled, status_eq,
  status_eq_iff, can_transition,
}

-- Each status of the list follows from the one before it by assertTaskTransition.
unfoldable pub accepts : TaskStatus → List TaskStatus → Bool
accepts s [] = true
accepts s (t ∷ ts) = can_transition s t && accepts t ts

abbrev pub includes : TaskStatus → List TaskStatus → Bool
includes s ts = any (status_eq s) ts

-- The statuses in which work has been handed in for review.
abbrev pub in_review_phase : TaskStatus → Bool
in_review_phase review_pending = true
in_review_phase in_review = true
in_review_phase changes_requested = true
in_review_phase approved = true
in_review_phase done = true
in_review_phase _ = false

transition-done : (s : TaskStatus) → can_transition s done ≡ true → (s ≡ approved) ⊎ (s ≡ done)
unfolding can_transition
transition-done s h = ground arith

transition-review_phase :
    (s t : TaskStatus)
    → can_transition s t ≡ true
    → in_review_phase s ≡ false
    → in_review_phase t ≡ true
    → t ≡ review_pending
unfolding can_transition
transition-review_phase s t h p q = ground arith

done_needs_approval :
    (s : TaskStatus) (ts : List TaskStatus)
    → accepts s ts ≡ true
    → includes done ts ≡ true
    → s ≢ done
    → s ≢ approved
    → includes approved ts ≡ true
unfolding accepts
done_needs_approval s [] h d nd na = cc
done_needs_approval s (t ∷ ts) h d nd na = ground (
  arith,
  transition-done s,
  status_eq_iff done t,
  status_eq_iff approved t,
  done_needs_approval t ts,
)

done_needs_review :
    (s : TaskStatus) (ts : List TaskStatus)
    → accepts s ts ≡ true
    → includes done ts ≡ true
    → in_review_phase s ≡ false
    → includes review_pending ts ≡ true
unfolding accepts
done_needs_review s [] h d p = cc
done_needs_review s (t ∷ ts) h d p = ground (
  arith,
  transition-review_phase s t,
  status_eq_iff done t,
  status_eq_iff review_pending t,
  done_needs_review t ts,
)

done_transition : (t : TaskStatus) → can_transition done t ≡ true → t ≡ done
unfolding can_transition
done_transition t h = ground arith

done_stays : (ts : List TaskStatus) → accepts done ts ≡ true → All (λ t. t ≡ done) ts
unfolding accepts
done_stays [] h = tt
done_stays (t ∷ ts) h = ground (arith, done_transition t, done_stays ts)

-- A task whose work has not been handed in yet, and which is completed by accepted status changes,
-- was pending review and was approved on the way.
pub completion_needs_review :
    (s : TaskStatus) (ts : List TaskStatus)
    → in_review_phase s ≡ false
    → accepts s ts ≡ true
    → includes done ts ≡ true
    → (includes review_pending ts ≡ true) × (includes approved ts ≡ true)
completion_needs_review s ts p h d = (
  done_needs_review s ts h d p,
  done_needs_approval s ts h d (λ e. cc (ap in_review_phase e)) (λ e. cc (ap in_review_phase e)),
)

cancelled_transition : (t : TaskStatus) → can_transition cancelled t ≡ true → t ≡ cancelled
unfolding can_transition
cancelled_transition t h = ground arith

cancelled_stays : (ts : List TaskStatus) → accepts cancelled ts ≡ true → All (λ t. t ≡ cancelled) ts
unfolding accepts
cancelled_stays [] h = tt
cancelled_stays (t ∷ ts) h = ground (arith, cancelled_transition t, cancelled_stays ts)

-- A DONE or CANCELLED task keeps its status through all accepted status changes.
pub terminal_stays :
    (s : TaskStatus) (ts : List TaskStatus)
    → (s ≡ done) ⊎ (s ≡ cancelled)
    → accepts s ts ≡ true
    → All (λ t. t ≡ s) ts
terminal_stays s ts (inl e) h =
    subst (λ u. All (λ t. t ≡ u) ts) (sym e) (done_stays ts (rw (← e) h))
terminal_stays s ts (inr e) h =
    subst (λ u. All (λ t. t ≡ u) ts) (sym e) (cancelled_stays ts (rw (← e) h))
