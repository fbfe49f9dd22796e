-- ===== src/Hub/Tasks/Ownership/Orderly.antt =====
-- apps/hub/src/services/store/tasks.ts: claims and releases write no event but by `emit`, so what
-- holds of mutations in general holds of them.
use ayanami_agent_hub.Base.{ℕ, List, [], ◌∷◌, Bool, true, false, refl, if◌then◌else◌}
use ayanami_agent_hub.Hub.Context.{Action, pure}
use ayanami_agent_hub.Hub.Context.Orderly.{
  IsOrderly, pure-IsOrderly, select-IsOrderly, or_throw-IsOrderly, throw_if-IsOrderly,
  modify-IsOrderly, emit-IsOrderly, >>=-IsOrderly,
}
use ayanami_agent_hub.Hub.Sessions.{get_session}
use ayanami_agent_hub.Hub.Tasks.{Response, get_task, all_done, is_done}
use ayanami_agent_hub.Hub.Tasks.Ownership.{ClaimInput, ReleaseInput, claim_body, release_body}

pub get_task-IsOrderly : (id : ℕ) → IsOrderly (get_task id)
unfolding get_task
get_task-IsOrderly id =
    >>=-IsOrderly _ _ (select-IsOrderly _)
      λ o. >>=-IsOrderly _ _ (or_throw-IsOrderly _ _) λ t. select-IsOrderly _

pub get_session-IsOrderly : (id : ℕ) → IsOrderly {R = Response} (get_session id)
unfolding get_session
get_session-IsOrderly id = >>=-IsOrderly _ _ (select-IsOrderly _) λ o. or_throw-IsOrderly _ _

finish_if-IsOrderly :
    (c : Bool) (m : Action Response Bool) → IsOrderly m → IsOrderly (if c then m else pure false)
finish_if-IsOrderly true m o = o
finish_if-IsOrderly false m o = pure-IsOrderly false

pub all_done-IsOrderly : (ids : List ℕ) → IsOrderly (all_done ids)
unfolding all_done
all_done-IsOrderly [] = pure-IsOrderly true
all_done-IsOrderly (id ∷ ids) =
    >>=-IsOrderly _ _ (get_task-IsOrderly id)
      λ t. finish_if-IsOrderly (is_done t.status) (all_done ids) (all_done-IsOrderly ids)

pub claim_body-IsOrderly :
    (now task_id : ℕ) (input : ClaimInput) → IsOrderly (claim_body now task_id input)
unfolding claim_body
claim_body-IsOrderly now task_id input = >>=-IsOrderly _ _ (get_task-IsOrderly task_id) λ t.
    >>=-IsOrderly _ _ (get_session-IsOrderly input.session_id) λ s.
      >>=-IsOrderly _ _ (throw_if-IsOrderly _ _) λ _.
        >>=-IsOrderly _ _ (throw_if-IsOrderly _ _) λ _.
          >>=-IsOrderly _ _ (throw_if-IsOrderly _ _) λ _.
            >>=-IsOrderly _ _ (all_done-IsOrderly t.depends_on) λ ready.
              >>=-IsOrderly _ _ (throw_if-IsOrderly _ _) λ _.
                >>=-IsOrderly _ _ (throw_if-IsOrderly _ _) λ _.
                  >>=-IsOrderly _ _ (modify-IsOrderly _ (λ s. (refl, refl))) λ _.
                    >>=-IsOrderly _ _ (emit-IsOrderly now _)
                      λ _. >>=-IsOrderly _ _ (get_task-IsOrderly task_id) λ t. pure-IsOrderly _

pub release_body-IsOrderly :
    (now task_id : ℕ) (input : ReleaseInput) → IsOrderly (release_body now task_id input)
unfolding release_body
release_body-IsOrderly now task_id input = >>=-IsOrderly _ _ (get_task-IsOrderly task_id) λ t.
    >>=-IsOrderly _ _ (get_session-IsOrderly input.session_id) λ s.
      >>=-IsOrderly _ _ (throw_if-IsOrderly _ _) λ _.
        >>=-IsOrderly _ _ (throw_if-IsOrderly _ _) λ _.
          >>=-IsOrderly _ _ (modify-IsOrderly _ (λ s. (refl, refl))) λ _.
            >>=-IsOrderly _ _ (emit-IsOrderly now _)
              λ _. >>=-IsOrderly _ _ (get_task-IsOrderly task_id) λ t. pure-IsOrderly _
