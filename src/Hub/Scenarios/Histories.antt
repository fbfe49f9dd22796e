-- ===== src/Hub/Scenarios/Histories.antt =====
-- The rest of apps/hub/src/services/store/tasks.ts on the small database: the list of ready
-- tasks, and sequences of calls.
use ayanami_agent_hub.Base.{◌≡◌, refl, inl, inr, true, [], ◌∷◌, none, some, All}
use ayanami_agent_hub.Base.Table.{find}
use ayanami_agent_hub.Protocol.Task.{ready, done}
use ayanami_agent_hub.Hub.Rows.{TaskRow}
use ayanami_agent_hub.Hub.Tasks.{task_key}
use ayanami_agent_hub.Hub.Context.Atomic.{IsConsistent}
use ayanami_agent_hub.Hub.Context.Succeeds.{Succeeds}
use ayanami_agent_hub.Hub.Tasks.Ownership.{claim_body}
use ayanami_agent_hub.Hub.Tasks.Ownership.Claim.{MayClaim}
use ayanami_agent_hub.Hub.Tasks.Ownership.Succeeds.{MayClaim-claim_body}
use ayanami_agent_hub.Hub.Tasks.Listing.{Filters, ListedTask, list_tasks, selected, listed, wanted}
use ayanami_agent_hub.Base.Members.{In}
use mathlib.Core.Option.{some-injective}
use ayanami_agent_hub.Hub.Tasks.Listing.Complete.{list_tasks_complete}
use ayanami_agent_hub.Hub.Tasks.Listing.Laws.{IsOffered, list_tasks-IsOffered}
use ayanami_agent_hub.Hub.Tasks.Versions.{Newer}
use ayanami_agent_hub.Hub.Calls.History.{task_history}
use ayanami_agent_hub.Hub.Tasks.Calls as TaskCalls
use ayanami_agent_hub.Hub.Calls.{on_task, Reachable, start, step, run}
use ayanami_agent_hub.Hub.Calls.Consistent.{Reachable-IsConsistent}
use ayanami_agent_hub.Hub.Scenarios.{hub, row, session, claim, release, store_calls, hub_numbered}
use ayanami_agent_hub.Hub.Scenarios.Checklists.{task_calls}

abbrev pub only_ready : Filters
only_ready = record { status = some ready; owner_agent_id = none; ready_only = true }

-- Task 7 is on the list.
one_ready : list_tasks 1 only_ready hub.store ≡ listed hub.store (row 7 ready none) ∷ []
unfolding task_calls list_tasks selected listed wanted
one_ready = refl

list_tasks-IsOffered_example :
    All (IsOffered hub.store 1 only_ready) (list_tasks 1 only_ready hub.store)
list_tasks-IsOffered_example = list_tasks-IsOffered hub.store 1 only_ready

list_tasks_complete_example :
    (l : ListedTask) × In l (list_tasks 1 only_ready hub.store) × (l.task.row ≡ row 7 ready none)
unfolding task_calls
list_tasks_complete_example =
    list_tasks_complete hub.store 1 only_ready (row 7 ready none) (record {
      member = inr (inl refl);
      project = refl;
      status = λ u e. some-injective ready u e;
      owner = λ a e. absurd (cc e);
      free = λ p. refl;
      ready = λ p. ((row 6 done (some 3), refl, refl), tt);
    })

may_claim : MayClaim hub.store 7 claim (row 7 ready none) session
unfolding task_calls
may_claim = record {
  same_project = refl;
  unchanged = refl;
  claimable = inl refl;
  dependencies_done = ((row 6 done (some 3), refl, refl), tt);
  free = inl refl;
}

MayClaim-claim_body_example : Succeeds (claim_body 5 7 claim hub)
unfolding store_calls
MayClaim-claim_body_example =
    MayClaim-claim_body 5 7 claim hub (row 7 ready none) session
      (record { id = 1; current_sequence = 0; updated_at = 0 }) refl refl refl may_claim

abbrev pub history :
    Reachable hub
      (run
        (on_task (TaskCalls.release 9 7 release))
        (run (on_task (TaskCalls.claim 5 7 claim)) hub).1).1
history =
    step (step start (on_task (TaskCalls.claim 5 7 claim)))
      (on_task (TaskCalls.release 9 7 release))

Reachable-IsConsistent_example :
    IsConsistent
      (run
        (on_task (TaskCalls.release 9 7 release))
        (run (on_task (TaskCalls.claim 5 7 claim)) hub).1).1
Reachable-IsConsistent_example =
    Reachable-IsConsistent hub _
      (record { idle = refl; published = refl; numbered = record { numbered = hub_numbered } })
      history

task_history_example :
    (t' : TaskRow) × (find task_key 7
        (run
          (on_task (TaskCalls.release 9 7 release))
          (run (on_task (TaskCalls.claim 5 7 claim)) hub).1).1.store.tasks
      ≡ some t')
    × Newer (row 7 ready none) t'
unfolding store_calls
task_history_example = task_history hub _ 7 (row 7 ready none) history refl
