-- ===== src/Hub/Tasks/Listing/Complete.antt =====
-- apps/hub/src/services/store/tasks.ts, listTasks: no task that fits is left out.
use text.Mathlib.TextEquality.{eq_iff}
use mathlib.Core.Option.{some-injective}
use ayanami_agent_hub.Base.{
  ℕ, ◌≡◌, refl, ap, inl, inr, true, String, List, [], ◌∷◌, Option, none, some, arith, All, every,
  ==_iff, Bool-cases,
}
use ayanami_agent_hub.Base.Table.{find}
use ayanami_agent_hub.Base.Members.{In, keep-In}
use ayanami_agent_hub.Base.Sorted.{sort_by-In, map-In}
use ayanami_agent_hub.Protocol.Task.{TaskStatus, status_eq_iff}
use ayanami_agent_hub.Hub.Rows.{TaskRow}
use ayanami_agent_hub.Hub.Context.{Store}
use ayanami_agent_hub.Hub.Tasks.{Response, task_key, is_done, dependencies_for_task}
use ayanami_agent_hub.Hub.Tasks.Reads.{IsDone}
use ayanami_agent_hub.Hub.Tasks.Listing.{
  Filters, ListedTask, has_status, has_owner, selected, rank, is_finished, listed, wanted,
  list_tasks,
}

-- The task is stored, in the project, and fits the filters.
pub record Fits (s : Store Response) (project_id : ℕ) (filters : Filters) (t : TaskRow)
    : Type 0 where
  pub member : In t s.tasks
  pub project : t.project_id ≡ project_id
  pub status : (u : TaskStatus) → filters.status ≡ some u → t.status ≡ u
  pub owner : (a : String) → filters.owner_agent_id ≡ some a → t.owner_agent_id ≡ some a
  pub free : filters.ready_only ≡ true → t.owner_session_id ≡ none
  pub ready :
      filters.ready_only ≡ true → All (IsDone s) (dependencies_for_task t.id s.task_dependencies)

eq-has_status :
    (o : Option TaskStatus) (s : TaskStatus)
    → ((t : TaskStatus) → o ≡ some t → s ≡ t)
    → has_status o s ≡ true
eq-has_status none s f = refl
eq-has_status (some u) s f = (status_eq_iff s u).1 (f u refl)

eq-has_owner :
    (o owner : Option String)
    → ((a : String) → o ≡ some a → owner ≡ some a)
    → has_owner o owner ≡ true
eq-has_owner none owner f = refl
eq-has_owner (some b) none f = absurd (cc (f b refl))
eq-has_owner (some b) (some x) f = (eq_iff x b).1 (some-injective x b (f b refl))

every_finished :
    (s : Store Response) (ids : List ℕ)
    → All (IsDone s) ids
    → every (λ d. is_finished (find task_key d s.tasks)) ids ≡ true
every_finished s [] all = refl
every_finished s (d ∷ ds) ((row, found, finished), all) =
    ground (arith, every_finished s ds all, ap is_done finished)

module _ (s : Store Response) (project_id : ℕ) (filters : Filters) (t : TaskRow)
    (fits : Fits s project_id filters t) where
  Fits-selected : selected project_id filters t ≡ true
  unfolding selected
  Fits-selected =
      let same = (==_iff t.project_id project_id).1 fits.project in
      let status = eq-has_status filters.status t.status fits.status in
      let owner = eq-has_owner filters.owner_agent_id t.owner_agent_id fits.owner in
      rw (same, status, owner) refl

  Fits-wanted : wanted filters (listed s t) ≡ true
  unfolding wanted listed
  Fits-wanted = elim (Bool-cases filters.ready_only) [
    | inl only ↦
        let ready = every_finished s _ (fits.ready only) in
        let free = fits.free only in rw (only, ready, free) refl
    | inr all ↦ rw all refl
  ]

  -- A stored task of the project that fits the filters, and that has no owner and only DONE
  -- dependencies where only ready tasks are asked for, is on the list, with its row as it is stored.
  pub list_tasks_complete :
      (l : ListedTask) × In l (list_tasks project_id filters s) × (l.task.row ≡ t)
  unfolding list_tasks listed
  list_tasks_complete = (
    listed s t,
    keep-In (wanted filters) (listed s t) _
        (map-In (listed s) t _ (
          sort_by-In (λ (x : TaskRow). rank x.priority) t _
            (sort_by-In (λ (x : TaskRow). x.details.created_at) t _
              (keep-In (selected project_id filters) t s.tasks fits.member Fits-selected))))
        Fits-wanted,
    refl,
  )
