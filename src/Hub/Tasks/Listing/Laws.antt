-- ===== src/Hub/Tasks/Listing/Laws.antt =====
-- apps/hub/src/services/store/tasks.ts, listTasks: what is offered to an agent that looks for work.
use text.Mathlib.TextEquality.{eq_iff}
use mathlib.Core.Option.{some-injective}
use ayanami_agent_hub.Protocol.Task.{TaskStatus, status_eq_iff}
use ayanami_agent_hub.Base.{
  ℕ, ◌↔◌, Bool, ◌==◌, ==_iff, keep, subst, sym, ◌≡◌, refl, ap, ◌∙◌, true, String, List, Option,
  none, some, every, every-All, All, arith, Option-cases, inl, inr,
}
use ayanami_agent_hub.Base.Table.{find}
use ayanami_agent_hub.Base.Members.{In, In-All, In-keep, keep-In}
use ayanami_agent_hub.Base.Sorted.{In-sort_by, sort_by-In, In-map, map-In}
use mathlib.Core.Path.{ap₂}
use ayanami_agent_hub.Base.Every.{All-sort_by, All-keep, All-map, All-imp}
use ayanami_agent_hub.Hub.Rows.{TaskRow, TaskDependency, TodoRow}
use ayanami_agent_hub.Hub.Context.{Store}
use ayanami_agent_hub.Hub.Tasks.{Response, task_key, dependencies_for_task, list_todos}
use ayanami_agent_hub.Hub.Tasks.Reads.{IsDone, is_done-eq}
use ayanami_agent_hub.Hub.Tasks.Listing.{
  Filters, ListedTask, has_status, has_owner, selected, rank, is_finished, listed, wanted,
  list_tasks,
}

-- The entry is a stored task of the project that fits the filters, with its dependencies and its checklist;
-- and if only ready tasks were asked for, it is not owned and all its dependencies are DONE.
pub record IsOffered (s : Store Response) (project_id : ℕ) (filters : Filters) (l : ListedTask)
    : Type 0 where
  pub member : In l.task.row s.tasks
  pub project : l.task.project_id ≡ project_id
  pub status : (t : TaskStatus) → filters.status ≡ some t → l.task.status ≡ t
  pub owner : (a : String) → filters.owner_agent_id ≡ some a → l.task.owner_agent_id ≡ some a
  pub dependencies :
      (d : ℕ)
      → In d l.task.depends_on
        ↔ In (record { task_id = l.task.row.id; depends_on_task_id = d }) s.task_dependencies
  pub checklist : (t : TodoRow) → In t l.todos ↔ (In t s.todo_items × (t.task_id ≡ l.task.row.id))
  pub free : filters.ready_only ≡ true → l.task.owner_session_id ≡ none
  pub ready : filters.ready_only ≡ true → All (IsDone s) l.task.depends_on

-- The dependencies of a task are those that the table has for it.
depends :
    (id : ℕ) (ds : List TaskDependency) (d : ℕ)
    → In d (dependencies_for_task id ds) ↔ In (record { task_id = id; depends_on_task_id = d }) ds
unfolding dependencies_for_task
depends id ds d = (
  λ m.
      let (e, kept, same) = In-map depends_on d _ (In-sort_by (λ k. k) d _ m) in
      let (there, mine) = In-keep is_mine e ds kept in
      subst (λ x. In x ds) (row_of e ((==_iff e.task_id id).0 mine) (sym same)) there,
  λ m.
      sort_by-In (λ k. k) d _
        (map-In depends_on _ (keep is_mine ds) (keep-In is_mine _ ds m ((==_iff id id).1 refl))),
)
  where
    is_mine : TaskDependency → Bool
    is_mine e = e.task_id == id

    depends_on : TaskDependency → ℕ
    depends_on e = e.depends_on_task_id

    row_of :
        (e : TaskDependency)
        → e.task_id ≡ id
        → e.depends_on_task_id ≡ d
        → e ≡ record { task_id = id; depends_on_task_id = d }
    row_of e p q = ap₂ (λ a b. record { task_id = a; depends_on_task_id = b }) p q

-- The checklist of a task is what the table has for it.
items :
    (id : ℕ) (ts : List TodoRow) (t : TodoRow)
    → In t (list_todos id ts) ↔ (In t ts × (t.task_id ≡ id))
unfolding list_todos
items id ts t = (
  λ m.
      let (there, mine) = In-keep is_mine t ts (In-sort_by (λ (x : TodoRow). x.created_at) t _ m) in
      (there, (==_iff t.task_id id).0 mine),
  λ (there, mine).
      sort_by-In (λ (x : TodoRow). x.created_at) t _
        (keep-In is_mine t ts there ((==_iff t.task_id id).1 mine)),
)
  where
    is_mine : TodoRow → Bool
    is_mine x = x.task_id == id

has_status-eq :
    (o : Option TaskStatus) (s : TaskStatus)
    → has_status o s ≡ true
    → (t : TaskStatus) → o ≡ some t
    → s ≡ t
has_status-eq none s h t e = absurd (cc)
has_status-eq (some u) s h t e = (status_eq_iff s u).0 h ∙ some-injective u t e

has_owner-eq :
    (o owner : Option String)
    → has_owner o owner ≡ true
    → (a : String) → o ≡ some a
    → owner ≡ some a
has_owner-eq none owner h a e = absurd (cc)
has_owner-eq (some b) none h a e = absurd (cc)
has_owner-eq (some b) (some x) h a e = ap some ((eq_iff x b).0 h) ∙ e

finished-IsDone :
    (s : Store Response) (id : ℕ) → is_finished (find task_key id s.tasks) ≡ true → IsDone s id
finished-IsDone s id e = elim (Option-cases (find task_key id s.tasks)) [
  | inl missing ↦ absurd (ground arith)
  | inr (row, found) ↦ (row, found, ground (arith, is_done-eq row.status))
]

every-IsDone :
    (s : Store Response) (ids : List ℕ)
    → every (λ d. is_finished (find task_key d s.tasks)) ids ≡ true
    → All (IsDone s) ids
every-IsDone s ids e =
    All-imp _ (IsDone s) ids (finished-IsDone s)
      (every-All (λ d. is_finished (find task_key d s.tasks)) ids e)

module _ (s : Store Response) (project_id : ℕ) (filters : Filters) where
  listed-IsOffered :
      (t : TaskRow)
      → In t s.tasks
      → selected project_id filters t ≡ true
      → wanted filters (listed s t) ≡ true
      → IsOffered s project_id filters (listed s t)
  unfolding selected wanted listed
  listed-IsOffered t there chosen w = record {
    member = there;
    project = ground arith;
    status = has_status-eq filters.status t.status (ground arith);
    owner = has_owner-eq filters.owner_agent_id t.owner_agent_id (ground arith);
    dependencies = depends t.id s.task_dependencies;
    checklist = items t.id s.todo_items;
    free = λ p. ground arith;
    ready = λ p. every-IsDone s (dependencies_for_task t.id s.task_dependencies) (ground arith);
  }

  -- Whatever is listed is a stored task of the project, its row unchanged, that fits the filters, with
  -- exactly the dependencies and the checklist items that are stored for it; and a list of ready tasks only has tasks that nobody owns and whose
  -- dependencies are all DONE.
  pub list_tasks-IsOffered : All (IsOffered s project_id filters) (list_tasks project_id filters s)
  unfolding list_tasks
  list_tasks-IsOffered =
      let P : TaskRow → Type 0 = λ t. (selected project_id filters t ≡ true) × In t s.tasks in
      let Listed : ListedTask → Type 0 = λ l. (t : TaskRow) × (l ≡ listed s t) × P t in
      let chosen =
        All-keep (λ t. In t s.tasks) (selected project_id filters) s.tasks (In-All s.tasks) in
      let sorted =
        All-sort_by P (λ t. rank t.priority) _
          (All-sort_by P (λ t. t.details.created_at) _ chosen) in
      let rows =
        All-map Listed (listed s) _
          (All-imp P (λ t. Listed (listed s t)) _ (λ t p. (t, refl, p)) sorted) in
      All-imp (λ l. (wanted filters l ≡ true) × Listed l) (IsOffered s project_id filters) _
        (λ l (w, (t, same, (chosen, there))).
          rw same (listed-IsOffered t there chosen (rw (← same) w)))
        (All-keep Listed (wanted filters) _ rows)
