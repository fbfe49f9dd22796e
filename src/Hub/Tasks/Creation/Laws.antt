-- ===== src/Hub/Tasks/Creation/Laws.antt =====
-- apps/hub/src/services/store/tasks.ts, createTask: when a task is created, and what is stored.
use mathlib.Core.List.{append-nil, append_assoc}
use ayanami_agent_hub.Base.{
  ℕ, ◌≢◌, ◌≡◌, refl, sym, ap, subst, ◌∙◌, ◌⊎◌, inl, inr, Bool, true, false, List, [], ◌∷◌, ◌++◌,
  none, some, arith, All, map, Bool-cases, Option-cases, if◌then◌else◌,
}
use ayanami_agent_hub.Base.Table.{find}
use ayanami_agent_hub.Protocol.Task.{TaskStatus, ready, backlog, done, status_eq, status_eq_iff}
use ayanami_agent_hub.Hub.Rows.{TaskRow, TaskDependency}
use ayanami_agent_hub.Hub.Context.{Store, Hub, Action, ok, monad, pure, ◌>>◌}
use ayanami_agent_hub.Hub.Context.Steps.{throw_if-then, pure-then}
use ayanami_agent_hub.Hub.Context.Readers.{
  IsReader, pure-IsReader, throw_if-IsReader, >>=-IsReader, read-then, if-IsReader,
}
use ayanami_agent_hub.Hub.Tasks.{Response, task_key, is_done}
use ayanami_agent_hub.Hub.Tasks.Reads.{IsDone, get_task-then, get_task-IsReader, is_done-eq}
use ayanami_agent_hub.Hub.Tasks.Creation.{
  check_dependencies, some_unfinished, initial_if, initial_status, insert_task, has_dependency,
  insert_dependencies,
}

pub check_dependencies-IsReader :
    (project_id : ℕ) (ids : List ℕ) → IsReader (check_dependencies project_id ids)
unfolding check_dependencies
check_dependencies-IsReader project_id [] = pure-IsReader tt
check_dependencies-IsReader project_id (id ∷ ids) =
    >>=-IsReader _ _ (get_task-IsReader id)
      λ t. >>=-IsReader _ _ (throw_if-IsReader _ _) λ _. check_dependencies-IsReader project_id ids

some_unfinished-IsReader : (ids : List ℕ) → IsReader (some_unfinished ids)
unfolding some_unfinished
some_unfinished-IsReader [] = pure-IsReader false
some_unfinished-IsReader (id ∷ ids) =
    >>=-IsReader _ _ (get_task-IsReader id)
      λ t. if-IsReader (is_done t.status) _ _ (some_unfinished-IsReader ids) (pure-IsReader true)

-- The task is there, in the project.
abbrev pub IsIn : Store Response → ℕ → ℕ → Type 0
IsIn s project_id id =
    (row : TaskRow) × (find task_key id s.tasks ≡ some row) × (row.project_id ≡ project_id)

module _ (h : Hub Response) where
  pub check_dependencies-IsIn :
      (project_id : ℕ) (ids : List ℕ) {h' : Hub Response}
      → check_dependencies project_id ids h ≡ (ok tt, h')
      → All (IsIn h.store project_id) ids
  unfolding check_dependencies
  check_dependencies-IsIn project_id [] e = tt
  check_dependencies-IsIn project_id (id ∷ ids) e = get_task-then h id _ e λ row found e.
      throw_if-then h _ _ _ e
        λ same e. ((row, found, ground arith), check_dependencies-IsIn project_id ids e)

  some_unfinished-IsDone :
      (ids : List ℕ) {h' : Hub Response}
      → some_unfinished ids h ≡ (ok false, h')
      → All (IsDone h.store) ids
  unfolding some_unfinished
  some_unfinished-IsDone [] e = tt
  some_unfinished-IsDone (id ∷ ids) {h'} e = get_task-then h id _ e λ row found e.
      elim (Bool-cases (is_done row.status)) [
        | inl finished ↦ (
          (row, found, is_done-eq row.status finished),
          some_unfinished-IsDone ids (
              subst (λ c. (if c then some_unfinished ids else pure true) h ≡ (ok false, h'))
                finished e),
        )
        | inr unfinished ↦
            let (wrong, _) = pure-then h true (
              subst (λ c. (if c then some_unfinished ids else pure true) h ≡ (ok false, h'))
                unfinished e) in
            cc
      ]

  not_done : (s : TaskStatus) → is_done s ≡ false → s ≢ done
  not_done s p e = ground arith

  -- The dependency is there, and not DONE.
  abbrev pub IsWaiting : ℕ → Type 0
  IsWaiting id = (row : TaskRow) × (find task_key id h.store.tasks ≡ some row) × (row.status ≢ done)

  -- One of them is.
  abbrev pub SomeWaits : List ℕ → Type 0
  SomeWaits [] = ⊥
  SomeWaits (id ∷ ids) = IsWaiting id ⊎ SomeWaits ids

  some_unfinished-SomeWaits :
      (ids : List ℕ) {h' : Hub Response} → some_unfinished ids h ≡ (ok true, h') → SomeWaits ids
  unfolding some_unfinished
  some_unfinished-SomeWaits [] e = let (wrong, _) = pure-then h false e in cc
  some_unfinished-SomeWaits (id ∷ ids) {h'} e = get_task-then h id _ e λ row found e.
      elim (Bool-cases (is_done row.status)) [
        | inl finished ↦ inr (
            some_unfinished-SomeWaits ids (
              subst (λ c. (if c then some_unfinished ids else pure true) h ≡ (ok true, h')) finished
                e))
        | inr unfinished ↦ inl (row, found, λ e. not_done row.status unfinished e)
      ]

  -- The status that is asked for, but BACKLOG for READY while a dependency is not DONE, and only then.
  abbrev pub Starts : TaskStatus → List ℕ → TaskStatus → Type 0
  Starts asked ids status =
      ((status ≡ asked) ⊎ ((asked ≡ ready) × (status ≡ backlog) × SomeWaits ids))
      × (status ≡ ready → All (IsDone h.store) ids)

  if-Starts :
      (asked : TaskStatus) (ids : List ℕ) (waiting : Bool)
      → status_eq asked ready ≡ true
      → (waiting ≡ false → All (IsDone h.store) ids)
      → (waiting ≡ true → SomeWaits ids)
      → Starts asked ids (if waiting then backlog else asked)
  if-Starts asked ids true e all waits =
      (inr ((status_eq_iff asked ready).0 e, refl, waits refl), λ p. cc)
  if-Starts asked ids false e all waits = (inl refl, λ p. all refl)

  initial_if-Starts :
      (c : Bool) (asked : TaskStatus) (ids : List ℕ) (status : TaskStatus) {h' : Hub Response}
      → status_eq asked ready ≡ c
      → initial_if c asked ids h ≡ (ok status, h')
      → Starts asked ids status
  unfolding initial_if
  initial_if-Starts true asked ids status is e =
      read-then h (some_unfinished ids) _ (some_unfinished-IsReader ids) e λ waiting read e.
        let (answer, _) = pure-then h _ e in
        subst (Starts asked ids) answer (
          if-Starts asked ids waiting is
            (λ p.
              some_unfinished-IsDone ids (subst (λ w. some_unfinished ids h ≡ (ok w, h)) p read))
            (λ p.
              some_unfinished-SomeWaits ids
                (subst (λ w. some_unfinished ids h ≡ (ok w, h)) p read)))
  initial_if-Starts false asked ids status is e =
      let (answer, _) = pure-then h _ e in
      (inl (sym answer), λ p. cc ((status_eq_iff asked ready).1 (answer ∙ p)))

  pub initial_status-Starts :
      (asked : TaskStatus) (ids : List ℕ) (status : TaskStatus) {h' : Hub Response}
      → initial_status asked ids h ≡ (ok status, h')
      → Starts asked ids status
  unfolding initial_status
  initial_status-Starts asked ids status e =
      initial_if-Starts (status_eq asked ready) asked ids status refl e

initial_if-IsReader :
    (c : Bool) (status : TaskStatus) (ids : List ℕ) → IsReader (initial_if c status ids)
unfolding initial_if
initial_if-IsReader true status ids =
    >>=-IsReader _ _ (some_unfinished-IsReader ids) λ waiting. pure-IsReader _
initial_if-IsReader false status ids = pure-IsReader status

pub initial_status-IsReader :
    (status : TaskStatus) (ids : List ℕ) → IsReader (initial_status status ids)
unfolding initial_status
initial_status-IsReader status ids = initial_if-IsReader (status_eq status ready) status ids

abbrev pub dependency_of : ℕ → ℕ → TaskDependency
dependency_of id dependency = record { task_id = id; depends_on_task_id = dependency }

-- The tables after the two INSERTs.
abbrev pub with_task : TaskRow → Hub Response → Hub Response
with_task row h = record h { store = record h.store { tasks = h.store.tasks ++ row ∷ [] } }

abbrev pub with_dependencies : ℕ → List ℕ → Hub Response → Hub Response
with_dependencies id ids h = record h {
  store = record h.store {
    task_dependencies = h.store.task_dependencies ++ map (dependency_of id) ids;
  };
}

module _ {B : Type 0} {b : B} {h' : Hub Response} where
  pub insert_task-then :
      {P : Type 0} (h : Hub Response) (row : TaskRow) (m : Action Response B)
      → (insert_task row >> m) h ≡ (ok b, h')
      → (find task_key row.id h.store.tasks ≡ none → m (with_task row h) ≡ (ok b, h') → P)
      → P
  unfolding insert_task monad
  insert_task-then h row m e k = elim (Option-cases (find task_key row.id h.store.tasks)) [
    | inl free ↦ k free (ground arith)
    | inr (r, taken) ↦ absurd (ground arith)
  ]

  pub insert_dependencies-known :
      (h : Hub Response) (id : ℕ) (ids : List ℕ) (m : Action Response B)
      → (insert_dependencies id ids >> m) h ≡ (ok b, h')
      → m (with_dependencies id ids h) ≡ (ok b, h')
  unfolding insert_dependencies monad
  insert_dependencies-known h id [] m e =
      ap (λ ds. m (record h { store = record h.store { task_dependencies = ds } }))
        (append-nil h.store.task_dependencies)
      ∙ e
  insert_dependencies-known h id (d ∷ ds) m e =
      elim (Bool-cases (has_dependency id d h.store.task_dependencies)) [
        | inl taken ↦ absurd (ground arith)
        | inr free ↦
            let new = dependency_of id d in
            let written = record h {
              store = record h.store { task_dependencies = h.store.task_dependencies ++ new ∷ [] };
            } in
            ap (λ xs. m (record h { store = record h.store { task_dependencies = xs } }))
              (sym (append_assoc h.store.task_dependencies (new ∷ []) (map (dependency_of id) ds)))
            ∙ insert_dependencies-known written id ds m (ground arith)
      ]
