-- ===== src/Hub/Tasks/Reads.antt =====
-- apps/hub/src/services/store/tasks.ts: what is known after a task was read.
use ayanami_agent_hub.Base.{
  ℕ, ◌≡◌, sym, subst, ◌∙◌, if◌then◌else◌, Bool, true, false, List, [], ◌∷◌, some, arith, All,
  Option-cases, Bool-cases, inl, inr,
}
use ayanami_agent_hub.Base.Table.{find}
use ayanami_agent_hub.Protocol.Task.{TaskStatus, done}
use ayanami_agent_hub.Hub.Rows.{TaskRow}
use ayanami_agent_hub.Hub.Context.{Hub, Store, Action, ok, pure, monad, ◌>>=◌}
use ayanami_agent_hub.Hub.Context.Readers.{
  IsReader, select-IsReader, or_throw-IsReader, >>=-IsReader,
}
use ayanami_agent_hub.Hub.Context.Steps.{>>=-assoc}
use ayanami_agent_hub.Hub.Tasks.{
  Task, Response, task_key, is_done, dependencies_for_task, get_task, all_done,
}

-- The task as it is stored.
abbrev pub task_at : Store Response → ℕ → TaskRow → Task
task_at s id row = record { row = row; depends_on = dependencies_for_task id s.task_dependencies }

abbrev pub IsDone : Store Response → ℕ → Type 0
IsDone s id = (row : TaskRow) × (find task_key id s.tasks ≡ some row) × (row.status ≡ done)

pub get_task-IsReader : (id : ℕ) → IsReader (get_task id)
unfolding get_task
get_task-IsReader id =
    >>=-IsReader _ _ (select-IsReader _)
      λ o. >>=-IsReader _ _ (or_throw-IsReader _ _) λ t. select-IsReader _

pub is_done-eq : (s : TaskStatus) → is_done s ≡ true → s ≡ done
is_done-eq s h = ground arith

module _ {B P : Type 0} {b : B} (h : Hub Response) {h' : Hub Response} where
  pub get_task-then :
      (id : ℕ) (f : Task → Action Response B)
      → (get_task id >>= f) h ≡ (ok b, h')
      → ((row : TaskRow)
          → find task_key id h.store.tasks ≡ some row
          → f (task_at h.store id row) h ≡ (ok b, h')
          → P)
      → P
  unfolding get_task monad
  get_task-then id f e k = elim (Option-cases (find task_key id h.store.tasks)) [
    | inl missing ↦ absurd (ground arith)
    | inr (row, found) ↦ k row found (ground arith)
  ]

abbrev finish_if : Bool → List ℕ → Action Response Bool
finish_if c ids = if c then all_done ids else pure false

module _ {B : Type 0} {b : B} (h : Hub Response) {h' : Hub Response} where
  -- Where the test passes, every task of the list is DONE.
  all_done-known :
      (ids : List ℕ) (f : Bool → Action Response B)
      → (all_done ids >>= f) h ≡ (ok b, h')
      → (ready : Bool) × (ready ≡ true → All (IsDone h.store) ids) × (f ready h ≡ (ok b, h'))
  unfolding all_done monad
  all_done-known [] f e = (true, λ _. tt, e)
  all_done-known (id ∷ ids) f e =
      get_task-then h id (λ t. finish_if (is_done t.status) ids >>= f)
        (sym (>>=-assoc (λ t. finish_if (is_done t.status) ids) f (get_task id) h) ∙ e)
        λ row found e'. elim (Bool-cases (is_done row.status)) [
          | inl finished ↦
              let (r, all, e'') =
                all_done-known ids f
                  (subst (λ c. (finish_if c ids >>= f) h ≡ (ok b, h')) finished e') in
              (r, λ p. ((row, found, is_done-eq row.status finished), all p), e'')
          | inr unfinished ↦
              (false, λ p. cc, subst (λ c. (finish_if c ids >>= f) h ≡ (ok b, h')) unfinished e')
        ]

pub all_done-then :
    {B P : Type 0} {b : B} (h : Hub Response) {h' : Hub Response} (ids : List ℕ)
    (f : Bool → Action Response B)
    → (all_done ids >>= f) h ≡ (ok b, h')
    → ((ready : Bool) → (ready ≡ true → All (IsDone h.store) ids) → f ready h ≡ (ok b, h') → P)
    → P
all_done-then h ids f e k = let (ready, all, e') = all_done-known h ids f e in k ready all e'
