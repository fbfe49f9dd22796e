-- ===== src/Hub/Tasks/Split/Laws.antt =====
-- apps/hub/src/services/store/tasks.ts, splitTask: the children, and what becomes of the parent.
use mathlib.Core.Path.{ap₂}
use mathlib.Core.Option
use mathlib.Core.Option.{some-injective}
use mathlib.Core.List.{append-nil, append_assoc}
use Prim.Native.String.{◌++◌ as ◌++s◌}
use ayanami_agent_hub.Base.Texts.{decimal}
use ayanami_agent_hub.Protocol.Task.{blocked}
use ayanami_agent_hub.Base.{
  ℕ, suc, ◌+◌, length, ◌≡◌, refl, sym, ap, subst, ◌∙◌, List, [], ◌∷◌, ◌++◌, none, some, map, All,
  arith,
}
use ayanami_agent_hub.Base.Every.{All-imp, All-both}
use ayanami_agent_hub.Base.Table.{
  find, update, find-update, find-update_ne, find-append_new, find-append_old, find-append_none,
}
use ayanami_agent_hub.Hub.Rows.{TaskRow, SessionRow}
use ayanami_agent_hub.Hub.Context.{Store, Hub, Action, ok, monad, pure, ◌>>=◌}
use ayanami_agent_hub.Hub.Context.Steps.{
  throw_if-then, modify-then, emit-then, pure-then, >>=-assoc,
}
use ayanami_agent_hub.Hub.Sessions.{session_key, get_session-then}
use ayanami_agent_hub.Hub.Tasks.{Task, Response, tasks_response, task_key, get_task}
use ayanami_agent_hub.Hub.Tasks.Reads.{task_at, get_task-then}
use ayanami_agent_hub.Hub.Tasks.Creation.{insert_task}
use ayanami_agent_hub.Hub.Tasks.Creation.Laws.{with_task, insert_task-then}
use ayanami_agent_hub.Hub.Tasks.Split.{
  ChildInput, SplitInput, child_row, insert_children, split_row, split_body,
}
use ayanami_agent_hub.Hub.Tasks.Split.Parts.{Parts}

length-map : {A B : Type 0} (f : A → B) (xs : List A) → length (map f xs) ≡ length xs
length-map f [] = refl
length-map f (x ∷ xs) = ap suc (length-map f xs)

pure_then :
    {A B : Type 0} (a : A) (f : A → Action Response B) (h : Hub Response) → (pure a >>= f) h ≡ f a h
unfolding monad
pure_then a f h = refl

module _ (now : ℕ) (parent : TaskRow) where
  abbrev rows : List ChildInput → List TaskRow
  rows = map (child_row now parent)

  abbrev with_children : List ChildInput → Hub Response → Hub Response
  with_children cs h = record h { store = record h.store { tasks = h.store.tasks ++ rows cs } }

  -- No task had the identifier of a child.
  abbrev Fresh : List TaskRow → List ChildInput → Type 0
  Fresh ts = All (λ (c : ChildInput). find task_key c.id ts ≡ none)

  abbrev Stored : List TaskRow → List ChildInput → Type 0
  Stored ts = All (λ (c : ChildInput). find task_key c.id ts ≡ some (child_row now parent c))

  -- What is known after the loop, with the children's tasks.
  abbrev Inserted :
      {B : Type 0}
      → B
      → Hub Response
      → List ChildInput
      → (List Task → Action Response B)
      → Hub Response
      → Type 0
  Inserted b h cs f h' =
      (ts : List Task) × (map (λ (t : Task). t.row) ts ≡ rows cs)
      × Fresh h.store.tasks cs
      × Stored (h.store.tasks ++ rows cs) cs
      × (f ts (with_children cs h) ≡ (ok b, h'))

  insert_children-Inserted :
      {B : Type 0} {b : B} {h' : Hub Response} (h : Hub Response) (cs : List ChildInput)
      (f : List Task → Action Response B)
      → (insert_children now parent cs >>= f) h ≡ (ok b, h')
      → Inserted b h cs f h'
  unfolding insert_children
  insert_children-Inserted h [] f e = (
    [],
    refl,
    tt,
    tt,
    ap (λ ts. f [] (record h { store = record h.store { tasks = ts } })) (append-nil h.store.tasks)
        ∙ sym (pure_then [] f h)
        ∙ e,
  )
  insert_children-Inserted h (c ∷ cs) f e =
      let row = child_row now parent c in
      insert_task-then h row _ (sym (>>=-assoc _ f (insert_task row) h) ∙ e) λ free e.
        get_task-then (with_task row h) c.id _
          (sym (>>=-assoc _ f (get_task c.id) (with_task row h)) ∙ e)
          λ row' found e.
            let created = task_at (with_task row h).store c.id row' in
            let (ts, same, fresh, stored, e) =
              insert_children-Inserted (with_task row h) cs
                (λ others. pure (created ∷ others) >>= f)
                (sym (>>=-assoc _ f (insert_children now parent cs) (with_task row h)) ∙ e) in
            let there = find-append_new task_key h.store.tasks row free in
            let whole = append_assoc h.store.tasks (row ∷ []) (rows cs) in
            (
              created ∷ ts,
              ap₂ ◌∷◌ (some-injective row' row (sym found ∙ there)) same,
              (
                free,
                All-imp _ _ cs (λ k p. find-append_none task_key k.id h.store.tasks (row ∷ []) p)
                    fresh,
              ),
              subst (λ us. Stored us (c ∷ cs)) whole
                  (
                    find-append_old task_key c.id (h.store.tasks ++ row ∷ []) (rows cs) row there,
                    stored,
                  ),
              ap (λ us. f (created ∷ ts) (record h { store = record h.store { tasks = us } }))
                    (sym whole)
                  ∙ sym (pure_then (created ∷ ts) f _)
                  ∙ e,
            )

Stored-Parts :
    (now : ℕ) (parent : TaskRow) (s : Store Response) (cs : List ChildInput)
    → Stored now parent s.tasks cs
    → Parts now parent s cs
Stored-Parts now parent s cs stored =
    All-imp _ _ cs
      (λ c found. (
        child_row now parent c,
        found,
        record {
          id = refl;
          project = refl;
          parent_task = refl;
          status = refl;
          owner_agent = refl;
          owner_session = refl;
          stale = refl;
          progress = refl;
          version = refl;
          updated_at = refl;
          weight = refl;
          review_required = refl;
          priority = refl;
          details = refl;
        },
      ))
      stored

module _ (now : ℕ) (parent : TaskRow) (input : SplitInput) where
  -- The parent's update passes the children by.
  children_kept :
      (ts : List TaskRow) (children : List Task) (current : TaskRow)
      → find task_key parent.id ts ≡ some current
      → Fresh now parent ts input.children
      → Stored now parent (ts ++ rows now parent input.children) input.children
      → Stored now parent
          (update task_key parent.id
            (split_row now children)
            (ts ++ rows now parent input.children))
          input.children
  children_kept ts children current found fresh stored =
      All-imp _ _ input.children
        (λ c (free, there).
          find-update_ne task_key (split_row now children) (λ r. refl) parent.id c.id _
            (λ e. another c free e)
          ∙ there)
        (All-both _ _ input.children fresh stored)
    where
      another : (c : ChildInput) → find task_key c.id ts ≡ none → parent.id ≡ c.id → ⊥
      another c free e = cc (subst (λ i. find task_key i ts ≡ some current) e found)

  -- A split that succeeds names the version of the parent and a session that is there. Each child gets
  -- an identifier that no task had, and is stored READY and unowned under the parent, in the project of
  -- the parent, with what the request says of it; the answer is the children in their order. The parent is BLOCKED at the next version,
  -- for the reason that counts its children.
  pub split_body_lem :
      (h h' : Hub Response) (r : Response)
      → split_body now parent input h ≡ (ok r, h')
      → (current : TaskRow) × (session : SessionRow) × (children : List Task) × (find task_key
            parent.id h.store.tasks
          ≡ some current)
        × (current.version ≡ input.expected_version)
        × (find session_key input.session_id h.store.agent_sessions ≡ some session)
        × (map (λ (t : Task). t.row) children ≡ map (child_row now parent) input.children)
        × All (λ (c : ChildInput). find task_key c.id h.store.tasks ≡ none) input.children
        × Parts now parent h'.store input.children
        × (find task_key parent.id h'.store.tasks
            ≡ some (record current {
              status = blocked;
              details = record current.details {
                blocked_reason =
                    some ("Split into " ++s decimal (length children) ++s " child tasks");
              };
              version = current.version + 1;
              updated_at = now;
            }))
        × (length children ≡ length input.children)
        × (r ≡ tasks_response children)
  unfolding split_body
  split_body_lem h h' r e = get_task-then h parent.id _ e λ current found e.
      throw_if-then h _ _ _ e λ unchanged e.
        get_session-then h input.session_id _ e λ session known e.
          let (children, same, fresh, stored, e) =
            insert_children-Inserted now parent h input.children _ e in
          modify-then (with_children now parent input.children h) _ _ e λ e.
            emit-then _ now _ _ e λ event h₁ kept same_draft e.
              let (answer, end) = pure-then h₁ _ e in
              let tasks =
                ap (λ (k : Hub Response). k.store.tasks) (sym end)
                ∙ ap (λ (s : Store Response). s.tasks) kept in
              let old =
                find-append_old task_key parent.id h.store.tasks (rows now parent input.children)
                  current found in
              (
                current,
                session,
                children,
                found,
                ground arith,
                known,
                same,
                fresh,
                Stored-Parts now parent h'.store input.children (
                    subst (λ ts. Stored now parent ts input.children) (sym tasks)
                      (children_kept h.store.tasks children current found fresh stored)),
                ap (find task_key parent.id) tasks
                    ∙ find-update task_key (split_row now children) (λ r. refl) parent.id _
                    ∙ ap (Option.map (split_row now children)) old,
                sym (length-map _ children)
                    ∙ ap length same
                    ∙ length-map (child_row now parent) input.children,
                sym answer,
              )
