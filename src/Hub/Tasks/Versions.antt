-- ===== src/Hub/Tasks/Versions.antt =====
-- apps/hub/src/services/store/tasks.ts and context.ts: the version of a task, on which the clients'
-- `expectedVersion` stands, through the parts of a mutation.
use ayanami_agent_hub.Base.{
  ℕ, ◌<◌, ◌≡◌, refl, sym, ap, subst, ◌∙◌, ◌⊎◌, inl, inr, false, String, List, [], ◌∷◌, ◌++◌, Option,
  none, some, arith, ◌==◌, ==_iff, Bool-cases,
}
use ayanami_agent_hub.Base.Table.{find, update, find-update, find-update_ne, find-append_some}
use mathlib.Core.Option
use ayanami_agent_hub.Hub.Rows.{TaskRow, Event, EventDraft, ProjectRow, IdempotencyKey}
use ayanami_agent_hub.Hub.Context.{
  Store, Hub, Result, ok, err, Action, continue, monad, modify, ◌>>=◌, write_event, append_event,
  buffer, emit, restore, transaction, settle, respond, idempotent, mutate, idempotency_operation,
  MutationOptions,
}
use ayanami_agent_hub.Hub.Context.Readers.{
  IsReader, pure-IsReader, select-IsReader, throw_if-IsReader,
}
use ayanami_agent_hub.Hub.Tasks.{Response, task_key}

-- The version has grown; or it is the same, and so are the status, the owner and the details.
abbrev pub Newer : TaskRow → TaskRow → Type 0
Newer t t' =
    (t.version < t'.version)
    ⊎ ((t'.version ≡ t.version)
        × (t'.status ≡ t.status)
        × (t'.owner_session_id ≡ t.owner_session_id)
        × (t'.details ≡ t.details))

Newer-trans : (t u v : TaskRow) → Newer t u → Newer u v → Newer t v
Newer-trans t u v (inl a) (inl b) = inl (omega arith)
Newer-trans t u v (inl a) (inr (b, _, _, _)) = inl (omega arith)
Newer-trans t u v (inr (a, _, _, _)) (inl b) = inl (omega arith)
Newer-trans t u v (inr (a, p, q, r)) (inr (b, p', q', r')) = inr (b ∙ a, p' ∙ p, q' ∙ q, r' ∙ r)

-- No task is lost, and none goes back.
pub record Evolves (ts us : List TaskRow) : Type 0 where
  pub later :
      (id : ℕ) (t : TaskRow)
      → find task_key id ts ≡ some t
      → (t' : TaskRow) × (find task_key id us ≡ some t') × Newer t t'

pub same-Evolves : (ts us : List TaskRow) → us ≡ ts → Evolves ts us
same-Evolves ts us e = record {
  later = λ id t found. (t, ap (find task_key id) e ∙ found, inr (refl, refl, refl, refl));
}

pub Evolves-trans : (ts us vs : List TaskRow) → Evolves ts us → Evolves us vs → Evolves ts vs
Evolves-trans ts us vs a b = record {
  later = λ id t found.
      let (u, found', n) = a.later id t found in
      let (v, found'', n') = b.later id u found' in (v, found'', Newer-trans t u v n n');
}

pub update-Evolves :
    (k : ℕ) (f : TaskRow → TaskRow) (ts : List TaskRow)
    → ((t : TaskRow) → task_key (f t) ≡ task_key t)
    → ((t : TaskRow) → Newer t (f t))
    → Evolves ts (update task_key k f ts)
update-Evolves k f ts keeps newer = record {
  later = λ id t found. elim (Bool-cases (k == id)) [
    | inl this ↦ (
      f t,
      subst (λ i. find task_key i (update task_key k f ts) ≡ some (f t)) ((==_iff k id).0 this)
          (find-update task_key f keeps k ts
            ∙ ap (Option.map f)
                (subst (λ i. find task_key i ts ≡ some t) (sym ((==_iff k id).0 this)) found)),
      newer t,
    )
    | inr other ↦ (
      t,
      find-update_ne task_key f keeps k id ts (λ e. different k id other e) ∙ found,
      inr (refl, refl, refl, refl),
    )
  ];
}
  where
    different : (k id : ℕ) → (k == id) ≡ false → k ≡ id → ⊥
    different k id p q = ground arith

pub append-Evolves : (ts : List TaskRow) (t : TaskRow) → Evolves ts (ts ++ t ∷ [])
append-Evolves ts new = record {
  later =
      λ id t found. (t, find-append_some task_key id ts new t found, inr (refl, refl, refl, refl));
}

pub record IsVersioned {A : Type 0} (m : Action Response A) : Type 0 where
  pub evolves : (h : Hub Response) → Evolves h.store.tasks (m h).1.store.tasks

pub IsReader-IsVersioned : {A : Type 0} (m : Action Response A) → IsReader m → IsVersioned m
IsReader-IsVersioned m r = record {
  evolves = λ h. same-Evolves _ _ (ap (λ (k : Hub Response). k.store.tasks) (r.reads h));
}

pub modify-IsVersioned :
    (f : Store Response → Store Response)
    → ((s : Store Response) → Evolves s.tasks (f s).tasks)
    → IsVersioned (modify f)
unfolding monad
modify-IsVersioned f e = record { evolves = λ h. e h.store }

continue-Evolves :
    {A B : Type 0} (f : A → Action Response B) (x : Result A × Hub Response) (ts : List TaskRow)
    → ((a : A) → IsVersioned (f a))
    → Evolves ts x.1.store.tasks
    → Evolves ts (continue f x).1.store.tasks
unfolding continue
continue-Evolves f (ok a, h) ts v e = Evolves-trans ts h.store.tasks _ e ((v a).evolves h)
continue-Evolves f (err y, h) ts v e = e

pub >>=-IsVersioned :
    {A B : Type 0} (m : Action Response A) (f : A → Action Response B)
    → IsVersioned m
    → ((a : A) → IsVersioned (f a))
    → IsVersioned (m >>= f)
unfolding monad
>>=-IsVersioned m f v w = record {
  evolves = λ h. continue-Evolves f (m h) h.store.tasks w (v.evolves h);
}

write_tasks :
    (now : ℕ) (draft : EventDraft) (o : Option ProjectRow) (h : Hub Response)
    → (continue buffer (write_event now draft o h)).1.store.tasks ≡ h.store.tasks
unfolding write_event buffer monad
write_tasks now draft none h = refl
write_tasks now draft (some p) h = refl

pub emit-IsVersioned : (now : ℕ) (draft : EventDraft) → IsVersioned (emit {R = Response} now draft)
unfolding emit append_event monad
emit-IsVersioned now draft = record {
  evolves = λ h.
      same-Evolves _ _
        (write_tasks now draft (find (λ p. p.id) draft.project_id h.store.projects) h);
}

module _ (now project_id : ℕ) (key name : String) (action : Action Response Response)
    (validate : Response → Action Response (Unit {0}))
    (reads : (r : Response) → IsReader (validate r)) where
  respond-IsVersioned :
      (o : Option (IdempotencyKey Response))
      → IsVersioned action
      → IsVersioned (respond now project_id key name validate action o)
  unfolding respond
  respond-IsVersioned (some k) v =
      >>=-IsVersioned _ _ (IsReader-IsVersioned _ (throw_if-IsReader _ _)) λ _.
        >>=-IsVersioned _ _ (IsReader-IsVersioned _ (reads k.response))
          λ _. IsReader-IsVersioned _ (pure-IsReader _)
  respond-IsVersioned none v = >>=-IsVersioned _ _ v λ r.
      >>=-IsVersioned _ _ (IsReader-IsVersioned _ (select-IsReader _)) λ taken.
        >>=-IsVersioned _ _ (IsReader-IsVersioned _ (throw_if-IsReader _ _)) λ _.
          >>=-IsVersioned _ _ (modify-IsVersioned _ (λ s. same-Evolves _ _ refl))
            λ _. IsReader-IsVersioned _ (pure-IsReader _)

  idempotent-IsVersioned :
      IsVersioned action → IsVersioned (idempotent now project_id key name validate action)
  unfolding idempotent
  idempotent-IsVersioned v =
      >>=-IsVersioned _ _ (IsReader-IsVersioned _ (select-IsReader _)) λ o. respond-IsVersioned o v

settle-Evolves :
    (before : Option (List Event)) (s : Store Response) (x : Result Response × Hub Response)
    → Evolves s.tasks x.1.store.tasks
    → Evolves s.tasks (settle before (restore s x)).1.store.tasks
unfolding settle restore
settle-Evolves none s (ok a, h) e = e
settle-Evolves (some es) s (ok a, h) e = e
settle-Evolves none s (err y, h) e = same-Evolves _ _ refl
settle-Evolves (some es) s (err y, h) e = same-Evolves _ _ refl

pub mutate-IsVersioned :
    (now project_id : ℕ) (key operation : String) (action : Action Response Response)
    (options : MutationOptions Response)
    → IsVersioned action
    → ((r : Response) → IsReader (options.validate_replay r))
    → IsVersioned (mutate now project_id key operation action options)
unfolding mutate transaction
mutate-IsVersioned now project_id key operation action options v reads = record {
  evolves = λ h.
      let name = idempotency_operation operation options.request_fingerprint in
      settle-Evolves h.active h.store _ (
        (idempotent-IsVersioned now project_id key name action options.validate_replay reads
            v).evolves
          _);
}
