-- ===== src/Hub/Tasks/Ownership/Claim.antt =====
-- apps/hub/src/services/store/tasks.ts, claimTask: when a claim succeeds, and what it changes.
use mathlib.Core.Path.{ap₂}
use mathlib.Core.Option
use mathlib.Core.Option.{some-injective}
use ayanami_agent_hub.Base.{
  subst, ℕ, ◌+◌, ◌≡◌, ◌≢◌, refl, sym, ap, ◌∙◌, ◌⊎◌, inl, inr, Bool, true, false, List, none, some,
  ◌&&◌, not, is_some, arith, All, ◌==◌,
}
use ayanami_agent_hub.Base.Table.{find, update, find-update, find-update_ne, find-key}
use ayanami_agent_hub.Protocol.Task.{ready, backlog, claimed}
use ayanami_agent_hub.Hub.Rows.{IdempotencyKey, TaskRow, TaskDependency, SessionRow, planning}
use ayanami_agent_hub.Hub.Context.{Store, Hub, ok, find_key}
use ayanami_agent_hub.Hub.Context.Steps.{throw_if-then, modify-then, emit-then, pure-then}
use ayanami_agent_hub.Hub.Context.Outcome.{inside, mutate-Outcome}
use ayanami_agent_hub.Hub.Sessions.{session_key, get_session-then}
use ayanami_agent_hub.Hub.Tasks.{Response, task_response, task_key, dependencies_for_task}
use ayanami_agent_hub.Hub.Tasks.Reads.{IsDone, task_at, get_task-then, all_done-then}
use ayanami_agent_hub.Hub.Tasks.Ownership.{
  ClaimInput, is_claimable, claim_row, set_work, claim_body, claim_task,
}

-- The session may claim the task, as both stand in the store.
pub record MayClaim (s : Store Response) (task_id : ℕ) (input : ClaimInput) (row : TaskRow)
    (session : SessionRow) : Type 0 where
  pub same_project : session.project_id ≡ row.project_id
  pub unchanged : row.version ≡ input.expected_version
  pub claimable : (row.status ≡ ready) ⊎ (row.status ≡ backlog)
  pub dependencies_done : All (IsDone s) (dependencies_for_task task_id s.task_dependencies)
  pub free :
      (row.owner_session_id ≡ none)
      ⊎ ((is_some row.claim_stale_at ≡ true) × (input.takeover_stale ≡ true))

-- The claim stands in the tables after, and no other task or session has changed.
pub record IsClaimed (s s' : Store Response) (now task_id : ℕ) (row : TaskRow)
    (session : SessionRow) : Type 0 where
  pub task :
      find task_key task_id s'.tasks
      ≡ some (record row {
        status = claimed;
        owner_agent_id = some session.agent_id;
        owner_session_id = some session.id;
        claim_stale_at = none;
        version = row.version + 1;
        updated_at = now;
      })
  pub other_tasks : (j : ℕ) → task_id ≢ j → find task_key j s'.tasks ≡ find task_key j s.tasks
  pub worker :
      find session_key session.id s'.agent_sessions
      ≡ some (record session {
        current_task_id = some task_id;
        work_state = planning;
        version = session.version + 1;
      })
  pub other_sessions :
      (j : ℕ)
      → session.id ≢ j
      → find session_key j s'.agent_sessions ≡ find session_key j s.agent_sessions

abbrev pub written : ℕ → ℕ → SessionRow → Store Response → Store Response
written now task_id session s = record s {
  tasks = update task_key task_id (claim_row now session) s.tasks;
  agent_sessions =
      update session_key session.id (set_work (some task_id) planning) s.agent_sessions;
}

pub written-IsClaimed :
    (s : Store Response) (now task_id session_id : ℕ) (row : TaskRow) (session : SessionRow)
    → find task_key task_id s.tasks ≡ some row
    → find session_key session_id s.agent_sessions ≡ some session
    → IsClaimed s (written now task_id session s) now task_id row session
written-IsClaimed s now task_id session_id row session found known =
    let known' : find session_key session.id s.agent_sessions ≡ some session =
      subst (λ i. find session_key i s.agent_sessions ≡ some session)
        (sym (find-key session_key session_id s.agent_sessions session known)) known in
    record {
      task =
          find-update task_key (claim_row now session) (λ r. refl) task_id s.tasks
          ∙ ap (Option.map (claim_row now session)) found;
      other_tasks =
          λ j ne. find-update_ne task_key (claim_row now session) (λ r. refl) task_id j s.tasks ne;
      worker =
          find-update session_key (set_work (some task_id) planning) (λ r. refl) session.id
            s.agent_sessions
          ∙ ap (Option.map (set_work (some task_id) planning)) known';
      other_sessions = λ j ne.
          find-update_ne session_key (set_work (some task_id) planning) (λ r. refl) session.id j
            s.agent_sessions ne;
    }

-- What depends on the two tables only.
IsClaimed-same :
    (s w s' : Store Response) (now task_id : ℕ) (row : TaskRow) (session : SessionRow)
    → s'.tasks ≡ w.tasks
    → s'.agent_sessions ≡ w.agent_sessions
    → IsClaimed s w now task_id row session
    → IsClaimed s s' now task_id row session
IsClaimed-same s w s' now task_id row session p q c = record {
  task = rw p c.task;
  other_tasks = λ j ne. rw p (c.other_tasks j ne);
  worker = rw q c.worker;
  other_sessions = λ j ne. rw q (c.other_sessions j ne);
}

-- A claim that succeeds was allowed, and stands, and the answer is the claimed task.
abbrev pub Claim : ℕ → ℕ → ClaimInput → Store Response → Store Response → Response → Type 0
Claim now task_id input s s' r =
    (row : TaskRow) × (session : SessionRow) × (find task_key task_id s.tasks ≡ some row)
    × (find session_key input.session_id s.agent_sessions ≡ some session)
    × MayClaim s task_id input row session
    × IsClaimed s s' now task_id row session
    × (r ≡ task_response (task_at s task_id (claim_row now session row)))

Claim-same :
    (now task_id : ℕ) (input : ClaimInput) (s w s' : Store Response) (r : Response)
    → s'.tasks ≡ w.tasks
    → s'.agent_sessions ≡ w.agent_sessions
    → Claim now task_id input s w r
    → Claim now task_id input s s' r
Claim-same now task_id input s w s' r p q (row, session, found, known, may, stands, answer) = (
  row,
  session,
  found,
  known,
  may,
  IsClaimed-same s w s' now task_id row session p q stands,
  answer,
)

checks-MayClaim :
    (s : Store Response) (task_id : ℕ) (input : ClaimInput) (row : TaskRow) (session : SessionRow)
    (finished : Bool)
    → not (session.project_id == row.project_id) ≡ false
    → not (row.version == input.expected_version) ≡ false
    → not (is_claimable row.status) ≡ false
    → (finished ≡ true → All (IsDone s) (dependencies_for_task task_id s.task_dependencies))
    → not finished ≡ false
    → (is_some row.owner_session_id && not (is_some row.claim_stale_at && input.takeover_stale))
      ≡ false
    → MayClaim s task_id input row session
checks-MayClaim s task_id input row session finished p u c all f o = record {
  same_project = ground arith;
  unchanged = ground arith;
  claimable = ground arith;
  dependencies_done = all (ground arith);
  free = ground arith;
}

module _ (now task_id : ℕ) (input : ClaimInput) where
  pub claim_body-Claim :
      (h h' : Hub Response) (r : Response)
      → claim_body now task_id input h ≡ (ok r, h')
      → Claim now task_id input h.store h'.store r
  unfolding claim_body
  claim_body-Claim h h' r e = get_task-then h task_id _ e λ row found e.
      get_session-then h input.session_id _ e λ session known e. throw_if-then h _ _ _ e λ same e.
        throw_if-then h _ _ _ e λ unchanged e. throw_if-then h _ _ _ e λ claimable e.
          all_done-then h _ _ e λ ready all e. throw_if-then h _ _ _ e λ finished e.
            throw_if-then h _ _ _ e λ free e. modify-then h _ _ e λ e.
              emit-then _ now _ _ e λ event h₁ kept same_draft e.
                get_task-then h₁ task_id _ e λ row' found' e.
                  let (answer, end) = pure-then h₁ _ e in
                  let tasks = ap (λ (s : Store Response). s.tasks) kept in
                  let claim =
                    written-IsClaimed h.store now task_id input.session_id row session found
                      known in
                  (
                    row,
                    session,
                    found,
                    known,
                    checks-MayClaim h.store task_id input row session ready same unchanged claimable
                        all finished free,
                    IsClaimed-same h.store (written now task_id session h.store) h'.store now
                        task_id row session
                        (ap (λ (k : Hub Response). k.store.tasks) (sym end) ∙ tasks)
                        (ap (λ (k : Hub Response). k.store.agent_sessions) (sym end)
                          ∙ ap (λ (s : Store Response). s.agent_sessions) kept)
                        claim,
                    sym answer
                        ∙ ap₂
                            (λ (t : TaskRow) (ds : List TaskDependency).
                              task_response
                                (record { row = t; depends_on = dependencies_for_task task_id ds }))
                            (some-injective row' (claim_row now session row)
                              (sym found' ∙ ap (find task_key task_id) tasks ∙ claim.task))
                            (ap (λ (s : Store Response). s.task_dependencies) kept),
                  )

  -- A claim that succeeds either repeats the answer that the table of keys has under its idempotency
  -- key in the task's project, for a claim, and changes no table; or the session belongs to the task's project, the version is the expected one,
  -- the task is READY or BACKLOG, all that it depends on is DONE, and it has no owner or a stale one
  -- that may be taken over. Then the task is CLAIMED by the session at the next version, the session
  -- plans it, the answer is the claimed task, and no other task or session has changed.
  pub claim_task_lem :
      (h h' : Hub Response) (r : Response)
      → claim_task now task_id input h ≡ (ok r, h')
      → ((row : TaskRow) × (k : IdempotencyKey Response) × (find task_key task_id h.store.tasks
            ≡ some row)
          × (find_key row.project_id input.idempotency_key h.store.idempotency_keys ≡ some k)
          × (k.operation ≡ "task.claim")
          × (r ≡ k.response)
          × (h'.store ≡ h.store))
        ⊎ Claim now task_id input h.store h'.store r
  unfolding claim_task
  claim_task_lem h h' r e = get_task-then h task_id _ e λ row found e.
      elim (mutate-Outcome row.project_id input.idempotency_key "task.claim"
        (claim_body now task_id input) now none h h' r e) [
          | inl (k, stored, same, answer, kept) ↦ inl (row, k, found, stored, same, answer, kept)
          | inr (h₂, _, ran, kept) ↦ inr (
              Claim-same now task_id input h.store h₂.store h'.store r
                (ap (λ (s : Store Response). s.tasks) kept)
                (ap (λ (s : Store Response). s.agent_sessions) kept)
                (claim_body-Claim (inside h) h₂ r ran))
        ]

-- No claim of a task succeeds while it is CLAIMED, whoever owns it and however stale the claim is.
claimed_stays :
    (later task_id : ℕ) (other : ClaimInput) (h h'' : Hub Response) (r' : Response) (t : TaskRow)
    → find task_key task_id h.store.tasks ≡ some t
    → t.status ≡ claimed
    → claim_body later task_id other h ≢ (ok r', h'')
claimed_stays later task_id other h h'' r' t found is second =
    let (again, _, found', _, may, _, _) = claim_body-Claim later task_id other h h'' r' second in
    let same = some-injective t again (sym found ∙ found') in
    not-claimed again may.claimable (sym (ap (λ (t : TaskRow). t.status) same) ∙ is)
  where
    not-claimed : (t : TaskRow) → (t.status ≡ ready) ⊎ (t.status ≡ backlog) → t.status ≡ claimed → ⊥
    not-claimed t (inl p) q = ground arith
    not-claimed t (inr p) q = ground arith

-- A task that has just been claimed cannot be claimed again, by nobody and at no time; and neither can
-- it in any state in which its row is as the claim left it but for being marked stale, as the presence
-- monitor marks it: not even by a claim that asks to take a stale one over.
pub claim_exclusive :
    (now marked later task_id : ℕ) (input other : ClaimInput) (h h' h₂ h'' : Hub Response)
    (r r' : Response)
    → claim_body now task_id input h ≡ (ok r, h')
    → find task_key task_id h₂.store.tasks
      ≡ Option.map
          (λ (t : TaskRow). record t {
            claim_stale_at = some marked;
            version = t.version + 1;
            updated_at = marked;
          })
          (find task_key task_id h'.store.tasks)
    → (claim_body later task_id other h' ≢ (ok r', h''))
      × (claim_body later task_id other h₂ ≢ (ok r', h''))
claim_exclusive now marked later task_id input other h h' h₂ h'' r r' first left =
    let (row, session, _, _, _, stands, _) = claim_body-Claim now task_id input h h' r first in
    let mark : TaskRow → TaskRow = λ t. record t {
      claim_stale_at = some marked;
      version = t.version + 1;
      updated_at = marked;
    } in
    (
      claimed_stays later task_id other h' h'' r' _ stands.task refl,
      claimed_stays later task_id other h₂ h'' r' _ (left ∙ ap (Option.map mark) stands.task) refl,
    )
