-- ===== src/Hub/Tasks/Ownership/Release.antt =====
-- apps/hub/src/services/store/tasks.ts, releaseTask: when a release succeeds, and what it changes.
use mathlib.Core.Path.{ap₂}
use mathlib.Core.Option
use mathlib.Core.Option.{some-injective}
use ayanami_agent_hub.Base.{
  ℕ, ◌+◌, ◌≡◌, ◌≢◌, refl, sym, ap, subst, ◌∙◌, ◌⊎◌, inl, inr, true, false, List, Option, none, some,
  ◌&&◌, not, is_some, opt_eq, arith, ◌==◌,
}
use ayanami_agent_hub.Base.Table.{find, update, find-update, find-update_ne}
use ayanami_agent_hub.Protocol.Task.{ready}
use ayanami_agent_hub.Hub.Rows.{IdempotencyKey, TaskRow, TaskDependency, SessionRow, idle}
use ayanami_agent_hub.Hub.Context.{Store, Hub, ok, find_key}
use ayanami_agent_hub.Hub.Context.Steps.{throw_if-then, modify-then, emit-then, pure-then}
use ayanami_agent_hub.Hub.Context.Outcome.{inside, mutate-Outcome}
use ayanami_agent_hub.Hub.Sessions.{session_key, get_session-then}
use ayanami_agent_hub.Hub.Tasks.{Response, task_response, task_key, dependencies_for_task}
use ayanami_agent_hub.Hub.Tasks.Reads.{task_at, get_task-then}
use ayanami_agent_hub.Hub.Tasks.Ownership.Claim.{claim_body-Claim}
use ayanami_agent_hub.Hub.Tasks.Ownership.{
  ClaimInput, claim_row, claim_body, ReleaseInput, release_row, update_session, set_work,
  release_body, release_task,
}

-- The owner may release the task, and anybody may release a stale claim.
pub record MayRelease (input : ReleaseInput) (row : TaskRow) (session : SessionRow) : Type 0 where
  pub unchanged : row.version ≡ input.expected_version
  pub entitled : (row.owner_session_id ≡ some session.id) ⊎ (is_some row.claim_stale_at ≡ true)

-- The task is free again, its former owner is idle, and no other task has changed.
pub record IsReleased (s s' : Store Response) (now task_id : ℕ) (row : TaskRow) : Type 0 where
  pub task :
      find task_key task_id s'.tasks
      ≡ some (record row {
        status = ready;
        owner_agent_id = none;
        owner_session_id = none;
        claim_stale_at = none;
        version = row.version + 1;
        updated_at = now;
      })
  pub other_tasks : (j : ℕ) → task_id ≢ j → find task_key j s'.tasks ≡ find task_key j s.tasks
  pub owner :
      (id : ℕ)
      → row.owner_session_id ≡ some id
      → find session_key id s'.agent_sessions
        ≡ Option.map
            (λ (x : SessionRow). record x {
              current_task_id = none;
              work_state = idle;
              version = x.version + 1;
            })
            (find session_key id s.agent_sessions)
  pub other_sessions :
      (j : ℕ)
      → row.owner_session_id ≢ some j
      → find session_key j s'.agent_sessions ≡ find session_key j s.agent_sessions

abbrev pub Release : ℕ → ℕ → ReleaseInput → Store Response → Store Response → Response → Type 0
Release now task_id input s s' r =
    (row : TaskRow) × (session : SessionRow) × (find task_key task_id s.tasks ≡ some row)
    × (find session_key input.session_id s.agent_sessions ≡ some session)
    × MayRelease input row session
    × IsReleased s s' now task_id row
    × (r ≡ task_response (task_at s task_id (release_row now row)))

abbrev pub written : ℕ → ℕ → TaskRow → Store Response → Store Response
written now task_id row s = record s {
  tasks = update task_key task_id (release_row now) s.tasks;
  agent_sessions = update_session row.owner_session_id (set_work none idle) s.agent_sessions;
}

update_session_self :
    (owner : Option ℕ) (ss : List SessionRow) (id : ℕ)
    → owner ≡ some id
    → find session_key id (update_session owner (set_work none idle) ss)
      ≡ Option.map (set_work none idle) (find session_key id ss)
update_session_self none ss id e = cc
update_session_self (some i) ss id e =
    subst
      (λ j.
        find session_key j (update session_key i (set_work none idle) ss)
        ≡ Option.map (set_work none idle) (find session_key j ss))
      (some-injective i id e) (find-update session_key (set_work none idle) (λ r. refl) i ss)

update_session_ne :
    (owner : Option ℕ) (ss : List SessionRow) (j : ℕ)
    → owner ≢ some j
    → find session_key j (update_session owner (set_work none idle) ss) ≡ find session_key j ss
update_session_ne none ss j ne = refl
update_session_ne (some i) ss j ne =
    find-update_ne session_key (set_work none idle) (λ r. refl) i j ss (λ e. ne (ap some e))

pub written-IsReleased :
    (s : Store Response) (now task_id : ℕ) (row : TaskRow)
    → find task_key task_id s.tasks ≡ some row
    → IsReleased s (written now task_id row s) now task_id row
written-IsReleased s now task_id row found = record {
  task =
      find-update task_key (release_row now) (λ r. refl) task_id s.tasks
      ∙ ap (Option.map (release_row now)) found;
  other_tasks = λ j ne. find-update_ne task_key (release_row now) (λ r. refl) task_id j s.tasks ne;
  owner = λ id e. update_session_self row.owner_session_id s.agent_sessions id e;
  other_sessions = λ j ne. update_session_ne row.owner_session_id s.agent_sessions j ne;
}

IsReleased-same :
    (s w s' : Store Response) (now task_id : ℕ) (row : TaskRow)
    → s'.tasks ≡ w.tasks
    → s'.agent_sessions ≡ w.agent_sessions
    → IsReleased s w now task_id row
    → IsReleased s s' now task_id row
IsReleased-same s w s' now task_id row p q c = record {
  task = rw p c.task;
  other_tasks = λ j ne. rw p (c.other_tasks j ne);
  owner = λ id e. rw q (c.owner id e);
  other_sessions = λ j ne. rw q (c.other_sessions j ne);
}

Release-same :
    (now task_id : ℕ) (input : ReleaseInput) (s w s' : Store Response) (r : Response)
    → s'.tasks ≡ w.tasks
    → s'.agent_sessions ≡ w.agent_sessions
    → Release now task_id input s w r
    → Release now task_id input s s' r
Release-same now task_id input s w s' r p q (row, session, found, known, may, stands, answer) =
    (row, session, found, known, may, IsReleased-same s w s' now task_id row p q stands, answer)

checks-MayRelease :
    (input : ReleaseInput) (row : TaskRow) (session : SessionRow)
    → not (row.version == input.expected_version) ≡ false
    → (not (opt_eq row.owner_session_id (some session.id)) && not (is_some row.claim_stale_at))
      ≡ false
    → MayRelease input row session
checks-MayRelease input row session u o = record {
  unchanged = ground arith;
  entitled = ground arith;
}

module _ (now task_id : ℕ) (input : ReleaseInput) where
  pub release_body-Release :
      (h h' : Hub Response) (r : Response)
      → release_body now task_id input h ≡ (ok r, h')
      → Release now task_id input h.store h'.store r
  unfolding release_body
  release_body-Release h h' r e = get_task-then h task_id _ e λ row found e.
      get_session-then h input.session_id _ e λ session known e.
        throw_if-then h _ _ _ e λ unchanged e. throw_if-then h _ _ _ e λ entitled e.
          modify-then h _ _ e λ e. emit-then _ now _ _ e λ event h₁ kept same_draft e.
            get_task-then h₁ task_id _ e λ row' found' e.
              let (answer, end) = pure-then h₁ _ e in
              let tasks = ap (λ (s : Store Response). s.tasks) kept in
              let release = written-IsReleased h.store now task_id row found in
              (
                row,
                session,
                found,
                known,
                checks-MayRelease input row session unchanged entitled,
                IsReleased-same h.store (written now task_id row h.store) h'.store now task_id row
                    (ap (λ (k : Hub Response). k.store.tasks) (sym end) ∙ tasks)
                    (ap (λ (k : Hub Response). k.store.agent_sessions) (sym end)
                      ∙ ap (λ (s : Store Response). s.agent_sessions) kept)
                    release,
                sym answer
                    ∙ ap₂
                        (λ (t : TaskRow) (ds : List TaskDependency).
                          task_response
                            (record { row = t; depends_on = dependencies_for_task task_id ds }))
                        (some-injective row' (release_row now row)
                          (sym found' ∙ ap (find task_key task_id) tasks ∙ release.task))
                        (ap (λ (s : Store Response). s.task_dependencies) kept),
              )

  -- A release that succeeds either repeats the answer that the table of keys has under its
  -- idempotency key in the task's project, for a release, and changes no table; or the version is the expected one and the session owns the task or the claim
  -- is stale. Then the task is READY without an owner at the next version, its former owner idles
  -- without a task, the answer is the released task, and no other task or session has changed.
  pub release_task_lem :
      (h h' : Hub Response) (r : Response)
      → release_task now task_id input h ≡ (ok r, h')
      → ((row : TaskRow) × (k : IdempotencyKey Response) × (find task_key task_id h.store.tasks
            ≡ some row)
          × (find_key row.project_id input.idempotency_key h.store.idempotency_keys ≡ some k)
          × (k.operation ≡ "task.release")
          × (r ≡ k.response)
          × (h'.store ≡ h.store))
        ⊎ Release now task_id input h.store h'.store r
  unfolding release_task
  release_task_lem h h' r e = get_task-then h task_id _ e λ row found e.
      elim (mutate-Outcome row.project_id input.idempotency_key "task.release"
        (release_body now task_id input) now none h h' r e) [
          | inl (k, stored, same, answer, kept) ↦ inl (row, k, found, stored, same, answer, kept)
          | inr (h₂, _, ran, kept) ↦ inr (
              Release-same now task_id input h.store h₂.store h'.store r
                (ap (λ (s : Store Response). s.tasks) kept)
                (ap (λ (s : Store Response). s.agent_sessions) kept)
                (release_body-Release (inside h) h₂ r ran))
        ]

-- A task that a session claimed and released again is READY without an owner, two versions later;
-- all else that it records is as before the claim, but the time of the last change.
pub claim-release :
    (now later task_id : ℕ) (input : ClaimInput) (input' : ReleaseInput) (h h' h'' : Hub Response)
    (r r' : Response)
    → claim_body now task_id input h ≡ (ok r, h')
    → release_body later task_id input' h' ≡ (ok r', h'')
    → (row : TaskRow) × (find task_key task_id h.store.tasks ≡ some row)
      × (find task_key task_id h''.store.tasks
          ≡ some (record row {
            status = ready;
            owner_agent_id = none;
            owner_session_id = none;
            claim_stale_at = none;
            version = row.version + 1 + 1;
            updated_at = later;
          }))
claim-release now later task_id input input' h h' h'' r r' first second =
    let (row, session, found, _, _, stands, _) = claim_body-Claim now task_id input h h' r first in
    let (row', _, found', _, _, released, _) =
      release_body-Release later task_id input' h' h'' r' second in
    let same = some-injective (claim_row now session row) row' (sym stands.task ∙ found') in
    (row, found, released.task ∙ ap (λ t. some (release_row later t)) (sym same))
