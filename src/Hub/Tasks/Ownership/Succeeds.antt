-- ===== src/Hub/Tasks/Ownership/Succeeds.antt =====
-- apps/hub/src/services/store/tasks.ts, claimTask and releaseTask: a claim or a
-- release that is allowed is granted.
use ayanami_agent_hub.Base.{
  ℕ, ◌≡◌, refl, ap, ◌∙◌, ◌⊎◌, inl, inr, true, false, List, [], ◌∷◌, some, ◌&&◌, not, is_some,
  opt_eq, ==_iff, arith, All, ◌+◌, none, sym,
}
use ayanami_agent_hub.Base.Table.{find}
use mathlib.Core.Option.{some-injective}
use ayanami_agent_hub.Protocol.Task.{TaskStatus, ready, backlog, can_transition}
use ayanami_agent_hub.Hub.Rows.{TaskRow, SessionRow, ProjectRow}
use ayanami_agent_hub.Hub.Context.{Store, Hub, ok, monad}
use ayanami_agent_hub.Hub.Context.Succeeds.{
  Succeeds, after, after_throw_if, after_modify, after_emit, pure_succeeds,
}
use ayanami_agent_hub.Hub.Sessions.{session_key, get_session}
use ayanami_agent_hub.Hub.Tasks.{Response, task_key, get_task, all_done}
use ayanami_agent_hub.Hub.Tasks.Reads.{IsDone, task_at}
use ayanami_agent_hub.Hub.Tasks.Ownership.{
  ClaimInput, is_claimable, claim_row, claim_body, ReleaseInput, release_row, release_body,
}
use ayanami_agent_hub.Hub.Tasks.Ownership.Release.{
  MayRelease, release_body-Release, written-IsReleased,
}
use ayanami_agent_hub.Hub.Tasks.Ownership.Claim.{MayClaim, written-IsClaimed}

module _ (h : Hub Response) where
  get_task_succeeds :
      (id : ℕ) (row : TaskRow)
      → find task_key id h.store.tasks ≡ some row
      → get_task id h ≡ (ok (task_at h.store id row), h)
  unfolding get_task monad
  get_task_succeeds id row found = ground arith

  get_session_succeeds :
      (id : ℕ) (session : SessionRow)
      → find session_key id h.store.agent_sessions ≡ some session
      → get_session id h ≡ (ok session, h)
  unfolding get_session monad
  get_session_succeeds id session found = ground arith

  all_done_succeeds : (ids : List ℕ) → All (IsDone h.store) ids → all_done ids h ≡ (ok true, h)
  unfolding all_done get_task monad
  all_done_succeeds [] all = refl
  all_done_succeeds (id ∷ ids) ((row, found, finished), all) =
      ground (arith, all_done_succeeds ids all)

MayClaim-free :
    (s : Store Response) (task_id : ℕ) (input : ClaimInput) (row : TaskRow) (session : SessionRow)
    → MayClaim s task_id input row session
    → (is_some row.owner_session_id && not (is_some row.claim_stale_at && input.takeover_stale))
      ≡ false
MayClaim-free s task_id input row session may = elim may.free [
  | inl e ↦ ground arith
  | inr (p, q) ↦ ground arith
]

claimable-passes : (s : TaskStatus) → (s ≡ ready) ⊎ (s ≡ backlog) → not (is_claimable s) ≡ false
claimable-passes s (inl e) = ground arith
claimable-passes s (inr e) = ground arith

-- A claim that is allowed, in a project that is there, is granted.
pub MayClaim-claim_body :
    (now task_id : ℕ) (input : ClaimInput) (h : Hub Response) (row : TaskRow) (session : SessionRow)
    (project : ProjectRow)
    → find task_key task_id h.store.tasks ≡ some row
    → find session_key input.session_id h.store.agent_sessions ≡ some session
    → find (λ p. p.id) row.project_id h.store.projects ≡ some project
    → MayClaim h.store task_id input row session
    → Succeeds (claim_body now task_id input h)
unfolding claim_body
MayClaim-claim_body now task_id input h row session project found known there may =
    let claim = written-IsClaimed h.store now task_id input.session_id row session found known in
    after h _ _ _ _ (get_task_succeeds h task_id row found) (
      after h _ _ _ _ (get_session_succeeds h input.session_id session known) (
        after_throw_if h _ _ _ (ground (arith, may.same_project)) (
          after_throw_if h _ _ _ (ground (arith, may.unchanged)) (
            after_throw_if h _ _ _ (claimable-passes row.status may.claimable) (
              after h _ _ _ _ (all_done_succeeds h _ may.dependencies_done) (
                after_throw_if h _ _ _ refl (
                  after_throw_if h _ _ _ (MayClaim-free h.store task_id input row session may) (
                    after_modify h _ _ (
                      after_emit _ now _ project _ there λ event h₁ kept.
                        (after h₁ _ _ _ _
                          (get_task_succeeds h₁ task_id (claim_row now session row) (
                            ap (find task_key task_id) (ap (λ (s : Store Response). s.tasks) kept)
                            ∙ claim.task))
                          (pure_succeeds h₁ _)))))))))))

MayRelease-entitled :
    (input : ReleaseInput) (row : TaskRow) (session : SessionRow)
    → MayRelease input row session
    → (not (opt_eq row.owner_session_id (some session.id)) && not (is_some row.claim_stale_at))
      ≡ false
MayRelease-entitled input row session may = elim may.entitled [
  | inl e ↦ ground (arith, opt_eq_self session.id)
  | inr p ↦ ground arith
]
  where
    opt_eq_self : (i : ℕ) → opt_eq (some i) (some i) ≡ true
    opt_eq_self i = ground (arith, ==_iff i i)

module _ (now task_id : ℕ) (input : ReleaseInput) (h : Hub Response) (row : TaskRow)
    (session : SessionRow) (project : ProjectRow) where
  MayRelease-release_body :
      find task_key task_id h.store.tasks ≡ some row
      → find session_key input.session_id h.store.agent_sessions ≡ some session
      → find (λ p. p.id) row.project_id h.store.projects ≡ some project
      → MayRelease input row session
      → Succeeds (release_body now task_id input h)
  unfolding release_body
  MayRelease-release_body found known there may =
      after h _ _ _ _ (get_task_succeeds h task_id row found) (
        after h _ _ _ _ (get_session_succeeds h input.session_id session known) (
          after_throw_if h _ _ _ (ground (arith, may.unchanged)) (
            after_throw_if h _ _ _ (MayRelease-entitled input row session may) (
              after_modify h _ _ (
                after_emit _ now _ project _ there λ event h₁ kept.
                  (after h₁ _ _ _ _
                    (get_task_succeeds h₁ task_id (release_row now row) (
                      ap (find task_key task_id) (ap (λ (s : Store Response). s.tasks) kept)
                      ∙ (written-IsReleased h.store now task_id row found).task))
                    (pure_succeeds h₁ _)))))))

  -- A release does not look at the status: whoever may release the task, in a project that is there,
  -- succeeds also where TASK_TRANSITIONS has no way from its status, DONE among them, to READY; and
  -- then the task is READY without an owner, at the next version.
  pub release_against_transitions :
      find task_key task_id h.store.tasks ≡ some row
      → find session_key input.session_id h.store.agent_sessions ≡ some session
      → find (λ p. p.id) row.project_id h.store.projects ≡ some project
      → MayRelease input row session
      → can_transition row.status ready ≡ false
      → (r : Response) × (h' : Hub Response) × (release_body now task_id input h ≡ (ok r, h'))
        × (find task_key task_id h'.store.tasks
            ≡ some (record row {
              status = ready;
              owner_agent_id = none;
              owner_session_id = none;
              claim_stale_at = none;
              version = row.version + 1;
              updated_at = now;
            }))
  release_against_transitions found known there may refused =
      let (r, h', e) = MayRelease-release_body found known there may in
      let (row', _, found', _, _, released, _) = release_body-Release now task_id input h h' r e in
      let same = some-injective row' row (sym found' ∙ found) in
      (r, h', e, released.task ∙ ap (λ t. some (release_row now t)) same)
