-- ===== src/Hub/Tasks/Update/Unowned.antt =====
-- apps/hub/src/services/store/tasks.ts, updateTask against claimTask and releaseTask: an update may
-- set CLAIMED, but it sets no owner.
use mathlib.Core.Option.{some-injective}
use ayanami_agent_hub.Base.{
  ℕ, ◌≡◌, ◌≢◌, sym, ap, ◌∙◌, ◌⊎◌, inl, inr, true, [], none, some, is_some, arith, or_else,
}
use ayanami_agent_hub.Base.Table.{find}
use ayanami_agent_hub.Protocol.Task.{ready, backlog, TaskStatus, claimed}
use ayanami_agent_hub.Hub.Rows.{TaskRow}
use ayanami_agent_hub.Hub.Context.{Hub, ok}
use ayanami_agent_hub.Hub.Tasks.{Response, task_key}
use ayanami_agent_hub.Hub.MutationAuthority.{MutationActor}
use ayanami_agent_hub.Hub.Tasks.Ownership.{ClaimInput, ReleaseInput, claim_body, release_body}
use ayanami_agent_hub.Hub.Tasks.Ownership.Claim.{claim_body-Claim}
use ayanami_agent_hub.Hub.Tasks.Ownership.Release.{release_body-Release}
use ayanami_agent_hub.Hub.Tasks.Update.{UpdateInput, updates, update_row, update_body}
use ayanami_agent_hub.Hub.Tasks.Update.Laws.{update_body_lem}

-- A task that is CLAIMED, though nobody owns it and no claim of it is stale.
abbrev pub IsStuck : Hub Response → ℕ → Type 0
IsStuck h task_id =
    (row : TaskRow) × (find task_key task_id h.store.tasks ≡ some row)
    × (row.status ≡ claimed)
    × (row.owner_session_id ≡ none)
    × (row.claim_stale_at ≡ none)

not_claimable :
    (row : TaskRow) → row.status ≡ claimed → (row.status ≡ ready) ⊎ (row.status ≡ backlog) → ⊥
not_claimable row e (inl p) = ground arith
not_claimable row e (inr p) = ground arith

not_entitled :
    (row : TaskRow) (id : ℕ)
    → row.owner_session_id ≡ none
    → row.claim_stale_at ≡ none
    → (row.owner_session_id ≡ some id) ⊎ (is_some row.claim_stale_at ≡ true)
    → ⊥
not_entitled row id p q (inl e) = cc
not_entitled row id p q (inr e) = ground arith

stuck_claim :
    (later task_id : ℕ) (input : ClaimInput) (h h' : Hub Response) (r : Response)
    → IsStuck h task_id
    → claim_body later task_id input h ≢ (ok r, h')
stuck_claim later task_id input h h' r (row, found, status, owner, stale) e =
    let (row', _, found', _, may, _, _) = claim_body-Claim later task_id input h h' r e in
    let same = some-injective row row' (sym found ∙ found') in
    not_claimable row' (ap (λ (t : TaskRow). t.status) (sym same) ∙ status) may.claimable

stuck_release :
    (later task_id : ℕ) (input : ReleaseInput) (h h' : Hub Response) (r : Response)
    → IsStuck h task_id
    → release_body later task_id input h ≢ (ok r, h')
stuck_release later task_id input h h' r (row, found, status, owner, stale) e =
    let (row', session, found', _, may, _, _) = release_body-Release later task_id input h h' r e in
    let same = some-injective row row' (sym found ∙ found') in
    not_entitled row' session.id (ap (λ (t : TaskRow). t.owner_session_id) (sym same) ∙ owner)
      (ap (λ (t : TaskRow). t.claim_stale_at) (sym same) ∙ stale) may.entitled

updates_status :
    (input : UpdateInput) (status : TaskStatus) → input.status ≡ some status → updates input ≢ []
unfolding updates
updates_status input status e p = ground arith

claimed_update :
    (now : ℕ) (input : UpdateInput) (row : TaskRow)
    → input.status ≡ some claimed
    → (update_row now input row).status ≡ claimed
claimed_update now input row e = ap (λ o. or_else o row.status) e

-- An update that sets CLAIMED on a task without an owner and without a stale claim, and succeeds,
-- sets no owner; the task can then be claimed by no session and released by no session.
pub update_claimed_unowned :
    (now task_id : ℕ) (input : UpdateInput) (actor : MutationActor) (h h' : Hub Response)
    (r : Response) (row : TaskRow)
    → find task_key task_id h.store.tasks ≡ some row
    → row.owner_session_id ≡ none
    → row.claim_stale_at ≡ none
    → input.status ≡ some claimed
    → update_body now task_id input actor h ≡ (ok r, h')
    → IsStuck h' task_id
      × ((later : ℕ) (claim : ClaimInput) (h'' : Hub Response) (r' : Response)
          → claim_body later task_id claim h' ≢ (ok r', h''))
      × ((later : ℕ) (release : ReleaseInput) (h'' : Hub Response) (r' : Response)
          → release_body later task_id release h' ≢ (ok r', h''))
update_claimed_unowned now task_id input actor h h' r row found unowned fresh asked e =
    let (row', found', _, _, left) = update_body_lem now task_id input actor h h' r e in
    let same = some-injective row row' (sym found ∙ found') in
    let stuck : IsStuck h' task_id = elim left [
      | inl (nothing, _, _) ↦ absurd (updates_status input claimed asked nothing)
      | inr (_, (stored, _), _) ↦ (
        update_row now input row',
        stored,
        claimed_update now input row' asked,
        ap (λ (t : TaskRow). t.owner_session_id) (sym same) ∙ unowned,
        ap (λ (t : TaskRow). t.claim_stale_at) (sym same) ∙ fresh,
      )
    ] in
    (
      stuck,
      λ later claim h'' r'. stuck_claim later task_id claim h' h'' r' stuck,
      λ later release h'' r'. stuck_release later task_id release h' h'' r' stuck,
    )
