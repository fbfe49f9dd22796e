-- ===== src/Hub/Scenarios.antt =====
-- The store of apps/hub on a small database: project 1 with task 7, which depends on the finished
-- task 6, and with session 3.
pub mod Checklists
pub mod Changes
pub mod Histories
pub mod Reviewed
pub mod Posted
use ayanami_agent_hub.Base.{
  ℕ, ◌+◌, ◌≡◌, ◌≢◌, refl, ◌⊎◌, inl, true, false, [], ◌∷◌, Option, none, some, arith,
}
use ayanami_agent_hub.Base.Table.{find}
use ayanami_agent_hub.Base.Lists.{sort_by, insert_sorted}
use ayanami_agent_hub.Protocol.Task.{TaskStatus, ready, done, can_transition}
use ayanami_agent_hub.Hub.Rows.{
  TaskDetails, TaskRow, SessionRow, Priority, idle, online, IdempotencyKey,
}
use ayanami_agent_hub.Hub.Context.{
  Action, Hub, ok, find_key, mutation, no_options, mutate, not_found, MutationOptions,
}
use ayanami_agent_hub.Hub.Context.Sequence.{sequences, up_to, sequence_of}
use ayanami_agent_hub.Hub.Context.Atomic.{mutate_atomic, mutate-Settled, Settled}
use ayanami_agent_hub.Hub.Context.Orderly.{IsOrderly, pure-IsOrderly}
use ayanami_agent_hub.Hub.Context.Replay.{mutate_replays}
use ayanami_agent_hub.Hub.Sessions.{get_session}
use ayanami_agent_hub.Hub.Tasks.{
  Response, task_response, task_key, get_task, all_done, dependencies_for_task,
}
use ayanami_agent_hub.Hub.Tasks.Ownership.{
  ClaimInput, ReleaseInput, claim_task, claim_body, release_task, release_body, claim_row,
  release_row,
}
use ayanami_agent_hub.Hub.Tasks.Ownership.Claim.{Claim, claim_task_lem, claim_exclusive}
use ayanami_agent_hub.Hub.Tasks.Ownership.Release.{Release, release_task_lem, claim-release}
use ayanami_agent_hub.Hub.Tasks.Ownership.Succeeds.{release_against_transitions}
use ayanami_agent_hub.Hub.Tasks.Ownership.Orderly.{claim_body-IsOrderly}

abbrev pub details : TaskDetails
details = record {
  title = "parser";
  description = "";
  objective_id = 1;
  milestone_id = none;
  reviewer_agent_id = none;
  capability_tags = [];
  scope_globs = [];
  protected_scope = false;
  base_sha = none;
  head_sha = none;
  blocked_reason = none;
  waiting_for = none;
  self_reported_summary = none;
  agent_estimate = none;
  created_at = 0;
}

abbrev pub row : ℕ → TaskStatus → Option ℕ → TaskRow
row id status owner = record {
  id = id;
  project_id = 1;
  parent_task_id = none;
  details = details;
  status = status;
  priority = Priority.normal;
  owner_agent_id = none;
  owner_session_id = owner;
  review_required = false;
  computed_progress = 0;
  weight = 1;
  claim_stale_at = none;
  version = 0;
  updated_at = 0;
}

abbrev pub session : SessionRow
session = record {
  id = 3;
  project_id = 1;
  agent_id = "codex";
  connection_state = online;
  work_state = idle;
  current_task_id = none;
  current_review_id = none;
  lineage_id = none;
  version = 0;
}

abbrev pub hub : Hub Response
hub = record {
  store = record {
    projects = record { id = 1; current_sequence = 0; updated_at = 0 } ∷ [];
    tasks = row 6 done (some 3) ∷ row 7 ready none ∷ [];
    task_dependencies = record { task_id = 7; depends_on_task_id = 6 } ∷ [];
    todo_items = [];
    reviews = [];
    review_findings = [];
    artifacts = [];
    test_evidence = [];
    agent_sessions = session ∷ [];
    session_lineages = [];
    messages = [];
    message_recipients = [];
    threads = [];
    events = [];
    idempotency_keys = [];
  };
  active = none;
  bus = [];
}

abbrev pub claim : ClaimInput
claim = record {
  session_id = 3;
  expected_version = 0;
  takeover_stale = false;
  idempotency_key = "k1";
}

abbrev pub late_claim : ClaimInput
late_claim = record {
  session_id = 3;
  expected_version = 0;
  takeover_stale = false;
  idempotency_key = "k2";
}

abbrev pub release : ReleaseInput
release = record { session_id = 3; expected_version = 1; idempotency_key = "k3" }

abbrev pub answer : TaskRow → Response
answer t = task_response (record { row = t; depends_on = 6 ∷ [] })

abbrev pub claimed_row : TaskRow
claimed_row = claim_row 5 session (row 7 ready none)

-- Opens what the runs below compute with.
unfoldable pub store_calls : Unit {0}
unfolding mutation get_task get_session all_done dependencies_for_task sort_by insert_sorted
    claim_task claim_body release_task release_body
store_calls = tt

abbrev pub after_claim : Hub Response
after_claim = (claim_task 5 7 claim hub).1

abbrev pub within_claim : Hub Response
within_claim = (claim_body 5 7 claim hub).1

claim_task_lem_example :
    ((t : TaskRow) × (k : IdempotencyKey Response) × (find task_key 7 hub.store.tasks ≡ some t)
      × (find_key t.project_id claim.idempotency_key hub.store.idempotency_keys ≡ some k)
      × (k.operation ≡ "task.claim")
      × (answer claimed_row ≡ k.response)
      × (after_claim.store ≡ hub.store))
    ⊎ Claim 5 7 claim hub.store after_claim.store (answer claimed_row)
unfolding store_calls
claim_task_lem_example = claim_task_lem 5 7 claim hub after_claim (answer claimed_row) refl

-- A second claim of the same task fails, also as a takeover at the right version.
abbrev pub takeover : ClaimInput
takeover = record {
  session_id = 3;
  expected_version = 1;
  takeover_stale = true;
  idempotency_key = "k2";
}

-- The hub after the presence monitor has marked the claim stale.
abbrev pub gone_stale : Hub Response
gone_stale = record within_claim {
  store = record within_claim.store {
    tasks =
        row 6 done (some 3)
        ∷ record claimed_row { claim_stale_at = some 8; version = 2; updated_at = 8 }
        ∷ [];
  };
}

claim_exclusive_example :
    (claim_body 9 7 takeover within_claim ≢ (ok (answer claimed_row), within_claim))
    × (claim_body 9 7 takeover gone_stale ≢ (ok (answer claimed_row), within_claim))
unfolding store_calls
claim_exclusive_example =
    claim_exclusive 5 8 9 7 claim takeover hub within_claim gone_stale within_claim
      (answer claimed_row) (answer claimed_row) refl refl

abbrev pub released_row : TaskRow
released_row = release_row 9 claimed_row

abbrev pub after_release : Hub Response
after_release = (release_task 9 7 release after_claim).1

abbrev pub within_release : Hub Response
within_release = (release_body 9 7 release within_claim).1

release_task_lem_example :
    ((t : TaskRow) × (k : IdempotencyKey Response) × (find task_key 7 after_claim.store.tasks
        ≡ some t)
      × (find_key t.project_id release.idempotency_key after_claim.store.idempotency_keys ≡ some k)
      × (k.operation ≡ "task.release")
      × (answer released_row ≡ k.response)
      × (after_release.store ≡ after_claim.store))
    ⊎ Release 9 7 release after_claim.store after_release.store (answer released_row)
unfolding store_calls
release_task_lem_example =
    release_task_lem 9 7 release after_claim after_release (answer released_row) refl

claim-release_example :
    (r : TaskRow) × (find task_key 7 hub.store.tasks ≡ some r)
    × (find task_key 7 within_release.store.tasks
        ≡ some (record r {
          status = ready;
          owner_agent_id = none;
          owner_session_id = none;
          claim_stale_at = none;
          version = r.version + 1 + 1;
          updated_at = 9;
        }))
unfolding store_calls
claim-release_example =
    claim-release 5 9 7 claim release hub within_claim within_release (answer claimed_row)
      (answer released_row) refl refl

abbrev pub release_done : ReleaseInput
release_done = record { session_id = 3; expected_version = 0; idempotency_key = "k4" }

release_against_transitions_example :
    (r : Response) × (h' : Hub Response) × (release_body 9 6 release_done hub ≡ (ok r, h'))
    × (find task_key 6 h'.store.tasks
        ≡ some (record (row 6 done (some 3)) {
          status = ready;
          owner_agent_id = none;
          owner_session_id = none;
          claim_stale_at = none;
          version = 1;
          updated_at = 9;
        }))
unfolding store_calls can_transition
release_against_transitions_example =
    release_against_transitions 9 6 release_done hub (row 6 done (some 3)) session
      (record { id = 1; current_sequence = 0; updated_at = 0 }) refl refl refl
      (record { unchanged = refl; entitled = inl refl }) refl

abbrev pub options : MutationOptions Response
options = no_options

no_check-IsOrderly : (r : Response) → IsOrderly (options.validate_replay r)
no_check-IsOrderly r = pure-IsOrderly tt

abbrev pub unknown : ClaimInput
unknown = record {
  session_id = 4;
  expected_version = 0;
  takeover_stale = false;
  idempotency_key = "k5";
}

-- The mutation of claimTask.
abbrev pub claiming : ClaimInput → Action Response Response
claiming input = mutate 5 1 input.idempotency_key "task.claim" (claim_body 5 7 input) options

mutate_atomic_example : (claiming unknown hub).1 ≡ hub
unfolding store_calls
mutate_atomic_example =
    mutate_atomic 5 1 "k5" "task.claim" (claim_body 5 7 unknown) options
      (claim_body-IsOrderly 5 7 unknown) no_check-IsOrderly hub {x = not_found "Session" 4} refl

mutate-Settled_example : Settled hub (claiming claim hub)
mutate-Settled_example =
    mutate-Settled 5 1 "k1" "task.claim" (claim_body 5 7 claim) options
      (claim_body-IsOrderly 5 7 claim) no_check-IsOrderly hub refl

pub hub_numbered :
    (p : ℕ)
    → sequences p hub.store.events ≡ up_to (sequence_of (find (λ q. q.id) p hub.store.projects))
unfolding find sequences up_to sequence_of
hub_numbered p = ground arith

mutate_replays_example :
    mutate 8 1 "k1" "task.claim" (claim_body 8 7 late_claim) options after_claim
    ≡ (ok (answer claimed_row), after_claim)
unfolding store_calls
mutate_replays_example =
    mutate_replays 1 "k1" 5 8 "task.claim" none (claim_body 5 7 claim) (claim_body 8 7 late_claim)
      hub after_claim (answer claimed_row) refl
