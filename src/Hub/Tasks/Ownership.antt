-- ===== src/Hub/Tasks/Ownership.antt =====
-- apps/hub/src/services/store/tasks.ts, claimTask and releaseTask: who owns a task.
pub mod Claim
pub mod Release
pub mod Orderly
pub mod Succeeds
use Prim.Native.String.{◌++◌ as ◌++s◌}
use ayanami_agent_hub.Base.{
  ℕ, suc, ◌+◌, Bool, true, false, String, List, [], ◌∷◌, Option, none, some, ◌&&◌, not, is_some,
  opt_eq, ◌==◌, if◌then◌else◌,
}
use ayanami_agent_hub.Base.Table.{update}
use ayanami_agent_hub.Protocol.Task.{TaskStatus, status_text, ready, backlog, claimed}
use ayanami_agent_hub.Hub.Rows.{
  TaskRow, SessionRow, WorkState, planning, idle, ActorType, agent, EventDraft, task_claimed,
  task_released,
}
use ayanami_agent_hub.Hub.Context.{
  Action, conflict, forbidden, modify, throw_if, pure, ◌>>=◌, ◌>>◌, emit, mutate, no_options,
}
use ayanami_agent_hub.Hub.Sessions.{get_session, session_key}
use ayanami_agent_hub.Hub.Tasks.{Task, Response, task_response, task_key, get_task, all_done}

pub record ClaimInput : Type 0 where
  pub session_id : ℕ
  pub expected_version : ℕ
  pub takeover_stale : Bool
  pub idempotency_key : String

-- `["READY", "BACKLOG"].includes(status)`
abbrev pub is_claimable : TaskStatus → Bool
is_claimable ready = true
is_claimable backlog = true
is_claimable _ = false

abbrev pub claim_row : ℕ → SessionRow → TaskRow → TaskRow
claim_row now session t = record t {
  status = claimed;
  owner_agent_id = some session.agent_id;
  owner_session_id = some session.id;
  claim_stale_at = none;
  version = t.version + 1;
  updated_at = now;
}

-- UPDATE agent_sessions SET current_task_id = ?, work_state = ?, version = version + 1
abbrev pub set_work : Option ℕ → WorkState → SessionRow → SessionRow
set_work task_id state s = record s {
  current_task_id = task_id;
  work_state = state;
  version = s.version + 1;
}

unfoldable pub claim_body : ℕ → ℕ → ClaimInput → Action Response Response
claim_body now task_id input = do
  current ← get_task task_id
  session ← get_session input.session_id
  throw_if (not (session.project_id == current.project_id))
      (forbidden "Session and task belong to different projects")
  throw_if (not (current.version == input.expected_version)) (conflict "Task version changed")
  throw_if (not (is_claimable current.status))
      (conflict ("Task cannot be claimed from " ++s status_text current.status))
  dependencies_ready ← all_done current.depends_on
  throw_if (not dependencies_ready) (conflict "Task dependencies are not complete")
  throw_if
      (is_some current.owner_session_id
        && not (is_some current.claim_stale_at && input.takeover_stale))
      (conflict "Task is already owned")
  modify λ s. record s {
    tasks = update task_key task_id (claim_row now session) s.tasks;
    agent_sessions =
        update session_key session.id (set_work (some task_id) planning) s.agent_sessions;
  }
  emit now (record {
    project_id = current.project_id;
    type = "task.claimed";
    actor_type = agent;
    actor_id = session.agent_id;
    aggregate_type = "task";
    aggregate_id = task_id;
    causation_id = none;
    correlation_id = none;
    payload = task_claimed session.id input.takeover_stale;
  })
  updated ← get_task task_id
  pure (task_response updated)

unfoldable pub claim_task : ℕ → ℕ → ClaimInput → Action Response Response
claim_task now task_id input = do
  task ← get_task task_id
  mutate now task.project_id input.idempotency_key "task.claim" (claim_body now task_id input)
      no_options

pub record ReleaseInput : Type 0 where
  pub session_id : ℕ
  pub expected_version : ℕ
  pub idempotency_key : String

abbrev pub release_row : ℕ → TaskRow → TaskRow
release_row now t = record t {
  status = ready;
  owner_agent_id = none;
  owner_session_id = none;
  claim_stale_at = none;
  version = t.version + 1;
  updated_at = now;
}

-- `WHERE id = ?` with a parameter that may be NULL: then no row is updated.
abbrev pub update_session : Option ℕ → (SessionRow → SessionRow) → List SessionRow → List SessionRow
update_session none f ss = ss
update_session (some id) f ss = update session_key id f ss

unfoldable pub release_body : ℕ → ℕ → ReleaseInput → Action Response Response
release_body now task_id input = do
  current ← get_task task_id
  session ← get_session input.session_id
  throw_if (not (current.version == input.expected_version)) (conflict "Task version changed")
  throw_if
      (not (opt_eq current.owner_session_id (some session.id))
        && not (is_some current.claim_stale_at))
      (forbidden "Only the owner or a stale-claim release may release this task")
  modify λ s. record s {
    tasks = update task_key task_id (release_row now) s.tasks;
    agent_sessions = update_session current.owner_session_id (set_work none idle) s.agent_sessions;
  }
  emit now (record {
    project_id = current.project_id;
    type = "task.released";
    actor_type = agent;
    actor_id = session.agent_id;
    aggregate_type = "task";
    aggregate_id = task_id;
    causation_id = none;
    correlation_id = none;
    payload = task_released current.owner_session_id;
  })
  updated ← get_task task_id
  pure (task_response updated)

unfoldable pub release_task : ℕ → ℕ → ReleaseInput → Action Response Response
release_task now task_id input = do
  task ← get_task task_id
  mutate now task.project_id input.idempotency_key "task.release" (release_body now task_id input)
      no_options
