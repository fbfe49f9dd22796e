-- ===== src/Hub/Tasks/Split/Parts.antt =====
-- apps/hub/src/services/store/tasks.ts, splitTask: the rows of the children.

use ayanami_agent_hub.Protocol.Task.{ready}
use ayanami_agent_hub.Base.{ℕ, or_else, ◌≡◌, List, [], none, some, All}
use ayanami_agent_hub.Base.Table.{find}
use ayanami_agent_hub.Hub.Rows.{TaskRow}
use ayanami_agent_hub.Hub.Context.{Store}
use ayanami_agent_hub.Hub.Tasks.{Response, task_key}
use ayanami_agent_hub.Hub.Tasks.Split.{ChildInput}

-- The row of a part: READY, at version 0, unowned and without progress, under the parent and in its
-- project; what the request leaves out comes from the parent or is a default.
pub record IsPart (now : ℕ) (parent : TaskRow) (c : ChildInput) (t : TaskRow) : Type 0 where
  pub id : t.id ≡ c.id
  pub project : t.project_id ≡ parent.project_id
  pub parent_task : t.parent_task_id ≡ some parent.id
  pub status : t.status ≡ ready
  pub owner_agent : t.owner_agent_id ≡ none
  pub owner_session : t.owner_session_id ≡ none
  pub stale : t.claim_stale_at ≡ none
  pub progress : t.computed_progress ≡ 0
  pub version : t.version ≡ 0
  pub updated_at : t.updated_at ≡ now
  pub weight : t.weight ≡ or_else c.weight 1
  pub review_required : t.review_required ≡ parent.review_required
  pub priority : t.priority ≡ parent.priority
  pub details : t.details ≡ record {
    title = c.title;
    description = or_else c.description "";
    objective_id = parent.details.objective_id;
    milestone_id = parent.details.milestone_id;
    reviewer_agent_id = parent.details.reviewer_agent_id;
    capability_tags = or_else c.capability_tags parent.details.capability_tags;
    scope_globs = or_else c.scope_globs [];
    protected_scope = parent.details.protected_scope;
    base_sha = none;
    head_sha = none;
    blocked_reason = none;
    waiting_for = none;
    self_reported_summary = none;
    agent_estimate = none;
    created_at = now;
  }

-- What is stored for each child.
abbrev pub Parts : ℕ → TaskRow → Store Response → List ChildInput → Type 0
Parts now parent s = All λ (c : ChildInput).
    (t : TaskRow) × (find task_key c.id s.tasks ≡ some t) × IsPart now parent c t
