-- ===== src/Hub/Scenarios/Changes.antt =====
-- The rest of apps/hub/src/services/store/tasks.ts on the small database: tasks that are created,
-- updated and split.
use ayanami_agent_hub.Base.{ℕ, ◌+◌, length, ◌≡◌, ◌≢◌, refl, false, [], ◌∷◌, none, some, All}
use Prim.Native.String.{◌++◌ as ◌++s◌}
use ayanami_agent_hub.Base.Texts.{decimal}
use ayanami_agent_hub.Base.Table.{find}
use ayanami_agent_hub.Protocol.Task.{ready, claimed, blocked}
use ayanami_agent_hub.Hub.Rows.{TaskRow, Priority}
use ayanami_agent_hub.Hub.Context.{Hub, ok}
use ayanami_agent_hub.Hub.Tasks.{Response, task_response, task_key}
use ayanami_agent_hub.Hub.Tasks.Reads.{task_at}
use ayanami_agent_hub.Hub.Tasks.Ownership.{ClaimInput, ReleaseInput, claim_body, release_body}
use ayanami_agent_hub.Hub.Tasks.Creation.{CreateInput, create_body}
use ayanami_agent_hub.Hub.Tasks.Update.{UpdateInput, updates, update_row, update_body}
use ayanami_agent_hub.Hub.Tasks.Update.Laws.{Allows, Written, update_body_lem}
use ayanami_agent_hub.Hub.Tasks.Update.Unowned.{IsStuck, update_claimed_unowned}
use ayanami_agent_hub.Hub.Tasks.Split.{
  ChildInput, SplitInput, child_row, insert_children, split_body,
}
use ayanami_agent_hub.Hub.Tasks.Split.Parts.{Parts}
use ayanami_agent_hub.Hub.Tasks.Split.Laws.{split_body_lem}
use ayanami_agent_hub.Hub.Sessions.{session_key}
use ayanami_agent_hub.Base.{map, List}
use ayanami_agent_hub.Hub.Rows.{SessionRow}
use ayanami_agent_hub.Hub.Tasks.{Task, tasks_response}
use ayanami_agent_hub.Hub.Scenarios.{hub, row}
use ayanami_agent_hub.Hub.Scenarios.Checklists.{actor, task_calls}

-- An update that asks for nothing but what it is given.
abbrev pub no_update : UpdateInput
no_update = record {
  expected_version = 0;
  status = none;
  title = none;
  description = none;
  blocked_reason = none;
  waiting_for = none;
  self_reported_summary = none;
  agent_estimate = none;
  reviewer_agent_id = none;
  scope_globs = none;
  capability_tags = none;
  idempotency_key = "k6";
}

abbrev pub to_claimed : UpdateInput
to_claimed = record no_update { status = some claimed }

abbrev pub after_update : Hub Response
after_update = (update_body 5 7 to_claimed actor hub).1

abbrev pub updated : TaskRow
updated = update_row 5 to_claimed (row 7 ready none)

abbrev pub answer_of : Hub Response → TaskRow → Response
answer_of h t = task_response (task_at h.store t.id t)

update_body_lem_example :
    (t : TaskRow) × (find task_key 7 hub.store.tasks ≡ some t)
    × (t.version ≡ to_claimed.expected_version)
    × Allows hub.store t to_claimed.status
    × Written 5 7 to_claimed t (updates to_claimed) hub after_update (answer_of hub updated)
unfolding task_calls
update_body_lem_example =
    update_body_lem 5 7 to_claimed actor hub after_update (answer_of hub updated) refl

update_claimed_unowned_example :
    IsStuck after_update 7
    × ((later : ℕ) (claim : ClaimInput) (h'' : Hub Response) (r' : Response)
        → claim_body later 7 claim after_update ≢ (ok r', h''))
    × ((later : ℕ) (release : ReleaseInput) (h'' : Hub Response) (r' : Response)
        → release_body later 7 release after_update ≢ (ok r', h''))
unfolding task_calls
update_claimed_unowned_example =
    update_claimed_unowned 5 7 to_claimed actor hub after_update (answer_of hub updated)
      (row 7 ready none) refl refl refl refl refl

abbrev pub new_task : CreateInput
new_task = record {
  objective_id = 1;
  milestone_id = none;
  parent_task_id = none;
  title = "printer";
  description = "";
  status = ready;
  priority = Priority.high;
  reviewer_agent_id = none;
  capability_tags = [];
  scope_globs = [];
  protected_scope = false;
  review_required = false;
  depends_on = 7 ∷ [];
  weight = 1;
  idempotency_key = "k7";
}

abbrev pub after_create : Hub Response
after_create = (create_body 5 1 8 new_task actor hub).1

abbrev pub part : ChildInput
part = record {
  id = 8;
  title = "lexer";
  description = none;
  capability_tags = none;
  scope_globs = none;
  weight = none;
}

abbrev pub splitting : SplitInput
splitting = record {
  expected_version = 0;
  children = part ∷ [];
  session_id = 3;
  idempotency_key = "k10";
}

abbrev pub whole : TaskRow
whole = row 7 ready none

abbrev pub after_split : Hub Response
after_split = (split_body 5 whole splitting hub).1

abbrev pub part_tasks : List Task
part_tasks = record { row = child_row 5 whole part; depends_on = [] } ∷ []

split_body_lem_example :
    (current : TaskRow) × (worker : SessionRow) × (children : List Task) × (find task_key 7
        hub.store.tasks
      ≡ some current)
    × (current.version ≡ 0)
    × (find session_key 3 hub.store.agent_sessions ≡ some worker)
    × (map (λ (t : Task). t.row) children ≡ child_row 5 whole part ∷ [])
    × All (λ (c : ChildInput). find task_key c.id hub.store.tasks ≡ none) (part ∷ [])
    × Parts 5 whole after_split.store (part ∷ [])
    × (find task_key 7 after_split.store.tasks
        ≡ some (record current {
          status = blocked;
          details = record current.details {
            blocked_reason = some ("Split into " ++s decimal (length children) ++s " child tasks");
          };
          version = current.version + 1;
          updated_at = 5;
        }))
    × (length children ≡ 1)
    × (tasks_response part_tasks ≡ tasks_response children)
unfolding task_calls insert_children split_body
split_body_lem_example =
    split_body_lem 5 whole splitting hub after_split (tasks_response part_tasks) refl
