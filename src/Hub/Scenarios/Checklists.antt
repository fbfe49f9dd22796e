-- ===== src/Hub/Scenarios/Checklists.antt =====
-- The rest of apps/hub/src/services/store/tasks.ts on the small database: checklists and progress.
use ayanami_agent_hub.Base.{
  ◌+◌, or_else, if◌then◌else◌, ◌≡◌, refl, ◌↔◌, true, [], ◌∷◌, none, some, arith,
}
use ayanami_agent_hub.Base.Table.{find}
use ayanami_agent_hub.Protocol.Task.{ready, can_transition, status_eq}
use ayanami_agent_hub.Protocol.Progress.{
  TodoStatus, is_done, sum_from, numerator, denominator, clamped, tenths, has_blocking,
  compute_task_progress,
}
use ayanami_agent_hub.Hub.Rows.{TaskRow, TodoRow, ReviewRow, ReviewDetails, agent, approved}
use ayanami_agent_hub.Hub.Context.{Hub, ok}
use ayanami_agent_hub.Hub.Tasks.{
  Response, todo_response, task_key, todo_key, latest_review, latest, list_todos,
}
use ayanami_agent_hub.Hub.Tasks.Progress.{
  assert_task_completion_gate, review_gate, progress_in, recompute_progress, set_progress,
}
use ayanami_agent_hub.Hub.Tasks.Progress.Gate.{
  IsComplete, completion_gate_iff, completion_gate-recompute_progress,
}
use ayanami_agent_hub.Hub.MutationAuthority.{MutationActor}
use ayanami_agent_hub.Hub.Tasks.Creation.{
  create_body, check_dependencies, some_unfinished, initial_status, insert_task,
  insert_dependencies,
}
use ayanami_agent_hub.Hub.Tasks.Update.{updates, check_status, write_update, update_body}
use ayanami_agent_hub.Hub.Tasks.Todos.{
  TodoInput, TodoUpdate, get_todo, insert_todo, create_todo_body, update_todo_body, update_todo_row,
  evidence_of,
}
use ayanami_agent_hub.Hub.Tasks.Todos.Laws.{IsCurrent, MayChange, update_todo_body_lem}
use ayanami_agent_hub.Hub.Scenarios.{hub, row, store_calls}

unfoldable pub task_calls : Unit {0}
unfolding store_calls create_body check_dependencies some_unfinished initial_status insert_task
    insert_dependencies update_body updates check_status write_update can_transition status_eq
    get_todo insert_todo create_todo_body update_todo_body recompute_progress progress_in
    assert_task_completion_gate review_gate list_todos latest_review latest compute_task_progress
    sum_from numerator denominator clamped tenths has_blocking
task_calls = tt

abbrev pub actor : MutationActor
actor = record { actor_type = agent; actor_id = "codex" }

abbrev pub reviewed : TaskRow
reviewed = record (row 7 ready none) { review_required = true }

abbrev pub item : TodoRow
item = record {
  id = 4;
  task_id = 7;
  title = "tests";
  description = none;
  type = "test";
  status = TodoStatus.done;
  weight = 2;
  evidence_required = true;
  evidence = "log" ∷ [];
  completed_by_session_id = some 3;
  completed_at = some 2;
  version = 1;
  created_at = 1;
  updated_at = 2;
}

abbrev pub snapshot : ReviewDetails
snapshot = record {
  base_sha = "b0";
  head_sha = "h1";
  patch_sha256 = "d2";
  patch_artifact_id = 50;
  changed_files = [];
  acceptance_criteria = [];
  test_evidence = [];
  author_claims = [];
  known_risks = [];
  supersedes_review_id = none;
  created_at = 0;
}

abbrev pub review : ReviewRow
review = record {
  id = 5;
  project_id = 1;
  task_id = 7;
  revision = 1;
  author_agent_id = "codex";
  author_session_id = 3;
  reviewer_agent_id = "claude";
  details = snapshot;
  status = approved;
  verdict_summary = none;
  version = 2;
  updated_at = 0;
}

-- Task 7 requires a review, has one finished item and an approved review.
abbrev pub reviewed_hub : Hub Response
reviewed_hub = record hub {
  store = record hub.store { tasks = reviewed ∷ []; todo_items = item ∷ []; reviews = review ∷ [] };
}

completion_gate_iff_example :
    (assert_task_completion_gate reviewed reviewed_hub ≡ (ok tt, reviewed_hub))
    ↔ IsComplete reviewed_hub.store reviewed
completion_gate_iff_example = completion_gate_iff reviewed_hub reviewed

completion_gate-recompute_progress_example :
    let after = recompute_progress 9 7 reviewed_hub in
    (after.0 ≡ ok 1000)
    × (find task_key 7 after.1.store.tasks ≡ some (set_progress 9 1000 reviewed))
unfolding task_calls
completion_gate-recompute_progress_example =
    completion_gate-recompute_progress 9 7 reviewed_hub reviewed refl refl refl (omega arith)

abbrev pub new_item : TodoInput
new_item = record {
  title = "docs";
  description = none;
  type = "doc";
  weight = 2;
  evidence_required = true;
  idempotency_key = "k8";
}

abbrev pub with_item : Hub Response
with_item = (create_todo_body 5 1 9 7 new_item actor reviewed_hub).1

abbrev pub finish : TodoUpdate
finish = record {
  expected_version = 1;
  status = TodoStatus.done;
  evidence = none;
  completed_by_session_id = some 3;
  idempotency_key = "k9";
}

abbrev pub finished : Hub Response
finished = (update_todo_body 6 1 4 finish actor reviewed_hub).1

abbrev pub finished_item : TodoRow
finished_item = update_todo_row 6 finish (evidence_of finish item) item

update_todo_body_lem_example :
    (t : TodoRow) × (find todo_key 4 reviewed_hub.store.todo_items ≡ some t)
    × MayChange finish t
    × (find todo_key 4 finished.store.todo_items
        ≡ some (record t {
          status = TodoStatus.done;
          evidence = or_else finish.evidence t.evidence;
          completed_by_session_id = some 3;
          completed_at = if is_done TodoStatus.done then some 6 else none;
          version = t.version + 1;
          updated_at = 6;
        }))
    × (todo_response finished_item
        ≡ todo_response (update_todo_row 6 finish (evidence_of finish t) t))
    × IsCurrent finished.store t.task_id
unfolding task_calls
update_todo_body_lem_example =
    update_todo_body_lem 6 1 4 finish actor reviewed_hub finished (todo_response finished_item) refl
