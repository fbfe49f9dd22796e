-- ===== src/Hub/Reviews/Request/Inserts.antt =====
-- apps/hub/src/services/store/reviews.ts, requestReview: the previous review and the rows that it
-- inserts.
use Prim.Native.String.{◌++◌ as ◌++s◌}
use ayanami_agent_hub.Hub.Reviews.Request.Inputs.{RequestInput, SavedArtifact, RequestIds}
use ayanami_agent_hub.Base.{
  ℕ, suc, ◌+◌, Bool, any, ◌==◌, ◌&&◌, ◌||◌, String, List, [], ◌∷◌, ◌++◌, Option, none, some,
  is_some, if◌then◌else◌,
}
use ayanami_agent_hub.Base.Table.{find, update}
use ayanami_agent_hub.Base.Texts.{decimal}
use ayanami_agent_hub.Hub.Rows.{
  TaskRow, ReviewRow, Evidence, ArtifactRow, TestEvidenceRow, pending, superseded, SessionRow,
}
use ayanami_agent_hub.Hub.Context.{
  Action, Result, ok, err, constraint, throw, select, throw_if, modify, pure, ◌>>=◌, ◌>>◌,
}
use ayanami_agent_hub.Hub.Tasks.{Response}
use ayanami_agent_hub.Hub.Tasks.Progress.{is_approved}
use ayanami_agent_hub.Hub.Reviews.{review_key, is_active}
use ayanami_agent_hub.Hub.Reviews.Begin.{set_review_status}

unfoldable pub lift : {A : Type 0} → Result A → Action Response A
lift (ok a) = pure a
lift (err e) = throw e

-- UPDATE reviews SET status = 'SUPERSEDED', unless the previous review is APPROVED.
unfoldable pub supersede : ℕ → Option ReviewRow → Action Response (Unit {0})
supersede now none = pure tt
supersede now (some previous) = modify λ s. record s {
  reviews =
      if is_approved previous.status
      then s.reviews
      else update review_key previous.id (set_review_status now superseded) s.reviews;
}

abbrev pub next_revision : Option ReviewRow → ℕ
next_revision none = 1
next_revision (some previous) = previous.revision + 1

abbrev pub id_of : Option ReviewRow → Option ℕ
id_of none = none
id_of (some r) = some r.id

abbrev pub new_artifact :
    ℕ → RequestIds → TaskRow → SessionRow → RequestInput → SavedArtifact → ArtifactRow
new_artifact now ids task session input saved = record {
  id = ids.artifact_id;
  project_id = task.project_id;
  task_id = task.id;
  review_id = ids.review_id;
  name = decimal ids.review_id ++s ".patch";
  sha256 = saved.sha256;
  size_bytes = saved.size_bytes;
  storage_path = saved.storage_path;
  include_uncommitted = input.include_uncommitted;
  created_by_session_id = session.id;
  created_at = now;
}

abbrev pub artifact_key : ArtifactRow → ℕ
artifact_key a = a.id

abbrev pub evidence_key : TestEvidenceRow → ℕ
evidence_key e = e.id

unfoldable pub insert_artifact : ArtifactRow → Action Response (Unit {0})
insert_artifact row = do
  taken ← select (λ s. find artifact_key row.id s.artifacts)
  throw_if (is_some taken) (constraint "artifacts")
  modify λ s. record s { artifacts = s.artifacts ++ row ∷ [] }

abbrev pub new_review :
    ℕ
    → RequestIds
    → TaskRow
    → SessionRow
    → RequestInput
    → List String
    → SavedArtifact
    → Option ReviewRow
    → ReviewRow
new_review now ids task session input changed_files saved previous = record {
  id = ids.review_id;
  project_id = task.project_id;
  task_id = task.id;
  revision = next_revision previous;
  author_agent_id = session.agent_id;
  author_session_id = session.id;
  reviewer_agent_id = input.reviewer_agent_id;
  details = record {
    base_sha = input.base_sha;
    head_sha = input.head_sha;
    patch_sha256 = saved.sha256;
    patch_artifact_id = ids.artifact_id;
    changed_files = changed_files;
    acceptance_criteria = input.acceptance_criteria;
    test_evidence = input.test_evidence;
    author_claims = input.author_claims;
    known_risks = input.known_risks;
    supersedes_review_id = id_of previous;
    created_at = now;
  };
  status = pending;
  verdict_summary = none;
  version = 0;
  updated_at = now;
}

-- What the table does not take beside another row: a revision of a task is there once, and a task has
-- one active review (migrations/0012_hub_persistent_invariants.sql).
abbrev pub review_clashes : ReviewRow → ReviewRow → Bool
review_clashes row r =
    r.task_id == row.task_id
    && (r.revision == row.revision || is_active r.status && is_active row.status)

-- INSERT INTO reviews; the identifier is the primary key.
unfoldable pub insert_review : ReviewRow → Action Response (Unit {0})
insert_review row = do
  refused ←
      select (λ s. is_some (find review_key row.id s.reviews) || any (review_clashes row) s.reviews)
  throw_if refused (constraint "reviews")
  modify λ s. record s { reviews = s.reviews ++ row ∷ [] }

-- The row of evidence that has a command and an exit code.
unfoldable pub insert_one_evidence :
    ℕ → ℕ → ℕ → String → Option String → Option ℕ → Action Response (Unit {0})
insert_one_evidence now id review_id summary (some command) (some exit_code) = do
  taken ← select (λ s. find evidence_key id s.test_evidence)
  throw_if (is_some taken) (constraint "test_evidence")
  modify λ s. record s {
    test_evidence =
        s.test_evidence
        ++ record {
          id = id;
          review_id = review_id;
          command = command;
          exit_code = exit_code;
          output_summary = summary;
          created_at = now;
        }
          ∷ [];
  }
insert_one_evidence now id review_id summary _ _ = pure tt

-- The loop over the evidence, whose first item has the place `i`.
unfoldable pub insert_evidence : ℕ → (ℕ → ℕ) → ℕ → ℕ → List Evidence → Action Response (Unit {0})
unfolding insert_one_evidence
insert_evidence now draw i review_id [] = pure tt
insert_evidence now draw i review_id (e ∷ es) = do
  insert_one_evidence now (draw i) review_id e.output_summary e.command e.exit_code
  insert_evidence now draw (suc i) review_id es
