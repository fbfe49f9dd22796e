-- ===== src/Hub/Reviews/Request/Inputs.antt =====
-- apps/hub/src/services/store/reviews.ts, requestReview: what is requested, and what is drawn and saved
-- for it.
use ayanami_agent_hub.Base.{ℕ, Bool, String, List}
use ayanami_agent_hub.Hub.Rows.{Evidence}

pub record RequestInput : Type 0 where
  pub session_id : ℕ
  pub reviewer_agent_id : String
  pub base_sha : String
  pub head_sha : String
  pub acceptance_criteria : List String
  pub test_evidence : List Evidence
  pub author_claims : List String
  pub known_risks : List String
  pub include_uncommitted : Bool
  pub idempotency_key : String

-- What saveArtifact tells of the file that it wrote.
pub record SavedArtifact : Type 0 where
  pub sha256 : String
  pub size_bytes : ℕ
  pub storage_path : String

-- The identifiers that createId draws, those of the evidence by their place.
pub record RequestIds : Type 0 where
  pub review_id : ℕ
  pub artifact_id : ℕ
  pub evidence_id : ℕ → ℕ
