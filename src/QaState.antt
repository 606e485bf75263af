-- ===== src/QaState.antt =====
-- agent/state.py, agent/nodes/models.py and the values that the nodes of the answering graph keep as
-- artifacts. What stands in PostgreSQL as the JSON of a model is kept as the model.
use it_outsourcing_knowledge.Base.{ℕ, String, Bool, Option, List}
use it_outsourcing_knowledge.Access.{AuthorizedProjectContext}
use it_outsourcing_knowledge.Citations.{GroundedAnswerDraft, CitationValidationResult}

-- The values of `state["route"]`.
pub data Route : Type 0 where
  project_knowledge_qa clarification refusal grade_retrieval govern_evidence retrieve_again : Route
  generate_answer citation_guard answered revise_answer : Route

-- The fields of `AgentState` that the answering graph uses.
pub record AgentState : Type 0 where
  pub run_id : ℕ
  pub user_id : ℕ
  pub project_id : Option ℕ
  pub prompt_snapshot_id : Option ℕ
  pub query_analysis_id : Option ℕ
  pub project_selection_id : Option ℕ
  pub access_scope_id : Option ℕ
  pub retrieval_plan_id : Option ℕ
  pub retrieval_grade_id : Option ℕ
  pub retrieval_round : ℕ
  pub evidence_bundle_id : Option ℕ
  pub answer_draft_id : Option ℕ
  pub citation_guard_id : Option ℕ
  pub answer_id : Option ℕ
  pub revision_count : ℕ
  pub route : Option Route
  pub last_error_code : Option String

pub data IdentifierType : Type 0 where
  project_code requirement_id issue_key api_path db_table db_column error_code version :
      IdentifierType

pub record QueryExactIdentifier : Type 0 where
  pub identifier_type : IdentifierType
  pub raw_value : String
  pub normalized_value : String

pub record QueryAnalysis : Type 0 where
  pub original_query : String
  pub standalone_query : String
  pub exact_identifiers : List QueryExactIdentifier

pub record ProjectSelection : Type 0 where
  pub selected_project_id : Option ℕ
  pub candidate_project_codes : List String
  pub route : Route
  pub error_code : Option String

pub record IdentifierResolution : Type 0 where
  pub identifier_type : IdentifierType
  pub raw_value : String
  pub normalized_value : String
  pub authorized_document_version_ids : List ℕ
  pub unique_authorized_hit : Bool

pub record RetrievalPlan : Type 0 where
  pub original_query : String
  pub standalone_query : String
  pub exact_identifiers : List String
  pub identifier_resolutions : List IdentifierResolution
  pub constrained_document_version_ids : List ℕ
  pub allowed_categories : List String
  pub allow_second_round : Bool

pub data RetrievalGradeReason : Type 0 where
  adequate_reason empty_evidence insufficient_relevance insufficient_coverage : RetrievalGradeReason

pub record RetrievalGrade : Type 0 where
  pub adequate : Bool
  pub reason : RetrievalGradeReason
  pub second_round_justified : Bool
  pub refined_query : Option String

pub record PromptSnapshot : Type 0 where
  pub config_key : String
  pub content : String
  pub version : ℕ
  pub content_hash : String

pub data Artifact : Type 0 where
  prompt_snapshot : PromptSnapshot → Artifact
  query_analysis : QueryAnalysis → Artifact
  project_selection : ProjectSelection → Artifact
  project_access_scope : AuthorizedProjectContext → Artifact
  retrieval_plan : RetrievalPlan → Artifact
  retrieval_grade : RetrievalGrade → Artifact
  answer_draft : GroundedAnswerDraft → Artifact
  citation_result : CitationValidationResult → Artifact
