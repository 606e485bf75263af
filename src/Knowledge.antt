-- ===== src/Knowledge.antt =====
-- application/ports/knowledge.py: what the knowledge service is asked and what it answers. A score
-- is a finite float, whose shortest text `str(score)` has at most 324 decimals: it is kept as a whole
-- number of 10 ^ -324, in the order of the floats.
use it_outsourcing_knowledge.Base.{ℕ, String, Option, List}
use it_outsourcing_knowledge.Base.Int.{ℤ}

pub data IngestionState : Type 0 where
  pending running succeeded failed : IngestionState

pub record KnowledgeIngestionRequest : Type 0 where
  pub project_id : String
  pub knowledge_space_id : String
  pub document_version_id : String
  pub object_key : String
  pub metadata : List (String × String)

pub record KnowledgeIngestionStatus : Type 0 where
  pub state : IngestionState
  pub error_code : Option String

pub record KnowledgeRetrievalRequest : Type 0 where
  pub project_id : String
  pub query : String
  pub limit : ℕ
  pub document_version_ids : List String
  pub knowledge_space_ids : List String

pub record KnowledgeChunk : Type 0 where
  pub project_id : String
  pub document_version_id : String
  pub content : String
  pub score : ℤ
  pub knowledge_space_id : Option String
  pub provider_ref : Option String
  pub page_no : Option ℕ
  pub section : Option String
  pub metadata : List (String × String)

pub record DeleteKnowledgeDocumentRequest : Type 0 where
  pub project_id : String
  pub document_version_id : String
  pub knowledge_space_id : String
