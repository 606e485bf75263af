-- ===== src/Documents.antt =====
-- domain/enums.py and the tables `documents` and `document_versions` of
-- infrastructure/db/models/schema.py. Categories and authority levels are kept as the texts that
-- the columns hold.
use it_outsourcing_knowledge.Base.{ℕ, String, Bool, true, false, Option}
use it_outsourcing_knowledge.Base.Table.{Table}

pub data DocumentLifecycleStatus : Type 0 where
  draft under_review approved published superseded archived delete_pending deleted :
      DocumentLifecycleStatus

pub record Document : Type 0 where
  pub company_id : ℕ
  pub project_id : ℕ
  pub document_category : String
  pub title : String
  pub owner_user_id : Option ℕ

pub record DocumentVersion : Type 0 where
  pub document_id : ℕ
  pub version_no : ℕ
  pub version_label : String
  pub authority_level : String
  pub lifecycle_status : DocumentLifecycleStatus
  pub effective_from : Option ℕ
  pub effective_to : Option ℕ
  pub supersedes_version_id : Option ℕ
  pub source_uri : Option String
  pub content_hash : Option String
  pub published_at : Option ℕ
  pub created_by : ℕ

pub record DocumentStore : Type 0 where
  pub documents : Table Document
  pub versions : Table DocumentVersion

abbrev pub is_published : DocumentLifecycleStatus → Bool
is_published published = true
is_published _ = false
