-- ===== src/DocumentRequests.antt =====
-- application/use_cases/publish_document.py and application/use_cases/delete_document.py, and their
-- requests of api/v1/documents.py. A session holds what is committed and what it sees; the commit
-- barrier of a use case makes the one the other. The knowledge service is a parameter, with no law.
mod Authorized
mod Raises
mod Deletion
mod Checked
mod Publishing
mod Tests
use it_outsourcing_knowledge.Base.{
  ℕ, String, Bool, true, false, not, ◌&&◌, Option, none, some, List, [], ◌∷◌, map, str_eq, ◌==◌,
  if◌then◌else◌, select, get_or, map_option,
}
use it_outsourcing_knowledge.Base.Exec.{
  Error, lookup_error, runtime_error, value_error, document_permission_denied,
  document_publish_failed, document_publish_pending, Result, ok, err, Exec, pure, raise, lift, gets,
  or_raise, raise_if, modify, ◌>>=◌, ◌>>◌,
}
use it_outsourcing_knowledge.Base.Table.{find}
use it_outsourcing_knowledge.Base.Uuid.{UuidCodec}
use it_outsourcing_knowledge.Access.{AccessStore, list_active_knowledge_space_ids, str_mem}
use it_outsourcing_knowledge.Documents.{approved, delete_pending}
use it_outsourcing_knowledge.DocumentAccess.{
  publish_document, archive_document, authorize_version_operation,
}
use it_outsourcing_knowledge.DocumentWorkflow.{
  DocumentAudit, DocumentDb, LoadedVersion, DocumentActor, get_version, transition, is_status,
  complete_publication, add_audit, audit_of, govern_deletion,
}
use it_outsourcing_knowledge.Knowledge.{
  IngestionState, succeeded, failed, KnowledgeIngestionRequest, KnowledgeIngestionStatus,
  DeleteKnowledgeDocumentRequest,
}

-- An ingestion answers with the identifier of its job.
pub record KnowledgeService : Type 0 where
  pub ingest : KnowledgeIngestionRequest → Result String
  pub get_ingestion_status : String → Result KnowledgeIngestionStatus
  pub delete_from_knowledge : DeleteKnowledgeDocumentRequest → Result Unit

pub record DocumentSession : Type 0 where
  pub committed : DocumentDb
  pub current : DocumentDb

-- A call of the repository.
abbrev pub on_session : {A : Type 0} → Exec DocumentDb A → Exec DocumentSession A
on_session m s = let (r, db) = m s.current in (r, record s { current = db })

-- `commit_barrier.commit()`
unfoldable pub commit : Exec DocumentSession Unit
commit = modify (λ s. record s { committed = s.current })

-- `get_db_session`: a commit when the request returned, and a rollback when it raised.
abbrev pub end_request : {A : Type 0} → Result A → DocumentSession → Result A × DocumentDb
end_request (ok a) s = (ok a, s.current)
end_request (err e) s = (err e, s.committed)

unfoldable pub in_request : {A : Type 0} → Exec DocumentSession A → Exec DocumentDb A
in_request body db = let (r, s) = body (record { committed = db; current = db }) in end_request r s

-- `project_code`
unfoldable pub project_code : AccessStore → ℕ → Result String
project_code access project = elim (find project access.projects) [
  | none ↦ err lookup_error
  | some p ↦ ok p.code
]

-- `knowledge_space_id`; of several rows `scalar_one_or_none` raises.
unfoldable pub only_space : List String → Result String
only_space [] = err lookup_error
only_space (x ∷ []) = ok x
only_space (x ∷ y ∷ ys) = err runtime_error

abbrev pub is_failed : IngestionState → Bool
is_failed failed = true
is_failed _ = false

abbrev pub is_succeeded : IngestionState → Bool
is_succeeded succeeded = true
is_succeeded _ = false

-- The tests that a publication and its completion start with.
unfoldable pub check_publication : ℕ → DocumentActor → Exec DocumentDb LoadedVersion
check_publication id actor = do
  raise_if (not (str_mem "publish_document" actor.permissions)) document_permission_denied
  current ← get_version id
  raise_if (not (is_status current.version.lifecycle_status approved)) value_error
  pure current

abbrev pub is_pending : Error → Bool
is_pending document_publish_pending = true
is_pending _ = false

-- The answer of a publication: the version, or that its ingestion is pending.
abbrev pub pending_answer : {A : Type 0} → Result A → Result (Option A)
pending_answer (ok a) = ok (some a)
pending_answer (err e) = if is_pending e then ok none else err e

abbrev pub answer_pending : {A : Type 0} → Exec DocumentSession A → Exec DocumentSession (Option A)
answer_pending body s = let (r, t) = body s in (pending_answer r, t)

module _ (uuid : UuidCodec) (knowledge : KnowledgeService) (now : ℕ) (access : AccessStore) where
  -- `_finalize`
  unfoldable pub finalize_publication :
      LoadedVersion → String → DocumentActor → Exec DocumentSession LoadedVersion
  finalize_publication current job actor = do
    status ← lift (knowledge.get_ingestion_status job)
    if is_failed status.state
        then (do
          on_session (
              add_audit (
                audit_of "document_publication_failed" "failed" current actor
                  (("error_code", status.error_code) ∷ [])))
          commit
          raise document_publish_failed)
        else (do
          raise_if (not (is_succeeded status.state)) document_publish_pending
          published ←
              on_session
                (complete_publication now current.version_id current.version.supersedes_version_id)
          on_session (
              add_audit (
                audit_of "document_published" "success" current actor (
                  (
                    "supersedes_version_id",
                    map_option uuid.to_str current.version.supersedes_version_id,
                  )
                  ∷ [])))
          pure published)

  abbrev pub ingestion_request : LoadedVersion → String → String → KnowledgeIngestionRequest
  ingestion_request current code space = record {
    project_id = code;
    knowledge_space_id = space;
    document_version_id = uuid.to_str current.version_id;
    object_key = get_or current.version.source_uri "";
    metadata =
        ("filename", current.document.title)
        ∷ ("document_category", current.document.document_category)
        ∷ ("version_label", current.version.version_label)
        ∷ ("authority_level", current.version.authority_level)
        ∷ [];
  }

  -- `PublishDocumentUseCase.execute`
  unfoldable pub publish : ℕ → DocumentActor → Exec DocumentSession LoadedVersion
  publish id actor = do
    current ← on_session (check_publication id actor)
    code ← lift (project_code access current.document.project_id)
    space ← lift (only_space (list_active_knowledge_space_ids access current.document.project_id))
    job ← lift (knowledge.ingest (ingestion_request current code space))
    on_session (
        add_audit (
          audit_of "document_publication_submitted" "success" current actor
            (("ingestion_job_id", some job) ∷ [])))
    commit
    finalize_publication current job actor

  -- `PublishDocumentUseCase.finalize`
  unfoldable pub finalize : ℕ → String → DocumentActor → Exec DocumentSession LoadedVersion
  finalize id job actor = do
    current ← on_session (check_publication id actor)
    finalize_publication current job actor

  -- What `DeleteDocumentUseCase.execute` does after its commit barrier.
  unfoldable pub clean_up : LoadedVersion → Exec DocumentSession Unit
  clean_up current = do
    code ← lift (project_code access current.document.project_id)
    space ← lift (only_space (list_active_knowledge_space_ids access current.document.project_id))
    lift (
        knowledge.delete_from_knowledge (record {
          project_id = code;
          document_version_id = uuid.to_str current.version_id;
          knowledge_space_id = space;
        }))

  -- `DeleteDocumentUseCase.execute`
  unfoldable pub delete : ℕ → DocumentActor → Exec DocumentSession LoadedVersion
  delete id actor = do
    governed ← on_session (govern_deletion id actor)
    commit
    clean_up governed.0
    pure governed.1

  -- The request `publish_document`.
  unfoldable pub publish_request : ℕ → ℕ → Exec DocumentDb (Option LoadedVersion)
  publish_request user id = in_request (do
    actor ← on_session (authorize_version_operation uuid now access user id publish_document)
    answer_pending (publish id actor))

  -- The request `delete_document`.
  unfoldable pub delete_request : ℕ → ℕ → Exec DocumentDb LoadedVersion
  delete_request user id = in_request (do
    actor ← on_session (authorize_version_operation uuid now access user id archive_document)
    delete id actor)
