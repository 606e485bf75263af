-- ===== src/DocumentRequests/Publishing.antt =====
-- What a request for a publication leaves of the versions.
use it_outsourcing_knowledge.Base.{ℕ, ◌≡◌, ◌⊎◌, String, true, false, [], ◌∷◌}
use it_outsourcing_knowledge.Base.Exec.{Error, Result, ok, err}
use it_outsourcing_knowledge.Base.Uuid.{UuidCodec}
use it_outsourcing_knowledge.Access.{
  project_manager, AuthorizedProjectContext, authorize_project, AccessStore,
  list_active_knowledge_space_ids,
}
use it_outsourcing_knowledge.Knowledge.{KnowledgeIngestionStatus}
use it_outsourcing_knowledge.Documents.{approved}
use it_outsourcing_knowledge.DocumentAccess.{access_of}
use it_outsourcing_knowledge.DocumentWorkflow.{
  DocumentDb, LoadedVersion, get_version, is_status, complete_publication,
}
use it_outsourcing_knowledge.DocumentRequests.{
  KnowledgeService, DocumentSession, project_code, only_space, is_succeeded, is_pending,
  ingestion_request,
}

-- The tables of documents and of versions are the same.
abbrev pub SameTables : DocumentDb → DocumentDb → Type 0
SameTables a b = (b.documents ≡ a.documents) × (b.versions ≡ a.versions)

module _ (uuid : UuidCodec) (knowledge : KnowledgeService) (now : ℕ) (access : AccessStore) (id : ℕ)
    (db : DocumentDb) where
  -- The version, which is approved, is given to the knowledge service, in its project's code and its
  -- one space, and the service answers with the job.
  abbrev pub IsIngested : LoadedVersion → String → Type 0
  IsIngested current job =
      (code : String) × (space : String) × (get_version id db ≡ (ok current, db))
      × (is_status current.version.lifecycle_status approved ≡ true)
      × (project_code access current.document.project_id ≡ ok code)
      × (only_space (list_active_knowledge_space_ids access current.document.project_id) ≡ ok space)
      × (knowledge.ingest (ingestion_request uuid knowledge now access current code space) ≡ ok job)

  -- The version is ingested, the service says that its job has succeeded, and it is published, as
  -- `complete_publication` does it on the tables with the version that it supersedes.
  abbrev pub IsPublished : LoadedVersion → DocumentDb → Type 0
  IsPublished v t =
      (current : LoadedVersion) × (job : String) × (status : KnowledgeIngestionStatus)
      × (start : DocumentDb) × (finish : DocumentDb) × IsIngested current job
      × (knowledge.get_ingestion_status job ≡ ok status)
      × (is_succeeded status.state ≡ true)
      × SameTables db start
      × (complete_publication now id current.version.supersedes_version_id start ≡ (ok v, finish))
      × SameTables finish t

  -- How a publication ends in its session.
  abbrev Ends : Result LoadedVersion → DocumentSession → Type 0
  Ends r s =
      SameTables db s.committed
      × (SameTables db s.current
          ⊎ ((e : Error) × (r ≡ err e) × (is_pending e ≡ false))
          ⊎ ((v : LoadedVersion) × (r ≡ ok v) × IsPublished v s.current))

  -- The user has the one role that may publish in the version's project and company.
  abbrev pub IsPublisher : ℕ → Type 0
  IsPublisher user =
      (current : LoadedVersion) × (context : AuthorizedProjectContext) × (get_version id db
        ≡ (ok current, db))
      × (authorize_project uuid now user current.document.project_id (access_of access db)
          ≡ ok context)
      × (context.scope.role_ids ≡ project_manager ∷ [])
      × (context.scope.company_id ≡ current.document.company_id)
