-- ===== src/DocumentRequests/Tests.antt =====
-- A manager deletes and publishes while the knowledge service does not answer.
use it_outsourcing_knowledge.Base.{◌≡◌, ◌⊎◌, refl, none, some, [], ◌∷◌, map_option}
use it_outsourcing_knowledge.Base.Exec.{Error, provider_unavailable, ok, err}
use it_outsourcing_knowledge.Base.Sort.{sort, insert}
use it_outsourcing_knowledge.Base.Table.{find, put}
use it_outsourcing_knowledge.Base.Text.{str_le}
use it_outsourcing_knowledge.Access.{
  project_manager, active, AccessStore, authorize_project, get_active_membership, first_membership,
  is_active_membership, joined, to_access, context_of, list_published_document_access,
  published_rows, newest_first, first_of_each, list_active_knowledge_space_ids, dedupe,
}
use it_outsourcing_knowledge.Documents.{
  approved, delete_pending, published, DocumentVersion, DocumentLifecycleStatus,
}
use it_outsourcing_knowledge.DocumentAccess.{
  role_permissions, only_role, authorize_project_operation, authorize_version_operation,
}
use it_outsourcing_knowledge.DocumentWorkflow.{
  DocumentDb, LoadedVersion, DocumentActor, get_version, load_version, to_version_record,
  transition, transition_document_status, can_transition_document, write_version, add_audit,
  complete_publication, load_superseded, supersede, govern_deletion,
}
use it_outsourcing_knowledge.Knowledge.{succeeded}
use it_outsourcing_knowledge.DocumentRequests.{
  KnowledgeService, commit, in_request, project_code, only_space, check_publication,
  finalize_publication, publish, clean_up, delete, publish_request, delete_request,
}
use it_outsourcing_knowledge.DocumentRequests.Deletion.{
  IsDeletable, pending_db, delete_outcome, deletion_not_repeated,
}
use it_outsourcing_knowledge.Samples.{strokes}

abbrev access : AccessStore
access = record {
  projects =
      (7, record { company_id = 1; client_id = 2; code = "P"; lifecycle_status = active }) ∷ [];
  memberships =
      record {
        project_id = 7;
        user_id = 5;
        role = project_manager;
        valid_from = 0;
        valid_to = none;
      }
      ∷ [];
  spaces =
      record { project_id = 7; provider = "ragflow"; external_space_id = "kb"; status = "active" }
      ∷ [];
  docs = record { documents = []; versions = [] };
}

abbrev version : DocumentLifecycleStatus → DocumentVersion
version status = record {
  document_id = 3;
  version_no = 2;
  version_label = "v";
  authority_level = "release_runbook";
  lifecycle_status = status;
  effective_from = none;
  effective_to = none;
  supersedes_version_id = none;
  source_uri = some "file";
  content_hash = some "abc";
  published_at = none;
  created_by = 5;
}

abbrev db : DocumentLifecycleStatus → DocumentDb
db status = record {
  documents =
      (
        3,
        record {
          company_id = 1;
          project_id = 7;
          document_category = "release_runbook";
          title = "Guide";
          owner_user_id = some 5;
        },
      )
      ∷ [];
  versions = (12, version status) ∷ [];
  audits = [];
}

abbrev silent : KnowledgeService
silent = record {
  ingest = λ request. err provider_unavailable;
  get_ingestion_status = λ job. err provider_unavailable;
  delete_from_knowledge = λ request. err provider_unavailable;
}

abbrev prompt : KnowledgeService
prompt = record {
  ingest = λ request. ok "job";
  get_ingestion_status = λ job. ok (record { state = succeeded; error_code = none });
  delete_from_knowledge = λ request. ok tt;
}

delete_outcome_example :
    ((e : Error) × ((knowledge : KnowledgeService)
        → delete_request strokes knowledge 20 access 5 12 (db published) ≡ (err e, db published)))
    ⊎ ((current : LoadedVersion) × (actor : DocumentActor) × IsDeletable strokes 20 access 5 12
          (db published)
          current
        × (actor.user_id ≡ 5)
        × ((knowledge : KnowledgeService)
            → (delete_request strokes knowledge 20 access 5 12 (db published)).1
              ≡ pending_db 12 actor current (db published)))
delete_outcome_example = delete_outcome strokes 20 access 5 12 (db published)

deletion_not_repeated_example :
    (e : Error) × ((knowledge : KnowledgeService)
      → delete_request strokes knowledge 20 access 5 12 (db delete_pending)
        ≡ (err e, db delete_pending))
unfolding find
deletion_not_repeated_example =
    deletion_not_repeated strokes 20 access 5 12 (db delete_pending) (version delete_pending) refl
      refl

-- The knowledge service is silent, and the version is pending all the same.
deleted_in_silence :
    (delete_request strokes silent 20 access 5 12 (db published)).0 ≡ err provider_unavailable
unfolding delete_request in_request delete govern_deletion clean_up commit project_code only_space
    authorize_version_operation authorize_project_operation only_role role_permissions
    authorize_project get_active_membership first_membership is_active_membership joined to_access
    context_of list_published_document_access published_rows newest_first first_of_each
    list_active_knowledge_space_ids dedupe sort insert str_le get_version load_version
    to_version_record transition transition_document_status can_transition_document write_version
    add_audit find put
deleted_in_silence = refl

published_in_time :
    map_option
      (λ v. v.lifecycle_status)
      (find 12 (publish_request strokes prompt 20 access 5 12 (db approved)).1.versions)
    ≡ some published
unfolding publish_request in_request publish check_publication finalize_publication commit
    project_code only_space authorize_version_operation authorize_project_operation only_role
    role_permissions authorize_project get_active_membership first_membership is_active_membership
    joined to_access context_of list_published_document_access published_rows newest_first
    first_of_each list_active_knowledge_space_ids dedupe sort insert str_le get_version load_version
    to_version_record write_version add_audit find put complete_publication load_superseded
    supersede
published_in_time = refl
