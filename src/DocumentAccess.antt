-- ===== src/DocumentAccess.antt =====
-- application/services/document_access.py: which documents' operations a role permits, and the actor
-- that the use cases are given.
use it_outsourcing_knowledge.Base.{
  ℕ, String, Bool, false, not, Option, none, some, List, [], ◌∷◌, ◌==◌,
}
use it_outsourcing_knowledge.Base.Exec.{
  authorization_denied, Result, ok, err, Exec, pure, lift, gets, raise_if, ◌>>=◌, ◌>>◌,
}
use it_outsourcing_knowledge.Base.Uuid.{UuidCodec}
use it_outsourcing_knowledge.Access.{
  ProjectRole, project_manager, viewer, AccessStore, authorize_project, str_mem,
}
use it_outsourcing_knowledge.DocumentWorkflow.{DocumentDb, DocumentActor, get_version}

pub data DocumentOperation : Type 0 where
  upload_document submit_for_review approve_document publish_document archive_document :
      DocumentOperation

-- `operation.value`
abbrev pub operation_value : DocumentOperation → String
operation_value upload_document = "upload_document"
operation_value submit_for_review = "submit_review"
operation_value approve_document = "approve_document"
operation_value publish_document = "publish_document"
operation_value archive_document = "archive_document"

-- `_ROLE_DOCUMENT_PERMISSIONS`
unfoldable pub role_permissions : ProjectRole → List String
role_permissions project_manager =
    "upload_document" ∷ "submit_review" ∷ "approve_document" ∷ "publish_document"
    ∷ "archive_document" ∷ []
role_permissions viewer = []
role_permissions _ = "upload_document" ∷ "submit_review" ∷ []

-- `expected_company_id is not None and context.scope.company_id != expected_company_id`
abbrev pub is_other_company : ℕ → Option ℕ → Bool
is_other_company company none = false
is_other_company company (some expected) = not (company == expected)

-- `context.scope.role_ids`, of which there has to be one.
unfoldable pub only_role : List ProjectRole → Result ProjectRole
only_role (role ∷ []) = ok role
only_role _ = err authorization_denied

-- The tables that the authorization reads, in the session of the documents.
abbrev pub access_of : AccessStore → DocumentDb → AccessStore
access_of access db = record access {
  docs = record { documents = db.documents; versions = db.versions };
}

module _ (uuid : UuidCodec) (now : ℕ) (access : AccessStore) where
  unfoldable pub authorize_project_operation :
      ℕ → ℕ → DocumentOperation → Option ℕ → Exec DocumentDb DocumentActor
  authorize_project_operation user project operation company = do
    authorized ← gets (λ db. authorize_project uuid now user project (access_of access db))
    context ← lift authorized
    raise_if (is_other_company context.scope.company_id company) authorization_denied
    role ← lift (only_role context.scope.role_ids)
    raise_if (not (str_mem (operation_value operation) (role_permissions role)))
        authorization_denied
    pure (record { user_id = user; permissions = role_permissions role })

  unfoldable pub authorize_version_operation :
      ℕ → ℕ → DocumentOperation → Exec DocumentDb DocumentActor
  authorize_version_operation user id operation = do
    version ← get_version id
    authorize_project_operation user version.document.project_id operation
        (some version.document.company_id)
