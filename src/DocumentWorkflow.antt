-- ===== src/DocumentWorkflow.antt =====
-- domain/documents.py, infrastructure/db/repositories/documents.py and
-- application/use_cases/review_document.py: drafts of documents, their review and publication, in
-- the session of the caller; and the part of application/use_cases/delete_document.py that changes
-- the tables.
pub mod Transitions
mod Publication
pub mod Approval
mod Tests
use it_outsourcing_knowledge.Base.{
  ℕ, ◌+◌, String, Bool, true, false, not, ◌&&◌, ◌||◌, Option, none, some, List, [], ◌∷◌, max,
  str_eq, ◌==◌, if◌then◌else◌, is_some, get_or,
}
use it_outsourcing_knowledge.Base.Exec.{
  Error, lookup_error, value_error, integrity_error, invalid_document_transition,
  document_permission_denied, Result, ok, err, Exec, pure, raise, lift, gets, or_raise, raise_if,
  modify, transaction, ◌>>=◌, ◌>>◌,
}
use it_outsourcing_knowledge.Base.Table.{Table, find, add, put}
use it_outsourcing_knowledge.Access.{str_mem, mem}
use it_outsourcing_knowledge.Documents.{
  DocumentLifecycleStatus, draft, under_review, approved, published, superseded, archived,
  delete_pending, deleted, Document, DocumentVersion,
}

-- `can_transition_document`, the table `_ALLOWED_TRANSITIONS`.
unfoldable pub can_transition_document : DocumentLifecycleStatus → DocumentLifecycleStatus → Bool
can_transition_document draft under_review = true
can_transition_document draft delete_pending = true
can_transition_document under_review draft = true
can_transition_document under_review approved = true
can_transition_document under_review delete_pending = true
can_transition_document approved draft = true
can_transition_document approved published = true
can_transition_document approved delete_pending = true
can_transition_document published superseded = true
can_transition_document published archived = true
can_transition_document published delete_pending = true
can_transition_document superseded archived = true
can_transition_document superseded delete_pending = true
can_transition_document archived delete_pending = true
can_transition_document delete_pending deleted = true
can_transition_document _ _ = false

unfoldable pub transition_document_status :
    DocumentLifecycleStatus → DocumentLifecycleStatus → Result DocumentLifecycleStatus
transition_document_status current target =
    if not (can_transition_document current target)
    then err invalid_document_transition
    else ok target

-- `current is expected`
abbrev pub status_no : DocumentLifecycleStatus → ℕ
status_no draft = 0
status_no under_review = 1
status_no approved = 2
status_no published = 3
status_no superseded = 4
status_no archived = 5
status_no delete_pending = 6
status_no deleted = 7

abbrev pub is_status : DocumentLifecycleStatus → DocumentLifecycleStatus → Bool
is_status a b = status_no a == status_no b

-- `DocumentAuditRecord`. What the details hold is text or `None`.
pub record DocumentAudit : Type 0 where
  pub action : String
  pub project_id : ℕ
  pub version_id : ℕ
  pub user_id : Option ℕ
  pub outcome : String
  pub details : List (String × Option String)

pub record DocumentDb : Type 0 where
  pub documents : Table Document
  pub versions : Table DocumentVersion
  pub audits : List DocumentAudit

pub record CreateDocumentDraft : Type 0 where
  pub company_id : ℕ
  pub project_id : ℕ
  pub document_id : Option ℕ
  pub document_category : String
  pub title : String
  pub version_label : String
  pub authority_level : String
  pub owner_user_id : Option ℕ
  pub created_by : ℕ
  pub source_uri : String
  pub content_hash : String
  pub effective_from : Option ℕ
  pub effective_to : Option ℕ
  pub supersedes_version_id : Option ℕ

-- A version with its document; `DocumentVersionRecord` has the fields of both.
pub record LoadedVersion : Type 0 where
  pub version_id : ℕ
  pub document : Document
  pub version : DocumentVersion

unfoldable pub load_version : ℕ → Exec DocumentDb LoadedVersion
load_version id = do
  found ← gets (λ db. find id db.versions)
  version ← or_raise found lookup_error
  owner ← gets (λ db. find version.document_id db.documents)
  document ← or_raise owner lookup_error
  pure (record { version_id = id; document = document; version = version })

-- `_to_record`
unfoldable pub to_version_record : LoadedVersion → Result LoadedVersion
to_version_record loaded =
    if is_some loaded.version.source_uri && is_some loaded.version.content_hash
    then ok loaded
    else err value_error

unfoldable pub get_version : ℕ → Exec DocumentDb LoadedVersion
get_version id = do loaded ← load_version id; lift (to_version_record loaded)

-- `version.lifecycle_status = status`
abbrev pub with_status : DocumentLifecycleStatus → DocumentVersion → DocumentVersion
with_status status v = record v { lifecycle_status = status }

unfoldable pub write_version : ℕ → DocumentVersion → Exec DocumentDb Unit
write_version id v = modify (λ db. record db { versions = put id v db.versions })

unfoldable pub transition :
    ℕ → DocumentLifecycleStatus → DocumentLifecycleStatus → Exec DocumentDb LoadedVersion
transition id expected target = do
  loaded ← load_version id
  raise_if (not (is_status loaded.version.lifecycle_status expected)) value_error
  status ← lift (transition_document_status loaded.version.lifecycle_status target)
  let new = with_status target loaded.version
  write_version id new
  lift (to_version_record (record loaded { version = new }))

-- The version that is superseded, if one is named, with the tests on it.
unfoldable pub load_superseded : ℕ → Option ℕ → Exec DocumentDb (Option LoadedVersion)
load_superseded document none = pure none
load_superseded document (some id) = do
  old ← load_version id
  raise_if (not (old.version.document_id == document)) value_error
  raise_if (not (is_status old.version.lifecycle_status published)) value_error
  pure (some old)

unfoldable pub supersede : Option LoadedVersion → Exec DocumentDb Unit
supersede none = pure tt
supersede (some old) = write_version old.version_id (with_status superseded old.version)

unfoldable pub complete_publication : ℕ → ℕ → Option ℕ → Exec DocumentDb LoadedVersion
complete_publication now id supersedes = do
  loaded ← load_version id
  raise_if (not (is_status loaded.version.lifecycle_status approved)) value_error
  old ← load_superseded loaded.version.document_id supersedes
  let new : DocumentVersion = record (with_status published loaded.version) {
    published_at = some now;
  }
  write_version id new
  supersede old
  lift (to_version_record (record loaded { version = new }))

-- `SELECT max(version_no) … WHERE document_id = …`
unfoldable pub max_version : ℕ → Table DocumentVersion → Option ℕ
max_version document [] = none
max_version document ((id, v) ∷ vs) =
    let rest = max_version document vs in
    if v.document_id == document then some (max v.version_no (get_or rest 0)) else rest

abbrev pub new_document : CreateDocumentDraft → Document
new_document d = record {
  company_id = d.company_id;
  project_id = d.project_id;
  document_category = d.document_category;
  title = d.title;
  owner_user_id = d.owner_user_id;
}

-- The document of a draft: a new one under the given key, or the one that it names.
unfoldable pub document_of : ℕ → CreateDocumentDraft → Option ℕ → Exec DocumentDb (ℕ × Document)
document_of key d none = do
  taken ← gets (λ db. is_some (find key db.documents))
  raise_if taken integrity_error
  modify (λ db. record db { documents = add key (new_document d) db.documents })
  pure (key, new_document d)
document_of key d (some id) = do
  found ← gets (λ db. find id db.documents)
  document ← or_raise found lookup_error
  raise_if (not (document.project_id == d.project_id)) value_error
  raise_if (not (str_eq document.document_category d.document_category)) value_error
  pure (id, document)

unfoldable pub new_version : CreateDocumentDraft → ℕ → Option ℕ → DocumentVersion
new_version d document newest = record {
  document_id = document;
  version_no = get_or newest 0 + 1;
  version_label = d.version_label;
  authority_level = d.authority_level;
  lifecycle_status = draft;
  effective_from = d.effective_from;
  effective_to = d.effective_to;
  supersedes_version_id = d.supersedes_version_id;
  source_uri = some d.source_uri;
  content_hash = some d.content_hash;
  published_at = none;
  created_by = d.created_by;
}

-- The foreign key of `supersedes_version_id`.
abbrev pub names_version : Option ℕ → Table DocumentVersion → Bool
names_version none vs = true
names_version (some id) vs = is_some (find id vs)

unfoldable pub create_draft : ℕ → ℕ → CreateDocumentDraft → Exec DocumentDb LoadedVersion
create_draft document_key key d = do
  owner ← document_of document_key d d.document_id
  newest ← gets (λ db. max_version owner.0 db.versions)
  taken ← gets (λ db. is_some (find key db.versions))
  raise_if taken integrity_error
  let version = new_version d owner.0 newest
  known ← gets (λ db. names_version d.supersedes_version_id db.versions)
  raise_if (not known) integrity_error
  modify (λ db. record db { versions = add key version db.versions })
  lift (to_version_record (record { version_id = key; document = owner.1; version = version }))

unfoldable pub add_audit : DocumentAudit → Exec DocumentDb Unit
add_audit audit = modify (λ db. record db { audits = audit ∷ db.audits })

-- `DocumentActor`
pub record DocumentActor : Type 0 where
  pub user_id : ℕ
  pub permissions : List String

abbrev pub is_owner : ℕ → Option ℕ → Bool
is_owner user none = false
is_owner user (some owner) = user == owner

-- `SubmitDocumentReviewUseCase`
unfoldable pub submit_review : ℕ → DocumentActor → Exec DocumentDb LoadedVersion
submit_review id actor = do
  current ← get_version id
  raise_if
      (not (
          actor.user_id == current.version.created_by
          || is_owner actor.user_id current.document.owner_user_id)
        && not (str_mem "submit_review" actor.permissions))
      document_permission_denied
  updated ← transition id draft under_review
  add_audit (record {
    action = "document_submitted_for_review";
    project_id = current.document.project_id;
    version_id = id;
    user_id = some actor.user_id;
    outcome = "success";
    details = [];
  })
  pure updated

-- `ApproveDocumentUseCase`
unfoldable pub approve : ℕ → DocumentActor → Exec DocumentDb LoadedVersion
approve id actor = do
  current ← get_version id
  raise_if (not (is_owner actor.user_id current.document.owner_user_id)) document_permission_denied
  updated ← transition id under_review approved
  add_audit (record {
    action = "document_approved";
    project_id = current.document.project_id;
    version_id = id;
    user_id = some actor.user_id;
    outcome = "success";
    details = [];
  })
  pure updated

abbrev pub audit_of :
    String → String → LoadedVersion → DocumentActor → List (String × Option String) → DocumentAudit
audit_of action outcome current actor details = record {
  action = action;
  project_id = current.document.project_id;
  version_id = current.version_id;
  user_id = some actor.user_id;
  outcome = outcome;
  details = details;
}

-- What `DeleteDocumentUseCase.execute` does before its commit barrier: the version as it was, and
-- as it is answered.
unfoldable pub govern_deletion : ℕ → DocumentActor → Exec DocumentDb (LoadedVersion × LoadedVersion)
govern_deletion id actor = do
  raise_if (not (str_mem "archive_document" actor.permissions)) document_permission_denied
  current ← get_version id
  pending ← transition id current.version.lifecycle_status delete_pending
  add_audit (audit_of "document_delete_pending" "success" current actor [])
  pure (current, pending)
