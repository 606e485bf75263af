-- ===== src/DocumentWorkflow/Tests.antt =====
-- An approved version is published in place of an older one; an owner approves a version.
use it_outsourcing_knowledge.Base.{true, ℕ, ◌≡◌, refl, none, some, [], ◌∷◌, map_option}
use it_outsourcing_knowledge.Base.Exec.{transaction, ok}
use it_outsourcing_knowledge.Base.Table.{find, put}
use it_outsourcing_knowledge.Documents.{
  under_review, approved, published, superseded, DocumentLifecycleStatus, Document, DocumentVersion,
}
use it_outsourcing_knowledge.DocumentWorkflow.{
  approve, get_version, transition, transition_document_status, can_transition_document, add_audit,
  DocumentActor, LoadedVersion, is_owner, is_status, with_status, DocumentDb, load_version,
  to_version_record, write_version, load_superseded, supersede, complete_publication,
}
use it_outsourcing_knowledge.DocumentWorkflow.Transitions.{VersionStep}
use it_outsourcing_knowledge.DocumentWorkflow.Approval.{approval, approve_ok}
use it_outsourcing_knowledge.DocumentWorkflow.Publication.{
  DocumentOp, publish_op, apply, apply-VersionStep,
}

abbrev document : Document
document = record {
  company_id = 1;
  project_id = 7;
  document_category = "GUIDE";
  title = "Guide";
  owner_user_id = some 5;
}

abbrev version : ℕ → DocumentLifecycleStatus → DocumentVersion
version n status = record {
  document_id = 3;
  version_no = n;
  version_label = "v";
  authority_level = "NORMAL";
  lifecycle_status = status;
  effective_from = none;
  effective_to = none;
  supersedes_version_id = none;
  source_uri = some "file";
  content_hash = some "abc";
  published_at = none;
  created_by = 5;
}

abbrev db : DocumentDb
db = record {
  documents = (3, document) ∷ [];
  versions = (11, version 1 published) ∷ (12, version 2 approved) ∷ [];
  audits = [];
}

abbrev publish : DocumentOp
publish = publish_op 50 12 (some 11)

apply-VersionStep_example : VersionStep (find 11 db.versions) (find 11 (apply db publish).versions)
apply-VersionStep_example = apply-VersionStep db publish 11

old_superseded :
    map_option (λ v. v.lifecycle_status) (find 11 (apply db publish).versions) ≡ some superseded
unfolding apply transaction complete_publication load_version load_superseded write_version
    supersede to_version_record find put
old_superseded = refl

new_published :
    map_option (λ v. v.lifecycle_status) (find 12 (apply db publish).versions) ≡ some published
unfolding apply transaction complete_publication load_version load_superseded write_version
    supersede to_version_record find put
new_published = refl

-- Version 13 is under review, and user 5 owns the document.
abbrev reviewed : DocumentDb
reviewed = record db { versions = (13, version 3 under_review) ∷ [] }

abbrev owner : DocumentActor
owner = record { user_id = 5; permissions = [] }

abbrev after : DocumentDb
after = record db { versions = (13, version 3 approved) ∷ []; audits = approval 7 13 owner ∷ [] }

abbrev answer : LoadedVersion
answer = record { version_id = 13; document = document; version = version 3 approved }

approve_runs : approve 13 owner reviewed ≡ (ok answer, after)
unfolding approve get_version transition transition_document_status can_transition_document
    load_version write_version add_audit to_version_record find put
approve_runs = refl

approve_ok_example :
    (v : DocumentVersion) × (d : Document) × (find 13 reviewed.versions ≡ some v)
    × (find v.document_id reviewed.documents ≡ some d)
    × (is_owner 5 d.owner_user_id ≡ true)
    × (is_status v.lifecycle_status under_review ≡ true)
    × (after ≡ record reviewed {
      versions = put 13 (with_status approved v) reviewed.versions;
      audits = approval d.project_id 13 owner ∷ reviewed.audits;
    })
approve_ok_example = approve_ok 13 owner reviewed answer after approve_runs
