-- ===== src/DocumentWorkflow/Approval.antt =====
-- Who approves a version, and what the approval writes.
use it_outsourcing_knowledge.Base.{
  [], ℕ, ◌≡◌, sym, ap, ◌∙◌, subst, true, not, some, ◌∷◌, ◌&&◌, is_some, Bool-cases, inl, inr,
}
use it_outsourcing_knowledge.Base.Exec.{
  lookup_error, value_error, document_permission_denied, ok, bind_ok, pair_ok, guard_then,
  found_then, lift_then, lift_ok,
}
use it_outsourcing_knowledge.Base.Table.{find, put}
use it_outsourcing_knowledge.Documents.{
  DocumentLifecycleStatus, under_review, approved, Document, DocumentVersion,
}
use it_outsourcing_knowledge.DocumentWorkflow.{
  is_status, DocumentAudit, DocumentDb, LoadedVersion, transition_document_status, load_version,
  to_version_record, get_version, with_status, write_version, transition, add_audit, DocumentActor,
  is_owner, approve,
}
use it_outsourcing_knowledge.DocumentWorkflow.Transitions.{load_version_ok, not-false}

owner_loaded :
    (id : ℕ) (db : DocumentDb) (loaded : LoadedVersion) (t : DocumentDb)
    → load_version id db ≡ (ok loaded, t)
    → find loaded.version.document_id db.documents ≡ some loaded.document
unfolding load_version
owner_loaded id db loaded t h =
    let (version, found, h1) = found_then (find id db.versions) lookup_error _ db loaded t h in
    let (document, owner, h2) =
      found_then (find version.document_id db.documents) lookup_error _ db loaded t h1 in
    let (same, last) = pair_ok _ loaded db t h2 in
    ap (λ l. find l.version.document_id db.documents) (sym same)
    ∙ owner
    ∙ ap (λ l. some l.document) same

some_same : (a b : DocumentVersion) → some a ≡ some b → a ≡ b
some_same a b e = cc (e)

pub transition_ok :
    (id : ℕ) (expected target : DocumentLifecycleStatus) (db : DocumentDb) (v : DocumentVersion)
    (out : LoadedVersion) (t : DocumentDb)
    → find id db.versions ≡ some v
    → transition id expected target db ≡ (ok out, t)
    → (is_status v.lifecycle_status expected ≡ true)
      × (t ≡ record db { versions = put id (with_status target v) db.versions })
unfolding transition write_version
transition_ok id expected target db v out t there h =
    let (loaded, s, read, h1) = bind_ok (load_version id) _ db out t h in
    let (same, key, found) = load_version_ok id db loaded s read in
    let (wanted, h2) =
      guard_then (not (is_status loaded.version.lifecycle_status expected)) value_error _ s out t
        h1 in
    let (status, allowed, h3) =
      lift_then (transition_document_status loaded.version.lifecycle_status target) _ s out t h2 in
    let new : DocumentVersion = with_status target loaded.version in
    let (record_ok, last) =
      lift_ok (to_version_record (record loaded { version = new }))
        (record s { versions = put id new s.versions }) out t h3 in
    let mine = some_same loaded.version v (sym found ∙ there) in
    (
      ap (λ x. is_status x.lifecycle_status expected) (sym mine) ∙ not-false _ wanted,
      sym last
          ∙ ap {A = DocumentDb} {B = DocumentDb}
              (λ d. record d { versions = put id new d.versions }) same
          ∙ ap {A = DocumentVersion} {B = DocumentDb}
              (λ x. record db { versions = put id (with_status target x) db.versions }) mine,
    )

pub record_kept : (first out : LoadedVersion) → to_version_record first ≡ ok out → first ≡ out
unfolding to_version_record
record_kept first out h =
    elim (Bool-cases (is_some first.version.source_uri && is_some first.version.content_hash)) [
      | inl whole ↦ cc (rw whole at h)
      | inr lacks ↦ absurd (cc (rw lacks at h))
    ]

-- The audit record of an approval.
abbrev pub approval : ℕ → ℕ → DocumentActor → DocumentAudit
approval project id actor = record {
  action = "document_approved";
  project_id = project;
  version_id = id;
  user_id = some actor.user_id;
  outcome = "success";
  details = [];
}

-- An approval that returns was asked by the owner of the version's document, for a version under
-- review; then the version is approved and nothing else of it changes, the other versions and
-- the documents are as before, and one audit record names the version and the owner.
pub approve_ok :
    (id : ℕ) (actor : DocumentActor) (db : DocumentDb) (out : LoadedVersion) (t : DocumentDb)
    → approve id actor db ≡ (ok out, t)
    → (v : DocumentVersion) × (document : Document) × (find id db.versions ≡ some v)
      × (find v.document_id db.documents ≡ some document)
      × (is_owner actor.user_id document.owner_user_id ≡ true)
      × (is_status v.lifecycle_status under_review ≡ true)
      × (t ≡ record db {
        versions = put id (with_status approved v) db.versions;
        audits = approval document.project_id id actor ∷ db.audits;
      })
unfolding approve add_audit get_version
approve_ok id actor db out t h =
    let (current, s, got, h1) = bind_ok (get_version id) _ db out t h in
    let (first, r, read, rest) = bind_ok (load_version id) _ db current s got in
    let (same, key, found) = load_version_ok id db first r read in
    let (whole, kept) = lift_ok (to_version_record first) r current s rest in
    let (owns, h2) =
      guard_then (not (is_owner actor.user_id current.document.owner_user_id))
        document_permission_denied _ s out t h1 in
    let (updated, u, went, h3) = bind_ok (transition id under_review approved) _ s out t h2 in
    let s_db : s ≡ db = sym kept ∙ same in
    let went_db = subst (λ d. transition id under_review approved d ≡ (ok updated, u)) s_db went in
    let (reviewed, written) =
      transition_ok id under_review approved db first.version updated u found went_db in
    let record_same = record_kept first current whole in
    let last = (pair_ok updated out _ t h3).1 in
    (
      first.version,
      first.document,
      found,
      owner_loaded id db first r read,
      ap (λ l. is_owner actor.user_id l.document.owner_user_id) record_same ∙ not-false _ owns,
      reviewed,
      sym last
          ∙ ap {A = DocumentDb} {B = DocumentDb}
              (λ d. record d { audits = approval current.document.project_id id actor ∷ d.audits })
              written
          ∙ ap {A = LoadedVersion} {B = DocumentDb}
              (λ l. record db {
                versions = put id (with_status approved first.version) db.versions;
                audits = approval l.document.project_id id actor ∷ db.audits;
              })
              (sym record_same),
    )
