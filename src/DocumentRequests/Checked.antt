-- ===== src/DocumentRequests/Checked.antt =====
-- The tests of a publication, which only read.
use it_outsourcing_knowledge.Base.{Bool, ℕ, ◌≡◌, refl, sym, ap, ◌∙◌, true, false, not}
use it_outsourcing_knowledge.Base.Exec.{
  guard_then, bind_ok, pair_ok, value_error, lookup_error, document_permission_denied, ok, raise_if,
  or_raise, outcome, bind_reads, or_raise_reads, raise_if_reads,
}
use it_outsourcing_knowledge.Base.Table.{find}
use it_outsourcing_knowledge.Access.{str_mem}
use it_outsourcing_knowledge.Documents.{approved}
use it_outsourcing_knowledge.DocumentWorkflow.{
  DocumentDb, LoadedVersion, DocumentActor, get_version, load_version, is_status,
}
use it_outsourcing_knowledge.DocumentRequests.{check_publication}

get_version_reads : (id : ℕ) (db : DocumentDb) → (get_version id db).1 ≡ db
unfolding get_version load_version
get_version_reads id db =
    bind_reads (load_version id) _ db
      (bind_reads (λ (d : DocumentDb). or_raise (find id d.versions) lookup_error d) _ db
        (or_raise_reads (find id db.versions) lookup_error db)
        (λ version.
          bind_reads
            (λ (d : DocumentDb). or_raise (find version.document_id d.documents) lookup_error d) _
            db (or_raise_reads (find version.document_id db.documents) lookup_error db)
            (λ document. refl)))
      (λ loaded. refl)

pub check_publication_reads :
    (id : ℕ) (actor : DocumentActor) (db : DocumentDb) → (check_publication id actor db).1 ≡ db
unfolding check_publication
check_publication_reads id actor db =
    bind_reads
      (raise_if (not (str_mem "publish_document" actor.permissions)) document_permission_denied) _
      db (raise_if_reads _ _ db)
      (λ u. bind_reads (get_version id) _ db (get_version_reads id db) (λ current.
        bind_reads
          (raise_if (not (is_status current.version.lifecycle_status approved)) value_error) _ db
          (raise_if_reads _ _ db) (λ w. refl)))

approved_status : (b : Bool) → not b ≡ false → b ≡ true
approved_status true h = refl
approved_status false h = cc

pub check_publication_ok :
    (id : ℕ) (actor : DocumentActor) (db : DocumentDb) (current : LoadedVersion) (t : DocumentDb)
    → check_publication id actor db ≡ (ok current, t)
    → (get_version id db ≡ (ok current, db))
      × (is_status current.version.lifecycle_status approved ≡ true)
unfolding check_publication
check_publication_ok id actor db current t h =
    let (may, h1) =
      guard_then (not (str_mem "publish_document" actor.permissions)) document_permission_denied _
        db current t h in
    let (loaded, s, read, h2) = bind_ok (get_version id) _ db current t h1 in
    let (ready, h3) =
      guard_then (not (is_status loaded.version.lifecycle_status approved)) value_error _ s current
        t h2 in
    let same : loaded ≡ current = (pair_ok loaded current s t h3).0 in
    let still : s ≡ db = sym (ap (λ q. q.1) read) ∙ get_version_reads id db in
    (
      read ∙ ap (outcome (ok loaded)) still ∙ ap (λ x. outcome (ok x) db) same,
      ap (λ x. is_status x.version.lifecycle_status approved) (sym same) ∙ approved_status _ ready,
    )
