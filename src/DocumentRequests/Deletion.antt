-- ===== src/DocumentRequests/Deletion.antt =====
-- What a request for a deletion leaves in the database.
use it_outsourcing_knowledge.Base.{
  ℕ, ◌≡◌, ◌⊎◌, inl, inr, refl, sym, ap, ◌∙◌, subst, true, not, some, [], ◌∷◌, Bool-cases,
}
use it_outsourcing_knowledge.Base.Exec.{
  Error, document_permission_denied, value_error, Result, ok, err, Result-cases, Exec, bind_ok,
  pair_ok, guard_then, lift_then, lift_ok, ok_inj, lift, bind_reads, outcome, continue, pure, ◌>>◌,
}
use it_outsourcing_knowledge.Base.Table.{find, put}
use it_outsourcing_knowledge.Base.Uuid.{UuidCodec}
use it_outsourcing_knowledge.Access.{
  project_manager, AccessStore, AuthorizedProjectContext, authorize_project, str_mem,
  list_active_knowledge_space_ids,
}
use it_outsourcing_knowledge.Documents.{DocumentVersion, DocumentLifecycleStatus, delete_pending}
use it_outsourcing_knowledge.DocumentAccess.{
  archive_document, access_of, authorize_version_operation,
}
use it_outsourcing_knowledge.DocumentWorkflow.{
  DocumentDb, LoadedVersion, DocumentActor, get_version, transition, can_transition_document,
  transition_document_status, add_audit, with_status, load_version, to_version_record, is_status,
  audit_of, govern_deletion,
}
use it_outsourcing_knowledge.DocumentWorkflow.Approval.{transition_ok, record_kept}
use it_outsourcing_knowledge.DocumentWorkflow.Transitions.{load_version_ok, get_version_ok}
use it_outsourcing_knowledge.DocumentRequests.Authorized.{manager_role, authorize_ok}
use it_outsourcing_knowledge.DocumentRequests.{
  KnowledgeService, DocumentSession, end_request, commit, in_request, project_code, only_space,
  clean_up, delete, delete_request,
}

pub loaded_version :
    (id : ℕ) (db : DocumentDb) (current : LoadedVersion) (t : DocumentDb)
    → get_version id db ≡ (ok current, t)
    → find id db.versions ≡ some current.version
unfolding get_version
loaded_version id db current t h =
    let (first, s, read, rest) = bind_ok (load_version id) _ db current t h in
    (load_version_ok id db first s read).2
    ∙ ap (λ l. some l.version)
        (record_kept first current (lift_ok (to_version_record first) s current t rest).0)

allowed_ok :
    (s t : DocumentLifecycleStatus) (out : DocumentLifecycleStatus)
    → transition_document_status s t ≡ ok out
    → can_transition_document s t ≡ true
unfolding transition_document_status
allowed_ok s t out h = elim (Bool-cases (can_transition_document s t)) [
  | inl e ↦ e
  | inr e ↦ cc (rw e at h)
]

transition_allowed :
    (id : ℕ) (expected target : DocumentLifecycleStatus) (db : DocumentDb) (v : DocumentVersion)
    (out : LoadedVersion) (t : DocumentDb)
    → find id db.versions ≡ some v
    → transition id expected target db ≡ (ok out, t)
    → can_transition_document v.lifecycle_status target ≡ true
unfolding transition
transition_allowed id expected target db v out t there h =
    let (loaded, s, read, h1) = bind_ok (load_version id) _ db out t h in
    let (same, key, found) = load_version_ok id db loaded s read in
    let (wanted, h2) =
      guard_then (not (is_status loaded.version.lifecycle_status expected)) value_error _ s out t
        h1 in
    let (status, allowed, h3) =
      lift_then (transition_document_status loaded.version.lifecycle_status target) _ s out t h2 in
    let mine : loaded.version ≡ v = some_version loaded.version v (sym found ∙ there) in
    ap (λ x. can_transition_document x.lifecycle_status target) (sym mine)
    ∙ allowed_ok loaded.version.lifecycle_status target status allowed
  where
    some_version : (a b : DocumentVersion) → some a ≡ some b → a ≡ b
    some_version a b e = cc (e)

-- The database after the part of a deletion before its commit barrier.
abbrev pub pending_db : ℕ → DocumentActor → LoadedVersion → DocumentDb → DocumentDb
pending_db id actor current db = record db {
  versions = put id (with_status delete_pending current.version) db.versions;
  audits = audit_of "document_delete_pending" "success" current actor [] ∷ db.audits;
}

govern_deletion_ok :
    (id : ℕ) (actor : DocumentActor) (db : DocumentDb) (out : LoadedVersion × LoadedVersion)
    (t : DocumentDb)
    → govern_deletion id actor db ≡ (ok out, t)
    → (get_version id db ≡ (ok out.0, db))
      × (can_transition_document out.0.version.lifecycle_status delete_pending ≡ true)
      × (t ≡ pending_db id actor out.0 db)
unfolding govern_deletion add_audit
govern_deletion_ok id actor db out t h =
    let (permitted, h1) =
      guard_then (not (str_mem "archive_document" actor.permissions)) document_permission_denied _
        db out t h in
    let (current, s, read, h2) = bind_ok (get_version id) _ db out t h1 in
    let same : s ≡ db = get_version_ok id db current s read in
    let (pending, u, went, h3) =
      bind_ok (transition id current.version.lifecycle_status delete_pending) _ s out t h2 in
    let (answer, last) = pair_ok (current, pending) out _ t h3 in
    let went_db : transition id current.version.lifecycle_status delete_pending db
        ≡ (ok pending, u) =
      subst (λ d. transition id current.version.lifecycle_status delete_pending d ≡ (ok pending, u))
        same went in
    let found = loaded_version id db current s read in
    let (status, after) =
      transition_ok id current.version.lifecycle_status delete_pending db current.version pending u
        found went_db in
    let mine : current ≡ out.0 = ap (λ o. o.0) answer in
    (
      read ∙ ap (λ d. outcome (ok current) d) same ∙ ap (λ c. outcome (ok c) db) mine,
      ap (λ c. can_transition_document c.version.lifecycle_status delete_pending) (sym mine)
          ∙ transition_allowed id current.version.lifecycle_status delete_pending db current.version
              pending u found went_db,
      sym last
          ∙ ap {A = DocumentDb} {B = DocumentDb}
              (λ d. record d {
                audits = audit_of "document_delete_pending" "success" current actor [] ∷ d.audits;
              })
              after
          ∙ ap (λ c. pending_db id actor c db) mine,
    )

-- The user has the one role that may delete in the version's project and company, and the
-- version may be deleted.
abbrev pub IsDeletable : UuidCodec → ℕ → AccessStore → ℕ → ℕ → DocumentDb → LoadedVersion → Type 0
IsDeletable uuid now access user id db current =
    (context : AuthorizedProjectContext) × (get_version id db ≡ (ok current, db))
    × (authorize_project uuid now user current.document.project_id (access_of access db)
        ≡ ok context)
    × (context.scope.role_ids ≡ project_manager ∷ [])
    × (context.scope.company_id ≡ current.document.company_id)
    × (can_transition_document current.version.lifecycle_status delete_pending ≡ true)

module _ (uuid : UuidCodec) (now : ℕ) (access : AccessStore) (user id : ℕ) (db : DocumentDb) where
  clean_up_reads :
      (knowledge : KnowledgeService) (current : LoadedVersion) (s : DocumentSession)
      → (clean_up uuid knowledge now access current s).1 ≡ s
  unfolding clean_up
  clean_up_reads knowledge current s =
      bind_reads (lift (project_code access current.document.project_id)) _ s refl (λ code.
        bind_reads
          (lift (only_space (list_active_knowledge_space_ids access current.document.project_id))) _
          s refl (λ space. refl))

  abbrev session : DocumentDb → DocumentSession
  session d = record { committed = db; current = d }

  -- A request whose first part in the session is known.
  abbrev ended :
      {A B : Type 0} → (A → Exec DocumentSession B) → Result A × DocumentDb → Result B × DocumentDb
  ended rest p = let q = continue p.0 rest (session p.1) in end_request q.0 q.1

  after_delete :
      KnowledgeService → LoadedVersion × LoadedVersion → Exec DocumentSession LoadedVersion
  after_delete knowledge governed =
      commit >> (clean_up uuid knowledge now access governed.0 >> pure governed.1)

  refused_first :
      (knowledge : KnowledgeService) (e : Error) (t : DocumentDb)
      → authorize_version_operation uuid now access user id archive_document db ≡ (err e, t)
      → delete_request uuid knowledge now access user id db ≡ (err e, db)
  unfolding delete_request in_request
  refused_first knowledge e t h = ap (ended (delete uuid knowledge now access id)) h

  permitted_then :
      (knowledge : KnowledgeService) (actor : DocumentActor)
      → authorize_version_operation uuid now access user id archive_document db ≡ (ok actor, db)
      → delete_request uuid knowledge now access user id db
        ≡ ended (after_delete knowledge) (govern_deletion id actor db)
  unfolding delete_request in_request delete after_delete
  permitted_then knowledge actor h = ap (ended (delete uuid knowledge now access id)) h

  committed_same :
      {A : Type 0} (r : Result A) (s : DocumentSession) (t : DocumentDb)
      → s ≡ record { committed = t; current = t }
      → (end_request r s).1 ≡ t
  committed_same (ok a) s t h = ap (λ x. x.current) h
  committed_same (err e) s t h = ap (λ x. x.committed) h

  after_reads :
      (knowledge : KnowledgeService) (out : LoadedVersion × LoadedVersion) (t : DocumentDb)
      → (after_delete knowledge out (session t)).1 ≡ record { committed = t; current = t }
  unfolding after_delete commit
  after_reads knowledge out t =
      bind_reads (clean_up uuid knowledge now access out.0) _
        (record { committed = t; current = t })
        (clean_up_reads knowledge out.0 (record { committed = t; current = t })) (λ u. refl)

  -- A deletion is refused before the knowledge service is asked, and then the database is as
  -- before; or the user is a project manager of the version's project and company, the version's
  -- status may become DELETE_PENDING, and then, whatever the knowledge service answers and also
  -- when it fails, the version is DELETE_PENDING, one audit record is added, and all else is as
  -- before.
  pub delete_outcome :
      ((e : Error) × ((knowledge : KnowledgeService)
          → delete_request uuid knowledge now access user id db ≡ (err e, db)))
      ⊎ ((current : LoadedVersion) × (actor : DocumentActor) × IsDeletable uuid now access user id
            db current
          × (actor.user_id ≡ user)
          × ((knowledge : KnowledgeService)
              → (delete_request uuid knowledge now access user id db).1
                ≡ pending_db id actor current db))
  delete_outcome =
      elim (Result-cases
        (authorize_version_operation uuid now access user id archive_document db).0) [
          | inl (e, denied) ↦ inl (
            e,
            λ k. refused_first k e _ (
                ap
                  (λ r.
                    outcome r
                      (authorize_version_operation uuid now access user id archive_document db).1)
                  denied),
          )
          | inr (actor, granted) ↦
              let authorized =
                ap
                  (λ r.
                    outcome r
                      (authorize_version_operation uuid now access user id archive_document db).1)
                  granted in
              let (before, context, role, read, scope, roles, company, permitted, mine, same) =
                authorize_ok uuid now access user id db archive_document actor _ authorized in
              let entered = authorized ∙ ap (λ d. outcome (ok actor) d) same in
              elim (Result-cases (govern_deletion id actor db).0) [
                | inl (e, refused) ↦ inl (
                  e,
                  λ k.
                      permitted_then k actor entered
                      ∙ ap (λ r. ended (after_delete k) (outcome r (govern_deletion id actor db).1))
                          refused,
                )
                | inr (out, done) ↦
                    let (current_read, allowed, after) =
                      govern_deletion_ok id actor db out _
                        (ap (λ r. outcome r (govern_deletion id actor db).1) done) in
                    let version : before ≡ out.0 =
                      ok_inj before out.0 (ap (λ p. p.0) (sym read ∙ current_read)) in
                    inr (
                      out.0,
                      actor,
                      (
                        context,
                        current_read,
                        ap
                              (λ v.
                                authorize_project uuid now user v.document.project_id
                                  (access_of access db))
                              (sym version)
                            ∙ scope,
                        roles
                            ∙ ap (λ r. r ∷ [])
                                (manager_role archive_document role (inr refl) permitted),
                        company ∙ ap (λ v. v.document.company_id) version,
                        allowed,
                      ),
                      mine,
                      λ k.
                          ap (λ p. p.1) (permitted_then k actor entered)
                          ∙ ap
                              (λ r.
                                (ended (after_delete k)
                                  (outcome r (govern_deletion id actor db).1)).1)
                              done
                          ∙ committed_same _ _ _ (after_reads k out (govern_deletion id actor db).1)
                          ∙ after,
                    )
              ]
        ]

  -- A version that is DELETE_PENDING already cannot be deleted again: every further request for
  -- its deletion raises and leaves the database as it is, whatever the knowledge service answers.
  pub deletion_not_repeated :
      (v : DocumentVersion)
      → find id db.versions ≡ some v
      → v.lifecycle_status ≡ delete_pending
      → (e : Error) × ((knowledge : KnowledgeService)
          → delete_request uuid knowledge now access user id db ≡ (err e, db))
  unfolding can_transition_document
  deletion_not_repeated v found status = elim delete_outcome [
    | inl refused ↦ refused
    | inr (current, actor, (context, read, scope, roles, company, allowed), mine, after) ↦ absurd (
        closed v.lifecycle_status status (
          ap (λ x. can_transition_document x.lifecycle_status delete_pending)
            (same_version v current.version (sym found ∙ loaded_version id db current db read))
          ∙ allowed))
  ]
    where
      same_version : (a b : DocumentVersion) → some a ≡ some b → a ≡ b
      same_version a b e = cc (e)

      closed :
          (s : DocumentLifecycleStatus)
          → s ≡ delete_pending
          → ¬ (can_transition_document s delete_pending ≡ true)
      closed delete_pending e h = cc
      closed s e h = cc
