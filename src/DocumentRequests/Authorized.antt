-- ===== src/DocumentRequests/Authorized.antt =====
-- Who is authorized for an operation on a version.
use it_outsourcing_knowledge.Base.{
  ℕ, ◌≡◌, ◌⊎◌, inl, inr, refl, sym, ap, ◌∙◌, false, not, some, List, [], ◌∷◌, ◌==◌, ==_iff,
}
use it_outsourcing_knowledge.Base.Exec.{
  authorization_denied, ok, bind_ok, pair_ok, guard_then, lift_then, ok_inj, outcome,
}
use it_outsourcing_knowledge.Base.Uuid.{UuidCodec}
use it_outsourcing_knowledge.Access.{
  ProjectRole, project_manager, developer, qa, implementation, support, viewer, AccessStore,
  AuthorizedProjectContext, authorize_project, str_mem,
}
use it_outsourcing_knowledge.DocumentAccess.{
  DocumentOperation, upload_document, submit_for_review, approve_document, publish_document,
  archive_document, operation_value, role_permissions, is_other_company, only_role, access_of,
  authorize_project_operation, authorize_version_operation,
}
use it_outsourcing_knowledge.DocumentWorkflow.{
  DocumentDb, LoadedVersion, DocumentActor, get_version,
}
use it_outsourcing_knowledge.DocumentWorkflow.Transitions.{get_version_ok, not-false}

-- The one role of a list of roles.
only_role_ok :
    (roles : List ProjectRole) (role : ProjectRole) → only_role roles ≡ ok role → roles ≡ role ∷ []
unfolding only_role
only_role_ok (r ∷ []) role h = ap (λ x. x ∷ []) (ok_inj r role h)
only_role_ok [] role h = cc
only_role_ok (r ∷ s ∷ rs) role h = cc

-- Only a project manager may publish or archive.
pub manager_role :
    (operation : DocumentOperation) (role : ProjectRole)
    → (operation ≡ publish_document) ⊎ (operation ≡ archive_document)
    → not (str_mem (operation_value operation) (role_permissions role)) ≡ false
    → role ≡ project_manager
unfolding role_permissions
manager_role publish_document project_manager o h = refl
manager_role archive_document project_manager o h = refl
manager_role publish_document developer o h = cc (h)
manager_role publish_document qa o h = cc (h)
manager_role publish_document implementation o h = cc (h)
manager_role publish_document support o h = cc (h)
manager_role publish_document viewer o h = cc (h)
manager_role archive_document developer o h = cc (h)
manager_role archive_document qa o h = cc (h)
manager_role archive_document implementation o h = cc (h)
manager_role archive_document support o h = cc (h)
manager_role archive_document viewer o h = cc (h)
manager_role upload_document role (inl e) h = cc (e)
manager_role upload_document role (inr e) h = cc (e)
manager_role submit_for_review role (inl e) h = cc (e)
manager_role submit_for_review role (inr e) h = cc (e)
manager_role approve_document role (inl e) h = cc (e)
manager_role approve_document role (inr e) h = cc (e)

same_company : (a b : ℕ) → is_other_company a (some b) ≡ false → a ≡ b
same_company a b h = (==_iff a b).0 (not-false (a == b) h)

module _ (uuid : UuidCodec) (now : ℕ) (access : AccessStore) (user id : ℕ) (db : DocumentDb) where
  pub authorize_ok :
      (operation : DocumentOperation) (actor : DocumentActor) (t : DocumentDb)
      → authorize_version_operation uuid now access user id operation db ≡ (ok actor, t)
      → (current : LoadedVersion) × (context : AuthorizedProjectContext) × (role : ProjectRole)
        × (get_version id db ≡ (ok current, db))
        × (authorize_project uuid now user current.document.project_id (access_of access db)
            ≡ ok context)
        × (context.scope.role_ids ≡ role ∷ [])
        × (context.scope.company_id ≡ current.document.company_id)
        × (not (str_mem (operation_value operation) (role_permissions role)) ≡ false)
        × (actor.user_id ≡ user)
        × (t ≡ db)
  unfolding authorize_version_operation authorize_project_operation
  authorize_ok operation actor t h =
      let (current, s, read, h1) = bind_ok (get_version id) _ db actor t h in
      let same : s ≡ db = get_version_ok id db current s read in
      let (context, authorized, h2) =
        lift_then (authorize_project uuid now user current.document.project_id (access_of access s))
          _ s actor t h1 in
      let (company, h3) =
        guard_then (is_other_company context.scope.company_id (some current.document.company_id))
          authorization_denied _ s actor t h2 in
      let (role, only, h4) = lift_then (only_role context.scope.role_ids) _ s actor t h3 in
      let (permitted, h5) =
        guard_then (not (str_mem (operation_value operation) (role_permissions role)))
          authorization_denied _ s actor t h4 in
      let (answer, last) = pair_ok _ actor s t h5 in
      (
        current,
        context,
        role,
        read ∙ ap (λ d. outcome (ok current) d) same,
        ap (λ d. authorize_project uuid now user current.document.project_id (access_of access d))
              (sym same)
            ∙ authorized,
        only_role_ok context.scope.role_ids role only,
        same_company context.scope.company_id current.document.company_id company,
        permitted,
        ap (λ a. a.user_id) (sym answer),
        sym last ∙ same,
      )
