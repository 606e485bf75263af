-- ===== src/Access.antt =====
-- application/services/authorization.py over infrastructure/db/repositories/authorization.py: the
-- roles, projects and document visibility of a user, always read from the database.
pub mod Texts
mod Laws
mod Newest
mod Tests
use it_outsourcing_knowledge.Base.{
  ℕ, String, Bool, true, false, not, ◌&&◌, ◌||◌, Option, none, some, List, [], ◌∷◌, map, str_eq,
  ltb, leb, ◌==◌, if◌then◌else◌, map_option, select,
}
use it_outsourcing_knowledge.Base.Exec.{
  Result, ok, err, authorization_denied, result_of, lookup_error,
}
use it_outsourcing_knowledge.Base.Sort.{sort}
use it_outsourcing_knowledge.Base.Table.{Table, find}
use it_outsourcing_knowledge.Base.Text.{str_le}
use it_outsourcing_knowledge.Base.Uuid.{UuidCodec}
use it_outsourcing_knowledge.Documents.{Document, DocumentVersion, DocumentStore, is_published}

pub data ProjectRole : Type 0 where
  project_manager developer qa implementation support viewer : ProjectRole

pub data ProjectLifecycleStatus : Type 0 where
  active maintenance closed archived deletion_pending deleted : ProjectLifecycleStatus

pub record Project : Type 0 where
  pub company_id : ℕ
  pub client_id : ℕ
  pub code : String
  pub lifecycle_status : ProjectLifecycleStatus

pub record ProjectMembership : Type 0 where
  pub project_id : ℕ
  pub user_id : ℕ
  pub role : ProjectRole
  pub valid_from : ℕ
  pub valid_to : Option ℕ

pub record ProjectKnowledgeSpace : Type 0 where
  pub project_id : ℕ
  pub provider : String
  pub external_space_id : String
  pub status : String

pub record AccessStore : Type 0 where
  pub projects : Table Project
  pub memberships : List ProjectMembership
  pub spaces : List ProjectKnowledgeSpace
  pub docs : DocumentStore

pub record MembershipAccessRecord : Type 0 where
  pub company_id : ℕ
  pub client_id : ℕ
  pub project_id : ℕ
  pub project_code : String
  pub role : ProjectRole
  pub valid_from : ℕ
  pub valid_to : Option ℕ

pub record ProjectAccessScope : Type 0 where
  pub company_id : ℕ
  pub user_id : ℕ
  pub allowed_client_ids : List ℕ
  pub allowed_project_ids : List ℕ
  pub allowed_document_version_ids : List ℕ
  pub allowed_document_categories : List String
  pub role_ids : List ProjectRole
  pub max_security_level : ℕ
  pub policy_version : String

pub record AuthorizedProjectContext : Type 0 where
  pub scope : ProjectAccessScope
  pub project_code : String
  pub knowledge_space_ids : List String

-- `lifecycle_status NOT IN (DELETION_PENDING, DELETED)`
abbrev pub is_usable : ProjectLifecycleStatus → Bool
is_usable deletion_pending = false
is_usable deleted = false
is_usable _ = true

-- `valid_to IS NULL OR valid_to > at`
abbrev pub not_ended : Option ℕ → ℕ → Bool
not_ended none at = true
not_ended (some t) at = ltb at t

unfoldable pub is_active_membership : ℕ → ℕ → ProjectMembership → Bool
is_active_membership user at m = m.user_id == user && leb m.valid_from at && not_ended m.valid_to at

unfoldable pub to_access : ProjectMembership → Project → MembershipAccessRecord
to_access m p = record {
  company_id = p.company_id;
  client_id = p.client_id;
  project_id = m.project_id;
  project_code = p.code;
  role = m.role;
  valid_from = m.valid_from;
  valid_to = m.valid_to;
}

-- The row of the join of a membership with its project, if it meets the condition.
unfoldable pub joined : AccessStore → ProjectMembership → Option MembershipAccessRecord
joined s m = elim (find m.project_id s.projects) [
  | none ↦ none
  | some p ↦ if is_usable p.lifecycle_status then some (to_access m p) else none
]

abbrev or_else : {A : Type 0} → Option A → Option A → Option A
or_else none b = b
or_else (some a) b = some a

-- `SELECT … LIMIT 1` with no order: the first row in whatever order the table has.
unfoldable pub first_membership :
    AccessStore → ℕ → ℕ → ℕ → List ProjectMembership → Option MembershipAccessRecord
first_membership s user project at [] = none
first_membership s user project at (m ∷ ms) =
    let rest = first_membership s user project at ms in
    if is_active_membership user at m && m.project_id == project
    then or_else (joined s m) rest
    else rest

unfoldable pub get_active_membership : AccessStore → ℕ → ℕ → ℕ → Option MembershipAccessRecord
get_active_membership s user project at = first_membership s user project at s.memberships

-- The joined rows of the user's memberships that are in force, in the order of the table.
unfoldable pub active_rows :
    AccessStore → ℕ → ℕ → List ProjectMembership → List MembershipAccessRecord
active_rows s user at [] = []
active_rows s user at (m ∷ ms) =
    let rest = active_rows s user at ms in
    if is_active_membership user at m
    then elim (joined s m) [ none ↦ rest | some r ↦ r ∷ rest ]
    else rest

abbrev by_code : MembershipAccessRecord → MembershipAccessRecord → Bool
by_code a b = str_le a.project_code b.project_code

unfoldable pub list_active_memberships_for_user : AccessStore → ℕ → ℕ → List MembershipAccessRecord
list_active_memberships_for_user s user at = sort by_code (active_rows s user at s.memberships)

-- A published version with its document: document id, version id, version number, category.
pub record PublishedVersion : Type 0 where
  pub document_id : ℕ
  pub version_id : ℕ
  pub version_no : ℕ
  pub document_category : String

unfoldable pub published_rows : DocumentStore → ℕ → Table DocumentVersion → List PublishedVersion
published_rows s project [] = []
published_rows s project ((id, v) ∷ vs) =
    let rest = published_rows s project vs in
    elim (find v.document_id s.documents) [
      | none ↦ rest
      | some d ↦
          if d.project_id == project && is_published v.lifecycle_status
          then record {
            document_id = v.document_id;
            version_id = id;
            version_no = v.version_no;
            document_category = d.document_category;
          }
            ∷ rest
          else rest
    ]

-- `ORDER BY document_id, version_no DESC`
unfoldable pub newest_first : PublishedVersion → PublishedVersion → Bool
newest_first a b =
    ltb a.document_id b.document_id
    || a.document_id == b.document_id && leb b.version_no a.version_no

abbrev pub mem : ℕ → List ℕ → Bool
mem x [] = false
mem x (y ∷ ys) = x == y || mem x ys

-- The loop with `seen_documents`.
unfoldable pub first_of_each : List ℕ → List PublishedVersion → List PublishedVersion
first_of_each seen [] = []
first_of_each seen (r ∷ rs) =
    let kept = r ∷ first_of_each (r.document_id ∷ seen) rs in
    let skipped = first_of_each seen rs in if mem r.document_id seen then skipped else kept

unfoldable pub list_published_document_access : AccessStore → ℕ → List PublishedVersion
list_published_document_access s project =
    first_of_each [] (sort newest_first (published_rows s.docs project s.docs.versions))

unfoldable pub list_active_knowledge_space_ids : AccessStore → ℕ → List String
list_active_knowledge_space_ids s project =
    map (λ k. k.external_space_id)
      (select
        (λ k. k.project_id == project && str_eq k.provider "ragflow" && str_eq k.status "active")
        s.spaces)

abbrev pub str_mem : String → List String → Bool
str_mem x [] = false
str_mem x (y ∷ ys) = str_eq x y || str_mem x ys

-- `set(…)`, and then `sorted(…)`
unfoldable pub dedupe : List String → List String
dedupe [] = []
dedupe (x ∷ xs) = let rest = dedupe xs in if str_mem x xs then rest else x ∷ rest

abbrev pub policy_version : String
policy_version = "project-membership-v1"

unfoldable pub context_of :
    UuidCodec → ℕ → ℕ → AccessStore → MembershipAccessRecord → AuthorizedProjectContext
context_of uuid user project s m =
    let documents = list_published_document_access s project in
    record {
      scope = record {
        company_id = m.company_id;
        user_id = user;
        allowed_client_ids = m.client_id ∷ [];
        allowed_project_ids = m.project_id ∷ [];
        allowed_document_version_ids =
            sort (λ i j. str_le (uuid.to_str i) (uuid.to_str j))
              (map (λ r. r.version_id) documents);
        allowed_document_categories =
            sort str_le (dedupe (map (λ r. r.document_category) documents));
        role_ids = m.role ∷ [];
        max_security_level = 0;
        policy_version = policy_version;
      };
      project_code = m.project_code;
      knowledge_space_ids = sort str_le (dedupe (list_active_knowledge_space_ids s project));
    }

unfoldable pub authorize_project :
    UuidCodec → ℕ → ℕ → ℕ → AccessStore → Result AuthorizedProjectContext
authorize_project uuid now user project s =
    elim (result_of authorization_denied (get_active_membership s user project now)) [
      | err e ↦ err e
      | ok m ↦ ok (context_of uuid user project s m)
    ]
