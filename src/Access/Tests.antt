-- ===== src/Access/Tests.antt =====
-- A project with one member, authorized.
use it_outsourcing_knowledge.Base.{ℕ, ◌≡◌, ◌⊎◌, refl, none, [], ◌∷◌, All, map}
use it_outsourcing_knowledge.Base.Table.{find}
use it_outsourcing_knowledge.Base.Sort.{sort, insert}
use it_outsourcing_knowledge.Base.Exec.{ok, err, authorization_denied}
use it_outsourcing_knowledge.Documents.{DocumentStore, Document, DocumentVersion, published}
use it_outsourcing_knowledge.Access.{
  developer, active, Project, ProjectMembership, AccessStore, AuthorizedProjectContext,
  authorize_project, published_rows, newest_first, first_of_each, list_published_document_access,
}
use it_outsourcing_knowledge.Access.Laws.{Permits, Describes, authorize_exact}
use it_outsourcing_knowledge.Access.Newest.{
  IsPublishedIn, IsReadable, HasNewer, IsDistinct, published_access_exact,
}
use it_outsourcing_knowledge.Samples.{strokes}

abbrev no_documents : DocumentStore
no_documents = record { documents = []; versions = [] }

abbrev store : AccessStore
store = record {
  projects =
      (7, record { company_id = 1; client_id = 2; code = "P"; lifecycle_status = active }) ∷ [];
  memberships =
      record { project_id = 7; user_id = 5; role = developer; valid_from = 0; valid_to = none }
      ∷ [];
  spaces = [];
  docs = no_documents;
}

authorize_exact_example :
    ((context : AuthorizedProjectContext) × (m : ProjectMembership) × (p : Project)
      × (authorize_project strokes 10 5 7 store ≡ ok context)
      × Describes store 5 7 10 context m p)
    ⊎ ((authorize_project strokes 10 5 7 store ≡ err authorization_denied)
        × ((m : ProjectMembership) (p : Project) → ¬ Permits store 5 7 10 m p))
authorize_exact_example = authorize_exact strokes 10 5 7 store

abbrev document : Document
document = record {
  company_id = 1;
  project_id = 7;
  document_category = "GUIDE";
  title = "Guide";
  owner_user_id = none;
}

abbrev version : ℕ → DocumentVersion
version n = record {
  document_id = 3;
  version_no = n;
  version_label = "v";
  authority_level = "NORMAL";
  lifecycle_status = published;
  effective_from = none;
  effective_to = none;
  supersedes_version_id = none;
  source_uri = none;
  content_hash = none;
  published_at = none;
  created_by = 5;
}

-- One document with two published versions.
abbrev two_versions : AccessStore
two_versions = record store {
  docs = record {
    documents = (3, document) ∷ [];
    versions = (11, version 1) ∷ (12, version 2) ∷ [];
  };
}

published_access_exact_example :
    All
      (IsReadable two_versions.docs 7 two_versions.docs.versions)
      (list_published_document_access two_versions 7)
    × IsDistinct [] (list_published_document_access two_versions 7)
    × All
        (λ e.
          (¬ ((d : Document) × IsPublishedIn two_versions.docs 7 e.1 d))
          ⊎ HasNewer e.1.document_id e.1.version_no (list_published_document_access two_versions 7))
        two_versions.docs.versions
published_access_exact_example = published_access_exact two_versions 7

newest_read : map (λ r. r.version_no) (list_published_document_access two_versions 7) ≡ 2 ∷ []
unfolding list_published_document_access published_rows first_of_each sort insert newest_first find
newest_read = refl
