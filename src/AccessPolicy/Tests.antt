-- ===== src/AccessPolicy/Tests.antt =====
-- A request for two versions, of which one is allowed.
use it_outsourcing_knowledge.Base.{◌≡◌, ◌⊎◌, refl, false, none, some, [], ◌∷◌, str_eq}
use it_outsourcing_knowledge.Base.Exec.{ok, err, authorization_denied}
use it_outsourcing_knowledge.Base.Sort.{sort, insert}
use it_outsourcing_knowledge.Base.Text.{str_le}
use it_outsourcing_knowledge.Access.{developer, AuthorizedProjectContext, dedupe}
use it_outsourcing_knowledge.Knowledge.{KnowledgeRetrievalRequest}
use it_outsourcing_knowledge.AccessPolicy.{allowed_versions, constrained_to, constrain_retrieval}
use it_outsourcing_knowledge.AccessPolicy.Laws.{Constrains, NothingWanted, constrain_exact}
use it_outsourcing_knowledge.Samples.{strokes}

abbrev context : AuthorizedProjectContext
context = record {
  scope = record {
    company_id = 1;
    user_id = 5;
    allowed_client_ids = 2 ∷ [];
    allowed_project_ids = 7 ∷ [];
    allowed_document_version_ids = 3 ∷ 4 ∷ [];
    allowed_document_categories = "release_runbook" ∷ [];
    role_ids = developer ∷ [];
    max_security_level = 0;
    policy_version = "project-membership-v1";
  };
  project_code = "P";
  knowledge_space_ids = "kb" ∷ [];
}

abbrev request : KnowledgeRetrievalRequest
request = record {
  project_id = "P";
  query = "limits";
  limit = 10;
  document_version_ids = "IIII" ∷ "IIIII" ∷ [];
  knowledge_space_ids = [];
}

constrain_exact_example :
    ((constrain_retrieval strokes request context ≡ err authorization_denied)
      × (str_eq request.project_id context.project_code ≡ false))
    ⊎ ((constrain_retrieval strokes request context ≡ ok none)
        × (request.project_id ≡ context.project_code)
        × NothingWanted strokes request context)
    ⊎ ((r : KnowledgeRetrievalRequest) × (constrain_retrieval strokes request context ≡ ok (some r))
        × (request.project_id ≡ context.project_code)
        × Constrains strokes request context r)
constrain_exact_example = constrain_exact strokes request context

request_narrowed :
    constrain_retrieval strokes request context
    ≡ ok (
        some
          (record request { document_version_ids = "IIII" ∷ []; knowledge_space_ids = "kb" ∷ [] }))
unfolding constrain_retrieval constrained_to allowed_versions dedupe sort insert str_le
request_narrowed = refl
