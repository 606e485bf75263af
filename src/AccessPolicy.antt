-- ===== src/AccessPolicy.antt =====
-- agent/policies/access.py: what of the knowledge base a retrieval may ask for, and which of the
-- chunks that come back are kept.
mod Laws
mod Tests
use it_outsourcing_knowledge.Base.{
  ℕ, String, Bool, true, false, not, ◌&&◌, ◌||◌, Option, none, some, List, [], ◌∷◌, map, str_eq,
  if◌then◌else◌, select, is_nil,
}
use it_outsourcing_knowledge.Base.Exec.{Result, ok, err, authorization_denied}
use it_outsourcing_knowledge.Base.Sort.{sort}
use it_outsourcing_knowledge.Base.Text.{str_le}
use it_outsourcing_knowledge.Base.Uuid.{UuidCodec}
use it_outsourcing_knowledge.Access.{AuthorizedProjectContext, str_mem, dedupe}
use it_outsourcing_knowledge.Knowledge.{KnowledgeRetrievalRequest, KnowledgeChunk}

-- `{str(value) for value in context.scope.allowed_document_version_ids}`
unfoldable pub allowed_versions : UuidCodec → AuthorizedProjectContext → List String
allowed_versions uuid context = map uuid.to_str context.scope.allowed_document_version_ids

-- `sorted(allowed & requested)`, or `sorted(allowed)` where nothing is requested.
unfoldable pub constrained_to : List String → List String → List String
constrained_to allowed requested =
    if is_nil requested
    then sort str_le (dedupe allowed)
    else sort str_le (dedupe (select (λ x. str_mem x requested) allowed))

unfoldable pub constrain_retrieval :
    UuidCodec
    → KnowledgeRetrievalRequest
    → AuthorizedProjectContext
    → Result (Option KnowledgeRetrievalRequest)
constrain_retrieval uuid request context =
    let versions = constrained_to (allowed_versions uuid context) request.document_version_ids in
    let spaces = constrained_to context.knowledge_space_ids request.knowledge_space_ids in
    if not (str_eq request.project_id context.project_code)
    then err authorization_denied
    else if is_nil (allowed_versions uuid context) || is_nil context.knowledge_space_ids
    then ok none
    else if is_nil versions || is_nil spaces
    then ok none
    else ok (
        some (record {
          project_id = context.project_code;
          query = request.query;
          limit = request.limit;
          document_version_ids = versions;
          knowledge_space_ids = spaces;
        }))

abbrev pub in_spaces : Option String → List String → Bool
in_spaces none spaces = false
in_spaces (some s) spaces = str_mem s spaces

unfoldable pub is_authorized : UuidCodec → AuthorizedProjectContext → KnowledgeChunk → Bool
is_authorized uuid context chunk =
    str_eq chunk.project_id context.project_code
    && (str_mem chunk.document_version_id (allowed_versions uuid context)
        && in_spaces chunk.knowledge_space_id context.knowledge_space_ids)

unfoldable pub postfilter_evidence :
    UuidCodec → List KnowledgeChunk → AuthorizedProjectContext → List KnowledgeChunk
postfilter_evidence uuid chunks context =
    if is_nil (allowed_versions uuid context) || is_nil context.knowledge_space_ids
    then []
    else select (is_authorized uuid context) chunks
