-- ===== src/QaRetrieval.antt =====
-- agent/nodes: from the prompt to the governed evidence. A node returns the state with its update
-- merged in, as LangGraph does.
use it_outsourcing_knowledge.Base.{
  ℕ, suc, String, Bool, true, false, not, ◌&&◌, Option, none, some, List, [], ◌∷◌, map, ltb, leb,
  if◌then◌else◌, is_some, is_nil, get_or, select,
}
use it_outsourcing_knowledge.Base.Exec.{
  lookup_error, value_error, Exec, pure, lift, gets, or_raise, raise_if, ◌>>=◌, ◌>>◌,
}
use it_outsourcing_knowledge.Base.Sort.{sort}
use it_outsourcing_knowledge.Base.Text.{strip, str_le, is_blank}
use it_outsourcing_knowledge.Base.Uuid.{UuidCodec}
use it_outsourcing_knowledge.Access.{
  AuthorizedProjectContext, list_active_memberships_for_user, authorize_project, mem,
}
use it_outsourcing_knowledge.AccessPolicy.{constrain_retrieval, postfilter_evidence}
use it_outsourcing_knowledge.Governance.{GovernedEvidencePack, pack}
use it_outsourcing_knowledge.Knowledge.{KnowledgeRetrievalRequest}
use it_outsourcing_knowledge.QaState.{
  Route, AgentState, QueryExactIdentifier, IdentifierResolution, RetrievalPlan, RetrievalGrade,
  query_analysis, project_selection, project_access_scope, retrieval_plan, retrieval_grade,
}
use it_outsourcing_knowledge.QaRecords.{
  QaDb, load_query, save_artifact, load_artifact, as_analysis, as_scope, as_plan,
  record_prompt_snapshot, record_llm_usage, increment_retrieval_rounds,
}
use it_outsourcing_knowledge.QaStore.{
  save_evidence_bundle, load_evidence_bundle, save_governed_evidence_bundle,
}
use it_outsourcing_knowledge.QaNodes.{
  QaServices, QaContext, check_grade, is_project_code, query_codes, select_project,
}

-- `UUID(state[key])`, where a missing key raises.
abbrev pub need : Option ℕ → Exec QaDb ℕ
need id = or_raise id lookup_error

-- A part of `ExactIdentifierResolver.resolve`: the versions of an identifier that are allowed.
unfoldable pub distinct_numbers : List ℕ → List ℕ
distinct_numbers [] = []
distinct_numbers (x ∷ xs) = let rest = distinct_numbers xs in if mem x xs then rest else x ∷ rest

abbrev pub text_order : UuidCodec → ℕ → ℕ → Bool
text_order uuid a b = str_le (uuid.to_str a) (uuid.to_str b)

abbrev pub is_single : List ℕ → Bool
is_single (x ∷ []) = true
is_single _ = false

unfoldable pub resolution_of :
    UuidCodec → List ℕ → List ℕ → QueryExactIdentifier → IdentifierResolution
resolution_of uuid allowed hits i =
    let authorized = sort (text_order uuid) (distinct_numbers (select (λ v. mem v allowed) hits)) in
    record {
      identifier_type = i.identifier_type;
      raw_value = i.raw_value;
      normalized_value = i.normalized_value;
      authorized_document_version_ids = authorized;
      unique_authorized_hit = is_single authorized;
    }

abbrev pub unique_versions : List IdentifierResolution → List ℕ
unique_versions [] = []
unique_versions (r ∷ rs) = elim r.authorized_document_version_ids [
  | [] ↦ unique_versions rs
  | v ∷ vs ↦ if is_nil vs then v ∷ unique_versions rs else unique_versions rs
]

abbrev pub refused : AgentState → String → AgentState
refused state code = record state { route = some Route.refusal; last_error_code = some code }

module _ (uuid : UuidCodec) (services : QaServices) (context : QaContext) where
  unfoldable pub resolve_exact : ℕ → List ℕ → List QueryExactIdentifier → List IdentifierResolution
  resolve_exact project allowed identifiers =
      map
        (λ i.
          resolution_of uuid allowed
            (services.find_exact project i.identifier_type i.normalized_value) i)
        (select (λ i. not (is_project_code i)) identifiers)

  unfoldable pub load_prompt_snapshot_node : AgentState → Exec QaDb AgentState
  load_prompt_snapshot_node state = do
    snapshot ← lift services.get_snapshot
    id ← record_prompt_snapshot state.run_id context.model_alias snapshot
    pure (record state { prompt_snapshot_id = some id })

  -- With `QueryAnalysisService.analyze`.
  unfoldable pub analyze_query_node : AgentState → Exec QaDb AgentState
  analyze_query_node state = do
    query ← load_query state.run_id
    raise_if (is_blank query) value_error
    id ← save_artifact state.run_id (
        query_analysis (record {
          original_query = query;
          standalone_query = strip query;
          exact_identifiers = services.extract (strip query);
        }))
    pure (record state { query_analysis_id = some id; route = some Route.project_knowledge_qa })

  unfoldable pub select_project_node : AgentState → Exec QaDb AgentState
  select_project_node state = do
    analysis_id ← need state.query_analysis_id
    artifact ← load_artifact analysis_id
    analysis ← lift (as_analysis artifact)
    memberships ← gets (λ db. list_active_memberships_for_user db.access state.user_id context.now)
    let selected = select_project memberships (query_codes analysis) state.project_id
    id ← save_artifact state.run_id (project_selection selected)
    pure (record state {
      project_id = selected.selected_project_id;
      project_selection_id = some id;
      route = some selected.route;
      last_error_code = selected.error_code;
    })

  unfoldable pub resolve_scope_node : AgentState → Exec QaDb AgentState
  resolve_scope_node state = do
    project ← or_raise state.project_id value_error
    access ← gets (λ db. db.access)
    scope ← lift (authorize_project uuid context.now state.user_id project access)
    id ← save_artifact state.run_id (project_access_scope scope)
    pure (record state { access_scope_id = some id })

  unfoldable pub resolve_identifiers_node : AgentState → Exec QaDb AgentState
  resolve_identifiers_node state = do
    analysis_id ← need state.query_analysis_id
    artifact ← load_artifact analysis_id
    analysis ← lift (as_analysis artifact)
    scope_id ← need state.access_scope_id
    scope_artifact ← load_artifact scope_id
    scope ← lift (as_scope scope_artifact)
    project ← need state.project_id
    let resolutions =
        resolve_exact project scope.scope.allowed_document_version_ids analysis.exact_identifiers
    id ← save_artifact state.run_id (
        retrieval_plan (record {
          original_query = analysis.original_query;
          standalone_query = analysis.standalone_query;
          exact_identifiers = map (λ i. i.raw_value) analysis.exact_identifiers;
          identifier_resolutions = resolutions;
          constrained_document_version_ids =
              sort (text_order uuid) (distinct_numbers (unique_versions resolutions));
          allowed_categories = scope.scope.allowed_document_categories;
          allow_second_round = context.allow_second_round;
        }))
    pure (record state { retrieval_plan_id = some id })

  -- What `retrieve_node` does with the constrained request.
  unfoldable pub retrieve_constrained :
      AgentState
      → RetrievalPlan
      → AuthorizedProjectContext
      → Option KnowledgeRetrievalRequest
      → Exec QaDb AgentState
  retrieve_constrained state plan scope none = do
    project ← need state.project_id
    id ←
        save_evidence_bundle uuid state.run_id project plan.original_query []
          (suc state.retrieval_round)
    pure (record (refused state "NO_AUTHORIZED_EVIDENCE") { evidence_bundle_id = some id })
  retrieve_constrained state plan scope (some request) = do
    increment_retrieval_rounds state.run_id
    found ← lift (services.retrieve_chunks state.retrieval_round request)
    project ← need state.project_id
    id ←
        save_evidence_bundle uuid state.run_id project plan.original_query
          (postfilter_evidence uuid found scope) (suc state.retrieval_round)
    pure (record state {
      evidence_bundle_id = some id;
      retrieval_round = suc state.retrieval_round;
      route = some Route.grade_retrieval;
      last_error_code = none;
    })

  unfoldable pub retrieve_in_round : AgentState → Exec QaDb AgentState
  retrieve_in_round state = do
    scope_id ← need state.access_scope_id
    scope_artifact ← load_artifact scope_id
    scope ← lift (as_scope scope_artifact)
    plan_id ← need state.retrieval_plan_id
    plan_artifact ← load_artifact plan_id
    plan ← lift (as_plan plan_artifact)
    constrained ← lift (
        constrain_retrieval uuid
          (record {
            project_id = scope.project_code;
            query = plan.standalone_query;
            limit = 10;
            document_version_ids = map uuid.to_str plan.constrained_document_version_ids;
            knowledge_space_ids = [];
          })
          scope)
    retrieve_constrained state plan scope constrained

  unfoldable pub retrieve_node : AgentState → Exec QaDb AgentState
  retrieve_node state =
      if leb 2 state.retrieval_round
      then pure (refused state "RETRIEVAL_ROUND_LIMIT")
      else retrieve_in_round state

  -- The branches of `grade_retrieval_node` on a grade.
  unfoldable pub after_grade :
      AgentState → RetrievalPlan → RetrievalGrade → ℕ → Exec QaDb AgentState
  after_grade state plan grade id =
      let graded : AgentState = record state { retrieval_grade_id = some id } in
      if grade.adequate
      then pure (record graded { route = some Route.govern_evidence; last_error_code = none })
      else if grade.second_round_justified
          && (ltb state.retrieval_round 2
              && (plan.allow_second_round && is_some grade.refined_query))
      then (do
        plan_id ← save_artifact state.run_id (
            retrieval_plan
              (record plan { standalone_query = strip (get_or grade.refined_query "") }))
        pure (record graded {
          retrieval_plan_id = some plan_id;
          route = some Route.retrieve_again;
          last_error_code = none;
        }))
      else pure (refused graded "INSUFFICIENT_EVIDENCE")

  unfoldable pub grade_retrieval_node : AgentState → Exec QaDb AgentState
  grade_retrieval_node state = do
    plan_id ← need state.retrieval_plan_id
    plan_artifact ← load_artifact plan_id
    plan ← lift (as_plan plan_artifact)
    bundle_id ← need state.evidence_bundle_id
    chunks ← load_evidence_bundle bundle_id
    query ← load_query state.run_id
    answered ← lift (services.grade state.run_id state.retrieval_round query plan chunks)
    grade ← lift (check_grade answered.0)
    record_llm_usage state.run_id answered.1.0 answered.1.1
    id ← save_artifact state.run_id (retrieval_grade grade)
    after_grade state plan grade id

  abbrev pub govern_pack : AgentState → ℕ → String → GovernedEvidencePack → Exec QaDb AgentState
  govern_pack state project query packed =
      if is_nil packed.evidence then pure (refused state "NO_GOVERNED_EVIDENCE") else (do
        id ← save_governed_evidence_bundle state.run_id project query packed
        pure (record state {
          evidence_bundle_id = some id;
          route = some Route.generate_answer;
          last_error_code = none;
        }))

  unfoldable pub govern_evidence_node : AgentState → Exec QaDb AgentState
  govern_evidence_node state = do
    project ← need state.project_id
    bundle_id ← need state.evidence_bundle_id
    scope_id ← need state.access_scope_id
    scope_artifact ← load_artifact scope_id
    scope ← lift (as_scope scope_artifact)
    query ← load_query state.run_id
    chunks ← load_evidence_bundle bundle_id
    docs ← gets (λ db. db.access.docs)
    packed ←
        lift (pack uuid docs context.max_evidence context.today project scope.project_code chunks)
    govern_pack state project query packed
