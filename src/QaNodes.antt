-- ===== src/QaNodes.antt =====
-- agent/nodes: the nodes of the answering graph. A node returns the state with its update merged
-- in, as LangGraph does. The model, the knowledge service, the identifier registry and extractor
-- and the prompt configuration are parameters (QaServices), with no law.
use it_outsourcing_knowledge.Base.{
  ℕ, String, Bool, true, false, not, ◌&&◌, Option, none, some, List, [], ◌∷◌, map, str_eq, ◌==◌,
  if◌then◌else◌, is_some, is_none, is_nil, select,
}
use Prim.Native.String.{◌++◌}
use it_outsourcing_knowledge.Base.Decimal.{read_decimal}
use it_outsourcing_knowledge.Base.Exec.{lookup_error, value_error, Result, ok, err}
use it_outsourcing_knowledge.Base.Sort.{sort}
use it_outsourcing_knowledge.Base.Text.{strip, rstrip, str_le, is_empty}
use it_outsourcing_knowledge.Access.{MembershipAccessRecord, dedupe}
use it_outsourcing_knowledge.Citations.{
  GroundedAnswerDraft, GroundedAnswerClaim, ConflictDisclosure, CitationError,
}
use it_outsourcing_knowledge.Governance.{GovernedEvidence}
use it_outsourcing_knowledge.Knowledge.{KnowledgeChunk, KnowledgeRetrievalRequest}
use it_outsourcing_knowledge.QaState.{
  Route, IdentifierType, QueryExactIdentifier, QueryAnalysis, ProjectSelection, RetrievalPlan,
  RetrievalGradeReason, adequate_reason, RetrievalGrade, PromptSnapshot,
}
use it_outsourcing_knowledge.QaRecords.{CitationReference}
use it_outsourcing_knowledge.QaStore.{LoadedBundle}

-- A call of the model answers with a value and its token usage. What its prompt is built from is
-- given to it; the prompt's text is left out.
pub record QaServices : Type 0 where
  pub get_snapshot : Result PromptSnapshot
  pub extract : String → List QueryExactIdentifier
  pub find_exact : ℕ → IdentifierType → String → List ℕ
  pub retrieve_chunks : ℕ → KnowledgeRetrievalRequest → Result (List KnowledgeChunk)
  pub grade :
      ℕ → ℕ → String → RetrievalPlan → List KnowledgeChunk → Result (RetrievalGrade × (ℕ × ℕ))
  pub answer :
      ℕ
      → ℕ
      → String
      → String
      → LoadedBundle
      → List CitationError
      → Result (GroundedAnswerDraft × (ℕ × ℕ))

-- The settings of the graph, and the time and the date of the run.
pub record QaContext : Type 0 where
  pub model_alias : String
  pub allow_second_round : Bool
  pub max_evidence : ℕ
  pub now : ℕ
  pub today : ℕ

-- `RetrievalGrade.validate_consistent_shape`
abbrev is_adequate_reason : RetrievalGradeReason → Bool
is_adequate_reason adequate_reason = true
is_adequate_reason _ = false

abbrev refined_text : Option String → String
refined_text none = ""
refined_text (some s) = strip s

unfoldable pub is_consistent : RetrievalGrade → Bool
is_consistent g =
    if g.adequate
    then is_adequate_reason g.reason && (not g.second_round_justified && is_none g.refined_query)
    else not (is_adequate_reason g.reason)
      && (if g.second_round_justified
          then not (is_empty (refined_text g.refined_query))
          else is_none g.refined_query)

unfoldable pub check_grade : RetrievalGrade → Result RetrievalGrade
check_grade g = if is_consistent g then ok g else err value_error

-- `_StructuredGroundedAnswerDraft`: at least one claim, and texts and evidence in each part.
unfoldable pub claims_complete : List GroundedAnswerClaim → Bool
claims_complete [] = true
claims_complete (c ∷ cs) =
    not (is_empty c.claim_text) && (not (is_nil c.evidence_ids) && claims_complete cs)

abbrev disclosure_complete : Option ConflictDisclosure → Bool
disclosure_complete none = true
disclosure_complete (some d) = not (is_empty d.disclosure_text) && not (is_nil d.evidence_ids)

unfoldable pub check_draft : GroundedAnswerDraft → Result GroundedAnswerDraft
check_draft d =
    if not (is_nil d.claims)
      && (claims_complete d.claims && disclosure_complete d.conflict_disclosure)
    then ok d
    else err value_error

-- `_render_answer`
unfoldable pub label_suffix : List String → String
label_suffix [] = ""
label_suffix (l ∷ ls) = "[" ++ (l ++ ("]" ++ label_suffix ls))

unfoldable pub claim_line : String → List String → String
claim_line claim_text labels = rstrip (claim_text ++ (" " ++ label_suffix labels))

abbrev disclosure_lines : Option ConflictDisclosure → List String
disclosure_lines none = []
disclosure_lines (some d) = claim_line ("冲突说明：" ++ d.disclosure_text) d.evidence_ids ∷ []

unfoldable pub answer_lines : List GroundedAnswerClaim → Option ConflictDisclosure → List String
answer_lines [] d = disclosure_lines d
answer_lines (c ∷ cs) d = claim_line c.claim_text c.evidence_ids ∷ answer_lines cs d

unfoldable pub join_lines : List String → String
join_lines [] = ""
join_lines (x ∷ []) = x
join_lines (x ∷ y ∷ ys) = x ++ ("\n" ++ join_lines (y ∷ ys))

unfoldable pub render_answer : GroundedAnswerDraft → String
render_answer d = join_lines (answer_lines d.claims d.conflict_disclosure)

-- `int(label[1:])`, for the labels that `labelled` gives: one letter and digits.
unfoldable pub label_number : String → Option ℕ
label_number String.[] = none
label_number (String.◌∷◌ c s) = read_decimal s

-- `evidence_by_label[label].snapshot_id`
unfoldable pub snapshot_of : String → List (ℕ × GovernedEvidence) → Option ℕ
snapshot_of label [] = none
snapshot_of label ((id, e) ∷ items) =
    let rest = snapshot_of label items in
    if is_some rest then rest else if str_eq e.label label then some id else none

unfoldable pub references_for :
    List String → List (ℕ × GovernedEvidence) → Result (List CitationReference)
references_for [] items = ok []
references_for (l ∷ ls) items =
    let rest = references_for ls items in
    elim (label_number l) [
      | none ↦ err value_error
      | some n ↦ elim (snapshot_of l items) [
        | none ↦ err lookup_error
        | some id ↦ elim rest [
          | err e ↦ err e
          | ok done ↦ ok (record { reference_no = n; snapshot_id = id } ∷ done)
        ]
      ]
    ]

-- `analysis.project_codes`, each once.
abbrev pub is_project_code : QueryExactIdentifier → Bool
is_project_code i = elim i.identifier_type [ IdentifierType.project_code ↦ true | _ ↦ false ]

unfoldable pub distinct_texts : List String → List String
distinct_texts [] = []
distinct_texts (x ∷ xs) = x ∷ select (λ y. not (str_eq y x)) (distinct_texts xs)

unfoldable pub query_codes : QueryAnalysis → List String
query_codes a =
    distinct_texts (map (λ i. i.normalized_value) (select is_project_code a.exact_identifiers))

-- `by_id.get(project)` and `by_code.get(code)`: the last one, if there are several.
unfoldable pub last_membership :
    (MembershipAccessRecord → Bool) → List MembershipAccessRecord → Option MembershipAccessRecord
last_membership p [] = none
last_membership p (m ∷ ms) =
    let rest = last_membership p ms in if is_some rest then rest else if p m then some m else none

abbrev pub selection : Option ℕ → List String → Route → Option String → ProjectSelection
selection project codes route error = record {
  selected_project_id = project;
  candidate_project_codes = codes;
  route = route;
  error_code = error;
}

-- Is the list of codes that one code, or empty?
abbrev pub only_code : String → List String → Bool
only_code code [] = true
only_code code (c ∷ []) = str_eq c code
only_code code (c ∷ d ∷ cs) = false

-- `ProjectSelectionService.select`, for a project that is requested.
abbrev pub select_requested :
    ℕ → List String → List String → Option MembershipAccessRecord → ProjectSelection
select_requested project codes query none =
    selection none codes Route.refusal (some "PROJECT_ACCESS_DENIED")
select_requested project codes query (some m) =
    if only_code m.project_code query
    then selection (some project) codes Route.project_knowledge_qa none
    else selection none codes Route.clarification (some "PROJECT_MISMATCH")

abbrev pub select_by_code : List String → Option MembershipAccessRecord → ProjectSelection
select_by_code codes none = selection none codes Route.refusal (some "PROJECT_ACCESS_DENIED")
select_by_code codes (some m) = selection (some m.project_id) codes Route.project_knowledge_qa none

abbrev pub select_only : List String → List MembershipAccessRecord → ProjectSelection
select_only codes [] = selection none [] Route.refusal (some "NO_AUTHORIZED_PROJECT")
select_only codes (m ∷ []) = selection (some m.project_id) codes Route.project_knowledge_qa none
select_only codes (m ∷ n ∷ ms) = selection none codes Route.clarification (some "PROJECT_REQUIRED")

abbrev pub select_unrequested :
    List String → List String → List MembershipAccessRecord → ProjectSelection
select_unrequested codes [] memberships = select_only codes memberships
select_unrequested codes (c ∷ []) memberships =
    select_by_code codes (last_membership (λ m. str_eq m.project_code c) memberships)
select_unrequested codes (c ∷ d ∷ cs) memberships =
    selection none codes Route.clarification (some "AMBIGUOUS_PROJECT")

unfoldable pub select_project :
    List MembershipAccessRecord → List String → Option ℕ → ProjectSelection
select_project memberships query (some project) =
    select_requested project (sort str_le (dedupe (map (λ m. m.project_code) memberships))) query
      (last_membership (λ m. m.project_id == project) memberships)
select_project memberships query none =
    select_unrequested (sort str_le (dedupe (map (λ m. m.project_code) memberships))) query
      memberships
