-- ===== src/QaGraph/Tests.antt =====
-- A question on a project with one published document, from the prompt to the answer.
use it_outsourcing_knowledge.Base.{
  ◌*◌, ℕ, ◌≡◌, refl, true, false, Option, none, some, [], ◌∷◌, arith,
}
use it_outsourcing_knowledge.Base.Decimal.{decimal, read_decimal, read_digits}
use it_outsourcing_knowledge.Base.Exec.{Result, ok}
use it_outsourcing_knowledge.Base.Int.{pos}
use it_outsourcing_knowledge.Base.Sort.{sort, insert}
use it_outsourcing_knowledge.Base.Table.{find, put, add}
use it_outsourcing_knowledge.Base.Text.{strip, rstrip, str_le}
use it_outsourcing_knowledge.Documents.{published}
use it_outsourcing_knowledge.Access.{
  developer, active, AccessStore, authorize_project, context_of, get_active_membership,
  first_membership, is_active_membership, joined, to_access, active_rows,
  list_active_memberships_for_user, list_published_document_access, published_rows, newest_first,
  first_of_each, list_active_knowledge_space_ids, dedupe,
}
use it_outsourcing_knowledge.AccessPolicy.{
  allowed_versions, constrained_to, constrain_retrieval, is_authorized, postfilter_evidence,
}
use it_outsourcing_knowledge.Citations.{
  validate, all_errors, duplicate_errors, count_label, claims_errors, claim_errors, labels_errors,
  item_errors, evidence_by_label, disclosures_errors, conflict_errors, is_subset, count_covered,
  distinct_errors, use_claims, use_labels,
}
use it_outsourcing_knowledge.EvidenceMetadata.{
  authority_of, current_version, to_metadata, joined_row, get_document_evidence_metadata,
  metadata_for,
}
use it_outsourcing_knowledge.Governance.{
  get_nonempty, is_admissible, parsed_chunks, distinct_ids, to_evidence, was_seen, candidates_of,
  has_claim, in_group, group_keys, one_value, best_rank, resolve_group, resolve_groups,
  resolve_explicit_conflicts, stronger_first, is_protected, select_evidence, labelled, in_conflict,
  conflict_keys, conflicts_for, pack_candidates, pack,
}
use it_outsourcing_knowledge.Knowledge.{KnowledgeChunk}
use it_outsourcing_knowledge.QaState.{Route, AgentState, adequate_reason}
use it_outsourcing_knowledge.QaRecords.{
  QaDb, QaRun, get_run, load_query, save_artifact, load_artifact, as_analysis, as_scope, as_plan,
  as_draft, as_prompt, record_prompt_snapshot, record_llm_usage, increment_retrieval_rounds,
}
use it_outsourcing_knowledge.QaStore.{
  store_score, round_to, micro, stored_chunk, store_chunks, save_evidence_bundle,
  load_evidence_bundle, store_items, save_governed_evidence_bundle, open_keys, open_conflicts,
  frozen_bundle, load_governed_evidence_bundle, answer_of, save_answer, unique_references,
  save_grounded_answer,
}
use it_outsourcing_knowledge.QaNodes.{
  QaServices, QaContext, is_consistent, check_grade, claims_complete, check_draft, label_suffix,
  claim_line, answer_lines, join_lines, render_answer, label_number, snapshot_of, references_for,
  distinct_texts, query_codes, last_membership, select_project,
}
use it_outsourcing_knowledge.QaRetrieval.{
  distinct_numbers, resolution_of, resolve_exact, load_prompt_snapshot_node, analyze_query_node,
  select_project_node, resolve_scope_node, resolve_identifiers_node, retrieve_constrained,
  retrieve_in_round, retrieve_node, after_grade, grade_retrieval_node, govern_evidence_node,
}
use it_outsourcing_knowledge.QaAnswering.{
  generate_draft, generate_answer_node, after_guard, citation_guard_node,
}
use it_outsourcing_knowledge.QaGraph.{load_prompt, next_node, run_node, run_graph}
use it_outsourcing_knowledge.QaGraph.Termination.{fifteen_nodes}
use it_outsourcing_knowledge.Citations.Grounded.{IsGrounded}
use it_outsourcing_knowledge.Citations.{GroundedAnswerDraft}
use it_outsourcing_knowledge.QaStore.{LoadedBundle}
use it_outsourcing_knowledge.QaGraph.Guarded.{IsAnswered}
use it_outsourcing_knowledge.QaGraph.Answered.{answer_IsAnswered, answer_IsGrounded}
use it_outsourcing_knowledge.Samples.{strokes}

abbrev store : AccessStore
store = record {
  projects =
      (7, record { company_id = 1; client_id = 2; code = "P"; lifecycle_status = active }) ∷ [];
  memberships =
      record { project_id = 7; user_id = 5; role = developer; valid_from = 0; valid_to = none }
      ∷ [];
  spaces =
      record { project_id = 7; provider = "ragflow"; external_space_id = "kb"; status = "active" }
      ∷ [];
  docs = record {
    documents =
        (
          1,
          record {
            company_id = 1;
            project_id = 7;
            document_category = "release_runbook";
            title = "Runbook";
            owner_user_id = none;
          },
        )
        ∷ [];
    versions =
        (
          4,
          record {
            document_id = 1;
            version_no = 1;
            version_label = "v1";
            authority_level = "release_runbook";
            lifecycle_status = published;
            effective_from = none;
            effective_to = none;
            supersedes_version_id = none;
            source_uri = none;
            content_hash = none;
            published_at = none;
            created_by = 5;
          },
        )
        ∷ [];
  };
}

abbrev chunk : KnowledgeChunk
chunk = record {
  project_id = "P";
  document_version_id = "IIII";
  content = "Wait ten minutes.";
  score = pos (910000 * micro);
  knowledge_space_id = some "kb";
  provider_ref = none;
  page_no = none;
  section = none;
  metadata = [];
}

abbrev services : QaServices
services = record {
  get_snapshot =
      ok (record { config_key = "qa"; content = "Answer."; version = 3; content_hash = "h" });
  extract = λ query. [];
  find_exact = λ project type value. [];
  retrieve_chunks = λ round request. ok (chunk ∷ []);
  grade = λ run round query plan chunks. ok (
    record {
      adequate = true;
      reason = adequate_reason;
      second_round_justified = false;
      refined_query = none;
    },
    (10, 2),
  );
  answer = λ run revision prompt query bundle errors. ok (
    record {
      claims = record { claim_text = "Ten minutes."; evidence_ids = "E1" ∷ [] } ∷ [];
      conflict_disclosure = none;
    },
    (20, 5),
  );
}

abbrev context : QaContext
context = record {
  model_alias = "m";
  allow_second_round = true;
  max_evidence = 8;
  now = 20;
  today = 100;
}

abbrev state : AgentState
state = record {
  run_id = 2;
  user_id = 5;
  project_id = none;
  prompt_snapshot_id = none;
  query_analysis_id = none;
  project_selection_id = none;
  access_scope_id = none;
  retrieval_plan_id = none;
  retrieval_grade_id = none;
  retrieval_round = 0;
  evidence_bundle_id = none;
  answer_draft_id = none;
  citation_guard_id = none;
  answer_id = none;
  revision_count = 0;
  route = none;
  last_error_code = none;
}

abbrev question : QaRun
question = record {
  query_text = some "How long?";
  model_alias = none;
  prompt_version = none;
  prompt_content_hash = none;
  input_tokens = 0;
  output_tokens = 0;
  total_tokens = 0;
  retrieval_rounds = 0;
}

abbrev db : QaDb
db = record {
  next_id = 30;
  runs = (2, question) ∷ [];
  artifacts = [];
  numbers = [];
  bundles = [];
  answers = [];
  citations = [];
  access = store;
}

abbrev ended : Result (Option AgentState) × QaDb
ended = run_graph strokes services context 25 load_prompt state db

abbrev state_of : Result (Option AgentState) → AgentState
state_of (ok (some s)) = s
state_of _ = state

-- The whole graph, with what the question's run is answered.
question_answered :
    (ended ≡ (ok (some (state_of ended.0)), ended.1))
    × ((state_of ended.0).route ≡ some Route.answered)
    × (find 41 ended.1.answers
        ≡ some (record { run_id = 2; answer_text = "Ten minutes. [E1]"; refusal_reason = none }))
unfolding decimal read_decimal read_digits sort insert find put add strip rstrip str_le
    authorize_project context_of get_active_membership first_membership is_active_membership joined
    to_access active_rows list_active_memberships_for_user list_published_document_access
    published_rows newest_first first_of_each list_active_knowledge_space_ids dedupe
    allowed_versions constrained_to constrain_retrieval is_authorized postfilter_evidence validate
    all_errors duplicate_errors count_label claims_errors claim_errors labels_errors item_errors
    evidence_by_label disclosures_errors conflict_errors is_subset count_covered distinct_errors
    use_claims use_labels authority_of current_version to_metadata joined_row
    get_document_evidence_metadata metadata_for get_nonempty is_admissible parsed_chunks
    distinct_ids to_evidence was_seen candidates_of has_claim in_group group_keys one_value
    best_rank resolve_group resolve_groups resolve_explicit_conflicts stronger_first is_protected
    select_evidence labelled in_conflict conflict_keys conflicts_for pack_candidates pack get_run
    load_query save_artifact load_artifact as_analysis as_scope as_plan as_draft as_prompt
    record_prompt_snapshot record_llm_usage increment_retrieval_rounds stored_chunk store_score
    round_to store_chunks save_evidence_bundle load_evidence_bundle store_items
    save_governed_evidence_bundle open_keys open_conflicts frozen_bundle
    load_governed_evidence_bundle answer_of save_answer unique_references save_grounded_answer
    is_consistent check_grade claims_complete check_draft label_suffix claim_line answer_lines
    join_lines render_answer label_number snapshot_of references_for distinct_texts query_codes
    last_membership select_project distinct_numbers resolution_of resolve_exact
    load_prompt_snapshot_node analyze_query_node select_project_node resolve_scope_node
    resolve_identifiers_node retrieve_constrained retrieve_in_round retrieve_node after_grade
    grade_retrieval_node govern_evidence_node generate_draft generate_answer_node after_guard
    citation_guard_node next_node run_node run_graph
question_answered = (refl, refl, refl)

answer_IsAnswered_example : IsAnswered (state_of ended.0) ended.1
answer_IsAnswered_example =
    answer_IsAnswered strokes services context 25 load_prompt state db (state_of ended.0) ended.1
      question_answered.0 question_answered.1

answer_IsGrounded_example :
    (project bundle_id answer_id : ℕ) × (draft : GroundedAnswerDraft) × (bundle : LoadedBundle)
    × ((state_of ended.0).project_id ≡ some project)
    × ((state_of ended.0).evidence_bundle_id ≡ some bundle_id)
    × ((state_of ended.0).answer_id ≡ some answer_id)
    × (load_governed_evidence_bundle bundle_id ended.1 ≡ (ok bundle, ended.1))
    × (find answer_id ended.1.answers
        ≡ some (record {
          run_id = (state_of ended.0).run_id;
          answer_text = render_answer draft;
          refusal_reason = none;
        }))
    × IsGrounded draft bundle.frozen project
answer_IsGrounded_example =
    answer_IsGrounded strokes services context 25 load_prompt state db (state_of ended.0) ended.1
      question_answered.0 question_answered.1

fifteen_nodes_example :
    ¬ (run_graph strokes services context 25 load_prompt state db ≡ (ok none, db))
fifteen_nodes_example = fifteen_nodes strokes services context 25 state db db (omega arith)
