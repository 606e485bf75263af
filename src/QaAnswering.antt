-- ===== src/QaAnswering.antt =====
-- agent/nodes: from the governed evidence to an answer, a refusal or a question back.
use it_outsourcing_knowledge.Base.{
  ℕ, suc, String, ◌||◌, none, some, List, [], ◌∷◌, str_eq, ltb, leb, if◌then◌else◌, is_nil, get_or,
}
use Prim.Native.String.{◌++◌}
use it_outsourcing_knowledge.Base.Exec.{value_error, Exec, pure, lift, raise_if, ◌>>=◌, ◌>>◌}
use it_outsourcing_knowledge.Base.Uuid.{UuidCodec}
use it_outsourcing_knowledge.Citations.{
  GroundedAnswerDraft, CitationError, CitationValidationResult, validate,
}
use it_outsourcing_knowledge.QaState.{Route, AgentState, answer_draft, citation_result, Artifact}
use it_outsourcing_knowledge.QaRecords.{
  QaDb, load_query, save_artifact, load_artifact, as_draft, as_prompt, codes_of, record_llm_usage,
}
use it_outsourcing_knowledge.QaStore.{
  LoadedBundle, load_governed_evidence_bundle, save_answer, save_grounded_answer,
}
use it_outsourcing_knowledge.QaRetrieval.{need, refused}
use it_outsourcing_knowledge.QaNodes.{
  QaServices, QaContext, check_draft, render_answer, references_for,
}

-- `guard_payload.get("errors", [])`
abbrev pub errors_of : Artifact → List CitationError
errors_of (citation_result r) = r.errors
errors_of _ = []

abbrev pub refusal_text : String → String
refusal_text reason =
    if str_eq reason "PROJECT_ACCESS_DENIED" || str_eq reason "NO_AUTHORIZED_PROJECT"
    then "当前身份没有该项目的有效访问权限。"
    else "没有找到足够的已授权证据，无法可靠回答。"

abbrev pub join_codes : List String → String
join_codes [] = ""
join_codes (x ∷ []) = x
join_codes (x ∷ y ∷ ys) = x ++ (", " ++ join_codes (y ∷ ys))

abbrev pub codes_suffix : List String → String
codes_suffix [] = ""
codes_suffix (x ∷ xs) = "可访问项目：" ++ (join_codes (x ∷ xs) ++ "。")

module _ (uuid : UuidCodec) (services : QaServices) (context : QaContext) where
  -- `_generate_draft`
  unfoldable pub generate_draft : AgentState → ℕ → List CitationError → Exec QaDb ℕ
  generate_draft state revision errors = do
    query ← load_query state.run_id
    prompt_id ← need state.prompt_snapshot_id
    prompt_artifact ← load_artifact prompt_id
    prompt ← lift (as_prompt prompt_artifact)
    bundle_id ← need state.evidence_bundle_id
    bundle ← load_governed_evidence_bundle bundle_id
    raise_if (is_nil bundle.items) value_error
    written ← lift (services.answer state.run_id revision prompt.content query bundle errors)
    draft ← lift (check_draft written.0)
    record_llm_usage state.run_id written.1.0 written.1.1
    save_artifact state.run_id (answer_draft draft)

  unfoldable pub generate_answer_node : AgentState → Exec QaDb AgentState
  generate_answer_node state = do
    id ← generate_draft state state.revision_count []
    pure (record state {
      answer_draft_id = some id;
      route = some Route.citation_guard;
      last_error_code = none;
    })

  -- The branches of `citation_guard_node` on the guard's result.
  unfoldable pub after_guard :
      AgentState
      → GroundedAnswerDraft
      → LoadedBundle
      → CitationValidationResult
      → ℕ
      → Exec QaDb AgentState
  after_guard state draft bundle result id =
      let guarded : AgentState = record state { citation_guard_id = some id } in
      if result.valid
      then (do
        references ← lift (references_for result.used_evidence_ids bundle.items)
        answer ← save_grounded_answer state.run_id (render_answer draft) references
        pure (record guarded {
          answer_id = some answer;
          route = some Route.answered;
          last_error_code = none;
        }))
      else if ltb state.revision_count 1
      then pure (record guarded {
        route = some Route.revise_answer;
        last_error_code = some "CITATION_GUARD_RETRY";
      })
      else pure (refused guarded "CITATION_GUARD_FAILED")

  unfoldable pub citation_guard_node : AgentState → Exec QaDb AgentState
  citation_guard_node state = do
    project ← need state.project_id
    draft_id ← need state.answer_draft_id
    artifact ← load_artifact draft_id
    draft ← lift (as_draft artifact)
    bundle_id ← need state.evidence_bundle_id
    bundle ← load_governed_evidence_bundle bundle_id
    let result = validate draft bundle.frozen project
    id ← save_artifact state.run_id (citation_result result)
    after_guard state draft bundle result id

  unfoldable pub revise_once : AgentState → Exec QaDb AgentState
  revise_once state = do
    guard_id ← need state.citation_guard_id
    payload ← load_artifact guard_id
    id ← generate_draft state (suc state.revision_count) (errors_of payload)
    pure (record state {
      answer_draft_id = some id;
      revision_count = suc state.revision_count;
      route = some Route.citation_guard;
      last_error_code = none;
    })

  unfoldable pub revise_answer_node : AgentState → Exec QaDb AgentState
  revise_answer_node state =
      if leb 1 state.revision_count
      then pure (refused state "CITATION_GUARD_FAILED")
      else revise_once state

  unfoldable pub refuse_node : AgentState → Exec QaDb AgentState
  refuse_node state = do
    let reason = get_or state.last_error_code "REFUSED"
    id ← save_answer state.run_id (refusal_text reason) (some reason)
    pure (record state { answer_id = some id; route = some Route.refusal })

  unfoldable pub clarify_project_node : AgentState → Exec QaDb AgentState
  clarify_project_node state = do
    selection_id ← need state.project_selection_id
    artifact ← load_artifact selection_id
    id ←
        save_answer state.run_id ("请明确这次问题属于哪个项目。" ++ codes_suffix (codes_of artifact))
          (some "PROJECT_CLARIFICATION_REQUIRED")
    pure (record state { answer_id = some id; route = some Route.clarification })
