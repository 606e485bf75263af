-- ===== src/QaGraph.antt =====
-- agent/graph.py: the graph that answers a question, with its conditional edges.
mod Rounds
mod Termination
mod Saved
mod Guarded
mod Answered
mod Tests
use it_outsourcing_knowledge.Base.{ℕ, zero, suc, Option, none, some}
use it_outsourcing_knowledge.Base.Exec.{Exec, pure, ◌>>=◌}
use it_outsourcing_knowledge.Base.Uuid.{UuidCodec}
use it_outsourcing_knowledge.QaState.{Route, AgentState}
use it_outsourcing_knowledge.QaRecords.{QaDb}
use it_outsourcing_knowledge.QaNodes.{QaServices, QaContext}
use it_outsourcing_knowledge.QaRetrieval.{
  load_prompt_snapshot_node, analyze_query_node, select_project_node, resolve_scope_node,
  resolve_identifiers_node, retrieve_node, grade_retrieval_node, govern_evidence_node,
}
use it_outsourcing_knowledge.QaAnswering.{
  generate_answer_node, citation_guard_node, revise_answer_node, refuse_node, clarify_project_node,
}

pub data QaNode : Type 0 where
  load_prompt analyze_query select_project resolve_scope resolve_identifiers retrieve
        grade_retrieval :
      QaNode
  govern_evidence generate_answer citation_guard revise_answer refuse clarify_project : QaNode

abbrev pub after_project_selection : Option Route → QaNode
after_project_selection (some Route.clarification) = clarify_project
after_project_selection (some Route.refusal) = refuse
after_project_selection _ = resolve_scope

abbrev pub after_retrieval : Option Route → QaNode
after_retrieval (some Route.grade_retrieval) = grade_retrieval
after_retrieval _ = refuse

abbrev pub after_retrieval_grade : Option Route → QaNode
after_retrieval_grade (some Route.govern_evidence) = govern_evidence
after_retrieval_grade (some Route.retrieve_again) = retrieve
after_retrieval_grade _ = refuse

abbrev pub after_governance : Option Route → QaNode
after_governance (some Route.generate_answer) = generate_answer
after_governance _ = refuse

abbrev pub after_citation_guard : Option Route → Option QaNode
after_citation_guard (some Route.answered) = none
after_citation_guard (some Route.revise_answer) = some revise_answer
after_citation_guard _ = some refuse

-- The edges; there is none from a node that ends the graph.
unfoldable pub next_node : QaNode → AgentState → Option QaNode
next_node load_prompt state = some analyze_query
next_node analyze_query state = some select_project
next_node select_project state = some (after_project_selection state.route)
next_node resolve_scope state = some resolve_identifiers
next_node resolve_identifiers state = some retrieve
next_node retrieve state = some (after_retrieval state.route)
next_node grade_retrieval state = some (after_retrieval_grade state.route)
next_node govern_evidence state = some (after_governance state.route)
next_node generate_answer state = some citation_guard
next_node citation_guard state = after_citation_guard state.route
next_node revise_answer state = some citation_guard
next_node refuse state = none
next_node clarify_project state = none

module _ (uuid : UuidCodec) (services : QaServices) (context : QaContext) where
  unfoldable pub run_node : QaNode → AgentState → Exec QaDb AgentState
  run_node load_prompt = load_prompt_snapshot_node uuid services context
  run_node analyze_query = analyze_query_node uuid services context
  run_node select_project = select_project_node uuid services context
  run_node resolve_scope = resolve_scope_node uuid services context
  run_node resolve_identifiers = resolve_identifiers_node uuid services context
  run_node retrieve = retrieve_node uuid services context
  run_node grade_retrieval = grade_retrieval_node uuid services context
  run_node govern_evidence = govern_evidence_node uuid services context
  run_node generate_answer = generate_answer_node uuid services context
  run_node citation_guard = citation_guard_node uuid services context
  run_node revise_answer = revise_answer_node uuid services context
  run_node refuse = refuse_node uuid services context
  run_node clarify_project = clarify_project_node uuid services context

  -- The graph from a node, for at most so many nodes; `none` means that they were not enough.
  unfoldable pub run_graph : ℕ → QaNode → AgentState → Exec QaDb (Option AgentState)
  run_graph zero node state = pure none
  run_graph (suc f) node state = do
    after ← run_node node state
    elim (next_node node after) [ none ↦ pure (some after) | some next ↦ run_graph f next after ]
