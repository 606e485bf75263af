-- ===== src/QaGraph/Answered.antt =====
-- What stands in the database when the graph ends with an answer.
use it_outsourcing_knowledge.Base.{
  ℕ, zero, suc, ◌≡◌, inl, inr, refl, sym, ap, ◌∙◌, none, some, Option-cases,
}
use it_outsourcing_knowledge.Base.Exec.{ok, outcome, bind_ok, pair_ok}
use it_outsourcing_knowledge.Base.Uuid.{UuidCodec}
use it_outsourcing_knowledge.QaState.{Route, AgentState}
use it_outsourcing_knowledge.QaRecords.{QaDb, load_artifact}
use it_outsourcing_knowledge.QaStore.{save_answer}
use it_outsourcing_knowledge.QaNodes.{QaServices, QaContext}
use it_outsourcing_knowledge.QaRetrieval.{need}
use it_outsourcing_knowledge.QaAnswering.{refuse_node, clarify_project_node}
use it_outsourcing_knowledge.QaGraph.{
  QaNode, citation_guard, refuse, clarify_project, next_node, run_node, run_graph,
}
use it_outsourcing_knowledge.QaGraph.Rounds.{pure_ok}
use it_outsourcing_knowledge.Citations.{GroundedAnswerDraft}
use it_outsourcing_knowledge.Citations.Grounded.{IsGrounded}
use it_outsourcing_knowledge.Citations.Complete.{valid_iff}
use it_outsourcing_knowledge.QaStore.{LoadedBundle, load_governed_evidence_bundle}
use it_outsourcing_knowledge.QaNodes.{render_answer}
use it_outsourcing_knowledge.Base.Table.{find}
use it_outsourcing_knowledge.QaGraph.Guarded.{IsAnswered, some_state, other_route, guard_answered}

module _ (uuid : UuidCodec) (services : QaServices) (context : QaContext) where
  refused_route :
      (s : AgentState) (db : QaDb) (out : AgentState) (t : QaDb)
      → refuse_node uuid services context s db ≡ (ok out, t)
      → out.route ≡ some Route.refusal
  unfolding refuse_node
  refused_route s db out t h =
      let (id, db1, a, h1) = bind_ok (save_answer s.run_id _ _) _ db out t h in
      pure_ok (λ o. o.route ≡ some Route.refusal) _ out db1 t refl h1

  clarified_route :
      (s : AgentState) (db : QaDb) (out : AgentState) (t : QaDb)
      → clarify_project_node uuid services context s db ≡ (ok out, t)
      → out.route ≡ some Route.clarification
  unfolding clarify_project_node
  clarified_route s db out t h =
      let (i, db1, a, h1) = bind_ok (need s.project_selection_id) _ db out t h in
      let (x, db2, b, h2) = bind_ok (load_artifact i) _ db1 out t h1 in
      let (id, db3, c, h3) = bind_ok (save_answer s.run_id _ _) _ db2 out t h2 in
      pure_ok (λ o. o.route ≡ some Route.clarification) _ out db3 t refl h3

  -- The node after which the graph ends.
  last_node :
      (n : QaNode) (s : AgentState) (db : QaDb) (out : AgentState) (t : QaDb)
      → run_node uuid services context n s db ≡ (ok out, t)
      → next_node n out ≡ none
      → out.route ≡ some Route.answered
      → IsAnswered out t
  unfolding run_node next_node
  last_node citation_guard s db out t h e final =
      guard_answered uuid services context s db out t h final
  last_node refuse s db out t h e final =
      cc (other_route _ _ (sym (refused_route s db out t h) ∙ final))
  last_node clarify_project s db out t h e final =
      cc (other_route _ _ (sym (clarified_route s db out t h) ∙ final))
  last_node n s db out t h e final = cc

  -- When the graph ends with the route of an answer, the database holds the draft of the state,
  -- the citation guard's result on that draft against the state's evidence bundle and project,
  -- which is valid, and the run's answer, which renders the draft and has no reason for a refusal;
  -- every label that the draft uses has a snapshot in the bundle.
  pub answer_IsAnswered :
      (f : ℕ) (n : QaNode) (s : AgentState) (db : QaDb) (out : AgentState) (t : QaDb)
      → run_graph uuid services context f n s db ≡ (ok (some out), t)
      → out.route ≡ some Route.answered
      → IsAnswered out t
  unfolding run_graph
  answer_IsAnswered zero n s db out t h final = cc (ap (λ p. p.0) h)
  answer_IsAnswered (suc f) n s db out t h final =
      let (after, u, ran, rest) =
        bind_ok (run_node uuid services context n s) _ db (some out) t h in
      elim (Option-cases (next_node n after)) [
        | inl done ↦
            let (same, last) = pair_ok (some after) (some out) u t (rw done at rest) in
            let e : after ≡ out = some_state after out same in
            last_node n s db out t
              (ran ∙ ap (λ a. outcome (ok a) u) e ∙ ap (λ d. outcome (ok out) d) last)
              (ap (λ a. next_node n a) (sym e) ∙ done) final
        | inr (m, e) ↦ answer_IsAnswered f m after u out t (rw e at rest) final
      ]

  -- When the graph ends with the route of an answer, the answer of the run renders a draft of which
  -- every claim cites something, and only evidence of the state's bundle that is of the state's
  -- project, published and current; the bundle's labels are distinct; and every contradiction that
  -- the bundle leaves open is disclosed with all the evidence that it requires.
  pub answer_IsGrounded :
      (f : ℕ) (n : QaNode) (s : AgentState) (db : QaDb) (out : AgentState) (t : QaDb)
      → run_graph uuid services context f n s db ≡ (ok (some out), t)
      → out.route ≡ some Route.answered
      → (project bundle_id answer_id : ℕ) × (draft : GroundedAnswerDraft) × (bundle : LoadedBundle)
        × (out.project_id ≡ some project)
        × (out.evidence_bundle_id ≡ some bundle_id)
        × (out.answer_id ≡ some answer_id)
        × (load_governed_evidence_bundle bundle_id t ≡ (ok bundle, t))
        × (find answer_id t.answers
            ≡ some (record {
              run_id = out.run_id;
              answer_text = render_answer draft;
              refusal_reason = none;
            }))
        × IsGrounded draft bundle.frozen project
  answer_IsGrounded f n s db out t h final =
      let (
        project, draft_id, bundle_id, guard_id, answer_id, owner, draft, bundle, references,
        has_project, has_draft, has_bundle, has_guard, has_answer, drafted, loaded, valid, checked,
        cited, row,
      ) =
        answer_IsAnswered f n s db out t h final in
      (
        project,
        bundle_id,
        answer_id,
        draft,
        bundle,
        has_project,
        has_bundle,
        has_answer,
        loaded,
        row,
        (valid_iff draft bundle.frozen project).0 valid,
      )
