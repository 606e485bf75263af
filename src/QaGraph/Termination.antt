-- ===== src/QaGraph/Termination.antt =====
-- How many nodes the graph can still visit.
use it_outsourcing_knowledge.Base.{
  ◌⊎◌, false, ℕ, zero, suc, ◌≤◌, ◌<◌, ◌≡◌, inl, inr, refl, Option, none, some, arith, ltb, leb,
  Bool-cases, Option-cases,
}
use it_outsourcing_knowledge.Base.Exec.{ok, bind_ok, lift_then}
use it_outsourcing_knowledge.Base.Uuid.{UuidCodec}
use it_outsourcing_knowledge.Citations.{validate, GroundedAnswerDraft, CitationValidationResult}
use it_outsourcing_knowledge.QaState.{Route, AgentState, citation_result}
use it_outsourcing_knowledge.QaRecords.{QaDb, load_artifact, save_artifact, as_draft}
use it_outsourcing_knowledge.QaStore.{
  save_grounded_answer, load_governed_evidence_bundle, LoadedBundle,
}
use it_outsourcing_knowledge.QaNodes.{QaServices, QaContext, references_for, render_answer}
use it_outsourcing_knowledge.QaRetrieval.{need}
use it_outsourcing_knowledge.QaAnswering.{
  generate_draft, errors_of, after_guard, citation_guard_node, revise_once, revise_answer_node,
}
use it_outsourcing_knowledge.QaGraph.{
  QaNode, load_prompt, analyze_query, select_project, resolve_scope, resolve_identifiers, retrieve,
  grade_retrieval, govern_evidence, generate_answer, citation_guard, revise_answer, refuse,
  clarify_project, after_project_selection, after_retrieval, after_retrieval_grade,
  after_governance, after_citation_guard, next_node, run_node, run_graph,
}
use it_outsourcing_knowledge.QaGraph.Rounds.{
  remaining, pure_ok, some_node, retrieve_falls, grade_falls,
}

module _ (uuid : UuidCodec) (services : QaServices) (context : QaContext) where
  -- The guard answers, refuses, or asks for a revision while none was made.
  abbrev Guarded : AgentState → AgentState → Type 0
  Guarded s out =
      (out.route ≡ some Route.answered)
      ⊎ (out.route ≡ some Route.refusal)
      ⊎ ((out.route ≡ some Route.revise_answer) × (leb 1 s.revision_count ≡ false))

  after_guard-Guarded :
      (s : AgentState) (draft : GroundedAnswerDraft) (bundle : LoadedBundle)
      (r : CitationValidationResult) (id : ℕ) (db : QaDb) (out : AgentState) (t : QaDb)
      → after_guard uuid services context s draft bundle r id db ≡ (ok out, t)
      → Guarded s out
  unfolding after_guard
  after_guard-Guarded s draft bundle r id db out t h = elim (Bool-cases r.valid) [
    | inl good ↦
        let (refs, a, h1) =
          lift_then (references_for r.used_evidence_ids bundle.items) _ db out t (rw good at h) in
        let (answer, db1, b, h2) =
          bind_ok (save_grounded_answer s.run_id (render_answer draft) refs) _ db out t h1 in
        pure_ok (Guarded s) _ out db1 t (inl refl) h2
    | inr bad ↦ elim (Bool-cases (ltb s.revision_count 1)) [
      | inl first ↦
          pure_ok (Guarded s) _ out db t (inr (inr (refl, ground arith))) (rw (bad, first) at h)
      | inr spent ↦ pure_ok (Guarded s) _ out db t (inr (inl refl)) (rw (bad, spent) at h)
    ]
  ]

  guard-Guarded :
      (s : AgentState) (db : QaDb) (out : AgentState) (t : QaDb)
      → citation_guard_node uuid services context s db ≡ (ok out, t)
      → Guarded s out
  unfolding citation_guard_node
  guard-Guarded s db out t h =
      let (p, db1, a, h1) = bind_ok (need s.project_id) _ db out t h in
      let (i, db2, b, h2) = bind_ok (need s.answer_draft_id) _ db1 out t h1 in
      let (x, db3, c, h3) = bind_ok (load_artifact i) _ db2 out t h2 in
      let (draft, d, h4) = lift_then (as_draft x) _ db3 out t h3 in
      let (j, db4, e, h5) = bind_ok (need s.evidence_bundle_id) _ db3 out t h4 in
      let (bundle, db5, f, h6) = bind_ok (load_governed_evidence_bundle j) _ db4 out t h5 in
      let (id, db6, g, h7) =
        bind_ok (save_artifact s.run_id (citation_result (validate draft bundle.frozen p))) _ db5
          out t h6 in
      after_guard-Guarded s draft bundle (validate draft bundle.frozen p) id db6 out t h7

  guard_falls :
      (s : AgentState) (out : AgentState) (n : QaNode)
      → Guarded s out
      → after_citation_guard out.route ≡ some n
      → remaining n out < remaining citation_guard s
  guard_falls s out n (inl answered) h = absurd (cc (rw answered at h))
  guard_falls s out n (inr (inl refused)) h =
      let e : refuse ≡ n = some_node refuse n (rw refused at h) in rw (← e) (ground arith)
  guard_falls s out n (inr (inr (again, first))) h =
      let e : revise_answer ≡ n = some_node revise_answer n (rw again at h) in
      rw (← e) (rw first (omega arith))

  revise_falls :
      (s : AgentState) (db : QaDb) (out : AgentState) (t : QaDb)
      → revise_answer_node uuid services context s db ≡ (ok out, t)
      → remaining citation_guard out < remaining revise_answer s
  unfolding revise_answer_node revise_once
  revise_falls s db out t h = elim (Bool-cases (leb 1 s.revision_count)) [
    | inl spent ↦
        pure_ok (λ o. remaining citation_guard o < 3) _ out db t (rw spent (omega arith))
          (rw spent at h)
    | inr fresh ↦
        let (i, db1, a, h1) = bind_ok (need s.citation_guard_id) _ db out t (rw fresh at h) in
        let (x, db2, b, h2) = bind_ok (load_artifact i) _ db1 out t h1 in
        let (id, db3, c, h3) =
          bind_ok (generate_draft uuid services context s (suc s.revision_count) (errors_of x)) _
            db2 out t h2 in
        pure_ok (λ o. remaining citation_guard o < 3) _ out db3 t (ground arith) h3
  ]

  -- Each edge leads nearer to the end.
  step_falls :
      (n m : QaNode) (s : AgentState) (db : QaDb) (out : AgentState) (t : QaDb)
      → run_node uuid services context n s db ≡ (ok out, t)
      → next_node n out ≡ some m
      → remaining m out < remaining n s
  unfolding run_node next_node
  step_falls load_prompt m s db out t h e = rw (← some_node analyze_query m e) (omega arith)
  step_falls analyze_query m s db out t h e = rw (← some_node select_project m e) (omega arith)
  step_falls select_project m s db out t h e =
      rw (← some_node (after_project_selection out.route) m e) (selected out.route)
    where
      selected : (r : Option Route) → remaining (after_project_selection r) out < 13
      selected none = omega arith
      selected (some Route.clarification) = omega arith
      selected (some Route.refusal) = omega arith
      selected (some r) = omega arith
  step_falls resolve_scope m s db out t h e = rw (← some_node resolve_identifiers m e) (omega arith)
  step_falls resolve_identifiers m s db out t h e = rw (← some_node retrieve m e) (omega arith)
  step_falls retrieve m s db out t h e =
      rw (← some_node (after_retrieval out.route) m e)
        (retrieve_falls uuid services context s db out t h)
  step_falls grade_retrieval m s db out t h e =
      rw (← some_node (after_retrieval_grade out.route) m e)
        (grade_falls uuid services context s db out t h)
  step_falls govern_evidence m s db out t h e =
      rw (← some_node (after_governance out.route) m e) (governed out.route)
    where
      governed : (r : Option Route) → remaining (after_governance r) out < 6
      governed none = omega arith
      governed (some Route.generate_answer) = omega arith
      governed (some r) = omega arith
  step_falls generate_answer m s db out t h e = rw (← some_node citation_guard m e) (ground arith)
  step_falls citation_guard m s db out t h e = guard_falls s out m (guard-Guarded s db out t h) e
  step_falls revise_answer m s db out t h e =
      rw (← some_node citation_guard m e) (revise_falls s db out t h)
  step_falls refuse m s db out t h e = cc
  step_falls clarify_project m s db out t h e = cc

  remaining_pos : (n : QaNode) (s : AgentState) → 0 < remaining n s
  remaining_pos citation_guard s = ground arith
  remaining_pos n s = omega arith

  -- With as many nodes as the bound, the graph does not run out of them.
  enough :
      (f : ℕ) (n : QaNode) (s : AgentState) (db t : QaDb)
      → remaining n s ≤ f
      → ¬ (run_graph uuid services context f n s db ≡ (ok none, t))
  unfolding run_graph
  enough zero n s db t bound h = absurd (omega (arith, remaining_pos n s))
  enough (suc f) n s db t bound h =
      let (out, u, ran, rest) = bind_ok (run_node uuid services context n s) _ db none t h in
      elim (Option-cases (next_node n out)) [
        | inl done ↦ absurd (cc (rw done at rest))
        | inr (m, e) ↦
            enough f m out u t (omega (arith, step_falls n m s db out u ran e)) (rw e at rest)
      ]

  -- From its first node the graph ends, or raises, within fifteen nodes, whatever the model, the
  -- knowledge service and the other services answer, and whatever the state it starts in.
  pub fifteen_nodes :
      (f : ℕ) (s : AgentState) (db t : QaDb)
      → 15 ≤ f
      → ¬ (run_graph uuid services context f load_prompt s db ≡ (ok none, t))
  fifteen_nodes f s db t h = enough f load_prompt s db t h
