-- ===== src/QaGraph/Rounds.antt =====
-- The rounds of retrieval: a bound for the nodes that are left, and that a round lowers it.
use it_outsourcing_knowledge.Base.{
  ℕ, suc, ◌+◌, ◌-◌, ◌*◌, ◌<◌, ◌≡◌, ◌⊎◌, inl, inr, refl, subst, Bool, true, false, ◌&&◌, Option,
  none, some, [], map, arith, ltb, leb, if◌then◌else◌, is_some, Bool-cases, get_or,
}
use it_outsourcing_knowledge.Base.Exec.{ok, outcome, bind_ok, pair_ok, lift_then}
use it_outsourcing_knowledge.Base.Text.{strip}
use it_outsourcing_knowledge.Base.Uuid.{UuidCodec}
use it_outsourcing_knowledge.Access.{AuthorizedProjectContext}
use it_outsourcing_knowledge.AccessPolicy.{constrain_retrieval, postfilter_evidence}
use it_outsourcing_knowledge.Knowledge.{KnowledgeRetrievalRequest}
use it_outsourcing_knowledge.QaState.{
  Route, AgentState, RetrievalPlan, RetrievalGrade, retrieval_plan, retrieval_grade,
}
use it_outsourcing_knowledge.QaRecords.{
  QaDb, load_artifact, load_query, save_artifact, as_scope, as_plan, increment_retrieval_rounds,
  record_llm_usage,
}
use it_outsourcing_knowledge.QaStore.{load_evidence_bundle, save_evidence_bundle}
use it_outsourcing_knowledge.QaNodes.{QaServices, QaContext, check_grade}
use it_outsourcing_knowledge.QaRetrieval.{
  need, retrieve_constrained, retrieve_in_round, retrieve_node, after_grade, grade_retrieval_node,
}
use it_outsourcing_knowledge.QaGraph.{
  QaNode, load_prompt, analyze_query, select_project, resolve_scope, resolve_identifiers, retrieve,
  grade_retrieval, govern_evidence, generate_answer, citation_guard, revise_answer, refuse,
  clarify_project, after_retrieval, after_retrieval_grade,
}

-- A bound for the nodes that are visited from a node on, the node counted.
abbrev pub remaining : QaNode → AgentState → ℕ
remaining load_prompt s = 15
remaining analyze_query s = 14
remaining select_project s = 13
remaining resolve_scope s = 12
remaining resolve_identifiers s = 11
remaining retrieve s = 8 + 2 * (1 - s.retrieval_round)
remaining grade_retrieval s = 7 + 2 * (2 - s.retrieval_round)
remaining govern_evidence s = 6
remaining generate_answer s = 5
remaining citation_guard s = if leb 1 s.revision_count then 2 else 4
remaining revise_answer s = 3
remaining refuse s = 1
remaining clarify_project s = 1

-- What a block returns at its end.
pub pure_ok :
    {S B : Type 0} (P : B → Type 0) (a b : B) (s t : S) → P a → outcome (ok a) s ≡ (ok b, t) → P b
pure_ok P a b s t p h = subst P (pair_ok a b s t h).0 p

pub some_node : (a b : QaNode) → some a ≡ some b → a ≡ b
some_node a b e = cc (e)

module _ (uuid : UuidCodec) (services : QaServices) (context : QaContext) where
  -- A retrieval refuses, or it counts a round and goes on.
  abbrev Retrieved : AgentState → AgentState → Type 0
  Retrieved s out =
      (out.route ≡ some Route.refusal)
      ⊎ ((out.route ≡ some Route.grade_retrieval) × (out.retrieval_round ≡ suc s.retrieval_round))

  constrained-Retrieved :
      (s : AgentState) (plan : RetrievalPlan) (scope : AuthorizedProjectContext)
      (o : Option KnowledgeRetrievalRequest) (db : QaDb) (out : AgentState) (t : QaDb)
      → retrieve_constrained uuid services context s plan scope o db ≡ (ok out, t)
      → Retrieved s out
  unfolding retrieve_constrained
  constrained-Retrieved s plan scope none db out t h =
      let (p, db1, need_ok, h1) = bind_ok (need s.project_id) _ db out t h in
      let (id, db2, saved, h2) =
        bind_ok
          (save_evidence_bundle uuid s.run_id p plan.original_query [] (suc s.retrieval_round)) _
          db1 out t h1 in
      pure_ok (Retrieved s) _ out db2 t (inl refl) h2
  constrained-Retrieved s plan scope (some r) db out t h =
      let (u, db1, counted, h1) = bind_ok (increment_retrieval_rounds s.run_id) _ db out t h in
      let (found, read, h2) =
        lift_then (services.retrieve_chunks s.retrieval_round r) _ db1 out t h1 in
      let (p, db3, need_ok, h3) = bind_ok (need s.project_id) _ db1 out t h2 in
      let (id, db4, saved, h4) =
        bind_ok
          (save_evidence_bundle uuid s.run_id p plan.original_query
            (postfilter_evidence uuid found scope) (suc s.retrieval_round))
          _ db3 out t h3 in
      pure_ok (Retrieved s) _ out db4 t (inr (refl, refl)) h4

  in_round-Retrieved :
      (s : AgentState) (db : QaDb) (out : AgentState) (t : QaDb)
      → retrieve_in_round uuid services context s db ≡ (ok out, t)
      → Retrieved s out
  unfolding retrieve_in_round
  in_round-Retrieved s db out t h =
      let (i, db1, a, h1) = bind_ok (need s.access_scope_id) _ db out t h in
      let (x, db2, b, h2) = bind_ok (load_artifact i) _ db1 out t h1 in
      let (scope, c, h3) = lift_then (as_scope x) _ db2 out t h2 in
      let (j, db4, d, h4) = bind_ok (need s.retrieval_plan_id) _ db2 out t h3 in
      let (y, db5, e, h5) = bind_ok (load_artifact j) _ db4 out t h4 in
      let (plan, f, h6) = lift_then (as_plan y) _ db5 out t h5 in
      let (constrained, g, h7) =
        lift_then
          (constrain_retrieval uuid
            (record {
              project_id = scope.project_code;
              query = plan.standalone_query;
              limit = 10;
              document_version_ids = map uuid.to_str plan.constrained_document_version_ids;
              knowledge_space_ids = [];
            })
            scope)
          _ db5 out t h6 in
      constrained-Retrieved s plan scope constrained db5 out t h7

  pub retrieve_falls :
      (s : AgentState) (db : QaDb) (out : AgentState) (t : QaDb)
      → retrieve_node uuid services context s db ≡ (ok out, t)
      → remaining (after_retrieval out.route) out < remaining retrieve s
  unfolding retrieve_node
  retrieve_falls s db out t h = elim (Bool-cases (leb 2 s.retrieval_round)) [
    | inl spent ↦
        pure_ok (λ o. remaining (after_retrieval o.route) o < remaining retrieve s) _ out db t
          (omega arith) (rw spent at h)
    | inr fresh ↦ elim (in_round-Retrieved s db out t (rw fresh at h)) [
      | inl refused ↦ rw refused (omega arith)
      | inr (graded, counted) ↦ rw graded (rw counted (ground arith))
    ]
  ]

  -- A grade keeps the round, and asks for a retrieval only while rounds are left.
  abbrev Graded : AgentState → AgentState → Type 0
  Graded s out =
      (out.retrieval_round ≡ s.retrieval_round)
      × ((out.route ≡ some Route.govern_evidence)
          ⊎ (out.route ≡ some Route.refusal)
          ⊎ ((out.route ≡ some Route.retrieve_again) × (ltb s.retrieval_round 2 ≡ true)))

  after_grade-Graded :
      (s : AgentState) (plan : RetrievalPlan) (g : RetrievalGrade) (id : ℕ) (db : QaDb)
      (out : AgentState) (t : QaDb)
      → after_grade uuid services context s plan g id db ≡ (ok out, t)
      → Graded s out
  unfolding after_grade
  after_grade-Graded s plan g id db out t h = elim (Bool-cases g.adequate) [
    | inl good ↦ pure_ok (Graded s) _ out db t (refl, inl refl) (rw good at h)
    | inr poor ↦
        elim (Bool-cases (
          g.second_round_justified
          && (ltb s.retrieval_round 2 && (plan.allow_second_round && is_some g.refined_query)))) [
            | inr no_more ↦
                pure_ok (Graded s) _ out db t (refl, inr (inl refl)) (rw (poor, no_more) at h)
            | inl again ↦
                let (plan_id, db1, saved, h1) =
                  bind_ok
                    (save_artifact s.run_id (
                      retrieval_plan
                        (record plan { standalone_query = strip (get_or g.refined_query "") })))
                    _ db out t (rw (poor, again) at h) in
                pure_ok (Graded s) _ out db1 t
                  (
                    refl,
                    inr (
                        inr (
                          refl,
                          second g.second_round_justified (ltb s.retrieval_round 2) _ again,
                        )),
                  )
                  h1
          ]
  ]
    where
      second : (a b c : Bool) → (a && (b && c)) ≡ true → b ≡ true
      second true true c h = refl
      second true false c h = cc
      second false b c h = cc

  pub grade_falls :
      (s : AgentState) (db : QaDb) (out : AgentState) (t : QaDb)
      → grade_retrieval_node uuid services context s db ≡ (ok out, t)
      → remaining (after_retrieval_grade out.route) out < remaining grade_retrieval s
  unfolding grade_retrieval_node
  grade_falls s db out t h =
      let (i, db1, a, h1) = bind_ok (need s.retrieval_plan_id) _ db out t h in
      let (x, db2, b, h2) = bind_ok (load_artifact i) _ db1 out t h1 in
      let (plan, c, h3) = lift_then (as_plan x) _ db2 out t h2 in
      let (j, db3, d, h4) = bind_ok (need s.evidence_bundle_id) _ db2 out t h3 in
      let (chunks, db4, e, h5) = bind_ok (load_evidence_bundle j) _ db3 out t h4 in
      let (query, db5, f, h6) = bind_ok (load_query s.run_id) _ db4 out t h5 in
      let (raw, g, h7) =
        lift_then (services.grade s.run_id s.retrieval_round query plan chunks) _ db5 out t h6 in
      let (grade, k, h8) = lift_then (check_grade raw.0) _ db5 out t h7 in
      let (u, db6, l, h9) = bind_ok (record_llm_usage s.run_id raw.1.0 raw.1.1) _ db5 out t h8 in
      let (id, db7, m, h10) =
        bind_ok (save_artifact s.run_id (retrieval_grade grade)) _ db6 out t h9 in
      falls (after_grade-Graded s plan grade id db7 out t h10)
    where
      falls :
          Graded s out
          → remaining (after_retrieval_grade out.route) out < remaining grade_retrieval s
      falls (same, inl good) = rw good (omega arith)
      falls (same, inr (inl refused)) = rw refused (omega arith)
      falls (same, inr (inr (again, left))) = rw again (rw same (ground arith))
