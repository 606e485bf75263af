-- ===== src/QaGraph/Guarded.antt =====
-- What the node of the citation guard leaves in the database when it answers.
use it_outsourcing_knowledge.Base.{
  ℕ, ◌≡◌, inl, inr, sym, ap, ◌∙◌, true, none, some, List, ltb, Bool-cases,
}
use it_outsourcing_knowledge.Base.Exec.{
  ok, outcome, bind_ok, pair_ok, lift_then, found_then, lookup_error, ok_inj,
}
use it_outsourcing_knowledge.Base.Table.{Table, find, add}
use it_outsourcing_knowledge.Base.Uuid.{UuidCodec}
use it_outsourcing_knowledge.Citations.{GroundedAnswerDraft, CitationValidationResult, validate}
use it_outsourcing_knowledge.QaState.{Route, AgentState, Artifact, answer_draft, citation_result}
use it_outsourcing_knowledge.QaRecords.{
  QaDb, EvidenceBundle, Answer, CitationReference, load_artifact, as_draft, save_artifact,
}
use it_outsourcing_knowledge.QaStore.{
  LoadedBundle, frozen_bundle, project_of, items_of, load_governed_evidence_bundle,
  save_grounded_answer,
}
use it_outsourcing_knowledge.QaNodes.{QaServices, QaContext, render_answer, references_for}
use it_outsourcing_knowledge.QaAnswering.{after_guard, citation_guard_node}
use it_outsourcing_knowledge.QaGraph.Saved.{
  save_grounded_answer_ok, save_grounded_keeps, artifact_row, save_artifact_ok, load_artifact_ok,
  found_after, found_new,
}

-- The answer of the run renders the state's draft, which the guard accepted against the governed
-- bundle of the state and its project; the guard's result is kept, and every label that the draft
-- uses has a snapshot. All of it stands in the database.
abbrev pub IsAnswered : AgentState → QaDb → Type 0
IsAnswered s t =
    (project draft_id bundle_id guard_id answer_id owner : ℕ) × (draft : GroundedAnswerDraft)
    × (bundle : LoadedBundle) × (references : List CitationReference) × (s.project_id
        ≡ some project)
    × (s.answer_draft_id ≡ some draft_id)
    × (s.evidence_bundle_id ≡ some bundle_id)
    × (s.citation_guard_id ≡ some guard_id)
    × (s.answer_id ≡ some answer_id)
    × (find draft_id t.artifacts ≡ some (record { run_id = owner; artifact = answer_draft draft }))
    × (load_governed_evidence_bundle bundle_id t ≡ (ok bundle, t))
    × ((validate draft bundle.frozen project).valid ≡ true)
    × (find guard_id t.artifacts
        ≡ some (record {
          run_id = s.run_id;
          artifact = citation_result (validate draft bundle.frozen project);
        }))
    × (references_for (validate draft bundle.frozen project).used_evidence_ids bundle.items
        ≡ ok references)
    × (find answer_id t.answers
        ≡ some (record {
          run_id = s.run_id;
          answer_text = render_answer draft;
          refusal_reason = none;
        }))

as_draft_same : (x : Artifact) (d : GroundedAnswerDraft) → as_draft x ≡ ok d → x ≡ answer_draft d
unfolding as_draft
as_draft_same (answer_draft a) d h = ap answer_draft (ok_inj a d h)
as_draft_same x d h = cc

pub some_state : (a b : AgentState) → some a ≡ some b → a ≡ b
some_state a b e = cc (e)

abbrev answer_row : ℕ → GroundedAnswerDraft → Answer
answer_row run draft = record {
  run_id = run;
  answer_text = render_answer draft;
  refusal_reason = none;
}

-- A bundle that is loaded, and is loaded again from a database with the same bundles.
load_governed_ok :
    (id : ℕ) (db : QaDb) (bundle : LoadedBundle) (t : QaDb)
    → load_governed_evidence_bundle id db ≡ (ok bundle, t)
    → (db ≡ t)
      × ((u : QaDb) → u.bundles ≡ t.bundles → load_governed_evidence_bundle id u ≡ (ok bundle, u))
unfolding load_governed_evidence_bundle
load_governed_ok id db bundle t h = (
  ap (λ q. q.1) h,
  λ u same.
      ap (λ b. outcome (ok (loaded_from b)) u) (same ∙ ap (λ q. q.1.bundles) (sym h))
      ∙ ap (λ q. outcome q.0 u) h,
)
  where
    loaded_from : Table EvidenceBundle → LoadedBundle
    loaded_from rows = let found = find id rows in frozen_bundle (project_of found) (items_of found)

-- Only the guard sets the route of an answer.
pub other_route : (r r' : Route) → some r ≡ some r' → r ≡ r'
other_route r r' e = cc (e)

module _ (uuid : UuidCodec) (services : QaServices) (context : QaContext) where
  after_guard_ok :
      (s : AgentState) (draft : GroundedAnswerDraft) (bundle : LoadedBundle)
      (r : CitationValidationResult) (id : ℕ) (db : QaDb) (out : AgentState) (t : QaDb)
      → after_guard uuid services context s draft bundle r id db ≡ (ok out, t)
      → out.route ≡ some Route.answered
      → (answer_id : ℕ) × (references : List CitationReference) × (r.valid ≡ true)
        × (references_for r.used_evidence_ids bundle.items ≡ ok references)
        × (out ≡ record s {
          citation_guard_id = some id;
          answer_id = some answer_id;
          route = some Route.answered;
          last_error_code = none;
        })
        × (find answer_id t.answers
            ≡ some (record {
              run_id = s.run_id;
              answer_text = render_answer draft;
              refusal_reason = none;
            }))
        × (t.artifacts ≡ db.artifacts)
        × (t.bundles ≡ db.bundles)
  unfolding after_guard
  after_guard_ok s draft bundle r id db out t h final = elim (Bool-cases r.valid) [
    | inl good ↦
        let (refs, a, h1) =
          lift_then (references_for r.used_evidence_ids bundle.items) _ db out t (rw good at h) in
        let (answer, db1, b, h2) =
          bind_ok (save_grounded_answer s.run_id (render_answer draft) refs) _ db out t h1 in
        let (same, last) = pair_ok _ out db1 t h2 in
        let kept = save_grounded_keeps s.run_id (render_answer draft) refs db answer db1 b in
        (
          answer,
          refs,
          good,
          a,
          sym same,
          ap (λ d. find answer d.answers) (sym last)
              ∙ save_grounded_answer_ok s.run_id (render_answer draft) refs db answer db1 b,
          ap (λ d. d.artifacts) (sym last) ∙ kept.0,
          ap (λ d. d.bundles) (sym last) ∙ kept.1,
        )
    | inr bad ↦ elim (Bool-cases (ltb s.revision_count 1)) [
      | inl first ↦
          let e : some Route.revise_answer ≡ some Route.answered =
            ap (λ o. o.route) (pair_ok _ out db t (rw (bad, first) at h)).0 ∙ final in
          cc (e)
      | inr spent ↦
          let e : some Route.refusal ≡ some Route.answered =
            ap (λ o. o.route) (pair_ok _ out db t (rw (bad, spent) at h)).0 ∙ final in
          cc (e)
    ]
  ]

  -- What the guard read and saved before it came to its decision.
  abbrev GuardSteps : AgentState → AgentState → QaDb → Type 0
  GuardSteps s out t =
      (p i j id owner : ℕ) × (draft : GroundedAnswerDraft) × (bundle : LoadedBundle) × (before
        after : QaDb)
      × (s.project_id ≡ some p)
      × (s.answer_draft_id ≡ some i)
      × (s.evidence_bundle_id ≡ some j)
      × (find i before.artifacts ≡ some (artifact_row owner (answer_draft draft)))
      × ((u : QaDb)
          → u.bundles ≡ before.bundles
          → load_governed_evidence_bundle j u ≡ (ok bundle, u))
      × (save_artifact s.run_id (citation_result (validate draft bundle.frozen p)) before
          ≡ (ok id, after))
      × (after_guard uuid services context s draft bundle (validate draft bundle.frozen p) id after
          ≡ (ok out, t))

  guard_steps :
      (s : AgentState) (db : QaDb) (out : AgentState) (t : QaDb)
      → citation_guard_node uuid services context s db ≡ (ok out, t)
      → GuardSteps s out t
  unfolding citation_guard_node
  guard_steps s db out t h =
      let (p, has_project, h1) = found_then s.project_id lookup_error _ db out t h in
      let (i, has_draft, h2) = found_then s.answer_draft_id lookup_error _ db out t h1 in
      let (x, db3, c, h3) = bind_ok (load_artifact i) _ db out t h2 in
      let (draft, d, h4) = lift_then (as_draft x) _ db3 out t h3 in
      let (j, has_bundle, h5) = found_then s.evidence_bundle_id lookup_error _ db3 out t h4 in
      let (bundle, db5, f, h6) = bind_ok (load_governed_evidence_bundle j) _ db3 out t h5 in
      let (id, db6, g, h7) =
        bind_ok (save_artifact s.run_id (citation_result (validate draft bundle.frozen p))) _ db5
          out t h6 in
      let (owner, there, read) = load_artifact_ok i db x db3 c in
      let (loaded, again) = load_governed_ok j db3 bundle db5 f in
      (
        p,
        i,
        j,
        id,
        owner,
        draft,
        bundle,
        db5,
        db6,
        has_project,
        has_draft,
        has_bundle,
        ap (λ d. find i d.artifacts) (sym (read ∙ loaded))
            ∙ there
            ∙ ap (λ y. some (artifact_row owner y)) (as_draft_same x draft d),
        again,
        g,
        h7,
      )

  pub guard_answered :
      (s : AgentState) (db : QaDb) (out : AgentState) (t : QaDb)
      → citation_guard_node uuid services context s db ≡ (ok out, t)
      → out.route ≡ some Route.answered
      → IsAnswered out t
  guard_answered s db out t h final =
      let (
        p, i, j, id, owner, draft, bundle, before, after, has_project, has_draft, has_bundle, there,
        again, saved, decided,
      ) =
        guard_steps s db out t h in
      let result : Artifact = citation_result (validate draft bundle.frozen p) in
      let (answer, refs, valid, listed, same, row, artifacts, bundles) =
        after_guard_ok s draft bundle (validate draft bundle.frozen p) id after out t decided
          final in
      let (free, added, same_bundles) = save_artifact_ok s.run_id result before id after saved in
      let rows : t.artifacts ≡ add id (artifact_row s.run_id result) before.artifacts =
        artifacts ∙ added in
      let run : s.run_id ≡ out.run_id = ap (λ o. o.run_id) (sym same) in
      (
        p,
        i,
        j,
        id,
        answer,
        owner,
        draft,
        bundle,
        refs,
        ap (λ o. o.project_id) same ∙ has_project,
        ap (λ o. o.answer_draft_id) same ∙ has_draft,
        ap (λ o. o.evidence_bundle_id) same ∙ has_bundle,
        ap (λ o. o.citation_guard_id) same,
        ap (λ o. o.answer_id) same,
        ap (λ a. find i a) rows
            ∙ found_after i id (artifact_row s.run_id result) _ before.artifacts free there,
        again t (bundles ∙ same_bundles),
        valid,
        ap (λ a. find id a) rows
            ∙ found_new id (artifact_row s.run_id result) before.artifacts
            ∙ ap (λ o. some (artifact_row o result)) run,
        listed,
        row ∙ ap (λ o. some (answer_row o draft)) run,
      )
