-- ===== src/QaStore.antt =====
-- infrastructure/db/repositories/qa_graph.py: the bundles of evidence and the answers that the nodes of
-- the answering graph keep in the database.
mod Roundtrip
mod Tests
use it_outsourcing_knowledge.Base.{
  ◌*◌, ◌^◌, ◌/◌, ◌%◌, ℕ, zero, suc, ◌+◌, String, Bool, not, Option, none, some, List, [], ◌∷◌, map,
  str_eq, ltb, leb, ◌==◌, if◌then◌else◌, is_some, get_or, select,
}
use Prim.Native.String.{◌++◌}
use it_outsourcing_knowledge.Base.Decimal.{decimal}
use it_outsourcing_knowledge.Base.Int.{ℤ, pos, negsuc}
use it_outsourcing_knowledge.Base.Exec.{
  dbapi_error, lookup_error, value_error, integrity_error, Result, ok, err, Exec, pure, lift, gets,
  or_raise, raise_if, modify, ◌>>=◌, ◌>>◌,
}
use it_outsourcing_knowledge.Base.Sort.{sort}
use it_outsourcing_knowledge.Base.Table.{Table, find, add, put}
use it_outsourcing_knowledge.Base.Text.{is_blank, is_empty}
use it_outsourcing_knowledge.Base.Uuid.{UuidCodec}
use it_outsourcing_knowledge.Access.{AccessStore, AuthorizedProjectContext, str_mem}
use it_outsourcing_knowledge.Citations.{FrozenEvidence, FrozenEvidenceBundle, GroundedAnswerDraft}
use it_outsourcing_knowledge.Knowledge.{KnowledgeChunk}
use it_outsourcing_knowledge.Governance.{
  GovernedEvidence, GovernedEvidencePack, is_protected, in_conflict,
}
use it_outsourcing_knowledge.QaState.{
  QueryAnalysis, RetrievalPlan, PromptSnapshot, Artifact, prompt_snapshot, query_analysis,
  project_selection, project_access_scope, retrieval_plan, answer_draft,
}
use it_outsourcing_knowledge.QaRecords.{
  candidate_chunks, governed_items, new_id, get_run, put_run, load_query, save_artifact,
  load_artifact, as_analysis, as_scope, as_plan, as_draft, as_prompt, codes_of,
  record_prompt_snapshot, record_llm_usage, increment_retrieval_rounds, QaRun, ArtifactEvent,
  Snapshots, EvidenceBundle, Answer, Citation, QaDb, CitationReference,
}

-- The keys that a snapshot of a chunk puts into its metadata and takes out again.
abbrev pub reserved_keys : List String
reserved_keys =
    "retrieval_round" ∷ "project_code" ∷ "knowledge_space_id" ∷ "page_no" ∷ "section" ∷ []

abbrev pub or_text : Option String → String → Option String
or_text none d = some d
or_text (some s) d = if is_empty s then some d else some s

-- A millionth, in the unit of a score.
unfoldable pub micro : ℕ
micro = 10 ^ 318

-- To the next multiple of the unit, a half upwards.
unfoldable pub round_to : ℕ → ℕ → ℕ
round_to unit n =
    let low = (n / unit) * unit in if ltb (2 * (n % unit)) unit then low else low + unit

abbrev pub negative : ℕ → ℤ
negative zero = pos 0
negative (suc n) = negsuc n

-- The column `Numeric(8, 6)`: rounded to six decimals, away from zero at a half; from 100 on it
-- raises.
unfoldable pub store_score : ℤ → Result ℤ
unfolding micro
store_score (pos n) =
    if leb (10 ^ 8 * micro) (round_to micro n) then err dbapi_error else ok (pos (round_to micro n))
store_score (negsuc n) =
    if leb (10 ^ 8 * micro) (round_to micro (suc n))
    then err dbapi_error
    else ok (negative (round_to micro (suc n)))

-- A chunk as its snapshot gives it back, with the score that the column holds.
unfoldable pub stored_chunk : UuidCodec → ℕ → ℕ → ℤ → KnowledgeChunk → KnowledgeChunk
stored_chunk uuid rank version score c = record c {
  document_version_id = uuid.to_str version;
  score = score;
  provider_ref = or_text c.provider_ref ("retrieval:" ++ decimal rank);
  metadata = select (λ kv. not (str_mem kv.0 reserved_keys)) c.metadata;
}

-- The loop that adds a snapshot for each chunk, and the flush after it: a version that is no
-- identifier raises in the loop, a score that is too large in the flush.
unfoldable pub store_chunks : UuidCodec → ℕ → List KnowledgeChunk → Result (List KnowledgeChunk)
store_chunks uuid rank [] = ok []
store_chunks uuid rank (c ∷ cs) =
    let rest = store_chunks uuid (suc rank) cs in
    elim (uuid.parse c.document_version_id) [
      | none ↦ err value_error
      | some version ↦ elim rest [
        | err e ↦ err e
        | ok done ↦ elim (store_score c.score) [
          | err e ↦ err e
          | ok score ↦ ok (stored_chunk uuid rank version score c ∷ done)
        ]
      ]
    ]

unfoldable pub save_evidence_bundle :
    UuidCodec → ℕ → ℕ → String → List KnowledgeChunk → ℕ → Exec QaDb ℕ
save_evidence_bundle uuid run project query chunks round = do
  raise_if (ltb round 1) value_error
  id ← new_id
  stored ← lift (store_chunks uuid 1 chunks)
  modify (λ db. record db {
    bundles =
        add id
          (record {
            run_id = run;
            project_id = project;
            query_text = query;
            snapshots = candidate_chunks round stored;
          })
          db.bundles;
  })
  pure id

abbrev pub chunks_of : Option EvidenceBundle → List KnowledgeChunk
chunks_of none = []
chunks_of (some b) = elim b.snapshots [ candidate_chunks round cs ↦ cs | governed_items items ↦ [] ]

unfoldable pub load_evidence_bundle : ℕ → Exec QaDb (List KnowledgeChunk)
load_evidence_bundle id = gets (λ db. chunks_of (find id db.bundles))

-- The snapshots of the evidence, each under a new key. A score of the evidence is one that a chunk
-- was loaded with, which the column holds as it is.
unfoldable pub store_items : ℕ → List GovernedEvidence → List (ℕ × GovernedEvidence)
store_items key [] = []
store_items key (e ∷ es) = (key, e) ∷ store_items (suc key) es

abbrev pub count_items : List GovernedEvidence → ℕ
count_items [] = 0
count_items (e ∷ es) = suc (count_items es)

unfoldable pub save_governed_evidence_bundle : ℕ → ℕ → String → GovernedEvidencePack → Exec QaDb ℕ
save_governed_evidence_bundle run project query pack = do
  id ← new_id
  modify (λ db. record db {
    next_id = db.next_id + count_items pack.evidence;
    bundles =
        add id
          (record {
            run_id = run;
            project_id = project;
            query_text = query;
            snapshots = governed_items (store_items db.next_id pack.evidence);
          })
          db.bundles;
  })
  pure id

abbrev pub items_of : Option EvidenceBundle → List (ℕ × GovernedEvidence)
items_of none = []
items_of (some b) = elim b.snapshots [
  | candidate_chunks round cs ↦ []
  | governed_items items ↦ items
]

abbrev pub project_of : Option EvidenceBundle → ℕ
project_of none = 0
project_of (some b) = b.project_id

abbrev pub freeze : ℕ → ℕ × GovernedEvidence → FrozenEvidence
freeze project item = record {
  label = item.1.label;
  project_id = project;
  lifecycle_status = item.1.lifecycle_status;
  is_current = item.1.is_current;
}

-- The keys of `conflicts`, in the order of their first items.
unfoldable pub open_keys : List GovernedEvidence → List String
open_keys [] = []
open_keys (e ∷ es) =
    let rest = open_keys es in
    if is_protected e
    then get_or e.conflict_key "" ∷ select (λ k. not (str_eq k (get_or e.conflict_key ""))) rest
    else rest

unfoldable pub open_conflicts : List GovernedEvidence → List String → List (String × List String)
open_conflicts items [] = []
open_conflicts items (k ∷ ks) =
    (k, map (λ e. e.label) (select (in_conflict k) items)) ∷ open_conflicts items ks

-- A bundle as it is loaded: the evidence for the guard, and its snapshots.
pub record LoadedBundle : Type 0 where
  pub frozen : FrozenEvidenceBundle
  pub items : List (ℕ × GovernedEvidence)

unfoldable pub frozen_bundle : ℕ → List (ℕ × GovernedEvidence) → LoadedBundle
frozen_bundle project items =
    let evidence = map (λ item. item.1) items in
    record {
      frozen = record {
        evidence = map (freeze project) items;
        unresolved_conflicts = open_conflicts evidence (open_keys evidence);
      };
      items = items;
    }

unfoldable pub load_governed_evidence_bundle : ℕ → Exec QaDb LoadedBundle
load_governed_evidence_bundle id =
    gets (λ db. let found = find id db.bundles in frozen_bundle (project_of found) (items_of found))

-- The row of the run's answer, if there is one.
unfoldable pub answer_of : ℕ → Table Answer → Option ℕ
answer_of run [] = none
answer_of run ((id, a) ∷ rows) =
    let rest = answer_of run rows in if a.run_id == run then some id else rest

abbrev pub put_answer : Option ℕ → Answer → Exec QaDb ℕ
put_answer (some id) answer = do
  modify (λ db. record db { answers = put id answer db.answers })
  pure id
put_answer none answer = do
  id ← new_id
  modify (λ db. record db { answers = add id answer db.answers })
  pure id

unfoldable pub save_answer : ℕ → String → Option String → Exec QaDb ℕ
save_answer run answer_text reason = do
  existing ← gets (λ db. answer_of run db.answers)
  put_answer existing (record { run_id = run; answer_text = answer_text; refusal_reason = reason })

-- `unique.setdefault(citation.citation_no, citation)`
unfoldable pub unique_references : List CitationReference → List CitationReference
unique_references [] = []
unique_references (r ∷ rs) =
    r ∷ select (λ x. not (x.reference_no == r.reference_no)) (unique_references rs)

abbrev pub by_number : CitationReference → CitationReference → Bool
by_number a b = leb a.reference_no b.reference_no

abbrev pub to_citation : ℕ → CitationReference → Citation
to_citation answer r = record {
  answer_id = answer;
  evidence_snapshot_id = r.snapshot_id;
  citation_no = r.reference_no;
}

abbrev pub append_citations : List Citation → List Citation → List Citation
append_citations [] ys = ys
append_citations (x ∷ xs) ys = x ∷ append_citations xs ys

unfoldable pub save_grounded_answer : ℕ → String → List CitationReference → Exec QaDb ℕ
save_grounded_answer run answer_text references = do
  id ← save_answer run answer_text none
  modify (λ db. record db {
    citations =
        append_citations (map (to_citation id) (sort by_number (unique_references references)))
          (select (λ c. not (c.answer_id == id)) db.citations);
  })
  pure id
