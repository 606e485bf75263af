-- ===== src/QaRecords.antt =====
-- infrastructure/db/repositories/qa_graph.py: the records that the nodes of the answering graph keep in
-- the database, and the runs and artifacts among them. A bundle holds its snapshots in the order of
-- their ranks. Keys are generated by uuid4; here by a supply that counts. The cost estimate
-- and the metrics are left out.
use it_outsourcing_knowledge.Base.{
  ℕ, suc, ◌+◌, String, Option, some, List, [], ◌∷◌, is_some, max, ◌==◌, if◌then◌else◌,
}
use it_outsourcing_knowledge.Base.Decimal.{decimal}
use it_outsourcing_knowledge.Base.Exec.{
  lookup_error, value_error, integrity_error, Result, ok, err, Exec, pure, gets, or_raise, raise_if,
  modify, ◌>>=◌, ◌>>◌,
}
use it_outsourcing_knowledge.Base.Table.{Table, find, add, put}
use it_outsourcing_knowledge.Base.Text.{is_blank}
use it_outsourcing_knowledge.Access.{AccessStore, AuthorizedProjectContext}
use it_outsourcing_knowledge.Citations.{GroundedAnswerDraft}
use it_outsourcing_knowledge.Knowledge.{KnowledgeChunk}
use it_outsourcing_knowledge.Governance.{GovernedEvidence}
use it_outsourcing_knowledge.QaState.{
  QueryAnalysis, RetrievalPlan, PromptSnapshot, Artifact, prompt_snapshot, query_analysis,
  project_selection, project_access_scope, retrieval_plan, answer_draft,
}

-- A run: the text of its query event, if there is one, and what the graph writes.
pub record QaRun : Type 0 where
  pub query_text : Option String
  pub model_alias : Option String
  pub prompt_version : Option String
  pub prompt_content_hash : Option String
  pub input_tokens : ℕ
  pub output_tokens : ℕ
  pub total_tokens : ℕ
  pub retrieval_rounds : ℕ

pub record ArtifactEvent : Type 0 where
  pub run_id : ℕ
  pub artifact : Artifact

-- The snapshots of a bundle: of retrieved chunks with their round (none of them is the marker of
-- an empty round), or of governed evidence, each with its key.
pub data Snapshots : Type 0 where
  candidate_chunks : ℕ → List KnowledgeChunk → Snapshots
  governed_items : List (ℕ × GovernedEvidence) → Snapshots

pub record EvidenceBundle : Type 0 where
  pub run_id : ℕ
  pub project_id : ℕ
  pub query_text : String
  pub snapshots : Snapshots

pub record Answer : Type 0 where
  pub run_id : ℕ
  pub answer_text : String
  pub refusal_reason : Option String

pub record Citation : Type 0 where
  pub answer_id : ℕ
  pub evidence_snapshot_id : ℕ
  pub citation_no : ℕ

pub record QaDb : Type 0 where
  pub next_id : ℕ
  pub runs : Table QaRun
  pub artifacts : Table ArtifactEvent
  -- the run and the sequence number of every event of the log, of whatever type
  pub numbers : List (ℕ × ℕ)
  pub bundles : Table EvidenceBundle
  pub answers : Table Answer
  pub citations : List Citation
  pub access : AccessStore

pub record CitationReference : Type 0 where
  pub reference_no : ℕ
  pub snapshot_id : ℕ

-- `uuid4()`
abbrev pub new_id : Exec QaDb ℕ
new_id db = (ok db.next_id, record db { next_id = suc db.next_id })

unfoldable pub get_run : ℕ → Exec QaDb QaRun
get_run run = do found ← gets (λ db. find run db.runs); or_raise found lookup_error

abbrev pub put_run : ℕ → QaRun → Exec QaDb Unit
put_run run row = modify (λ db. record db { runs = put run row db.runs })

unfoldable pub load_query : ℕ → Exec QaDb String
load_query run = do
  found ← gets (λ db. find run db.runs)
  row ← or_raise found lookup_error
  query ← or_raise row.query_text lookup_error
  raise_if (is_blank query) value_error
  pure query

-- `coalesce(max(sequence_no), 0)` of the run's events
unfoldable pub last_sequence : ℕ → List (ℕ × ℕ) → ℕ
last_sequence run [] = 0
last_sequence run ((r, n) ∷ rest) =
    let last = last_sequence run rest in if r == run then max n last else last

unfoldable pub save_artifact : ℕ → Artifact → Exec QaDb ℕ
save_artifact run artifact = do
  row ← get_run run
  last ← gets (λ db. last_sequence run db.numbers)
  id ← new_id
  taken ← gets (λ db. is_some (find id db.artifacts))
  raise_if taken integrity_error
  modify (λ db. record db {
    artifacts = add id (record { run_id = run; artifact = artifact }) db.artifacts;
    numbers = (run, suc last) ∷ db.numbers;
  })
  pure id

unfoldable pub load_artifact : ℕ → Exec QaDb Artifact
load_artifact id = do
  found ← gets (λ db. find id db.artifacts)
  event ← or_raise found lookup_error
  pure event.artifact

-- `Model.model_validate(payload)`
unfoldable pub as_analysis : Artifact → Result QueryAnalysis
as_analysis (query_analysis a) = ok a
as_analysis _ = err value_error

unfoldable pub as_scope : Artifact → Result AuthorizedProjectContext
as_scope (project_access_scope a) = ok a
as_scope _ = err value_error

unfoldable pub as_plan : Artifact → Result RetrievalPlan
as_plan (retrieval_plan a) = ok a
as_plan _ = err value_error

unfoldable pub as_draft : Artifact → Result GroundedAnswerDraft
as_draft (answer_draft a) = ok a
as_draft _ = err value_error

unfoldable pub as_prompt : Artifact → Result PromptSnapshot
as_prompt (prompt_snapshot a) = ok a
as_prompt _ = err value_error

-- `candidate_project_codes`, and no codes where there are none.
unfoldable pub codes_of : Artifact → List String
codes_of (project_selection a) = a.candidate_project_codes
codes_of _ = []

unfoldable pub record_prompt_snapshot : ℕ → String → PromptSnapshot → Exec QaDb ℕ
record_prompt_snapshot run model snapshot = do
  row ← get_run run
  put_run run (record row {
    model_alias = some model;
    prompt_version = some (decimal snapshot.version);
    prompt_content_hash = some snapshot.content_hash;
  })
  save_artifact run (prompt_snapshot snapshot)

unfoldable pub record_llm_usage : ℕ → ℕ → ℕ → Exec QaDb Unit
record_llm_usage run input output = do
  row ← get_run run
  put_run run (record row {
    input_tokens = row.input_tokens + input;
    output_tokens = row.output_tokens + output;
    total_tokens = row.total_tokens + (input + output);
  })

unfoldable pub increment_retrieval_rounds : ℕ → Exec QaDb Unit
increment_retrieval_rounds run = do
  row ← get_run run
  put_run run (record row { retrieval_rounds = suc row.retrieval_rounds })
