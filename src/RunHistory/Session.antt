-- ===== src/RunHistory/Session.antt =====
-- What the graph session of a worker (runtime/qa.py and `_invoke` of runtime/issue.py) writes of a run
-- and of its log: the store of infrastructure/db/repositories/qa_graph.py appends artifacts to the log
-- and counts what the graph uses, at no point asking for the status of the run.
use it_outsourcing_knowledge.Base.{◌||◌, ℕ, suc, ◌+◌, String, some, List, [], ◌∷◌}
use it_outsourcing_knowledge.Base.Int.{ℤ, pos, is_negative, magnitude}
use it_outsourcing_knowledge.Base.Decimal.{decimal}
use it_outsourcing_knowledge.Base.Exec.{
  lookup_error, value_error, raise_if, Exec, pure, gets, or_raise, modify, ◌>>=◌, ◌>>◌,
}
use it_outsourcing_knowledge.Base.Table.{find, put}
use it_outsourcing_knowledge.Runs.{
  artifact_available, Json, text, number, object, no_members, member, Payload, RunUsage, Db, Stamp,
}
use it_outsourcing_knowledge.RunRepository.{append_event}
use it_outsourcing_knowledge.QaState.{PromptSnapshot}

-- One call of the store. Of the usage, the estimate is what the deployment's cost policy makes of the
-- tokens of the run.
pub data GraphWrite : Type 0 where
  artifact_write : Stamp → String → Json → GraphWrite
  prompt_write : Stamp → String → PromptSnapshot → GraphWrite
  usage_write : ℤ → ℤ → (ℕ → ℕ → ℕ × String) → GraphWrite
  round_write : GraphWrite

abbrev pub artifact_payload : String → Json → Payload
artifact_payload type artifact = ("artifact_type", text type) ∷ ("artifact", artifact) ∷ []

abbrev pub prompt_json : PromptSnapshot → Json
prompt_json snapshot = object (
    member "config_key" (text snapshot.config_key) (
      member "content" (text snapshot.content) (
        member "version" (number (pos snapshot.version))
          (member "content_hash" (text snapshot.content_hash) no_members))))

-- `save_artifact`: `_next_sequence` reads the run and numbers the event after the last one of its log,
-- as the repository of the runs does.
unfoldable pub append_artifact : Stamp → ℕ → String → Json → Exec Db Unit
append_artifact stamp run type artifact = do
  append_event stamp run artifact_available (artifact_payload type artifact)
  pure tt

abbrev pub prompt_usage : String → PromptSnapshot → RunUsage → RunUsage
prompt_usage model snapshot usage = record usage {
  model_alias = some model;
  prompt_version = some (decimal snapshot.version);
  prompt_content_hash = some snapshot.content_hash;
}

abbrev pub token_usage : ℕ → ℕ → (ℕ → ℕ → ℕ × String) → RunUsage → RunUsage
token_usage input output estimate usage =
    let cost = estimate (usage.input_tokens + input) (usage.output_tokens + output) in
    record usage {
      input_tokens = usage.input_tokens + input;
      output_tokens = usage.output_tokens + output;
      total_tokens = usage.total_tokens + (input + output);
      estimated_cost_microunits = cost.0;
      cost_currency = cost.1;
    }

abbrev pub round_usage : RunUsage → RunUsage
round_usage usage = record usage { retrieval_rounds = suc usage.retrieval_rounds }

-- `run = await session.get(AgentRunModel, run_id)` and a change of its columns.
unfoldable pub update_usage : ℕ → (RunUsage → RunUsage) → Exec Db Unit
update_usage run change = do
  found ← gets (λ db. find run db.runs)
  row ← or_raise found lookup_error
  modify (λ db. record db { runs = put run (record row { usage = change row.usage }) db.runs })

unfoldable pub graph_write : ℕ → GraphWrite → Exec Db Unit
graph_write run (artifact_write stamp type artifact) = append_artifact stamp run type artifact
graph_write run (prompt_write stamp model snapshot) = do
  update_usage run (prompt_usage model snapshot)
  append_artifact stamp run "PROMPT_SNAPSHOT" (prompt_json snapshot)
graph_write run (usage_write input output estimate) = do
  raise_if (is_negative input || is_negative output) value_error
  update_usage run (token_usage (magnitude input) (magnitude output) estimate)
graph_write run round_write = update_usage run round_usage

-- The writes of one session, in their order, before its commit.
unfoldable pub graph_session : ℕ → List GraphWrite → Exec Db Unit
graph_session run [] = pure tt
graph_session run (w ∷ ws) = do graph_write run w; graph_session run ws
