-- ===== src/RunWorker/Tests.antt =====
-- A queued run, executed by a graph that succeeds.
use it_outsourcing_knowledge.Base.{ℕ, ◌≡◌, ◌⊎◌, refl, false, none, some, [], ◌∷◌}
use it_outsourcing_knowledge.Base.Exec.{Result, ok, transaction}
use it_outsourcing_knowledge.Base.Table.{find, put}
use it_outsourcing_knowledge.Access.{AccessStore}
use it_outsourcing_knowledge.Jobs.{running, QueuedJob}
use it_outsourcing_knowledge.Runs.{
  no_usage, qa_mode, queued, run_queued, succeeded_kind, AgentRun, AgentEvent, Db, RunGraphOutcome,
}
use it_outsourcing_knowledge.RunRepository.{
  get_run, to_run, latest, latest_event_of_type, append_event, next_event, max_sequence,
  set_lifecycle, update_run,
}
use it_outsourcing_knowledge.RunExecution.{
  RunExecutionPreparation, require_run, prepare_execute, execute_after_queued, begin_execute,
  append_if, persist_outcome, persist_terminal, terminal_projection, outcome_payload,
}
use it_outsourcing_knowledge.RunWorker.{
  RunGraphExecutor, Tick, persist, settle, run_id_of, execute_handler,
}
use it_outsourcing_knowledge.RunWorker.Settled.{IsSettled, execute_handler_settles}
use it_outsourcing_knowledge.Samples.{strokes}

abbrev queued_row : AgentRun
queued_row = record {
  thread_id = 1;
  company_id = 1;
  project_id = 7;
  user_id = 5;
  business_mode = some qa_mode;
  status = queued;
  started_at = none;
  finished_at = none;
  usage = no_usage;
}

abbrev queued_event : AgentEvent
queued_event = record {
  id = 3;
  run_id = 2;
  sequence_no = 1;
  event_type = run_queued;
  payload = [];
  created_at = 9;
}

abbrev no_access : AccessStore
no_access = record {
  projects = [];
  memberships = [];
  spaces = [];
  docs = record { documents = []; versions = [] };
}

abbrev db : Db
db = record {
  threads = [];
  runs = (2, queued_row) ∷ [];
  events = queued_event ∷ [];
  jobs = [];
  access = no_access;
}

abbrev answer : RunGraphOutcome
answer = record {
  kind = succeeded_kind;
  result_ref = some "answer-1";
  summary = none;
  waiting_payload = none;
}

abbrev graph : RunGraphExecutor
graph = record { execute = λ run. ok answer; resume = λ run payload. ok answer }

abbrev tick : Tick
tick = record {
  first_now = 10;
  first_stamp = record { key = 5; at = 10 };
  last_now = 20;
  last_stamp = record { key = 6; at = 20 };
  queue_now = 21;
}

abbrev job : QueuedJob
job = record {
  job_id = "I";
  job_type = "EXECUTE_AGENT_RUN";
  aggregate_id = "II";
  state = running;
  attempts = 1;
  max_attempts = 3;
  worker_id = some "w1";
  last_error_code = none;
  available_at = 9;
  lease_expires_at = some 40;
  heartbeat_at = some 9;
}

abbrev after : Db
after = (execute_handler strokes graph tick job db).1

abbrev result : Result Unit × Db
result = (ok tt, after)

handler_returns : execute_handler strokes graph tick job db ≡ result
unfolding execute_handler run_id_of transaction prepare_execute execute_after_queued begin_execute
    append_if require_run get_run to_run latest latest_event_of_type append_event next_event
    max_sequence set_lifecycle update_run settle persist persist_outcome persist_terminal
    terminal_projection outcome_payload find put
handler_returns = refl

execute_handler_settles_example :
    (id : ℕ) × (run_id_of strokes job ≡ ok id)
    × (((preparation : RunExecutionPreparation) × (prepare_execute 10
              (record { key = 5; at = 10 })
              id
              db
            ≡ (ok preparation, after))
          × (preparation.invoke ≡ false))
        ⊎ IsSettled id after)
execute_handler_settles_example =
    execute_handler_settles strokes graph tick job db after tt handler_returns
