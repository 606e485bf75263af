-- ===== src/RunWorker.antt =====
-- workers/run_execution.py, workers/handlers.py and workers/main.py: one job of a run, from its
-- preparation to the queue's `complete` or `fail`. The graph that answers is a parameter: what it
-- returns or raises for a prepared run.
mod Settled
mod Tests
use it_outsourcing_knowledge.Base.{ℕ, String, not, none, some, str_eq, leb, if◌then◌else◌}
use it_outsourcing_knowledge.Base.Exec.{
  Error, type_name, value_error, runtime_error, unknown_job_type, Result, ok, err, Exec, pure,
  raise, lift, or_raise, transaction, ◌>>=◌, ◌>>◌,
}
use it_outsourcing_knowledge.Base.Uuid.{UuidCodec}
use it_outsourcing_knowledge.Jobs.{QueuedJob, JobTable, execute_agent_run, resume_agent_run}
use it_outsourcing_knowledge.Queue.{QueueConfig, complete, fail}
use it_outsourcing_knowledge.Runs.{Payload, RunRecord, Db, Stamp, RunGraphOutcome}
use it_outsourcing_knowledge.RunExecution.{
  prepare_execute, prepare_resume, persist_outcome, mark_final_failure,
}

-- `RunGraphExecutor`: the agent's graph, with the models and services behind it.
pub record RunGraphExecutor : Type 0 where
  pub execute : RunRecord → Result RunGraphOutcome
  pub resume : RunRecord → Payload → Result RunGraphOutcome

-- The clock and the generated keys of the two sessions of a handler, and of the queue's.
pub record Tick : Type 0 where
  pub first_now : ℕ
  pub first_stamp : Stamp
  pub last_now : ℕ
  pub last_stamp : Stamp
  pub queue_now : ℕ

-- `_persist_outcome` and `_persist_final_failure`: each a session of its own.
unfoldable pub persist : Tick → ℕ → RunGraphOutcome → Exec Db RunRecord
persist tick id outcome = transaction (persist_outcome tick.last_now tick.last_stamp id outcome)

unfoldable pub persist_final_failure : Tick → ℕ → Error → Exec Db RunRecord
persist_final_failure tick id e =
    transaction (mark_final_failure tick.last_now tick.last_stamp id (type_name e))

-- `_handle_failure` and the `raise` after it.
unfoldable pub handle_failure : Tick → QueuedJob → ℕ → Error → Exec Db Unit
handle_failure tick job id e =
    if leb job.max_attempts job.attempts
    then (do persist_final_failure tick id e; raise e)
    else raise e

-- `try: outcome = await graph… except … ; await self._persist_outcome(run_id, outcome)`
unfoldable pub settle : Tick → QueuedJob → ℕ → Result RunGraphOutcome → Exec Db Unit
settle tick job id (err e) = handle_failure tick job id e
settle tick job id (ok outcome) = do persist tick id outcome; pure tt

unfoldable pub run_id_of : UuidCodec → QueuedJob → Result ℕ
run_id_of uuid job = elim (uuid.parse job.aggregate_id) [ none ↦ err value_error | some id ↦ ok id ]

unfoldable pub execute_handler : UuidCodec → RunGraphExecutor → Tick → QueuedJob → Exec Db Unit
execute_handler uuid graph tick job = do
  id ← lift (run_id_of uuid job)
  preparation ← transaction (prepare_execute tick.first_now tick.first_stamp id)
  if not preparation.invoke then pure tt else settle tick job id (graph.execute preparation.run)

unfoldable pub resume_handler : UuidCodec → RunGraphExecutor → Tick → QueuedJob → Exec Db Unit
resume_handler uuid graph tick job = do
  id ← lift (run_id_of uuid job)
  preparation ← transaction (prepare_resume tick.first_stamp id)
  if not preparation.invoke then pure tt else (do
    payload ← or_raise preparation.resume_payload runtime_error
    settle tick job id (graph.resume preparation.run payload))

-- `HandlerRegistry.resolve` and the call, for the handlers of runs.
unfoldable pub handle : UuidCodec → RunGraphExecutor → Tick → QueuedJob → Exec Db Unit
handle uuid graph tick job =
    if str_eq job.job_type execute_agent_run
    then execute_handler uuid graph tick job
    else if str_eq job.job_type resume_agent_run
    then resume_handler uuid graph tick job
    else raise unknown_job_type

unfoldable pub on_jobs : {A : Type 0} → Exec JobTable A → Exec Db A
on_jobs body db = let (r, jobs) = body db.jobs in (r, record db { jobs = jobs })

-- `except Exception as exc: queue.fail(…)` and `else: queue.complete(…)`
unfoldable pub report :
    UuidCodec → QueueConfig → ℕ → String → QueuedJob → Result Unit → Exec Db Unit
report uuid c now worker job (ok a) = on_jobs (complete uuid now job.job_id worker)
report uuid c now worker job (err e) = on_jobs (fail uuid c now job.job_id worker (type_name e))

-- `_invoke_handler`
unfoldable pub invoke_handler :
    UuidCodec → QueueConfig → RunGraphExecutor → Tick → String → QueuedJob → Exec Db Unit
invoke_handler uuid c graph tick worker job db =
    let (r, db') = handle uuid graph tick job db in report uuid c tick.queue_now worker job r db'
