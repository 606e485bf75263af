-- ===== src/RunHistory.antt =====
-- The life of a run over the transactions of the API (application/services/runs.py), of the workers
-- (application/services/run_execution.py) and of the sessions of graphs (runtime/qa.py and
-- runtime/issue.py): the steps that a row of `agent_runs` may take, together with the number of
-- terminal events in its log.
pub mod Session
mod Local
mod Measures
pub mod Steps
mod Prepare
mod Requests
mod Trace
mod Tests
use it_outsourcing_knowledge.Base.{
  map_option, ℕ, ◌+◌, ◌≡◌, ◌⊎◌, refl, Bool, true, false, Option, none, some, List, ◌∷◌, is_some,
}
use it_outsourcing_knowledge.Base.Table.{find}
use it_outsourcing_knowledge.Runs.{
  without_usage, artifact_available, RunStatus, queued, running, waiting_confirmation, is_terminal,
  AgentRun, AgentEvent, AgentEventType, Payload, Stamp, Db,
}
use it_outsourcing_knowledge.RunRepository.{next_event}
use it_outsourcing_knowledge.RunRepository.Log.{count_terminal}

-- The run's owner, project and mode never change.
pub record SameRun (a b : AgentRun) : Type 0 where
  pub thread_id : b.thread_id ≡ a.thread_id
  pub company_id : b.company_id ≡ a.company_id
  pub project_id : b.project_id ≡ a.project_id
  pub user_id : b.user_id ≡ a.user_id
  pub business_mode : b.business_mode ≡ a.business_mode

-- From a row and a number of terminal events to the next ones.
pub data RunStep : Option AgentRun → ℕ → Option AgentRun → ℕ → Type 0 where
  stay : {o : Option AgentRun} {n : ℕ} → RunStep o n o n
  create :
      {row : AgentRun} {n : ℕ}
      → row.status ≡ queued
      → row.finished_at ≡ none
      → RunStep none n (some row) n
  begin :
      {a b : AgentRun} {n : ℕ}
      → a.status ≡ queued
      → b.status ≡ running
      → b.finished_at ≡ none
      → SameRun a b
      → RunStep (some a) n (some b) n
  await :
      {a b : AgentRun} {n : ℕ}
      → (a.status ≡ queued) ⊎ (a.status ≡ running)
      → b.status ≡ waiting_confirmation
      → b.finished_at ≡ none
      → SameRun a b
      → RunStep (some a) n (some b) n
  requeue :
      {a b : AgentRun} {n : ℕ}
      → a.status ≡ waiting_confirmation
      → b.status ≡ queued
      → b.finished_at ≡ a.finished_at
      → SameRun a b
      → RunStep (some a) n (some b) n
  end :
      {a b : AgentRun} {n : ℕ}
      → is_terminal a.status ≡ false
      → is_terminal b.status ≡ true
      → is_some b.finished_at ≡ true
      → SameRun a b
      → RunStep (some a) n (some b) (1 + n)
  measure :
      {o o' : Option AgentRun} {n : ℕ}
      → map_option without_usage o' ≡ map_option without_usage o
      → RunStep o n o' n

-- The log grows by artifacts of one run, each with the next number.
pub data Artifacts (run : ℕ) : List AgentEvent → List AgentEvent → Type 0 where
  nothing : {es : List AgentEvent} → Artifacts run es es
  another :
      {es es' : List AgentEvent} (stamp : Stamp) (payload : Payload)
      → Artifacts run es es'
      → Artifacts run es (next_event stamp run artifact_available payload es' ∷ es')

-- The log only grows, by one event with the next number of its run, or by the artifacts of a graph
-- session.
pub data Logs : List AgentEvent → List AgentEvent → Type 0 where
  same : {es : List AgentEvent} → Logs es es
  append :
      {es : List AgentEvent} (stamp : Stamp) (run : ℕ) (type : AgentEventType) (payload : Payload)
      → Logs es (next_event stamp run type payload es ∷ es)
  artifacts : {es es' : List AgentEvent} (run : ℕ) → Artifacts run es es' → Logs es es'

-- What happens to the run `j` and to the log from one state of the database to another.
abbrev pub Step : ℕ → Db → Db → Type 0
Step j db t =
    RunStep (find j db.runs) (count_terminal j db.events) (find j t.runs)
      (count_terminal j t.events)
    × Logs db.events t.events
