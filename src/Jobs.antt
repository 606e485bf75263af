-- ===== src/Jobs.antt =====
-- The job vocabulary: application/ports/job_queue.py, the table `background_jobs` of
-- infrastructure/db/models/schema.py and the job types of workers/handlers.py and domain/runs.py.
-- Times and durations are whole microseconds; a primary key is its `uuid` as a number.
use it_outsourcing_knowledge.Base.{ℕ, String, Bool, true, false, Option}
use it_outsourcing_knowledge.Base.Table.{Table}

pub data JobState : Type 0 where
  pending running succeeded failed : JobState

pub record EnqueueJobRequest : Type 0 where
  pub job_type : String
  pub aggregate_id : String
  pub max_attempts : ℕ

pub record QueuedJob : Type 0 where
  pub job_id : String
  pub job_type : String
  pub aggregate_id : String
  pub state : JobState
  pub attempts : ℕ
  pub max_attempts : ℕ
  pub worker_id : Option String
  pub last_error_code : Option String
  pub available_at : ℕ
  pub lease_expires_at : Option ℕ
  pub heartbeat_at : Option ℕ

-- A row of `background_jobs`, without its primary key.
pub record BackgroundJob : Type 0 where
  pub namespace : String
  pub job_type : String
  pub aggregate_id : String
  pub status : JobState
  pub attempt_count : ℕ
  pub max_attempts : ℕ
  pub available_at : ℕ
  pub locked_by : Option String
  pub locked_at : Option ℕ
  pub heartbeat_at : Option ℕ
  pub lease_expires_at : Option ℕ
  pub last_error : Option String
  pub created_at : ℕ
  pub updated_at : ℕ

abbrev pub JobTable : Type 0
JobTable = Table BackgroundJob

abbrev pub is_pending : JobState → Bool
is_pending pending = true
is_pending _ = false

abbrev pub is_running : JobState → Bool
is_running running = true
is_running _ = false

-- The default of `EnqueueJobRequest.max_attempts`.
abbrev pub default_max_attempts : ℕ
default_max_attempts = 3

abbrev pub execute_agent_run : String
execute_agent_run = "EXECUTE_AGENT_RUN"

abbrev pub resume_agent_run : String
resume_agent_run = "RESUME_AGENT_RUN"

abbrev pub reconcile_issue_create : String
reconcile_issue_create = "RECONCILE_ISSUE_CREATE"
