-- ===== src/RunService.antt =====
-- application/services/runs.py: what an API request does to a run. The request's session is
-- committed when the service returns and rolled back when it raises (api/dependencies.py,
-- get_db_session), which is `transaction`.
pub mod Resume
mod Tests
use it_outsourcing_knowledge.Base.{
  ℕ, String, Bool, true, false, not, ◌&&◌, ◌||◌, Option, none, some, List, [], ◌∷◌, str_eq, ◌==◌,
  if◌then◌else◌,
}
use it_outsourcing_knowledge.Base.Exec.{
  Error, run_not_found, thread_not_found, run_access_denied, run_state_conflict,
  resume_input_mismatch, value_error, Result, ok, err, Exec, pure, raise, lift, gets, or_raise,
  raise_if, transaction, ◌>>=◌, ◌>>◌,
}
use it_outsourcing_knowledge.Base.Text.{strip, is_blank}
use it_outsourcing_knowledge.Base.Uuid.{UuidCodec}
use it_outsourcing_knowledge.Jobs.{
  EnqueueJobRequest, QueuedJob, execute_agent_run, resume_agent_run, default_max_attempts,
}
use it_outsourcing_knowledge.Queue.{enqueue}
use it_outsourcing_knowledge.Access.{AuthorizedProjectContext, authorize_project}
use it_outsourcing_knowledge.Runs.{
  RunBusinessMode, queued, run_queued, waiting_confirmation_event, run_resume_queued, is_waiting,
  is_issue_create, text, Payload, get_value, as_text, Thread, RunRecord, Db, Stamp,
}
use it_outsourcing_knowledge.RunRepository.{
  get_thread, create_thread, create_run, get_run, append_event, latest_event_of_type, set_status,
}

-- `ConfirmationAction` of domain/issues.py, and its values.
pub data ConfirmationAction : Type 0 where
  confirm cancel : ConfirmationAction

abbrev pub action_value : ConfirmationAction → String
action_value confirm = "confirm"
action_value cancel = "cancel"

pub record ResumeRunCommand : Type 0 where
  pub action : ConfirmationAction
  pub request_payload_hash : String

pub record CreateRunCommand : Type 0 where
  pub project_id : ℕ
  pub business_mode : RunBusinessMode
  pub query_text : String
  pub thread_id : Option ℕ

-- What a request reads from its surroundings: the clock, and the keys of the rows it inserts.
pub record Request : Type 0 where
  pub now : ℕ
  pub thread_stamp : Stamp
  pub run_stamp : Stamp
  pub event_stamp : Stamp
  pub job_key : ℕ

-- `AuthorizationService.authorize_identity`, on the session's tables.
unfoldable pub authorize_identity : UuidCodec → ℕ → ℕ → ℕ → Exec Db AuthorizedProjectContext
authorize_identity uuid now user project db =
    (authorize_project uuid now user project db.access, db)

-- The queue's writes in the session (`SessionJobEnqueuer`).
unfoldable pub enqueue_job : UuidCodec → String → ℕ → ℕ → EnqueueJobRequest → Exec Db QueuedJob
enqueue_job uuid namespace key now request db =
    let (r, jobs) = enqueue uuid namespace key now request db.jobs in (r, record db { jobs = jobs })

abbrev pub run_job : UuidCodec → String → ℕ → EnqueueJobRequest
run_job uuid job_type run = record {
  job_type = job_type;
  aggregate_id = uuid.to_str run;
  max_attempts = default_max_attempts;
}

-- The thread given by the command, if it belongs to the user, the project and the company.
unfoldable pub check_thread : ℕ → ℕ → ℕ → ℕ × Thread → Exec Db ℕ
check_thread company project user (id, thread) =
    if not (thread.project_id == project)
      || not (thread.company_id == company)
      || not (thread.user_id == user)
    then raise run_access_denied
    else pure id

unfoldable pub thread_of : Stamp → ℕ → ℕ → ℕ → Option ℕ → Exec Db ℕ
thread_of stamp company project user none = do
  thread ← create_thread stamp company project user none
  pure thread.0
thread_of stamp company project user (some id) = do
  found ← get_thread id
  thread ← or_raise found thread_not_found
  check_thread company project user (id, thread)

module _ (uuid : UuidCodec) (namespace : String) (request : Request) (user : ℕ) where
  unfoldable pub create : CreateRunCommand → Exec Db RunRecord
  create command = do
    raise_if (is_blank command.query_text) value_error
    authorized ← authorize_identity uuid request.now user command.project_id
    thread ←
        thread_of request.thread_stamp authorized.scope.company_id command.project_id user
          command.thread_id
    run ←
        create_run request.run_stamp thread authorized.scope.company_id command.project_id user
          command.business_mode
    append_event request.event_stamp run.id run_queued
        (("query_text", text (strip command.query_text)) ∷ [])
    enqueue_job uuid namespace request.job_key request.now (run_job uuid execute_agent_run run.id)
    pure run

  -- The tests of `resume_run`, up to the hash that it expects.
  unfoldable pub resumable : ℕ → Exec Db (RunRecord × String)
  resumable id = do
    found ← get_run id
    run ← or_raise found run_not_found
    authorized ← authorize_identity uuid request.now user run.project_id
    raise_if (not (authorized.scope.company_id == run.company_id)) run_access_denied
    raise_if (not (user == run.user_id)) run_access_denied
    raise_if (not (is_issue_create run.business_mode)) run_state_conflict
    raise_if (not (is_waiting run.status)) run_state_conflict
    event ← latest_event_of_type run.id waiting_confirmation_event
    waiting ← or_raise event run_state_conflict
    expected_hash ←
        or_raise (as_text (get_value "request_payload_hash" waiting.payload)) run_state_conflict
    pure (run, expected_hash)

  unfoldable pub resume_payload : ResumeRunCommand → Payload
  resume_payload command =
      ("action", text (action_value command.action))
      ∷ ("request_payload_hash", text command.request_payload_hash)
      ∷ ("actor_id", text (uuid.to_str user))
      ∷ []

  -- The writes of `resume_run`.
  unfoldable pub queue_resume : ResumeRunCommand → ℕ → Exec Db RunRecord
  queue_resume command id = do
    append_event request.event_stamp id run_resume_queued (resume_payload command)
    updated ← set_status id queued
    enqueue_job uuid namespace request.job_key request.now (run_job uuid resume_agent_run id)
    pure updated

  unfoldable pub resume : ℕ → ResumeRunCommand → Exec Db RunRecord
  resume id command = do
    accepted ← resumable id
    raise_if (not (str_eq command.request_payload_hash accepted.1)) resume_input_mismatch
    queue_resume command accepted.0.id

  unfoldable pub get : ℕ → Exec Db RunRecord
  get id = do
    found ← get_run id
    run ← or_raise found run_not_found
    authorized ← authorize_identity uuid request.now user run.project_id
    raise_if (not (authorized.scope.company_id == run.company_id)) run_access_denied
    pure run

  -- The requests as the API runs them, in a session of their own.
  unfoldable pub post_run : CreateRunCommand → Exec Db RunRecord
  post_run command = transaction (create command)

  unfoldable pub post_resume : ℕ → ResumeRunCommand → Exec Db RunRecord
  post_resume id command = transaction (resume id command)
