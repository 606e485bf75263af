-- ===== src/RunService/Tests.antt =====
-- A run that waits for its user's confirmation, resumed.
use it_outsourcing_knowledge.Base.{ℕ, ◌≡◌, refl, none, some, [], ◌∷◌}
use it_outsourcing_knowledge.Base.Exec.{Result, ok}
use it_outsourcing_knowledge.Base.Table.{find, add, put}
use it_outsourcing_knowledge.Base.Text.{strip, lstrip, rstrip, is_space}
use it_outsourcing_knowledge.Queue.{
  enqueue, validate_enqueue_request, insert_job, build_job, to_job,
}
use it_outsourcing_knowledge.RunRepository.{
  get_run, to_run, latest, latest_event_of_type, append_event, next_event, max_sequence, set_status,
  update_run,
}
use it_outsourcing_knowledge.Access.{
  developer, active, AccessStore, authorize_project, get_active_membership, first_membership,
  is_active_membership, joined, to_access, context_of,
}
use it_outsourcing_knowledge.Runs.{
  no_usage, issue_create, queued, waiting_confirmation, waiting_confirmation_event, text, get_value,
  AgentRun, AgentEvent, RunRecord, Db, Stamp,
}
use it_outsourcing_knowledge.RunService.{
  Request, ResumeRunCommand, confirm, authorize_identity, enqueue_job, resumable, resume_payload,
  queue_resume, resume,
}
use it_outsourcing_knowledge.RunService.Resume.{Resumable, Resumed, resume_ok}
use it_outsourcing_knowledge.Samples.{strokes}

abbrev store : AccessStore
store = record {
  projects =
      (7, record { company_id = 1; client_id = 2; code = "P"; lifecycle_status = active }) ∷ [];
  memberships =
      record { project_id = 7; user_id = 5; role = developer; valid_from = 0; valid_to = none }
      ∷ [];
  spaces = [];
  docs = record { documents = []; versions = [] };
}

abbrev waiting_row : AgentRun
waiting_row = record {
  thread_id = 1;
  company_id = 1;
  project_id = 7;
  user_id = 5;
  business_mode = some issue_create;
  status = waiting_confirmation;
  started_at = some 11;
  finished_at = none;
  usage = no_usage;
}

abbrev waiting_event : AgentEvent
waiting_event = record {
  id = 3;
  run_id = 2;
  sequence_no = 1;
  event_type = waiting_confirmation_event;
  payload = ("request_payload_hash", text "abc") ∷ [];
  created_at = 12;
}

abbrev waiting_db : Db
waiting_db = record {
  threads = [];
  runs = (2, waiting_row) ∷ [];
  events = waiting_event ∷ [];
  jobs = [];
  access = store;
}

abbrev stamp : ℕ → Stamp
stamp k = record { key = k; at = 20 }

abbrev request : Request
request = record {
  now = 20;
  thread_stamp = stamp 5;
  run_stamp = stamp 6;
  event_stamp = stamp 7;
  job_key = 8;
}

abbrev command : ResumeRunCommand
command = record { action = confirm; request_payload_hash = "abc" }

abbrev resumed_run : RunRecord
resumed_run = record {
  id = 2;
  thread_id = 1;
  company_id = 1;
  project_id = 7;
  user_id = 5;
  business_mode = issue_create;
  status = queued;
  started_at = some 11;
  finished_at = none;
  result_ref = none;
  result_summary = none;
}

abbrev after : Db
after = (resume strokes "prod" request 5 2 command waiting_db).1

abbrev result : Result RunRecord × Db
result = (ok resumed_run, after)

resume_returns : resume strokes "prod" request 5 2 command waiting_db ≡ result
unfolding resume resumable authorize_identity enqueue_job queue_resume resume_payload get_run to_run
    latest latest_event_of_type append_event next_event max_sequence set_status update_run get_value
    authorize_project get_active_membership first_membership is_active_membership joined to_access
    context_of find add put enqueue validate_enqueue_request insert_job build_job to_job strip
    lstrip rstrip is_space
resume_returns = refl

resume_ok_example :
    (row : AgentRun) × Resumable strokes request 5 2 "abc" waiting_db row
    × (queued ≡ queued)
    × Resumed strokes "prod" request 5 command 2 row waiting_db after
resume_ok_example =
    resume_ok strokes "prod" request 5 2 command waiting_db resumed_run after resume_returns
