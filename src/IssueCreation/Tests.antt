-- ===== src/IssueCreation/Tests.antt =====
-- A confirmed draft, executed twice and then reconciled.
use it_outsourcing_knowledge.Base.{ℕ, ◌≡◌, ◌⊎◌, refl, none, some, [], ◌∷◌}
use it_outsourcing_knowledge.Base.Exec.{Error, Result, ok, err}
use it_outsourcing_knowledge.Base.Table.{find, put, add}
use it_outsourcing_knowledge.Base.Query.{query}
use it_outsourcing_knowledge.Base.Sort.{sort, insert}
use it_outsourcing_knowledge.Access.{
  developer, active, AccessStore, authorize_project, get_active_membership, first_membership,
  is_active_membership, joined, to_access, context_of,
}
use it_outsourcing_knowledge.IssueTracker.{
  get_issue_by_request_id, request_row, is_request, oldest_first, create_issue, insert_new,
  active_project, new_issue, insert_issue, after_insert, log_issue, to_created, six_digits,
}
use it_outsourcing_knowledge.IssueWorkflow.{
  get_draft, get_confirmation, to_receipt, build_create_request, get_record, find_record, to_record,
  reserve, insert_record, new_record, complete_record, update_record, completed_record,
  set_draft_status,
}
use it_outsourcing_knowledge.Issues.{
  created, confirmed, confirmed_tool, IssueDraft, ToolConfirmation, ToolConfirmationReceipt,
  IssueDb, IssueTexts,
}
use it_outsourcing_knowledge.IssueCreation.{
  answers, unreachable, answer_lost, IssueCreationOutcome, created_now, already_created, reconciled,
  lookup_issue, write_request, after_write, pending, enqueue_reconciliation, IssueContext, execute,
  permitted, authorize, replay_or_write, reserve_and_write, complete_or, write_issue,
  complete_creation, outcome_from_record, reconcile, reconcile_open, in_session,
}
use it_outsourcing_knowledge.IssueCreation.Safety.{Permitted, execute-Permitted}
use it_outsourcing_knowledge.IssueCreation.Replay.{execute_replays}
use it_outsourcing_knowledge.Queue.{enqueue, validate_enqueue_request, build_job, insert_job}
use it_outsourcing_knowledge.Base.Text.{strip}
use it_outsourcing_knowledge.Samples.{strokes}

-- Texts whose digest is the title.
abbrev texts : IssueTexts
texts = record {
  upper = λ s. s;
  payload_hash = λ request. request.title;
  error_code_of = λ s. none;
}

abbrev draft_row : IssueDraft
draft_row = record {
  run_id = 2;
  project_id = 7;
  created_by = 5;
  title = "Crash";
  description = "It crashes";
  issue_type = "BUG";
  proposed_priority = "MEDIUM";
  module_name = none;
  environment = none;
  reproduction_steps = [];
  expected_behavior = none;
  actual_behavior = none;
  evidence_ids = [];
  status = confirmed;
  created_at = 10;
  updated_at = 10;
}

abbrev confirmation_row : ToolConfirmation
confirmation_row = record {
  run_id = 2;
  tool_name = "project_tracker.create_issue";
  request_payload_hash = "Crash";
  status = some confirmed_tool;
  confirmed_by = some 5;
  confirmed_at = some 11;
  expires_at = some 900;
  created_at = 11;
}

abbrev store : AccessStore
store = record {
  projects =
      (7, record { company_id = 1; client_id = 2; code = "P"; lifecycle_status = active }) ∷ [];
  memberships =
      record { project_id = 7; user_id = 5; role = developer; valid_from = 0; valid_to = none }
      ∷ [];
  spaces = [];
  docs = record { documents = []; versions = [] };
}

abbrev db : IssueDb
db = record {
  drafts = (3, draft_row) ∷ [];
  confirmations = (4, confirmation_row) ∷ [];
  records = [];
  sandbox_projects = record { id = 1; project_id = 7; external_key = "P"; status = "active" } ∷ [];
  issues = [];
  issue_events = [];
  jobs = [];
  access = store;
}

abbrev context : ℕ → IssueContext
context k = record {
  now = 20;
  stamp = record { key = k; at = 20 };
  namespace = "prod";
  job_key = k;
  lookup = answers;
  write = answers;
}

execute-Permitted_example :
    ((row : IssueDraft) × (receipt : ToolConfirmationReceipt) × Permitted strokes texts
        (context 8)
        3
        4
        5
        db
        row
        receipt)
    ⊎ ((e : Error) × (execute strokes texts (context 8) 3 4 5 db ≡ (err e, db)))
execute-Permitted_example = execute-Permitted strokes texts (context 8) 3 4 5 db

abbrev made : IssueCreationOutcome
made = record {
  status = created_now;
  draft_id = 3;
  request_id = "III";
  issue_key = some "P-000008";
  issue_status = some "OPEN";
}

abbrev executed : Result IssueCreationOutcome × IssueDb
executed = in_session (execute strokes texts (context 8) 3 4 5) db

made_now : executed ≡ (ok made, executed.1)
unfolding in_session execute permitted get_draft get_confirmation to_receipt build_create_request
    authorize authorize_project get_active_membership first_membership is_active_membership joined
    to_access context_of find get_record find_record to_record replay_or_write reserve_and_write
    reserve insert_record new_record get_issue_by_request_id request_row is_request query sort
    insert oldest_first complete_or write_issue create_issue insert_new active_project new_issue
    insert_issue after_insert log_issue complete_creation complete_record update_record
    completed_record set_draft_status put add outcome_from_record to_created six_digits lookup_issue
    write_request after_write
made_now = refl

-- The tracker makes the issue and its answer is lost; a reconciliation finds the issue.
abbrev losing : IssueContext
losing = record (context 8) { write = answer_lost }

found_again :
    (in_session
      (reconcile strokes texts (context 9) 3)
      (in_session (execute strokes texts losing 3 4 5) db).1).0
    ≡ ok (record made { status = reconciled })
unfolding in_session execute permitted get_draft get_confirmation to_receipt build_create_request
    authorize authorize_project get_active_membership first_membership is_active_membership joined
    to_access context_of find get_record find_record to_record replay_or_write reserve_and_write
    reserve insert_record new_record get_issue_by_request_id request_row is_request query sort
    insert oldest_first complete_or write_issue create_issue insert_new active_project new_issue
    insert_issue after_insert log_issue complete_creation complete_record update_record
    completed_record set_draft_status put add outcome_from_record to_created six_digits lookup_issue
    write_request after_write pending enqueue_reconciliation reconcile reconcile_open enqueue
    validate_enqueue_request build_job insert_job strip
found_again = refl

-- Long after the confirmation has expired.
abbrev late : IssueContext
late = record {
  now = 5000;
  stamp = record { key = 9; at = 5000 };
  namespace = "prod";
  job_key = 9;
  lookup = unreachable;
  write = unreachable;
}

abbrev receipt : ToolConfirmationReceipt
receipt = record {
  id = 4;
  run_id = 2;
  tool_name = "project_tracker.create_issue";
  request_payload_hash = "Crash";
  status = confirmed_tool;
  confirmed_by = 5;
  confirmed_at = 11;
  expires_at = 900;
}

abbrev allowed : Result (IssueDraft × ToolConfirmationReceipt) × IssueDb
allowed = (ok (record draft_row { status = created; updated_at = 20 }, receipt), executed.1)

late-permitted : permitted strokes texts late 3 4 5 executed.1 ≡ allowed
unfolding in_session execute permitted get_draft get_confirmation to_receipt build_create_request
    authorize authorize_project get_active_membership first_membership is_active_membership joined
    to_access context_of find get_record find_record to_record replay_or_write reserve_and_write
    reserve insert_record new_record get_issue_by_request_id request_row is_request query sort
    insert oldest_first complete_or write_issue create_issue insert_new active_project new_issue
    insert_issue after_insert log_issue complete_creation complete_record update_record
    completed_record set_draft_status put add outcome_from_record to_created six_digits lookup_issue
    write_request after_write
late-permitted = refl

execute_replays_example :
    (again : IssueCreationOutcome) × (in_session (execute strokes texts late 3 4 5) executed.1
      ≡ (ok again, executed.1))
    × (again.status ≡ already_created)
    × (again.issue_key ≡ made.issue_key)
    × (again.issue_status ≡ made.issue_status)
execute_replays_example =
    execute_replays strokes texts (context 8) late 3 4 5 4 5 db executed.1 executed.1 made
      "P-000008" (record draft_row { status = created; updated_at = 20 }) receipt made_now refl refl
      late-permitted
