-- ===== src/IssueConfirmation/Tests.antt =====
-- A user confirms a draft ten microseconds after it was made.
use it_outsourcing_knowledge.Base.{ℕ, ◌+◌, ◌≡◌, refl, false, none, some, [], ◌∷◌, ltb}
use it_outsourcing_knowledge.Base.Exec.{ok}
use it_outsourcing_knowledge.Base.Table.{find, put, add}
use it_outsourcing_knowledge.Base.Query.{query}
use it_outsourcing_knowledge.Base.Sort.{sort, insert}
use it_outsourcing_knowledge.RunService.{confirm}
use it_outsourcing_knowledge.Issues.{
  draft, confirmed, confirmed_tool, IssueDraft, IssueDraftStatus, ToolConfirmationReceipt, IssueDb,
  IssueTexts,
}
use it_outsourcing_knowledge.IssueWorkflow.{
  get_draft, set_draft_status, to_receipt, build_create_request,
}
use it_outsourcing_knowledge.IssueConfirmation.{
  is_same_decision, latest_first, confirmation_row, keep_or_add, save_confirmation,
  create_issue_tool, decision_of, draft_status_of, prepare, record_decision,
}
use it_outsourcing_knowledge.IssueConfirmation.Saved.{Says}
use it_outsourcing_knowledge.IssueConfirmation.Decision.{record_decision_ok}
use it_outsourcing_knowledge.Samples.{strokes}

-- Texts whose digest is the title.
abbrev texts : IssueTexts
texts = record {
  upper = λ s. s;
  payload_hash = λ request. request.title;
  error_code_of = λ s. none;
}

abbrev draft_at : IssueDraftStatus → ℕ → IssueDraft
draft_at status now = record {
  run_id = 2;
  project_id = 7;
  created_by = 5;
  title = "Crash";
  description = "It crashes";
  issue_type = "BUG";
  proposed_priority = "MEDIUM";
  module_name = none;
  environment = none;
  reproduction_steps = [];
  expected_behavior = none;
  actual_behavior = none;
  evidence_ids = [];
  status = status;
  created_at = 10;
  updated_at = now;
}

abbrev db : IssueDb
db = record {
  drafts = (3, draft_at draft 10) ∷ [];
  confirmations = [];
  records = [];
  sandbox_projects = [];
  issues = [];
  issue_events = [];
  jobs = [];
  access = record {
    projects = [];
    memberships = [];
    spaces = [];
    docs = record { documents = []; versions = [] };
  };
}

abbrev receipt : ToolConfirmationReceipt
receipt = record {
  id = 4;
  run_id = 2;
  tool_name = create_issue_tool;
  request_payload_hash = "Crash";
  status = confirmed_tool;
  confirmed_by = 5;
  confirmed_at = 20;
  expires_at = 910;
}

abbrev after : IssueDb
after = record db {
  drafts = (3, draft_at confirmed 20) ∷ [];
  confirmations =
      (
        4,
        record {
          run_id = 2;
          tool_name = create_issue_tool;
          request_payload_hash = "Crash";
          status = some confirmed_tool;
          confirmed_by = some 5;
          confirmed_at = some 20;
          expires_at = some 910;
          created_at = 20;
        },
      )
      ∷ [];
}

decision_runs : record_decision strokes texts 900 20 4 3 5 confirm "Crash" db ≡ (ok receipt, after)
unfolding record_decision prepare get_draft save_confirmation keep_or_add confirmation_row
    to_receipt set_draft_status build_create_request find put add query sort insert is_same_decision
    latest_first
decision_runs = refl

record_decision_ok_example :
    (row : IssueDraft) × (find 3 db.drafts ≡ some row)
    × (ltb (row.created_at + 900) 20 ≡ false)
    × ("Crash" ≡ texts.payload_hash (build_create_request strokes texts 3 row))
    × Says receipt row.run_id create_issue_tool "Crash" (decision_of confirm) 5
    × (after.drafts
        ≡ put 3
            (record row { status = draft_status_of (decision_of confirm); updated_at = 20 })
            db.drafts)
record_decision_ok_example =
    record_decision_ok strokes texts 900 20 4 3 5 confirm "Crash" db receipt after decision_runs
