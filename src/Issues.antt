-- ===== src/Issues.antt =====
-- domain/issues.py, application/ports/project_tracker.py and the tables of drafts, confirmations,
-- idempotency records and sandbox issues of infrastructure/db/models/schema.py.
use it_outsourcing_knowledge.Base.{ℕ, String, Option, List}
use it_outsourcing_knowledge.Base.Table.{Table}
use it_outsourcing_knowledge.Jobs.{JobTable}
use it_outsourcing_knowledge.Access.{AccessStore}

pub data IssueDraftStatus : Type 0 where
  draft confirmed cancelled created : IssueDraftStatus

pub data ToolConfirmationStatus : Type 0 where
  confirmed_tool cancelled_tool : ToolConfirmationStatus

pub data IdempotencyStatus : Type 0 where
  in_progress completed : IdempotencyStatus

-- A row of `issue_drafts`, without its primary key.
pub record IssueDraft : Type 0 where
  pub run_id : ℕ
  pub project_id : ℕ
  pub created_by : ℕ
  pub title : String
  pub description : String
  pub issue_type : String
  pub proposed_priority : String
  pub module_name : Option String
  pub environment : Option String
  pub reproduction_steps : List String
  pub expected_behavior : Option String
  pub actual_behavior : Option String
  pub evidence_ids : List String
  pub status : IssueDraftStatus
  pub created_at : ℕ
  pub updated_at : ℕ

-- A row of `tool_confirmations`. A status that is not one of the enumeration's is `none`.
pub record ToolConfirmation : Type 0 where
  pub run_id : ℕ
  pub tool_name : String
  pub request_payload_hash : String
  pub status : Option ToolConfirmationStatus
  pub confirmed_by : Option ℕ
  pub confirmed_at : Option ℕ
  pub expires_at : Option ℕ
  pub created_at : ℕ

pub record ToolConfirmationReceipt : Type 0 where
  pub id : ℕ
  pub run_id : ℕ
  pub tool_name : String
  pub request_payload_hash : String
  pub status : ToolConfirmationStatus
  pub confirmed_by : ℕ
  pub confirmed_at : ℕ
  pub expires_at : ℕ

pub record CreateIssueRequest : Type 0 where
  pub project_id : String
  pub request_id : String
  pub title : String
  pub description : String
  pub issue_type : String
  pub priority : String
  pub reporter_id : String
  pub module_name : Option String
  pub error_code : Option String
  pub environment : Option String

pub record CreatedIssue : Type 0 where
  pub project_id : String
  pub request_id : String
  pub issue_key : String
  pub status : String

-- A row of `idempotency_records`; its response is the one that `_complete` writes.
pub record IdempotencyRecord : Type 0 where
  pub namespace : String
  pub request_id : String
  pub project_id : Option ℕ
  pub status : IdempotencyStatus
  pub resource_type : Option String
  pub resource_id : Option String
  pub response : Option CreatedIssue

pub record SandboxProject : Type 0 where
  pub id : ℕ
  pub project_id : ℕ
  pub external_key : String
  pub status : String

-- A row of `sandbox_issues`, without its primary key.
pub record SandboxIssue : Type 0 where
  pub project_id : ℕ
  pub sandbox_project_id : ℕ
  pub issue_key : String
  pub title : String
  pub description : String
  pub issue_type : String
  pub priority : String
  pub status : String
  pub module_name : Option String
  pub error_code : Option String
  pub environment : Option String
  pub reporter_id : ℕ
  pub client_request_id : Option String
  pub created_at : ℕ

pub record SandboxIssueEvent : Type 0 where
  pub sandbox_issue_id : ℕ
  pub event_type : String
  pub actor_id : ℕ
  pub client_request_id : String

-- The part of the database that the issues use.
pub record IssueDb : Type 0 where
  pub drafts : Table IssueDraft
  pub confirmations : Table ToolConfirmation
  pub records : List IdempotencyRecord
  pub sandbox_projects : List SandboxProject
  pub issues : Table SandboxIssue
  pub issue_events : List SandboxIssueEvent
  pub jobs : JobTable
  pub access : AccessStore

-- What the issues use of the standard library: `str.upper`, and the digest of the JSON of a
-- request; and the first error code that the identifier extractor finds in a text.
pub record IssueTexts : Type 0 where
  pub upper : String → String
  pub payload_hash : CreateIssueRequest → String
  pub error_code_of : String → Option String
