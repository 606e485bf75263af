-- ===== src/IssueConfirmation.antt =====
-- application/services/issue_confirmation.py, and `save_confirmation` of
-- infrastructure/db/repositories/issue_workflow.py: the user's decision on a draft. The possible
-- duplicates that the user is shown with a draft are left out.
mod Saved
mod Decision
mod Tests
use it_outsourcing_knowledge.Base.{
  ℕ, ◌+◌, String, Bool, true, false, not, ◌&&◌, ◌||◌, Option, none, some, List, [], ◌∷◌, str_eq,
  ◌==◌, ltb, leb, is_some,
}
use it_outsourcing_knowledge.Base.Exec.{
  integrity_error, confirmation_payload_mismatch, confirmation_expired, Exec, pure, lift, gets,
  raise_if, modify, ◌>>=◌, ◌>>◌,
}
use it_outsourcing_knowledge.Base.Table.{Table, find, add}
use it_outsourcing_knowledge.Base.Query.{query}
use it_outsourcing_knowledge.Base.Uuid.{UuidCodec}
use it_outsourcing_knowledge.RunService.{ConfirmationAction, confirm, cancel}
use it_outsourcing_knowledge.Issues.{
  IssueDraftStatus, confirmed, cancelled, ToolConfirmationStatus, confirmed_tool, cancelled_tool,
  ToolConfirmation, ToolConfirmationReceipt, CreateIssueRequest, IssueDb, IssueTexts,
}
use it_outsourcing_knowledge.IssueWorkflow.{
  get_draft, set_draft_status, to_receipt, build_create_request,
}

abbrev pub is_status : ToolConfirmationStatus → Option ToolConfirmationStatus → Bool
is_status confirmed_tool (some confirmed_tool) = true
is_status cancelled_tool (some cancelled_tool) = true
is_status _ _ = false

abbrev pub is_user : ℕ → Option ℕ → Bool
is_user user none = false
is_user user (some u) = u == user

-- The condition of the query of `save_confirmation`.
unfoldable pub is_same_decision : ToolConfirmationReceipt → ℕ × ToolConfirmation → Bool
is_same_decision receipt (id, row) =
    row.run_id == receipt.run_id
    && (str_eq row.tool_name receipt.tool_name
        && (str_eq row.request_payload_hash receipt.request_payload_hash
            && (is_status receipt.status row.status
                && is_user receipt.confirmed_by row.confirmed_by)))

unfoldable pub latest_first : ℕ × ToolConfirmation → ℕ × ToolConfirmation → Bool
latest_first (i, a) (j, b) =
    ltb b.created_at a.created_at || a.created_at == b.created_at && leb i j

abbrev pub first_confirmation : Table ToolConfirmation → Option (ℕ × ToolConfirmation)
first_confirmation [] = none
first_confirmation (r ∷ rs) = some r

-- The row that `save_confirmation` adds.
unfoldable pub confirmation_row : ℕ → ToolConfirmationReceipt → ToolConfirmation
confirmation_row now receipt = record {
  run_id = receipt.run_id;
  tool_name = receipt.tool_name;
  request_payload_hash = receipt.request_payload_hash;
  status = some receipt.status;
  confirmed_by = some receipt.confirmed_by;
  confirmed_at = some receipt.confirmed_at;
  expires_at = some receipt.expires_at;
  created_at = now;
}

unfoldable pub keep_or_add :
    ℕ
    → ToolConfirmationReceipt
    → Option (ℕ × ToolConfirmation)
    → Exec IssueDb ToolConfirmationReceipt
keep_or_add now receipt (some found) = lift (to_receipt found.0 found.1)
keep_or_add now receipt none = do
  taken ← gets (λ db. is_some (find receipt.id db.confirmations))
  raise_if taken integrity_error
  modify (λ db. record db {
    confirmations = add receipt.id (confirmation_row now receipt) db.confirmations;
  })
  lift (to_receipt receipt.id (confirmation_row now receipt))

unfoldable pub save_confirmation :
    ℕ → ToolConfirmationReceipt → Exec IssueDb ToolConfirmationReceipt
save_confirmation now receipt = do
  existing ←
      gets (λ db.
        first_confirmation (query latest_first (is_same_decision receipt) 1 db.confirmations))
  keep_or_add now receipt existing

-- What the user confirms, with the fields that `ConfirmationRequest` copies from the request.
pub record ConfirmationRequest : Type 0 where
  pub draft_id : ℕ
  pub tool_name : String
  pub request : CreateIssueRequest
  pub request_payload_hash : String
  pub expires_at : ℕ
  pub evidence_ids : List String

-- `TOOL_NAME`
abbrev pub create_issue_tool : String
create_issue_tool = "project_tracker.create_issue"

abbrev pub decision_of : ConfirmationAction → ToolConfirmationStatus
decision_of confirm = confirmed_tool
decision_of cancel = cancelled_tool

abbrev pub draft_status_of : ToolConfirmationStatus → IssueDraftStatus
draft_status_of confirmed_tool = confirmed
draft_status_of cancelled_tool = cancelled

module _ (uuid : UuidCodec) (texts : IssueTexts) (ttl : ℕ) where
  unfoldable pub prepare : ℕ → Exec IssueDb ConfirmationRequest
  prepare id = do
    draft ← get_draft id
    let request = build_create_request uuid texts id draft
    pure (record {
      draft_id = id;
      tool_name = create_issue_tool;
      request = request;
      request_payload_hash = texts.payload_hash request;
      expires_at = draft.created_at + ttl;
      evidence_ids = draft.evidence_ids;
    })

  -- A decision at a time, under the key that a new confirmation gets.
  unfoldable pub record_decision :
      ℕ → ℕ → ℕ → ℕ → ConfirmationAction → String → Exec IssueDb ToolConfirmationReceipt
  record_decision now key id actor action payload_hash = do
    prepared ← prepare id
    raise_if (ltb prepared.expires_at now) confirmation_expired
    raise_if (not (str_eq payload_hash prepared.request_payload_hash)) confirmation_payload_mismatch
    draft ← get_draft id
    receipt ← save_confirmation now (record {
      id = key;
      run_id = draft.run_id;
      tool_name = create_issue_tool;
      request_payload_hash = prepared.request_payload_hash;
      status = decision_of action;
      confirmed_by = actor;
      confirmed_at = now;
      expires_at = prepared.expires_at;
    })
    updated ← set_draft_status now id (draft_status_of (decision_of action))
    pure receipt
