-- ===== src/IssueWorkflow.antt =====
-- infrastructure/db/repositories/issue_workflow.py: drafts and confirmations in the session of the
-- caller, and the idempotency records, each of whose operations is a transaction of its own; and
-- the request that application/services/issue_drafts.py builds from a draft.
use it_outsourcing_knowledge.Base.{
  ℕ, String, Bool, true, false, not, ◌&&◌, Option, none, some, List, [], ◌∷◌, str_eq, ◌==◌,
  if◌then◌else◌, is_some, is_none,
}
use Prim.Native.String.{◌++◌}
use it_outsourcing_knowledge.Base.Exec.{
  lookup_error, value_error, runtime_error, Result, ok, err, Exec, pure, lift, gets, or_raise,
  raise_if, modify, ◌>>=◌, ◌>>◌,
}
use it_outsourcing_knowledge.Base.Table.{find, put}
use it_outsourcing_knowledge.Base.Uuid.{UuidCodec}
use it_outsourcing_knowledge.Issues.{
  IssueDraftStatus, ToolConfirmationStatus, in_progress, completed, IssueDraft, ToolConfirmation,
  ToolConfirmationReceipt, CreateIssueRequest, CreatedIssue, IdempotencyRecord, IssueDb, IssueTexts,
}

unfoldable pub get_draft : ℕ → Exec IssueDb IssueDraft
get_draft id = do found ← gets (λ db. find id db.drafts); or_raise found lookup_error

unfoldable pub set_draft_status : ℕ → ℕ → IssueDraftStatus → Exec IssueDb IssueDraft
set_draft_status now id status = do
  found ← gets (λ db. find id db.drafts)
  row ← or_raise found lookup_error
  let new : IssueDraft = record row { status = status; updated_at = now }
  modify (λ db. record db { drafts = put id new db.drafts })
  pure new

-- `_to_confirmation`
unfoldable pub to_receipt : ℕ → ToolConfirmation → Result ToolConfirmationReceipt
to_receipt id row = complete_receipt row.status row.confirmed_by row.confirmed_at row.expires_at
  where
    complete_receipt :
        Option ToolConfirmationStatus
        → Option ℕ
        → Option ℕ
        → Option ℕ
        → Result ToolConfirmationReceipt
    complete_receipt (some status) (some by) (some at) (some until) = ok (record {
      id = id;
      run_id = row.run_id;
      tool_name = row.tool_name;
      request_payload_hash = row.request_payload_hash;
      status = status;
      confirmed_by = by;
      confirmed_at = at;
      expires_at = until;
    })
    complete_receipt _ _ _ _ = err value_error

unfoldable pub get_confirmation : ℕ → Exec IssueDb ToolConfirmationReceipt
get_confirmation id = do
  found ← gets (λ db. find id db.confirmations)
  row ← or_raise found lookup_error
  lift (to_receipt id row)

abbrev pub is_record : String → String → IdempotencyRecord → Bool
is_record namespace request_id r = str_eq r.namespace namespace && str_eq r.request_id request_id

-- `SELECT … WHERE namespace = … AND request_id = …`, at most one by the table's unique key.
unfoldable pub find_record : String → String → List IdempotencyRecord → Option IdempotencyRecord
find_record namespace request_id [] = none
find_record namespace request_id (r ∷ rs) =
    let rest = find_record namespace request_id rs in
    if is_record namespace request_id r then some r else rest

-- `_to_record`
unfoldable pub to_record : Option IdempotencyRecord → Result (Option IdempotencyRecord)
to_record none = ok none
to_record (some r) = if is_none r.project_id then err value_error else ok (some r)

unfoldable pub get_record : String → String → Exec IssueDb (Option IdempotencyRecord)
get_record namespace request_id db = (to_record (find_record namespace request_id db.records), db)

unfoldable pub new_record : String → String → ℕ → IdempotencyRecord
new_record namespace request_id project = record {
  namespace = namespace;
  request_id = request_id;
  project_id = some project;
  status = in_progress;
  resource_type = none;
  resource_id = none;
  response = none;
}

-- The insertion of `reserve`, and whether it inserted.
unfoldable pub insert_record : String → String → ℕ → Exec IssueDb Bool
insert_record namespace request_id project db =
    if is_some (find_record namespace request_id db.records)
    then (ok false, db)
    else (ok true, record db { records = new_record namespace request_id project ∷ db.records })

abbrev pub is_project : ℕ → Option ℕ → Bool
is_project project none = false
is_project project (some p) = p == project

unfoldable pub reserve : String → String → ℕ → Exec IssueDb (IdempotencyRecord × Bool)
reserve namespace request_id project = do
  created ← insert_record namespace request_id project
  found ← get_record namespace request_id
  row ← or_raise found runtime_error
  raise_if (not (is_project project row.project_id)) value_error
  pure (row, created)

-- The row that `complete` leaves.
unfoldable pub completed_record : String → CreatedIssue → IdempotencyRecord → IdempotencyRecord
completed_record resource_type created r = record r {
  status = completed;
  resource_type = some resource_type;
  resource_id = some created.issue_key;
  response = some created;
}

unfoldable pub update_record :
    String
    → String
    → (IdempotencyRecord → IdempotencyRecord)
    → List IdempotencyRecord
    → List IdempotencyRecord
update_record namespace request_id f [] = []
update_record namespace request_id f (r ∷ rs) =
    (if is_record namespace request_id r then f r else r) ∷ update_record namespace request_id f rs

unfoldable pub complete_record : String → String → String → CreatedIssue → Exec IssueDb Unit
complete_record namespace request_id resource_type created = do
  found ← gets (λ db. find_record namespace request_id db.records)
  row ← or_raise found lookup_error
  modify (λ db. record db {
    records =
        update_record namespace request_id (completed_record resource_type created) db.records;
  })
  raise_if (is_none row.project_id) value_error

-- `"\n".join(f"- {x}" for x in steps)`
unfoldable pub join_steps : List String → String
join_steps [] = ""
join_steps (x ∷ []) = "- " ++ x
join_steps (x ∷ y ∷ xs) = "- " ++ (x ++ ("\n" ++ join_steps (y ∷ xs)))

abbrev steps_detail : List String → String
steps_detail [] = ""
steps_detail (x ∷ xs) = "\nReproduction steps:\n" ++ join_steps (x ∷ xs)

-- A heading and a text, if there is one and it is not empty.
abbrev detail : String → Option String → String
detail heading none = ""
detail heading (some String.[]) = ""
detail heading (some (String.◌∷◌ c s)) = heading ++ String.◌∷◌ c s

unfoldable pub build_create_request : UuidCodec → IssueTexts → ℕ → IssueDraft → CreateIssueRequest
build_create_request uuid texts id draft = record {
  project_id = uuid.to_str draft.project_id;
  request_id = uuid.to_str id;
  title = draft.title;
  description =
      draft.description
      ++ (steps_detail draft.reproduction_steps
          ++ (detail "\nExpected behavior:\n" draft.expected_behavior
              ++ detail "\nActual behavior:\n" draft.actual_behavior));
  issue_type = draft.issue_type;
  priority = draft.proposed_priority;
  reporter_id = uuid.to_str draft.created_by;
  module_name = draft.module_name;
  error_code = texts.error_code_of draft.description;
  environment = draft.environment;
}
