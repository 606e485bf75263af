-- ===== src/IssueCreation.antt =====
-- application/services/issue_creation.py: a confirmed draft becomes an issue of the tracker, once.
-- Drafts, confirmations and issues are written in the session of runtime/issue.py; idempotency
-- records and jobs are committed at once.
mod Safety
mod Recorded
mod Replay
mod Tests
use it_outsourcing_knowledge.Base.{
  ℕ, String, Bool, true, false, not, ◌&&◌, ◌||◌, Option, none, some, List, [], ◌∷◌, str_eq, ltb,
  ◌==◌, if◌then◌else◌, is_some, is_none,
}
use it_outsourcing_knowledge.Base.Exec.{
  Error, lookup_error, runtime_error, issue_creation_denied, provider_unavailable, Result, ok, err,
  Exec, pure, raise, lift, gets, or_raise, raise_if, ◌>>=◌, ◌>>◌,
}
use it_outsourcing_knowledge.Base.Uuid.{UuidCodec}
use it_outsourcing_knowledge.Jobs.{EnqueueJobRequest, QueuedJob, reconcile_issue_create}
use it_outsourcing_knowledge.Queue.{enqueue}
use it_outsourcing_knowledge.Access.{
  ProjectRole, viewer, AuthorizedProjectContext, authorize_project,
}
use it_outsourcing_knowledge.Issues.{
  IssueDraftStatus, draft, confirmed, cancelled, created, ToolConfirmationStatus, confirmed_tool,
  IdempotencyStatus, completed, IssueDraft, ToolConfirmationReceipt, CreateIssueRequest,
  CreatedIssue, IdempotencyRecord, IssueDb, IssueTexts,
}
use it_outsourcing_knowledge.IssueTracker.{IssueStamp, get_issue_by_request_id, create_issue}
use it_outsourcing_knowledge.IssueWorkflow.{
  get_draft, set_draft_status, get_confirmation, get_record, reserve, complete_record,
  build_create_request,
}

pub data IssueCreationStatus : Type 0 where
  created_now already_created pending_reconciliation reconciled : IssueCreationStatus

pub record IssueCreationOutcome : Type 0 where
  pub status : IssueCreationStatus
  pub draft_id : ℕ
  pub request_id : String
  pub issue_key : Option String
  pub issue_status : Option String

-- How a call of the tracker ends: with its answer, or in a `TimeoutError` or an `OSError`, before the
-- tracker has done what is asked or after it.
pub data TrackerCall : Type 0 where
  answers unreachable answer_lost : TrackerCall

-- What an execution reads from its surroundings, with how its calls of the tracker end.
pub record IssueContext : Type 0 where
  pub now : ℕ
  pub stamp : IssueStamp
  pub namespace : String
  pub job_key : ℕ
  pub lookup : TrackerCall
  pub write : TrackerCall

abbrev pub reach : {A : Type 0} → TrackerCall → Exec IssueDb A → Exec IssueDb A
reach answers m = m
reach unreachable m = raise provider_unavailable
reach answer_lost m = do m; raise provider_unavailable

-- `except (TimeoutError, OSError)`
abbrev pub is_unavailable : Error → Bool
is_unavailable provider_unavailable = true
is_unavailable _ = false

abbrev pub may_write : ProjectRole → Bool
may_write viewer = false
may_write _ = true

abbrev pub any_may_write : List ProjectRole → Bool
any_may_write [] = false
any_may_write (r ∷ rs) = may_write r || any_may_write rs

abbrev pub is_confirmed : ToolConfirmationStatus → Bool
is_confirmed confirmed_tool = true
is_confirmed _ = false

-- `draft.status in {CONFIRMED, CREATED}`
abbrev pub is_ready : IssueDraftStatus → Bool
is_ready confirmed = true
is_ready created = true
is_ready _ = false

abbrev pub is_completed : IdempotencyStatus → Bool
is_completed completed = true
is_completed _ = false

abbrev pub is_completed_record : Option IdempotencyRecord → Bool
is_completed_record none = false
is_completed_record (some r) = is_completed r.status

abbrev pub barrier : String
barrier = "sandbox_issue_create"

-- `except (KeyError, LookupError): raise IssueCreationDenied`
abbrev pub denied_if_missing : {A : Type 0} → Result A → Result A
denied_if_missing (err lookup_error) = err issue_creation_denied
denied_if_missing r = r

-- `_outcome_from_record`
unfoldable pub outcome_from_record :
    ℕ → String → IssueCreationStatus → Option CreatedIssue → Result IssueCreationOutcome
outcome_from_record id request_id status none = err runtime_error
outcome_from_record id request_id status (some response) = ok (record {
  status = status;
  draft_id = id;
  request_id = request_id;
  issue_key = some response.issue_key;
  issue_status = some response.status;
})

unfoldable pub authorize : UuidCodec → ℕ → ℕ → ℕ → Exec IssueDb AuthorizedProjectContext
authorize uuid now user project db = (authorize_project uuid now user project db.access, db)

module _ (uuid : UuidCodec) (texts : IssueTexts) (context : IssueContext) where
  -- `_complete`
  unfoldable pub complete_creation :
      ℕ → String → CreatedIssue → IssueCreationStatus → Exec IssueDb IssueCreationOutcome
  complete_creation id request_id issue status = do
    complete_record barrier request_id "sandbox_issue" issue
    set_draft_status context.now id created
    pure (record {
      status = status;
      draft_id = id;
      request_id = request_id;
      issue_key = some issue.issue_key;
      issue_status = some issue.status;
    })

  -- `_enqueue_reconciliation`
  unfoldable pub enqueue_reconciliation : ℕ → Exec IssueDb QueuedJob
  enqueue_reconciliation id db =
      let request : EnqueueJobRequest = record {
        job_type = reconcile_issue_create;
        aggregate_id = uuid.to_str id;
        max_attempts = 5;
      } in
      let (r, jobs) = enqueue uuid context.namespace context.job_key context.now request db.jobs in
      (r, record db { jobs = jobs })

  unfoldable pub pending : ℕ → String → Exec IssueDb IssueCreationOutcome
  pending id request_id = do
    enqueue_reconciliation id
    pure (record {
      status = pending_reconciliation;
      draft_id = id;
      request_id = request_id;
      issue_key = none;
      issue_status = none;
    })

  unfoldable pub lookup_issue : CreateIssueRequest → Exec IssueDb (Option CreatedIssue)
  lookup_issue request =
      reach context.lookup (get_issue_by_request_id uuid request.project_id request.request_id)

  unfoldable pub write_request : CreateIssueRequest → Exec IssueDb CreatedIssue
  write_request request = reach context.write (create_issue uuid texts context.stamp request)

  unfoldable pub after_write : ℕ → String → Result CreatedIssue → Exec IssueDb IssueCreationOutcome
  after_write id request_id (ok issue) = complete_creation id request_id issue created_now
  after_write id request_id (err e) = if is_unavailable e then pending id request_id else raise e

  -- The writing call of the tracker, for the reservation's owner.
  unfoldable pub write_issue : ℕ → CreateIssueRequest → Exec IssueDb IssueCreationOutcome
  write_issue id request db =
      let (r, s) = write_request request db in after_write id request.request_id r s

  unfoldable pub complete_or :
      ℕ
      → CreateIssueRequest
      → Option CreatedIssue
      → Exec IssueDb IssueCreationOutcome
      → Exec IssueDb IssueCreationOutcome
  complete_or id request (some issue) m =
      complete_creation id request.request_id issue already_created
  complete_or id request none m = m

  -- From the reservation on.
  unfoldable pub reserve_and_write :
      ℕ → IssueDraft → CreateIssueRequest → Exec IssueDb IssueCreationOutcome
  reserve_and_write id row request = do
    reservation ← reserve barrier request.request_id row.project_id
    if is_completed reservation.0.status
        then lift (outcome_from_record id request.request_id already_created reservation.0.response)
        else (do
          existing ← lookup_issue request
          complete_or id request existing
              (if reservation.1 then write_issue id request else pending id request.request_id))

  unfoldable pub replay_or_write :
      ℕ
      → IssueDraft
      → CreateIssueRequest
      → ToolConfirmationReceipt
      → Option IdempotencyRecord
      → Exec IssueDb IssueCreationOutcome
  replay_or_write id row request confirmation none = do
    raise_if (ltb confirmation.expires_at context.now) issue_creation_denied
    reserve_and_write id row request
  replay_or_write id row request confirmation (some found) =
      if is_completed found.status
      then lift (outcome_from_record id request.request_id already_created found.response)
      else reserve_and_write id row request

  -- The tests of `_execute`, before the idempotency record is read.
  unfoldable pub permitted : ℕ → ℕ → ℕ → Exec IssueDb (IssueDraft × ToolConfirmationReceipt)
  permitted id confirmation_id actor = do
    row ← get_draft id
    read ← (λ db. (ok (get_confirmation confirmation_id db).0, db))
    confirmation ← lift (denied_if_missing read)
    raise_if (not (is_confirmed confirmation.status)) issue_creation_denied
    raise_if (not (confirmation.confirmed_by == actor)) issue_creation_denied
    raise_if
        (not (
          str_eq (texts.payload_hash (build_create_request uuid texts id row))
            confirmation.request_payload_hash))
        issue_creation_denied
    raise_if (not (is_ready row.status)) issue_creation_denied
    authorized ← authorize uuid context.now actor row.project_id
    raise_if (not (any_may_write authorized.scope.role_ids)) issue_creation_denied
    pure (row, confirmation)

  unfoldable pub execute : ℕ → ℕ → ℕ → Exec IssueDb IssueCreationOutcome
  execute id confirmation_id actor = do
    found ← permitted id confirmation_id actor
    let request = build_create_request uuid texts id found.0
    existing ← get_record barrier request.request_id
    replay_or_write id found.0 request found.1 existing

  unfoldable pub reconcile_open :
      ℕ → CreateIssueRequest → Option CreatedIssue → Exec IssueDb IssueCreationOutcome
  reconcile_open id request (some issue) = complete_creation id request.request_id issue reconciled
  reconcile_open id request none = do
    issue ← write_request request
    complete_creation id request.request_id issue reconciled

  unfoldable pub reconcile : ℕ → Exec IssueDb IssueCreationOutcome
  reconcile id = do
    row ← get_draft id
    let request = build_create_request uuid texts id row
    read ← get_record barrier request.request_id
    found ← or_raise read issue_creation_denied
    if is_completed found.status
        then lift (outcome_from_record id request.request_id reconciled found.response)
        else (do existing ← lookup_issue request; reconcile_open id request existing)

-- The session of runtime/issue.py (`_invoke`): an exception takes back what the session wrote,
-- but not what the idempotency store and the queue have committed themselves.
abbrev pub taken_back : {A : Type 0} → IssueDb → Result A → IssueDb → Result A × IssueDb
taken_back before (ok a) after = (ok a, after)
taken_back before (err e) after =
    (err e, record before { records = after.records; jobs = after.jobs })

unfoldable pub in_session : {A : Type 0} → Exec IssueDb A → Exec IssueDb A
in_session body db = let (r, after) = body db in taken_back db r after
