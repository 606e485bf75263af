-- ===== src/IssueCreation/Replay.antt =====
-- What follows an execution that has answered with an issue: the request's idempotency record.
use it_outsourcing_knowledge.Base.{
  ℕ, ◌≡◌, refl, sym, ap, ◌∙◌, String, Bool, true, false, Option, none, some, is_none, if◌then◌else◌,
  inl, inr, Bool-cases, ltb,
}
use it_outsourcing_knowledge.Base.Exec.{
  Result, ok, err, issue_creation_denied, Exec, bind_step, bind_ok, pair_ok, guard_then, outcome,
  raise_not_ok,
}
use it_outsourcing_knowledge.Base.Uuid.{UuidCodec}
use it_outsourcing_knowledge.Issues.{
  completed, created, IssueDraft, ToolConfirmationReceipt, CreateIssueRequest, CreatedIssue,
  IdempotencyRecord, IssueDb, IssueTexts,
}
use it_outsourcing_knowledge.IssueWorkflow.{
  find_record, get_record, reserve, completed_record, complete_record, set_draft_status,
  build_create_request,
}
use it_outsourcing_knowledge.IssueCreation.{
  IssueCreationStatus, already_created, created_now, IssueCreationOutcome, IssueContext,
  is_completed, is_unavailable, barrier, outcome_from_record, complete_creation,
  enqueue_reconciliation, pending, lookup_issue, write_request, after_write, write_issue,
  complete_or, reserve_and_write, replay_or_write, permitted, execute, taken_back, in_session,
}
use it_outsourcing_knowledge.IssueCreation.Recorded.{
  IsRecorded, recorded, reserve_ok, get_record-some, get_record_found, complete_record_ok,
  set_draft_status_records,
}

module _ (uuid : UuidCodec) (texts : IssueTexts) (context : IssueContext) where
  completion-IsRecorded :
      (id : ℕ) (request_id : String) (issue : CreatedIssue) (status : IssueCreationStatus)
      (db : IssueDb) (out : IssueCreationOutcome) (t : IssueDb)
      → complete_creation uuid texts context id request_id issue status db ≡ (ok out, t)
      → IsRecorded request_id out t
  unfolding complete_creation completed_record
  completion-IsRecorded id request_id issue status db out t h =
      let (u, s, done, h1) =
        bind_ok (complete_record barrier request_id "sandbox_issue" issue) _ db out t h in
      let (row, found, bound) = complete_record_ok request_id issue db u s done in
      let (draft, w, set, h2) = bind_ok (set_draft_status context.now id created) _ s out t h1 in
      let same = set_draft_status_records context.now id created s draft w set in
      let (result, last) = pair_ok _ out w t h2 in
      (
        completed_record "sandbox_issue" issue row,
        issue,
        ap (λ d. find_record barrier request_id d.records) (sym last)
            ∙ ap (find_record barrier request_id) same
            ∙ found,
        bound,
        refl,
        refl,
        ap (λ o. o.issue_key) (sym result),
        ap (λ o. o.issue_status) (sym result),
      )

  -- An outcome that is pending names no issue.
  pending_nameless :
      (id : ℕ) (request_id : String) (db : IssueDb) (out : IssueCreationOutcome) (t : IssueDb)
      → pending uuid texts context id request_id db ≡ (ok out, t)
      → out.issue_key ≡ none
  unfolding pending
  pending_nameless id request_id db out t h =
      let (job, s, queued, h1) =
        bind_ok (enqueue_reconciliation uuid texts context id) _ db out t h in
      ap (λ o. o.issue_key) (sym (pair_ok _ out s t h1).0)

  -- A block that names no issue, or has recorded the one that it names.
  abbrev Records : String → Exec IssueDb IssueCreationOutcome → Type 0
  Records request_id m =
      (db : IssueDb) (out : IssueCreationOutcome) (t : IssueDb) (key : String)
      → m db ≡ (ok out, t)
      → out.issue_key ≡ some key
      → IsRecorded request_id out t

  pending-Records :
      (id : ℕ) (request_id : String) → Records request_id (pending uuid texts context id request_id)
  pending-Records id request_id db out t key h named =
      cc (sym (pending_nameless id request_id db out t h) ∙ named)

  after_write-Records :
      (id : ℕ) (request_id : String) (r : Result CreatedIssue)
      → Records request_id (after_write uuid texts context id request_id r)
  unfolding after_write
  after_write-Records id request_id (ok issue) db out t key h named =
      completion-IsRecorded id request_id issue created_now db out t h
  after_write-Records id request_id (err e) db out t key h named =
      elim (Bool-cases (is_unavailable e)) [
        | inl lost ↦ pending-Records id request_id db out t key (rw lost at h) named
        | inr other ↦ absurd (raise_not_ok e db out t (rw other at h))
      ]

  write_issue-Records :
      (id : ℕ) (request : CreateIssueRequest)
      → Records request.request_id (write_issue uuid texts context id request)
  unfolding write_issue
  write_issue-Records id request db out t key h named =
      after_write-Records id request.request_id (write_request uuid texts context request db).0
        (write_request uuid texts context request db).1 out t key h named

  write_or_pend-Records :
      (mine : Bool) (id : ℕ) (request : CreateIssueRequest)
      → Records request.request_id (
          if mine
          then write_issue uuid texts context id request
          else pending uuid texts context id request.request_id)
  write_or_pend-Records true id request = write_issue-Records id request
  write_or_pend-Records false id request = pending-Records id request.request_id

  complete_or-Records :
      (id : ℕ) (request : CreateIssueRequest) (o : Option CreatedIssue)
      (m : Exec IssueDb IssueCreationOutcome)
      → Records request.request_id m
      → Records request.request_id (complete_or uuid texts context id request o m)
  unfolding complete_or
  complete_or-Records id request (some issue) m rest db out t key h named =
      completion-IsRecorded id request.request_id issue already_created db out t h
  complete_or-Records id request none m rest db out t key h named = rest db out t key h named

  reserve_and_write-Records :
      (id : ℕ) (row : IssueDraft) (request : CreateIssueRequest)
      → Records request.request_id (reserve_and_write uuid texts context id row request)
  unfolding reserve_and_write
  reserve_and_write-Records id row request db out t key h named =
      let (reservation, s, reserved, h1) =
        bind_ok (reserve barrier request.request_id row.project_id) _ db out t h in
      let (found, bound) =
        reserve_ok barrier request.request_id row.project_id db reservation s reserved in
      elim (Bool-cases (is_completed reservation.0.status)) [
        | inl done ↦
            recorded id request.request_id already_created reservation.0 s out t found bound done
              (rw done at h1)
        | inr live ↦
            let (o, u, looked, h2) =
              bind_ok (lookup_issue uuid texts context request) _ s out t (rw live at h1) in
            complete_or-Records id request o _ (write_or_pend-Records reservation.1 id request) u
              out t key h2 named
      ]

  execute-Records :
      (id confirmation_id actor : ℕ)
      → Records (uuid.to_str id) (execute uuid texts context id confirmation_id actor)
  unfolding execute replay_or_write build_create_request
  execute-Records id confirmation_id actor db out t key h named =
      let (found, s, allowed, h1) =
        bind_ok (permitted uuid texts context id confirmation_id actor) _ db out t h in
      let (o, u, read, h2) = bind_ok (get_record barrier (uuid.to_str id)) _ s out t h1 in
      from id found.0 found.1 o s u out t key read h2 named
    where
      from :
          (id : ℕ) (row : IssueDraft) (receipt : ToolConfirmationReceipt)
          (o : Option IdempotencyRecord) (s u : IssueDb) (out : IssueCreationOutcome) (t : IssueDb)
          (key : String)
          → get_record barrier (uuid.to_str id) s ≡ (ok o, u)
          → replay_or_write uuid texts context id row
              (build_create_request uuid texts id row)
              receipt
              o
              u
            ≡ (ok out, t)
          → out.issue_key ≡ some key
          → IsRecorded (uuid.to_str id) out t
      from id row receipt none s u out t key read h named =
          let (fresh, h1) =
            guard_then (ltb receipt.expires_at context.now) issue_creation_denied _ u out t h in
          reserve_and_write-Records id row (build_create_request uuid texts id row) u out t key h1
            named
      from id row receipt (some r) s u out t key read h named =
          let (same, there, bound) = get_record-some barrier (uuid.to_str id) s r u read in
          elim (Bool-cases (is_completed r.status)) [
            | inl done ↦
                recorded id (uuid.to_str id) already_created r u out t
                  (ap (λ d. find_record barrier (uuid.to_str id) d.records) same ∙ there) bound done
                  (rw done at h)
            | inr live ↦
                reserve_and_write-Records id row (build_create_request uuid texts id row) u out t
                  key (rw live at h) named
          ]

  replays :
      (id confirmation_id actor : ℕ) (db : IssueDb) (row : IssueDraft)
      (receipt : ToolConfirmationReceipt) (r : IdempotencyRecord) (issue : CreatedIssue)
      → permitted uuid texts context id confirmation_id actor db ≡ (ok (row, receipt), db)
      → find_record barrier (uuid.to_str id) db.records ≡ some r
      → is_none r.project_id ≡ false
      → r.status ≡ completed
      → r.response ≡ some issue
      → execute uuid texts context id confirmation_id actor db ≡ (
        ok (record {
          status = already_created;
          draft_id = id;
          request_id = uuid.to_str id;
          issue_key = some issue.issue_key;
          issue_status = some issue.status;
        }),
        db,
      )
  unfolding execute replay_or_write build_create_request outcome_from_record
  replays id confirmation_id actor db row receipt r issue allowed found bound done answer =
      bind_step (permitted uuid texts context id confirmation_id actor) _ db (row, receipt) db
        allowed
      ∙ bind_step (get_record barrier (uuid.to_str id)) _ db (some r) db
          (get_record_found barrier (uuid.to_str id) db r found bound)
      ∙ rw done (rw answer refl)

module _ (uuid : UuidCodec) (texts : IssueTexts) (first later : IssueContext) where
  -- Once an execution has returned with an issue, every later execution for the draft whose actor is
  -- permitted, from a database with the same idempotency record of the request, returns the same
  -- issue with the same status as already created and writes nothing: at whatever time, also when
  -- its confirmation has expired, with whatever confirmation, and however the tracker is.
  pub execute_replays :
      (id confirmation_id actor confirmation_id' actor' : ℕ) (db s s' : IssueDb)
      (out : IssueCreationOutcome) (key : String) (row : IssueDraft)
      (receipt : ToolConfirmationReceipt)
      → in_session (execute uuid texts first id confirmation_id actor) db ≡ (ok out, s)
      → out.issue_key ≡ some key
      → find_record barrier (uuid.to_str id) s'.records
        ≡ find_record barrier (uuid.to_str id) s.records
      → permitted uuid texts later id confirmation_id' actor' s' ≡ (ok (row, receipt), s')
      → (again : IssueCreationOutcome) × (in_session
            (execute uuid texts later id confirmation_id' actor')
            s'
          ≡ (ok again, s'))
        × (again.status ≡ already_created)
        × (again.issue_key ≡ out.issue_key)
        × (again.issue_status ≡ out.issue_status)
  unfolding in_session
  execute_replays id confirmation_id actor confirmation_id' actor' db s s' out key row receipt h
        named kept allowed =
      let (r, issue, found, bound, done, answer, same_key, same_status) =
        execute-Records uuid texts first id confirmation_id actor db out s key (returned _ _ h)
          named in
      let replayed =
        replays uuid texts later id confirmation_id' actor' s' row receipt r issue allowed
          (kept ∙ found) bound done answer in
      (_, ap (λ p. taken_back s' p.0 p.1) replayed, refl, sym same_key, sym same_status)
    where
      returned :
          (r : Result IssueCreationOutcome) (t : IssueDb)
          → taken_back db r t ≡ (ok out, s)
          → outcome r t ≡ (ok out, s)
      returned (ok a) t e = e
      returned (err e) t back = absurd (raise_not_ok e _ out s back)
