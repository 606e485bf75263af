-- ===== src/IssueCreation/Recorded.antt =====
-- The idempotency records and what an outcome takes from them.
use it_outsourcing_knowledge.Base.{
  ℕ, ◌≡◌, refl, sym, ap, ◌∙◌, String, Bool, true, false, not, Option, none, some, List, [], ◌∷◌,
  is_none, if◌then◌else◌, inl, inr, Bool-cases,
}
use it_outsourcing_knowledge.Base.Exec.{
  Error, Result, ok, err, value_error, runtime_error, lookup_error, bind_ok, pair_ok, lift_ok,
  found_then, guard_then, outcome, raise_not_ok, raise_if,
}
use it_outsourcing_knowledge.Base.Table.{find}
use it_outsourcing_knowledge.Issues.{
  IssueDraftStatus, IdempotencyStatus, completed, IssueDraft, CreatedIssue, IdempotencyRecord,
  IssueDb,
}
use it_outsourcing_knowledge.IssueWorkflow.{
  is_record, is_project, find_record, to_record, get_record, insert_record, reserve,
  completed_record, update_record, complete_record, set_draft_status,
}
use it_outsourcing_knowledge.IssueCreation.{
  IssueCreationStatus, IssueCreationOutcome, is_completed, barrier, outcome_from_record,
}

-- The request's record is completed with the issue that the outcome names.
abbrev pub IsRecorded : String → IssueCreationOutcome → IssueDb → Type 0
IsRecorded request_id out db =
    (r : IdempotencyRecord) × (issue : CreatedIssue) × (find_record barrier request_id db.records
      ≡ some r)
    × (is_none r.project_id ≡ false)
    × (r.status ≡ completed)
    × (r.response ≡ some issue)
    × (out.issue_key ≡ some issue.issue_key)
    × (out.issue_status ≡ some issue.status)

status_completed : (s : IdempotencyStatus) → is_completed s ≡ true → s ≡ completed
status_completed completed h = refl
status_completed s h = cc

find-update_record :
    (namespace request_id type : String) (issue : CreatedIssue) (rs : List IdempotencyRecord)
    (row : IdempotencyRecord)
    → find_record namespace request_id rs ≡ some row
    → find_record namespace request_id
        (update_record namespace request_id (completed_record type issue) rs)
      ≡ some (completed_record type issue row)
unfolding find_record update_record completed_record
find-update_record namespace request_id type issue [] row h = cc (h)
find-update_record namespace request_id type issue (r ∷ rs) row h =
    elim (Bool-cases (is_record namespace request_id r)) [
      | inl mine ↦
          let same : some r ≡ some row = rw mine at h in
          rw mine (rw mine (ap (λ o. completed_of o) same))
      | inr other ↦
          rw other
            (rw other (find-update_record namespace request_id type issue rs row (rw other at h)))
    ]
  where
    completed_of : Option IdempotencyRecord → Option IdempotencyRecord
    completed_of none = none
    completed_of (some x) = some (completed_record type issue x)

to_record-some :
    (found : Option IdempotencyRecord) (r : IdempotencyRecord)
    → to_record found ≡ ok (some r)
    → (found ≡ some r) × (is_none r.project_id ≡ false)
unfolding to_record
to_record-some none r h = cc (h)
to_record-some (some x) r h = elim (Bool-cases (is_none x.project_id)) [
  | inl unbound ↦ cc (rw unbound at h)
  | inr bound ↦
      let same : x ≡ r = cc (rw bound at h) in
      (ap some same, ap (λ y. is_none y.project_id) (sym same) ∙ bound)
]

pub get_record-some :
    (namespace request_id : String) (db : IssueDb) (r : IdempotencyRecord) (t : IssueDb)
    → get_record namespace request_id db ≡ (ok (some r), t)
    → (t ≡ db)
      × (find_record namespace request_id db.records ≡ some r)
      × (is_none r.project_id ≡ false)
unfolding get_record
get_record-some namespace request_id db r t h =
    let (read, last) =
      lift_ok (to_record (find_record namespace request_id db.records)) db (some r) t h in
    let (same, bound) = to_record-some (find_record namespace request_id db.records) r read in
    (sym last, same, bound)

pub get_record_found :
    (namespace request_id : String) (db : IssueDb) (r : IdempotencyRecord)
    → find_record namespace request_id db.records ≡ some r
    → is_none r.project_id ≡ false
    → get_record namespace request_id db ≡ (ok (some r), db)
unfolding get_record to_record
get_record_found namespace request_id db r found bound =
    ap (λ o. outcome (to_record o) db) found
    ∙ ap (λ b. outcome (if b then err value_error else ok (some r)) db) bound

pub reserve_ok :
    (namespace request_id : String) (project : ℕ) (db : IssueDb) (out : IdempotencyRecord × Bool)
    (t : IssueDb)
    → reserve namespace request_id project db ≡ (ok out, t)
    → (find_record namespace request_id t.records ≡ some out.0) × (is_none out.0.project_id ≡ false)
unfolding reserve
reserve_ok namespace request_id project db out t h =
    let (mine, s, inserted, h1) =
      bind_ok (insert_record namespace request_id project) _ db out t h in
    let (o, u, read, h2) = bind_ok (get_record namespace request_id) _ s out t h1 in
    let (row, is, h3) = found_then o runtime_error _ u out t h2 in
    let (here, h4) =
      guard_then (not (is_project project row.project_id)) value_error _ u out t h3 in
    let (same, last) = pair_ok (row, mine) out u t h4 in
    let (start, found, bound) =
      get_record-some namespace request_id s row u (read ∙ ap (λ x. outcome (ok x) u) is) in
    (
      ap (λ d. find_record namespace request_id d.records) (sym last ∙ start)
          ∙ found
          ∙ ap (λ x. some x.0) same,
      ap (λ x. is_none x.0.project_id) (sym same) ∙ bound,
    )

-- What an outcome takes from a completed record.
pub recorded :
    (id : ℕ) (request_id : String) (status : IssueCreationStatus) (r : IdempotencyRecord)
    (db : IssueDb) (out : IssueCreationOutcome) (t : IssueDb)
    → find_record barrier request_id db.records ≡ some r
    → is_none r.project_id ≡ false
    → is_completed r.status ≡ true
    → outcome (outcome_from_record id request_id status r.response) db ≡ (ok out, t)
    → IsRecorded request_id out t
unfolding outcome_from_record
recorded id request_id status r db out t found bound done h =
    let (answer, last) = lift_ok (outcome_from_record id request_id status r.response) db out t h in
    let (issue, response, key, state) = named r.response answer in
    (
      r,
      issue,
      ap (λ d. find_record barrier request_id d.records) (sym last) ∙ found,
      bound,
      status_completed r.status done,
      response,
      key,
      state,
    )
  where
    named :
        (o : Option CreatedIssue)
        → outcome_from_record id request_id status o ≡ ok out
        → (issue : CreatedIssue) × (o ≡ some issue)
          × (out.issue_key ≡ some issue.issue_key)
          × (out.issue_status ≡ some issue.status)
    named none e = cc (e)
    named (some issue) e =
        let answered : ok _ ≡ ok out = e in
        (issue, refl, ap key_of (sym answered), ap state_of (sym answered))
      where
        key_of : Result IssueCreationOutcome → Option String
        key_of (ok o) = o.issue_key
        key_of (err e) = none

        state_of : Result IssueCreationOutcome → Option String
        state_of (ok o) = o.issue_status
        state_of (err e) = none

raise_if_ok :
    (b : Bool) (e : Error) (db : IssueDb) (u : Unit) (t : IssueDb)
    → raise_if b e db ≡ (ok u, t)
    → (b ≡ false) × (db ≡ t)
raise_if_ok true e db u t h = absurd (raise_not_ok e db u t h)
raise_if_ok false e db u t h = (refl, (pair_ok tt u db t h).1)

pub complete_record_ok :
    (request_id : String) (issue : CreatedIssue) (db : IssueDb) (u : Unit) (t : IssueDb)
    → complete_record barrier request_id "sandbox_issue" issue db ≡ (ok u, t)
    → (row : IdempotencyRecord) × (find_record barrier request_id t.records
        ≡ some (completed_record "sandbox_issue" issue row))
      × (is_none row.project_id ≡ false)
unfolding complete_record
complete_record_ok request_id issue db u t h =
    let (row, found, h1) =
      found_then (find_record barrier request_id db.records) lookup_error _ db u t h in
    let (bound, last) = raise_if_ok (is_none row.project_id) value_error _ u t h1 in
    (
      row,
      ap (λ d. find_record barrier request_id d.records) (sym last)
          ∙ find-update_record barrier request_id "sandbox_issue" issue db.records row found,
      bound,
    )

pub set_draft_status_records :
    (now id : ℕ) (status : IssueDraftStatus) (db : IssueDb) (row : IssueDraft) (t : IssueDb)
    → set_draft_status now id status db ≡ (ok row, t)
    → t.records ≡ db.records
unfolding set_draft_status
set_draft_status_records now id status db row t h =
    let (old, found, h1) = found_then (find id db.drafts) lookup_error _ db row t h in
    ap (λ d. d.records) (sym (pair_ok _ row _ t h1).1)
