-- ===== src/IssueConfirmation/Decision.antt =====
-- What a recorded decision says, and what it changes.
use it_outsourcing_knowledge.Base.{
  ℕ, ◌+◌, ◌≡◌, sym, ap, ◌∙◌, subst, String, false, not, some, str_eq, eq_iff, ltb,
}
use it_outsourcing_knowledge.Base.Exec.{
  lookup_error, confirmation_payload_mismatch, confirmation_expired, ok, bind_ok, pair_ok,
  guard_then, found_then,
}
use it_outsourcing_knowledge.Base.Table.{find, put}
use it_outsourcing_knowledge.Base.Uuid.{UuidCodec}
use it_outsourcing_knowledge.RunService.{ConfirmationAction}
use it_outsourcing_knowledge.Issues.{
  IssueDraftStatus, IssueDraft, ToolConfirmationReceipt, IssueDb, IssueTexts,
}
use it_outsourcing_knowledge.IssueWorkflow.{get_draft, set_draft_status, build_create_request}
use it_outsourcing_knowledge.IssueConfirmation.{
  save_confirmation, create_issue_tool, decision_of, draft_status_of, ConfirmationRequest, prepare,
  record_decision,
}
use it_outsourcing_knowledge.IssueConfirmation.Saved.{Says, not-false, save_confirmation_ok}

draft_same : (a b : IssueDraft) → some a ≡ some b → a ≡ b
draft_same a b e = cc (e)

set_draft_status_ok :
    (now id : ℕ) (status : IssueDraftStatus) (db : IssueDb) (out : IssueDraft) (t : IssueDb)
    → set_draft_status now id status db ≡ (ok out, t)
    → (row : IssueDraft) × (find id db.drafts ≡ some row)
      × (t.drafts ≡ put id (record row { status = status; updated_at = now }) db.drafts)
unfolding set_draft_status
set_draft_status_ok now id status db out t h =
    let (row, found, h1) = found_then (find id db.drafts) lookup_error _ db out t h in
    (row, found, ap (λ d. d.drafts) (sym (pair_ok _ out _ t h1).1))

module _ (uuid : UuidCodec) (texts : IssueTexts) (ttl : ℕ) where
  prepare_ok :
      (id : ℕ) (db : IssueDb) (out : ConfirmationRequest) (t : IssueDb)
      → prepare uuid texts ttl id db ≡ (ok out, t)
      → (row : IssueDraft) × (find id db.drafts ≡ some row)
        × (out.request_payload_hash ≡ texts.payload_hash (build_create_request uuid texts id row))
        × (out.expires_at ≡ row.created_at + ttl)
        × (t ≡ db)
  unfolding prepare get_draft
  prepare_ok id db out t h =
      let (row, found, h1) = found_then (find id db.drafts) lookup_error _ db out t h in
      let (shown, same) = pair_ok _ out db t h1 in
      (
        row,
        found,
        ap (λ p. p.request_payload_hash) (sym shown),
        ap (λ p. p.expires_at) (sym shown),
        sym same,
      )

  -- A decision that returns was taken for a draft that is there, not later than the time to live
  -- after the draft was made, with the hash of the request that the draft makes now; its receipt
  -- says the draft's run, the tool, that hash, the action and the actor; and of the drafts only
  -- this one changes, and only its status and the time of its update.
  pub record_decision_ok :
      (now key id actor : ℕ) (action : ConfirmationAction) (payload_hash : String) (db : IssueDb)
      (out : ToolConfirmationReceipt) (t : IssueDb)
      → record_decision uuid texts ttl now key id actor action payload_hash db ≡ (ok out, t)
      → (row : IssueDraft) × (find id db.drafts ≡ some row)
        × (ltb (row.created_at + ttl) now ≡ false)
        × (payload_hash ≡ texts.payload_hash (build_create_request uuid texts id row))
        × Says out row.run_id create_issue_tool payload_hash (decision_of action) actor
        × (t.drafts
            ≡ put id
                (record row { status = draft_status_of (decision_of action); updated_at = now })
                db.drafts)
  unfolding record_decision get_draft
  record_decision_ok now key id actor action payload_hash db out t h =
      let (prepared, s, made, h1) = bind_ok (prepare uuid texts ttl id) _ db out t h in
      let (row, found, shown, until, same) = prepare_ok id db prepared s made in
      let (in_time, h2) =
        guard_then (ltb prepared.expires_at now) confirmation_expired _ s out t h1 in
      let (matches, h3) =
        guard_then (not (str_eq payload_hash prepared.request_payload_hash))
          confirmation_payload_mismatch _ s out t h2 in
      let (again, found_again, h4) = found_then (find id s.drafts) lookup_error _ s out t h3 in
      let hash = (eq_iff payload_hash prepared.request_payload_hash).0 (not-false _ matches) in
      let row_again : again ≡ row =
        draft_same again row (sym found_again ∙ ap (λ d. find id d.drafts) same ∙ found) in
      let (receipt, u, saved, h5) =
        bind_ok (save_confirmation now (wanted prepared again)) _ s out t h4 in
      let (says, kept) = save_confirmation_ok now (wanted prepared again) s receipt u saved in
      let (updated, w, done, h6) =
        bind_ok (set_draft_status now id (draft_status_of (decision_of action))) _ u out t h5 in
      let (last_row, found_last, last) =
        set_draft_status_ok now id (draft_status_of (decision_of action)) u updated w done in
      let (answer, kept_last) = pair_ok receipt out w t h6 in
      let drafts : u.drafts ≡ db.drafts = kept ∙ ap (λ d. d.drafts) same in
      let row_last : last_row ≡ row =
        draft_same last_row row (sym found_last ∙ ap (λ d. find id d) drafts ∙ found) in
      (
        row,
        found,
        ap (λ at. ltb at now) (sym until) ∙ in_time,
        hash ∙ shown,
        subst (λ r. Says r row.run_id create_issue_tool payload_hash (decision_of action) actor)
            answer
            (says.0 ∙ ap (λ r. r.run_id) row_again, says.1, says.2 ∙ sym hash, says.3, says.4),
        ap (λ d. d.drafts) (sym kept_last)
            ∙ last
            ∙ ap (λ d. put id (changed last_row) d) drafts
            ∙ ap (λ r. put id (changed r) db.drafts) row_last,
      )
    where
      wanted : ConfirmationRequest → IssueDraft → ToolConfirmationReceipt
      wanted prepared draft = record {
        id = key;
        run_id = draft.run_id;
        tool_name = create_issue_tool;
        request_payload_hash = prepared.request_payload_hash;
        status = decision_of action;
        confirmed_by = actor;
        confirmed_at = now;
        expires_at = prepared.expires_at;
      }

      changed : IssueDraft → IssueDraft
      changed r = record r { status = draft_status_of (decision_of action); updated_at = now }
