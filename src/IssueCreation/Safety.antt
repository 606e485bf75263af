-- ===== src/IssueCreation/Safety.antt =====
-- The tests of `_execute` in application/services/issue_creation.py, told as one condition.
use it_outsourcing_knowledge.Base.{
  ℕ, ◌≡◌, ◌⊎◌, refl, ap, ◌∙◌, subst, Bool, true, false, not, some, inl, inr, str_eq, eq_iff, ◌==◌,
  ==_iff,
}
use it_outsourcing_knowledge.Base.Exec.{
  Error, lookup_error, issue_creation_denied, Result, ok, err, Result-cases, bind_err, bind_reads,
  or_raise_reads, raise_if_reads, guard_then, found_then, lift_then, pair_ok, raise_if, lift,
  outcome,
}
use it_outsourcing_knowledge.Base.Table.{find}
use it_outsourcing_knowledge.Base.Uuid.{UuidCodec}
use it_outsourcing_knowledge.Access.{AuthorizedProjectContext, authorize_project}
use it_outsourcing_knowledge.Issues.{IssueDraft, ToolConfirmationReceipt, IssueDb, IssueTexts}
use it_outsourcing_knowledge.IssueWorkflow.{get_draft, get_confirmation, build_create_request}
use it_outsourcing_knowledge.IssueCreation.{
  IssueContext, any_may_write, is_confirmed, is_ready, denied_if_missing, authorize, permitted,
  execute,
}

module _ (uuid : UuidCodec) (texts : IssueTexts) (context : IssueContext) where
  -- The draft is confirmed, by a confirmation of the actor for what the draft says now; and the
  -- actor has a role in the project, now, that may create issues.
  pub record Permitted (id confirmation_id actor : ℕ) (db : IssueDb) (row : IssueDraft)
      (receipt : ToolConfirmationReceipt) : Type 0 where
    pub found : find id db.drafts ≡ some row
    pub confirmation : (get_confirmation confirmation_id db).0 ≡ ok receipt
    pub status : is_confirmed receipt.status ≡ true
    pub by_actor : receipt.confirmed_by ≡ actor
    pub same_payload :
        texts.payload_hash (build_create_request uuid texts id row) ≡ receipt.request_payload_hash
    pub ready : is_ready row.status ≡ true
    pub scope : AuthorizedProjectContext
    pub authorized : authorize_project uuid context.now actor row.project_id db.access ≡ ok scope
    pub role : any_may_write scope.scope.role_ids ≡ true

  not-false : (b : Bool) → not b ≡ false → b ≡ true
  not-false true h = refl
  not-false false h = cc

  denied_ok : {A : Type 0} (r : Result A) (a : A) → denied_if_missing r ≡ ok a → r ≡ ok a
  denied_ok (ok b) a h = h
  denied_ok (err lookup_error) a h = cc
  denied_ok (err e) a h = cc

  permitted_ok :
      (id confirmation_id actor : ℕ) (db : IssueDb) (found : IssueDraft × ToolConfirmationReceipt)
      (t : IssueDb)
      → permitted uuid texts context id confirmation_id actor db ≡ (ok found, t)
      → Permitted id confirmation_id actor db found.0 found.1
  unfolding permitted get_draft authorize
  permitted_ok id confirmation_id actor db found t h =
      let (row, there, h1) = found_then (find id db.drafts) lookup_error _ db found t h in
      let (receipt, read, h2) =
        lift_then (denied_if_missing (get_confirmation confirmation_id db).0) _ db found t h1 in
      let (status, h3) =
        guard_then (not (is_confirmed receipt.status)) issue_creation_denied _ db found t h2 in
      let (by_actor, h4) =
        guard_then (not (receipt.confirmed_by == actor)) issue_creation_denied _ db found t h3 in
      let hash = texts.payload_hash (build_create_request uuid texts id row) in
      let (same_payload, h5) =
        guard_then (not (str_eq hash receipt.request_payload_hash)) issue_creation_denied _ db found
          t h4 in
      let (ready, h6) =
        guard_then (not (is_ready row.status)) issue_creation_denied _ db found t h5 in
      let (scope, granted, h7) =
        lift_then (authorize_project uuid context.now actor row.project_id db.access) _ db found t
          h6 in
      let (role, h8) =
        guard_then (not (any_may_write scope.scope.role_ids)) issue_creation_denied _ db found t
          h7 in
      let result = (pair_ok (row, receipt) found db t h8).0 in
      let permitted_here : Permitted id confirmation_id actor db row receipt = record {
        found = there;
        confirmation = denied_ok _ receipt read;
        status = not-false _ status;
        by_actor = (==_iff receipt.confirmed_by actor).0 (not-false _ by_actor);
        same_payload = (eq_iff hash receipt.request_payload_hash).0 (not-false _ same_payload);
        ready = not-false _ ready;
        scope = scope;
        authorized = granted;
        role = not-false _ role;
      } in
      subst (λ f. Permitted id confirmation_id actor db f.0 f.1) result permitted_here

  pub permitted_reads :
      (id confirmation_id actor : ℕ) (db : IssueDb)
      → (permitted uuid texts context id confirmation_id actor db).1 ≡ db
  unfolding permitted get_draft authorize
  permitted_reads id confirmation_id actor db =
      bind_reads (get_draft id) _ db (or_raise_reads (find id db.drafts) lookup_error db) (λ row.
        bind_reads (lift (denied_if_missing (get_confirmation confirmation_id db).0)) _ db refl
          (λ receipt.
            bind_reads (raise_if (not (is_confirmed receipt.status)) issue_creation_denied) _ db
              (raise_if_reads _ _ db)
              (λ u.
                bind_reads (raise_if (not (receipt.confirmed_by == actor)) issue_creation_denied) _
                  db (raise_if_reads _ _ db)
                  (λ v.
                    bind_reads
                      (raise_if
                        (not (
                          str_eq (texts.payload_hash (build_create_request uuid texts id row))
                            receipt.request_payload_hash))
                        issue_creation_denied)
                      _ db (raise_if_reads _ _ db)
                      (λ w.
                        bind_reads (raise_if (not (is_ready row.status)) issue_creation_denied) _ db
                          (raise_if_reads _ _ db)
                          (λ x.
                            bind_reads (authorize uuid context.now actor row.project_id) _ db refl
                              (λ c.
                                bind_reads
                                  (raise_if (not (any_may_write c.scope.role_ids))
                                    issue_creation_denied)
                                  _ db (raise_if_reads _ _ db) (λ y. refl))))))))

  -- Either the draft is confirmed by the actor for what it says now, and the actor may create
  -- issues in its project now; or the execution raises and the database is as it was, with the
  -- idempotency records and the jobs.
  pub execute-Permitted :
      (id confirmation_id actor : ℕ) (db : IssueDb)
      → ((row : IssueDraft) × (receipt : ToolConfirmationReceipt) × Permitted id confirmation_id
            actor db row receipt)
        ⊎ ((e : Error) × (execute uuid texts context id confirmation_id actor db ≡ (err e, db)))
  unfolding execute
  execute-Permitted id confirmation_id actor db =
      let m = permitted uuid texts context id confirmation_id actor in
      elim (Result-cases (m db).0) [
        | inl (e, raised) ↦ inr (
          e,
          bind_err m _ db e raised
              ∙ ap (outcome (err e)) (permitted_reads id confirmation_id actor db),
        )
        | inr (found, returned) ↦ inl (
          found.0,
          found.1,
          permitted_ok id confirmation_id actor db found (m db).1
              (ap (λ r. outcome r (m db).1) returned),
        )
      ]
