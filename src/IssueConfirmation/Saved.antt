-- ===== src/IssueConfirmation/Saved.antt =====
-- What `save_confirmation` returns, whether it keeps a row or adds one.
use it_outsourcing_knowledge.Base.{
  ℕ, ◌≡◌, refl, sym, ap, ◌∙◌, subst, String, Bool, true, false, not, ◌&&◌, Option, none, some, [],
  ◌∷◌, str_eq, eq_iff, ◌==◌, ==_iff, is_some, All, All-take,
}
use it_outsourcing_knowledge.Base.Exec.{integrity_error, ok, guard_then, lift_ok}
use it_outsourcing_knowledge.Base.Table.{Table, find}
use it_outsourcing_knowledge.Base.Query.{query, select_holds}
use it_outsourcing_knowledge.Base.Sort.{All-sort}
use it_outsourcing_knowledge.Issues.{
  ToolConfirmationStatus, confirmed_tool, cancelled_tool, ToolConfirmation, ToolConfirmationReceipt,
  IssueDb,
}
use it_outsourcing_knowledge.IssueWorkflow.{to_receipt}
use it_outsourcing_knowledge.IssueConfirmation.{
  is_status, is_user, is_same_decision, latest_first, first_confirmation, confirmation_row,
  keep_or_add, save_confirmation,
}

-- The receipt says the decision: of the run, by the user, for the payload.
abbrev pub Says :
    ToolConfirmationReceipt → ℕ → String → String → ToolConfirmationStatus → ℕ → Type 0
Says receipt run tool payload_hash status user =
    (receipt.run_id ≡ run)
    × (receipt.tool_name ≡ tool)
    × (receipt.request_payload_hash ≡ payload_hash)
    × (receipt.status ≡ status)
    × (receipt.confirmed_by ≡ user)

pub not-false : (b : Bool) → not b ≡ false → b ≡ true
not-false true h = refl
not-false false h = cc

both : (a b : Bool) → (a && b) ≡ true → (a ≡ true) × (b ≡ true)
both true b h = (refl, h)
both false b h = cc

receipt_says :
    (id : ℕ) (row : ToolConfirmation) (s : Option ToolConfirmationStatus) (b a u : Option ℕ)
    (out : ToolConfirmationReceipt)
    → to_receipt id (record row { status = s; confirmed_by = b; confirmed_at = a; expires_at = u })
      ≡ ok out
    → (s ≡ some out.status)
      × (b ≡ some out.confirmed_by)
      × (row.run_id ≡ out.run_id)
      × (row.tool_name ≡ out.tool_name)
      × (row.request_payload_hash ≡ out.request_payload_hash)
unfolding to_receipt
receipt_says id row (some s) (some b) (some a) (some u) out h =
    let e = ok_receipt _ out h in
    (
      ap (λ r. some r.status) e,
      ap (λ r. some r.confirmed_by) e,
      ap (λ r. r.run_id) e,
      ap (λ r. r.tool_name) e,
      ap (λ r. r.request_payload_hash) e,
    )
  where
    ok_receipt : (x y : ToolConfirmationReceipt) → ok x ≡ ok y → x ≡ y
    ok_receipt x y h = cc (h)
receipt_says id row none b a u out h = cc
receipt_says id row (some s) none a u out h = cc
receipt_says id row (some s) (some b) none u out h = cc
receipt_says id row (some s) (some b) (some a) none out h = cc

status_same :
    (wanted status : ToolConfirmationStatus)
    → is_status wanted (some status) ≡ true
    → status ≡ wanted
status_same confirmed_tool confirmed_tool h = refl
status_same cancelled_tool cancelled_tool h = refl
status_same confirmed_tool cancelled_tool h = cc
status_same cancelled_tool confirmed_tool h = cc

found_holds :
    (p : ℕ × ToolConfirmation → Bool) (t : Table ToolConfirmation) (r : ℕ × ToolConfirmation)
    → first_confirmation (query latest_first p 1 t) ≡ some r
    → p r ≡ true
unfolding query
found_holds p t r h =
    first_holds _
      (All-take (λ x. p x ≡ true) 1 _
        (All-sort latest_first (λ x. p x ≡ true) _ (select_holds p t)))
      h
  where
    first_holds :
        (xs : Table ToolConfirmation)
        → All (λ x. p x ≡ true) xs
        → first_confirmation xs ≡ some r
        → p r ≡ true
    first_holds [] every h = cc
    first_holds (x ∷ xs) every h = subst (λ y. p y ≡ true) (cc (h)) every.0

-- A confirmation that is kept or added says the decision, and the drafts are as before.
keep_or_add_ok :
    (now : ℕ) (wanted : ToolConfirmationReceipt) (o : Option (ℕ × ToolConfirmation)) (db : IssueDb)
    (out : ToolConfirmationReceipt) (t : IssueDb)
    → ((r : ℕ × ToolConfirmation) → o ≡ some r → is_same_decision wanted r ≡ true)
    → keep_or_add now wanted o db ≡ (ok out, t)
    → Says out wanted.run_id wanted.tool_name wanted.request_payload_hash wanted.status
        wanted.confirmed_by
      × (t.drafts ≡ db.drafts)
unfolding keep_or_add is_same_decision confirmation_row
keep_or_add_ok now wanted (some (id, row)) db out t same h =
    let (read, last) = lift_ok (to_receipt id row) db out t h in
    let (status, by, run, tool, hash) =
      receipt_says id row row.status row.confirmed_by row.confirmed_at row.expires_at out read in
    let (run_same, h1) = both (row.run_id == wanted.run_id) _ (same (id, row) refl) in
    let (tool_same, h2) = both (str_eq row.tool_name wanted.tool_name) _ h1 in
    let (hash_same, h3) = both (str_eq row.request_payload_hash wanted.request_payload_hash) _ h2 in
    let (status_ok, by_ok) =
      both (is_status wanted.status row.status) (is_user wanted.confirmed_by row.confirmed_by) h3 in
    (
      (
        sym run ∙ (==_iff row.run_id wanted.run_id).0 run_same,
        sym tool ∙ (eq_iff row.tool_name wanted.tool_name).0 tool_same,
        sym hash ∙ (eq_iff row.request_payload_hash wanted.request_payload_hash).0 hash_same,
        status_same wanted.status out.status
            (ap (λ o. is_status wanted.status o) (sym status) ∙ status_ok),
        (==_iff out.confirmed_by wanted.confirmed_by).0
            (ap (λ o. is_user wanted.confirmed_by o) (sym by) ∙ by_ok),
      ),
      ap (λ d. d.drafts) (sym last),
    )
keep_or_add_ok now wanted none db out t same h =
    let (free, h1) =
      guard_then (is_some (find wanted.id db.confirmations)) integrity_error _ db out t h in
    let row = confirmation_row now wanted in
    let (read, last) = lift_ok (to_receipt wanted.id row) _ out t h1 in
    let (status, by, run, tool, hash) =
      receipt_says wanted.id row row.status row.confirmed_by row.confirmed_at row.expires_at out
        read in
    ((sym run, sym tool, sym hash, cc (status), cc (by)), ap (λ d. d.drafts) (sym last))

pub save_confirmation_ok :
    (now : ℕ) (wanted : ToolConfirmationReceipt) (db : IssueDb) (out : ToolConfirmationReceipt)
    (t : IssueDb)
    → save_confirmation now wanted db ≡ (ok out, t)
    → Says out wanted.run_id wanted.tool_name wanted.request_payload_hash wanted.status
        wanted.confirmed_by
      × (t.drafts ≡ db.drafts)
unfolding save_confirmation
save_confirmation_ok now wanted db out t h =
    keep_or_add_ok now wanted
      (first_confirmation (query latest_first (is_same_decision wanted) 1 db.confirmations)) db out
      t (λ r e. found_holds (is_same_decision wanted) db.confirmations r e) h
