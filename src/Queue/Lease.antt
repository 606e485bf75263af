-- ===== src/Queue/Lease.antt =====
-- The lease of a running job and the transactions of other workers.
use it_outsourcing_knowledge.Base.{
  ℕ, ◌≤◌, ◌≡◌, ◌≢◌, String, Bool, false, none, some, List, [], ◌∷◌, arith, inl, inr, Option-cases,
  Bool-cases, All, ltb, ◌==◌, ==_iff,
}
use it_outsourcing_knowledge.Base.Exec.{Result-cases, then-pure}
use it_outsourcing_knowledge.Base.Query.{query_key}
use it_outsourcing_knowledge.Base.Table.{find, put, has_key, find-add, find-put, find_unpicked}
use it_outsourcing_knowledge.Base.Uuid.{UuidCodec}
use it_outsourcing_knowledge.Jobs.{running, EnqueueJobRequest, BackgroundJob, JobTable}
use it_outsourcing_knowledge.Queue.{
  QueueConfig, validate_enqueue_request, build_job, insert_job, enqueue, claim, heartbeat, complete,
  fail_row, fail, is_expired, reap_order, reap_rows, reap_row, reap_expired,
}
use it_outsourcing_knowledge.Queue.Invariant.{IsValid, Owns, owned_running_cases}
use it_outsourcing_knowledge.Queue.Claim.{claim_nothing, claim_effect}
use it_outsourcing_knowledge.Queue.Trace.{
  QueueOp, enqueue_op, claim_op, heartbeat_op, complete_op, fail_op, reap_op, apply, run,
  apply-IsValid,
}

-- A transaction that is not the holder's own, and no reaping after the lease has run out.
abbrev pub IsForeign : String → ℕ → QueueOp → Type 0
IsForeign worker lease (enqueue_op namespace id now request) = Unit
IsForeign worker lease (claim_op other now query_now locked limit) = Unit
IsForeign worker lease (heartbeat_op now job_id other) = other ≢ worker
IsForeign worker lease (complete_op now job_id other) = other ≢ worker
IsForeign worker lease (fail_op now job_id other code) = other ≢ worker
IsForeign worker lease (reap_op now locked limit) = now ≤ lease

-- The job runs, held by the worker under the lease.
pub record IsHeld (worker : String) (lease : ℕ) (row : BackgroundJob) : Type 0 where
  pub runs : row.status ≡ running
  pub owner : row.locked_by ≡ some worker
  pub until : row.lease_expires_at ≡ some lease

module _ (worker : String) (lease j : ℕ) (row : BackgroundJob) (t : JobTable)
    (found : find j t ≡ some row) (held : IsHeld worker lease row) where
  put_other :
      (uuid : UuidCodec) (job_id other : String) (id : ℕ) (old new : BackgroundJob)
      → Owns uuid job_id other t id old
      → other ≢ worker
      → find j (put id new t) ≡ some row
  put_other uuid job_id other id old new owned ne = elim (Bool-cases (j == id)) [
    | inr apart ↦ rw (find-put j id new t) (rw apart found)
    | inl same ↦
        let old_row : find j t ≡ some old = rw ((==_iff j id).0 same) owned.1 in
        let e : some other ≡ some worker = cc (old_row, found, owned.3, held.owner) in
        absurd (ne (cc (e)))
  ]

  insert_other : (id : ℕ) (b : BackgroundJob) → find j (insert_job id b t).1 ≡ some row
  unfolding insert_job
  insert_other id b = elim (Option-cases (find id t)) [
    | inr (old, taken) ↦ rw taken found
    | inl free ↦ rw free (
        rw (find-add j id b t) (elim (Bool-cases (j == id)) [
          | inl same ↦
              let e : find j t ≡ none = rw ((==_iff j id).0 same) free in absurd (cc (e, found))
          | inr apart ↦ rw apart found
        ]))
  ]

  not_expired : (now : ℕ) (locked : ℕ → Bool) → now ≤ lease → is_expired now locked (j, row) ≡ false
  unfolding is_expired
  not_expired now locked h = ground (arith, held.until)

  module _ (uuid : UuidCodec) (c : QueueConfig) (v : IsValid t) where
    enqueue_protected :
        (namespace : String) (id now : ℕ) (request : EnqueueJobRequest)
        → find j (enqueue uuid namespace id now request t).1 ≡ some row
    unfolding enqueue
    enqueue_protected namespace id now request =
        elim (Result-cases (validate_enqueue_request request)) [
          | inl (e, refused) ↦ rw refused found
          | inr (u, accepted) ↦ rw accepted (
              rw (then-pure (insert_job id (build_job namespace now request)))
                (insert_other id (build_job namespace now request)))
        ]

    claim_protected :
        (other : String) (now query_now : ℕ) (locked : ℕ → Bool) (limit : ℕ)
        → find j (claim uuid c other now query_now locked limit t).1 ≡ some row
    claim_protected other now query_now locked limit = elim (Bool-cases (ltb limit 1)) [
      | inl nothing ↦ rw (claim_nothing uuid c other now query_now locked limit t nothing) found
      | inr more ↦
          elim (claim_effect uuid c other now query_now locked limit t j row v (ground arith)
            found) [ inl picked ↦ absurd (cc (picked.1, held.runs)) | inr left ↦ left.1 ]
    ]

    heartbeat_protected :
        (now : ℕ) (job_id other : String)
        → other ≢ worker
        → find j (heartbeat uuid c now job_id other t).1 ≡ some row
    unfolding heartbeat
    heartbeat_protected now job_id other h = elim (owned_running_cases uuid job_id other t) [
      | inl (e, refused) ↦ rw refused found
      | inr (id, old, got, owned) ↦ rw got (put_other uuid job_id other id old _ owned h)
    ]

    complete_protected :
        (now : ℕ) (job_id other : String)
        → other ≢ worker
        → find j (complete uuid now job_id other t).1 ≡ some row
    unfolding complete
    complete_protected now job_id other h = elim (owned_running_cases uuid job_id other t) [
      | inl (e, refused) ↦ rw refused found
      | inr (id, old, got, owned) ↦ rw got (put_other uuid job_id other id old _ owned h)
    ]

    fail_protected :
        (now : ℕ) (job_id other code : String)
        → other ≢ worker
        → find j (fail uuid c now job_id other code t).1 ≡ some row
    unfolding fail
    fail_protected now job_id other code h = elim (owned_running_cases uuid job_id other t) [
      | inl (e, refused) ↦ rw refused found
      | inr (id, old, got, owned) ↦ elim (Result-cases (fail_row c now code old)) [
        | inl (e, raised) ↦ rw got (rw raised found)
        | inr (new, updated) ↦ rw got (rw updated (put_other uuid job_id other id old new owned h))
      ]
    ]

    reap_protected :
        (now : ℕ) (locked : ℕ → Bool) (limit : ℕ)
        → now ≤ lease
        → find j (reap_expired now locked limit t).1 ≡ some row
    unfolding reap_expired reap_rows
    reap_protected now locked limit h =
        elim (Bool-cases (has_key j (reap_rows now locked limit t))) [
          | inr left ↦
              rw (find_unpicked j (reap_rows now locked limit t) (reap_row now) t left) found
          | inl picked ↦ absurd (
              cc (
                query_key reap_order (is_expired now locked) limit j row t v.unique found picked,
                not_expired now locked h,
              ))
        ]

    -- Before its lease has run out, no transaction but the holder's changes the job.
    pub lease_protects :
        (op : QueueOp) → IsForeign worker lease op → find j (apply uuid c t op) ≡ some row
    unfolding apply
    lease_protects (enqueue_op namespace id now request) h =
        enqueue_protected namespace id now request
    lease_protects (claim_op other now query_now locked limit) h =
        claim_protected other now query_now locked limit
    lease_protects (heartbeat_op now job_id other) h = heartbeat_protected now job_id other h
    lease_protects (complete_op now job_id other) h = complete_protected now job_id other h
    lease_protects (fail_op now job_id other code) h = fail_protected now job_id other code h
    lease_protects (reap_op now locked limit) h = reap_protected now locked limit h

-- On a valid queue where a worker holds a running job under a lease, a history of enqueues, of
-- claims, of other workers' transactions and of reapings up to the end of the lease leaves the
-- job's row as it is.
pub lease_protects_run :
    (uuid : UuidCodec) (c : QueueConfig) (worker : String) (lease j : ℕ) (row : BackgroundJob)
    (t : JobTable) (ops : List QueueOp)
    → IsValid t
    → find j t ≡ some row
    → IsHeld worker lease row
    → All (IsForeign worker lease) ops
    → find j (run uuid c t ops) ≡ some row
unfolding run
lease_protects_run uuid c worker lease j row t [] v found held h = found
lease_protects_run uuid c worker lease j row t (op ∷ ops) v found held h =
    lease_protects_run uuid c worker lease j row (apply uuid c t op) ops
      (apply-IsValid uuid c t op v) (lease_protects worker lease j row t found held uuid c v op h.0)
      held h.1
