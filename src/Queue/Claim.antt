-- ===== src/Queue/Claim.antt =====
-- `claim`: which jobs a worker gets, and in which order.
use it_outsourcing_knowledge.Base.{
  ℕ, ◌+◌, ◌≤◌, ◌<◌, ◌≡◌, refl, String, Bool, true, false, some, arith, ltb, Bool-cases, inl, inr,
  ◌⊎◌, List, All, length, length-map,
}
use it_outsourcing_knowledge.Base.Exec.{Result, ok, err}
use it_outsourcing_knowledge.Base.Query.{query-find, query_key, query_complete, length-query}
use it_outsourcing_knowledge.Base.Table.{find, update_all, has_key, find_picked, find_unpicked}
use it_outsourcing_knowledge.Base.Uuid.{UuidCodec}
use it_outsourcing_knowledge.Jobs.{pending, running, BackgroundJob, JobTable, QueuedJob}
use it_outsourcing_knowledge.Base.Int.{magnitude}
use it_outsourcing_knowledge.Queue.{
  QueueConfig, is_claimable, claim_order, claim_rows, claim_row, claim,
}
use it_outsourcing_knowledge.Queue.Invariant.{IsValid, claim-IsValid}

claim_order_total : (a b : ℕ × BackgroundJob) → claim_order a b ≡ false → claim_order b a ≡ true
unfolding claim_order
claim_order_total (i, a) (j, b) h = ground arith

claim_order_trans :
    (a b c : ℕ × BackgroundJob)
    → claim_order a b ≡ true
    → claim_order b c ≡ true
    → claim_order a c ≡ true
unfolding claim_order
claim_order_trans (i, a) (j, b) (k, c) h g = ground arith

abbrev pub returned : Result (List QueuedJob) → List QueuedJob
returned (ok jobs) = jobs
returned (err e) = List.[]

-- What a claim by `worker` at `now` makes of a row.
pub record IsClaimedBy (c : QueueConfig) (worker : String) (now : ℕ) (old new : BackgroundJob)
    : Type 0 where
  pub runs : new.status ≡ running
  pub owner : new.locked_by ≡ some worker
  pub lease : new.lease_expires_at ≡ some (now + magnitude c.lease)
  pub counted : new.attempt_count ≡ old.attempt_count + 1
  pub within : new.attempt_count ≤ new.max_attempts
  pub same_type : new.job_type ≡ old.job_type
  pub same_aggregate : new.aggregate_id ≡ old.aggregate_id
  pub same_limit : new.max_attempts ≡ old.max_attempts

claim_row-IsClaimedBy :
    (c : QueueConfig) (worker : String) (now : ℕ) (row : BackgroundJob)
    → row.attempt_count < row.max_attempts
    → IsClaimedBy c worker now row (claim_row c worker now row)
unfolding claim_row
claim_row-IsClaimedBy c worker now row h = ground arith

claim_row_runs :
    (c : QueueConfig) (worker : String) (now : ℕ) (row : BackgroundJob)
    → (claim_row c worker now row).status ≡ running
unfolding claim_row
claim_row_runs c worker now row = refl

claimable_facts :
    (query_now : ℕ) (locked : ℕ → Bool) (id : ℕ) (row : BackgroundJob)
    → is_claimable query_now locked (id, row) ≡ true
    → (row.status ≡ pending) × (row.available_at ≤ query_now) × (locked id ≡ false)
unfolding is_claimable
claimable_facts query_now locked id row h = ground arith

claimable_of :
    (query_now : ℕ) (locked : ℕ → Bool) (id : ℕ) (row : BackgroundJob)
    → row.status ≡ pending
    → row.available_at ≤ query_now
    → locked id ≡ false
    → is_claimable query_now locked (id, row) ≡ true
unfolding is_claimable
claimable_of query_now locked id row p due free = ground arith

module _ (uuid : UuidCodec) (c : QueueConfig) (worker : String) (now query_now : ℕ)
    (locked : ℕ → Bool) (limit : ℕ) (t : JobTable) where
  abbrev pub picks : ℕ → Bool
  picks id = has_key id (claim_rows query_now locked limit t)

  -- A claim returns at most `limit` jobs.
  pub claim_limit : length (returned (claim uuid c worker now query_now locked limit t).0) ≤ limit
  unfolding claim claim_rows
  claim_limit = elim (Bool-cases (ltb limit 1)) [
    | inl nothing ↦ rw nothing (omega arith)
    | inr more ↦
        rw more (rw length-map (length-query claim_order (is_claimable query_now locked) limit t))
  ]

  pub claim_nothing : ltb limit 1 ≡ true → (claim uuid c worker now query_now locked limit t).1 ≡ t
  unfolding claim
  claim_nothing h = rw h

  pub claim_table :
      0 < limit
      → (claim uuid c worker now query_now locked limit t).1
        ≡ update_all (claim_rows query_now locked limit t) (claim_row c worker now) t
  unfolding claim
  claim_table h = ground arith

  -- A row is picked, and then it was pending, due and not locked elsewhere and is now held by the
  -- worker; or it is not picked and stays as it was.
  pub claim_effect :
      (id : ℕ) (row : BackgroundJob)
      → IsValid t
      → 0 < limit
      → find id t ≡ some row
      → ((picks id ≡ true)
          × (row.status ≡ pending)
          × (row.available_at ≤ query_now)
          × (locked id ≡ false)
          × ((row' : BackgroundJob) × (find id (claim uuid c worker now query_now locked limit t).1
                ≡ some row')
              × IsClaimedBy c worker now row row'))
        ⊎ ((picks id ≡ false)
            × (find id (claim uuid c worker now query_now locked limit t).1 ≡ some row))
  unfolding claim_rows
  claim_effect id row v h found = elim (Bool-cases (picks id)) [
    | inl e ↦
        let p =
          query_key claim_order (is_claimable query_now locked) limit id row t v.unique found e in
        let (pending_row, due, free) = claimable_facts query_now locked id row p in
        inl (
          e,
          pending_row,
          due,
          free,
          (
            claim_row c worker now row,
            rw (claim_table h) (find_picked id row _ _ t found e),
            claim_row-IsClaimedBy c worker now row
                ((v.sound id row found).pending_left pending_row),
          ),
        )
    | inr e ↦ inr (e, rw (claim_table h) (rw (find_unpicked id _ _ t e) found))
  ]

  -- A pending job that is due and not locked elsewhere is picked, unless the batch is full and each
  -- job in it comes before this one by (available_at, created_at, id).
  pub claim_complete :
      (id : ℕ) (row : BackgroundJob)
      → find id t ≡ some row
      → row.status ≡ pending
      → row.available_at ≤ query_now
      → locked id ≡ false
      → (picks id ≡ true)
        ⊎ ((length (claim_rows query_now locked limit t) ≡ limit)
            × All (λ r. claim_order r (id, row) ≡ true) (claim_rows query_now locked limit t))
  unfolding claim_rows
  claim_complete id row found p due free =
      query_complete claim_order (is_claimable query_now locked) limit claim_order_total
        claim_order_trans id row t found (claimable_of query_now locked id row p due free)

  -- A job that one claim has picked is not picked by the next one, of any worker.
  pub claims_disjoint :
      (query_now' : ℕ) (locked' : ℕ → Bool) (limit' id : ℕ)
      → IsValid t
      → 0 < limit
      → picks id ≡ true
      → has_key id (
          claim_rows query_now' locked' limit' (claim uuid c worker now query_now locked limit t).1)
        ≡ false
  unfolding claim_rows
  claims_disjoint query_now' locked' limit' id v h e =
      elim (Bool-cases (has_key id (claim_rows query_now' locked' limit' after))) [
        | inr apart ↦ apart
        | inl again ↦
            let (row, found, p) =
              query-find claim_order (is_claimable query_now locked) limit id t v.unique e in
            let (row', found', p') =
              query-find claim_order (is_claimable query_now' locked') limit' id after
                (claim-IsValid uuid c worker now query_now locked limit t v).unique again in
            let held : find id after ≡ some (claim_row c worker now row) =
              rw (claim_table h) (find_picked id row _ _ t found e) in
            cc (
              found',
              held,
              claim_row_runs c worker now row,
              (claimable_facts query_now' locked' id row' p').0,
            )
      ]
    where
      after : JobTable
      after = (claim uuid c worker now query_now locked limit t).1
