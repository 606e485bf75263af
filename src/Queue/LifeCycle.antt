-- ===== src/Queue/LifeCycle.antt =====
-- The life of one job: how a transaction on the queue may change its row. This small state machine
-- is the contract of the queue, and the operations refine it.
use it_outsourcing_knowledge.Base.{
  ℕ, ◌+◌, ◌≤◌, ◌<◌, ◌≡◌, refl, String, Bool, true, false, Option, none, some, arith, ltb,
  Bool-cases, Option-cases, inl, inr, ◌==◌, ==_iff, if◌then◌else◌,
}
use it_outsourcing_knowledge.Base.Exec.{Result-cases, ok, then-pure}
use it_outsourcing_knowledge.Base.Query.{query_key}
use it_outsourcing_knowledge.Base.Table.{
  find, put, has_key, find-add, find-put, find-update_all, find_picked, find_unpicked,
}
use it_outsourcing_knowledge.Base.Uuid.{UuidCodec}
use it_outsourcing_knowledge.Jobs.{
  pending, running, succeeded, failed, EnqueueJobRequest, BackgroundJob, JobTable,
}
use it_outsourcing_knowledge.Queue.{
  QueueConfig, validate_enqueue_request, build_job, insert_job, enqueue, claim_rows, claim_row,
  claim, heartbeat, complete_row, complete, fail_row, fail, is_expired, reap_order, reap_row,
  reap_rows, reap_expired,
}
use it_outsourcing_knowledge.Queue.Invariant.{IsValid, owned_running_cases}
use it_outsourcing_knowledge.Queue.Claim.{claim_nothing, claim_table, claim_effect}

-- What identifies a job and never changes.
pub record SameJob (a b : BackgroundJob) : Type 0 where
  pub job_type : b.job_type ≡ a.job_type
  pub aggregate_id : b.aggregate_id ≡ a.aggregate_id
  pub max_attempts : b.max_attempts ≡ a.max_attempts

-- A step from `a` to `b` that is no claim keeps the number of attempts.
pub record SameAttempt (a b : BackgroundJob) : Type 0 where
  pub job : SameJob a b
  pub attempts : b.attempt_count ≡ a.attempt_count

pub data JobStep : Option BackgroundJob → Option BackgroundJob → Type 0 where
  stay : {o : Option BackgroundJob} → JobStep o o
  create : {b : BackgroundJob} → b.status ≡ pending → b.attempt_count ≡ 0 → JobStep none (some b)
  start :
      {a b : BackgroundJob}
      → a.status ≡ pending
      → b.status ≡ running
      → b.attempt_count ≡ a.attempt_count + 1
      → SameJob a b
      → JobStep (some a) (some b)
  extend :
      {a b : BackgroundJob}
      → a.status ≡ running
      → b.status ≡ running
      → b.locked_by ≡ a.locked_by
      → SameAttempt a b
      → JobStep (some a) (some b)
  finish :
      {a b : BackgroundJob}
      → a.status ≡ running
      → b.status ≡ succeeded
      → SameAttempt a b
      → JobStep (some a) (some b)
  retry :
      {a b : BackgroundJob}
      → a.status ≡ running
      → b.status ≡ pending
      → a.attempt_count < a.max_attempts
      → SameAttempt a b
      → JobStep (some a) (some b)
  give_up :
      {a b : BackgroundJob}
      → a.status ≡ running
      → b.status ≡ failed
      → a.max_attempts ≤ a.attempt_count
      → SameAttempt a b
      → JobStep (some a) (some b)

heartbeat_row-SameAttempt : (a : BackgroundJob) → SameAttempt a a
heartbeat_row-SameAttempt a = ground arith

complete_step :
    (now : ℕ) (a : BackgroundJob)
    → a.status ≡ running
    → JobStep (some a) (some (complete_row now a))
unfolding complete_row
complete_step now a r = finish r refl (ground arith)

reap_step :
    (now : ℕ) (a : BackgroundJob) → a.status ≡ running → JobStep (some a) (some (reap_row now a))
unfolding reap_row
reap_step now a r = elim (Bool-cases (ltb a.attempt_count a.max_attempts)) [
  | inl more ↦ rw more (retry r refl (ground arith) (ground arith))
  | inr spent ↦ rw spent (give_up r refl (ground arith) (ground arith))
]

fail_step :
    (c : QueueConfig) (now : ℕ) (code : String) (a b : BackgroundJob)
    → fail_row c now code a ≡ ok b
    → a.status ≡ running
    → JobStep (some a) (some b)
unfolding fail_row
fail_step c now code a b e r = elim (Bool-cases (ltb a.attempt_count a.max_attempts)) [
  | inl more ↦ retry r (ground arith) (ground arith) (ground arith)
  | inr spent ↦ give_up r (ground arith) (ground arith) (ground arith)
]

put_step :
    (t : JobTable) (id j : ℕ) (a b : BackgroundJob)
    → find id t ≡ some a
    → JobStep (some a) (some b)
    → JobStep (find j t) (find j (put id b t))
put_step t id j a b found s = rw (find-put j id b t) (elim (Bool-cases (j == id)) [
  | inl same ↦ let e : find j t ≡ some a = rw ((==_iff j id).0 same) found in rw e (rw same s)
  | inr other ↦ rw other stay
])

build_job-new :
    (namespace : String) (now : ℕ) (request : EnqueueJobRequest)
    → ((build_job namespace now request).status ≡ pending)
      × ((build_job namespace now request).attempt_count ≡ 0)
unfolding build_job
build_job-new namespace now request = (refl, refl)

insert_step :
    (t : JobTable) (id j : ℕ) (b : BackgroundJob)
    → b.status ≡ pending
    → b.attempt_count ≡ 0
    → JobStep (find j t) (find j (insert_job id b t).1)
unfolding insert_job
insert_step t id j b p a = elim (Option-cases (find id t)) [
  | inr (old, taken) ↦ rw taken stay
  | inl free ↦ rw free (
      rw (find-add j id b t) (elim (Bool-cases (j == id)) [
        | inl same ↦
            let e : find j t ≡ none = rw ((==_iff j id).0 same) free in rw e (rw same (create p a))
        | inr other ↦ rw other stay
      ]))
]

pub enqueue_step :
    (uuid : UuidCodec) (namespace : String) (id now : ℕ) (request : EnqueueJobRequest)
    (t : JobTable) (j : ℕ)
    → JobStep (find j t) (find j (enqueue uuid namespace id now request t).1)
unfolding enqueue
enqueue_step uuid namespace id now request t j =
    elim (Result-cases (validate_enqueue_request request)) [
      | inl (e, refused) ↦ rw refused stay
      | inr (u, accepted) ↦
          let (p, a) = build_job-new namespace now request in
          rw accepted (
            rw (then-pure (insert_job id (build_job namespace now request)))
              (insert_step t id j (build_job namespace now request) p a))
    ]

module _ (uuid : UuidCodec) (now : ℕ) (job_id worker : String) (t : JobTable) (j : ℕ) where
  pub heartbeat_step :
      (c : QueueConfig) → JobStep (find j t) (find j (heartbeat uuid c now job_id worker t).1)
  unfolding heartbeat
  heartbeat_step c = elim (owned_running_cases uuid job_id worker t) [
    | inl (e, refused) ↦ rw refused stay
    | inr (id, row, found, owned) ↦
        rw found (put_step t id j row _ owned.1 (extend owned.2 owned.2 refl (ground arith)))
  ]

  pub complete_job_step : JobStep (find j t) (find j (complete uuid now job_id worker t).1)
  unfolding complete
  complete_job_step = elim (owned_running_cases uuid job_id worker t) [
    | inl (e, refused) ↦ rw refused stay
    | inr (id, row, found, owned) ↦
        rw found (put_step t id j row _ owned.1 (complete_step now row owned.2))
  ]

  pub fail_job_step :
      (c : QueueConfig) (code : String)
      → JobStep (find j t) (find j (fail uuid c now job_id worker code t).1)
  unfolding fail
  fail_job_step c code = elim (owned_running_cases uuid job_id worker t) [
    | inl (e, refused) ↦ rw refused stay
    | inr (id, row, found, owned) ↦ elim (Result-cases (fail_row c now code row)) [
      | inl (e, raised) ↦ rw found (rw raised stay)
      | inr (row', updated) ↦ rw found (
          rw updated
            (put_step t id j row row' owned.1 (fail_step c now code row row' updated owned.2)))
    ]
  ]

expired_running :
    (now : ℕ) (locked : ℕ → Bool) (id : ℕ) (row : BackgroundJob)
    → is_expired now locked (id, row) ≡ true
    → row.status ≡ running
unfolding is_expired
expired_running now locked id row h = ground arith

pub reap_job_step :
    (now : ℕ) (locked : ℕ → Bool) (limit : ℕ) (t : JobTable) (j : ℕ)
    → IsValid t
    → JobStep (find j t) (find j (reap_expired now locked limit t).1)
unfolding reap_expired reap_rows
reap_job_step now locked limit t j v =
    elim (Bool-cases (has_key j (reap_rows now locked limit t))) [
      | inr left ↦ rw (find_unpicked j (reap_rows now locked limit t) (reap_row now) t left) stay
      | inl picked ↦ elim (Option-cases (find j t)) [
        | inl missing ↦
            rw (find-update_all j (reap_rows now locked limit t) (reap_row now) t)
              (rw missing (rw picked stay))
        | inr (row, found) ↦
            rw (find_picked j row (reap_rows now locked limit t) (reap_row now) t found picked) (
              rw found (
                reap_step now row (
                  expired_running now locked j row (
                    query_key reap_order (is_expired now locked) limit j row t v.unique found
                      picked))))
      ]
    ]

pub claim_job_step :
    (uuid : UuidCodec) (c : QueueConfig) (worker : String) (now query_now : ℕ) (locked : ℕ → Bool)
    (limit : ℕ) (t : JobTable) (j : ℕ)
    → IsValid t
    → JobStep (find j t) (find j (claim uuid c worker now query_now locked limit t).1)
claim_job_step uuid c worker now query_now locked limit t j v = elim (Bool-cases (ltb limit 1)) [
  | inl nothing ↦ rw (claim_nothing uuid c worker now query_now locked limit t nothing) stay
  | inr more ↦ elim (Option-cases (find j t)) [
    | inl missing ↦ rw (claim_table uuid c worker now query_now locked limit t (ground arith)) (
        rw (find-update_all j (claim_rows query_now locked limit t) (claim_row c worker now) t)
          (rw missing (if_stay (has_key j (claim_rows query_now locked limit t)))))
    | inr (row, found) ↦
        elim (claim_effect uuid c worker now query_now locked limit t j row v (ground arith)
          found) [
            | inl (picked, p, due, free, (row', after, h)) ↦
                rw found (rw after (start p h.runs h.counted (ground arith)))
            | inr (left, after) ↦ rw found (rw after stay)
          ]
  ]
]
  where
    if_stay : (b : Bool) → JobStep none (if b then none else none)
    if_stay true = stay
    if_stay false = stay
