-- ===== src/Queue/Invariant.antt =====
-- The invariant of the rows of the job table, for each operation of
-- infrastructure/jobs/postgres.py.
use it_outsourcing_knowledge.Base.{
  ℕ, ◌≤◌, ◌<◌, ◌≡◌, refl, String, Bool, true, false, Option, none, some, arith, ltb, if◌then◌else◌,
  is_some, Bool-cases, Option-cases, inl, inr, ◌⊎◌, eq_iff, map_option, str_eq, ap,
}
use mathlib.Core.Bool.{false≢true}
use it_outsourcing_knowledge.Base.Exec.{
  job_ownership_error, Error, Result-cases, ok, err, then-pure, lookup_error,
}
use it_outsourcing_knowledge.Base.Query.{query_key}
use it_outsourcing_knowledge.Base.Table.{
  find, add, put, update_all, has_key, find-add, find-put, find-update_all, HasUniqueKeys,
  add-HasUniqueKeys, put-HasUniqueKeys, update_all-HasUniqueKeys,
}
use it_outsourcing_knowledge.Base.Uuid.{UuidCodec}
use it_outsourcing_knowledge.Jobs.{
  pending, JobState, running, succeeded, failed, EnqueueJobRequest, BackgroundJob, JobTable,
  is_running,
}
use it_outsourcing_knowledge.Queue.{
  QueueConfig, validate_enqueue_request, build_job, enqueue, is_claimable, claim_rows, claim_row,
  claim, owned_running, heartbeat, complete_row, complete, fail_row, fail, reap_row, reap_rows,
  reap_expired, owns, insert_job,
}

-- Attempts stay within the limit, a pending job has one left, a failed one has none; a running
-- job has an owner and a lease, and no other job has.
pub record IsSound (row : BackgroundJob) : Type 0 where
  pub within : row.attempt_count ≤ row.max_attempts
  pub pending_left : row.status ≡ pending → row.attempt_count < row.max_attempts
  pub failed_spent : row.status ≡ failed → row.attempt_count ≡ row.max_attempts
  pub owned : row.status ≡ running → is_some row.locked_by ≡ true
  pub leased : row.status ≡ running → is_some row.lease_expires_at ≡ true
  pub unowned : is_running row.status ≡ false → row.locked_by ≡ none
  pub unleased : is_running row.status ≡ false → row.lease_expires_at ≡ none

pub record IsValid (t : JobTable) : Type 0 where
  pub unique : HasUniqueKeys t
  pub sound : (id : ℕ) (row : BackgroundJob) → find id t ≡ some row → IsSound row

build_job-IsSound :
    (namespace : String) (now : ℕ) (request : EnqueueJobRequest)
    → validate_enqueue_request request ≡ ok tt
    → IsSound (build_job namespace now request)
unfolding build_job validate_enqueue_request
build_job-IsSound namespace now request h = ground arith

claim_row-IsSound :
    (c : QueueConfig) (worker : String) (now : ℕ) (row : BackgroundJob)
    → row.status ≡ pending
    → IsSound row
    → IsSound (claim_row c worker now row)
unfolding claim_row
claim_row-IsSound c worker now row p h = ground arith

complete_row-IsSound :
    (now : ℕ) (row : BackgroundJob) → IsSound row → IsSound (complete_row now row)
unfolding complete_row
complete_row-IsSound now row h = ground arith

fail_row-IsSound :
    (c : QueueConfig) (now : ℕ) (code : String) (row row' : BackgroundJob)
    → fail_row c now code row ≡ ok row'
    → IsSound row
    → IsSound row'
unfolding fail_row
fail_row-IsSound c now code row row' e h = ground arith

reap_row-IsSound : (now : ℕ) (row : BackgroundJob) → IsSound row → IsSound (reap_row now row)
unfolding reap_row
reap_row-IsSound now row h = ground arith

module _ {t : JobTable} (v : IsValid t) where
  put-IsValid : (id : ℕ) (row : BackgroundJob) → IsSound row → IsValid (put id row t)
  put-IsValid id row h = record {
    unique = put-HasUniqueKeys id row t v.unique;
    sound = λ j r e. ground (arith, find-put j id row t, v.sound j r);
  }

  add-IsValid :
      (id : ℕ) (row : BackgroundJob) → find id t ≡ none → IsSound row → IsValid (add id row t)
  add-IsValid id row free h = record {
    unique = add-HasUniqueKeys id row t free v.unique;
    sound = λ j r e. ground (arith, find-add j id row t, v.sound j r);
  }

  update_all-IsValid :
      (rows : JobTable) (f : BackgroundJob → BackgroundJob)
      → ((id : ℕ) (row : BackgroundJob)
          → find id t ≡ some row
          → has_key id rows ≡ true
          → IsSound row
          → IsSound (f row))
      → IsValid (update_all rows f t)
  update_all-IsValid rows f keep = record {
    unique = update_all-HasUniqueKeys rows f t v.unique;
    sound = λ j r e. sound_at j (find j t) r refl (rw (← find-update_all j rows f t) e);
  }
    where
      sound_at :
          (j : ℕ) (o : Option BackgroundJob) (r : BackgroundJob)
          → find j t ≡ o
          → (if has_key j rows then map_option f o else o) ≡ some r
          → IsSound r
      sound_at j none r e h = ground arith
      sound_at j (some w) r e h = ground (arith, keep j w e, v.sound j w e)

-- What `_owned_running` finds: the row of the job, which runs and is locked by the worker.
abbrev pub Owns : UuidCodec → String → String → JobTable → ℕ → BackgroundJob → Type 0
Owns uuid job_id worker t id row =
    (uuid.parse job_id ≡ some id)
    × (find id t ≡ some row)
    × (row.status ≡ running)
    × (row.locked_by ≡ some worker)

locked_by_of_test :
    (o : Option String) (worker : String)
    → elim o [ none ↦ false | some w ↦ str_eq w worker ] ≡ true
    → o ≡ some worker
locked_by_of_test none worker h = cc
locked_by_of_test (some w) worker h = ap some ((eq_iff w worker).0 h)

running_of_test : (s : JobState) → is_running s ≡ true → s ≡ running
running_of_test running h = refl
running_of_test pending h = cc
running_of_test succeeded h = cc
running_of_test failed h = cc

pub owns-true :
    (worker : String) (row : BackgroundJob)
    → owns worker row ≡ true
    → (row.status ≡ running) × (row.locked_by ≡ some worker)
owns-true worker row h = elim (Bool-cases (is_running row.status)) [
  | inl e ↦ (running_of_test row.status e, locked_by_of_test row.locked_by worker (rw e at h))
  | inr e ↦ absurd (false≢true (rw e at h))
]

pub owned_running_cases :
    (uuid : UuidCodec) (job_id worker : String) (t : JobTable)
    → ((e : Error) × (owned_running uuid job_id worker t ≡ (err e, t)))
      ⊎ ((id : ℕ) × (row : BackgroundJob) × (owned_running uuid job_id worker t ≡ (ok (id, row), t))
          × Owns uuid job_id worker t id row)
unfolding owned_running
owned_running_cases uuid job_id worker t = elim (Option-cases (uuid.parse job_id)) [
  | inl no_id ↦ inl (lookup_error, rw no_id)
  | inr (id, parsed) ↦ elim (Option-cases (find id t)) [
    | inl no_row ↦ inl (lookup_error, rw parsed (rw no_row))
    | inr (row, found) ↦ elim (Bool-cases (owns worker row)) [
      | inl yours ↦ inr (
        id,
        row,
        rw parsed (rw found (rw yours)),
        (parsed, found, (owns-true worker row yours).0, (owns-true worker row yours).1),
      )
      | inr other ↦ inl (job_ownership_error, rw parsed (rw found (rw other)))
    ]
  ]
]

insert_keeps :
    (id : ℕ) (row : BackgroundJob) (t : JobTable)
    → IsSound row
    → IsValid t
    → IsValid (insert_job id row t).1
unfolding insert_job
insert_keeps id row t h v = elim (Option-cases (find id t)) [
  | inl free ↦ rw free (add-IsValid v id row free h)
  | inr (old, taken) ↦ rw taken v
]

-- Enqueueing keeps the invariant, whether it succeeds or is refused.
pub enqueue-IsValid :
    (uuid : UuidCodec) (namespace : String) (id now : ℕ) (request : EnqueueJobRequest)
    (t : JobTable)
    → IsValid t
    → IsValid (enqueue uuid namespace id now request t).1
unfolding enqueue
enqueue-IsValid uuid namespace id now request t v =
    elim (Result-cases (validate_enqueue_request request)) [
      | inl (e, refused) ↦ rw refused v
      | inr (u, accepted) ↦
          let h = insert_keeps id _ t (build_job-IsSound namespace now request accepted) v in
          rw accepted (rw (then-pure (insert_job id (build_job namespace now request))) h)
    ]

pub heartbeat-IsValid :
    (uuid : UuidCodec) (c : QueueConfig) (now : ℕ) (job_id worker : String) (t : JobTable)
    → IsValid t
    → IsValid (heartbeat uuid c now job_id worker t).1
unfolding heartbeat
heartbeat-IsValid uuid c now job_id worker t v = elim (owned_running_cases uuid job_id worker t) [
  | inl (e, refused) ↦ rw refused v
  | inr (id, row, found, owned) ↦
      rw found (put-IsValid v id _ (ground (arith, v.sound id row owned.1)))
]

pub complete-IsValid :
    (uuid : UuidCodec) (now : ℕ) (job_id worker : String) (t : JobTable)
    → IsValid t
    → IsValid (complete uuid now job_id worker t).1
unfolding complete
complete-IsValid uuid now job_id worker t v = elim (owned_running_cases uuid job_id worker t) [
  | inl (e, refused) ↦ rw refused v
  | inr (id, row, found, owned) ↦
      rw found (put-IsValid v id _ (complete_row-IsSound now row (v.sound id row owned.1)))
]

pub fail-IsValid :
    (uuid : UuidCodec) (c : QueueConfig) (now : ℕ) (job_id worker code : String) (t : JobTable)
    → IsValid t
    → IsValid (fail uuid c now job_id worker code t).1
unfolding fail
fail-IsValid uuid c now job_id worker code t v = elim (owned_running_cases uuid job_id worker t) [
  | inl (e, refused) ↦ rw refused v
  | inr (id, row, found, owned) ↦ elim (Result-cases (fail_row c now code row)) [
    | inl (e, raised) ↦ rw found (rw raised v)
    | inr (row', updated) ↦ rw found (
        rw updated (
          put-IsValid v id row'
            (fail_row-IsSound c now code row row' updated (v.sound id row owned.1))))
  ]
]

claimed_pending :
    (query_now : ℕ) (locked : ℕ → Bool) (id : ℕ) (row : BackgroundJob)
    → is_claimable query_now locked (id, row) ≡ true
    → row.status ≡ pending
unfolding is_claimable
claimed_pending query_now locked id row h = ground arith

pub claim-IsValid :
    (uuid : UuidCodec) (c : QueueConfig) (worker : String) (now query_now : ℕ) (locked : ℕ → Bool)
    (limit : ℕ) (t : JobTable)
    → IsValid t
    → IsValid (claim uuid c worker now query_now locked limit t).1
unfolding claim claim_rows
claim-IsValid uuid c worker now query_now locked limit t v = elim (Bool-cases (ltb limit 1)) [
  | inl nothing ↦ rw nothing v
  | inr some_rows ↦ rw some_rows (
      update_all-IsValid v (claim_rows query_now locked limit t) (claim_row c worker now)
        (λ id row found picked h.
          claim_row-IsSound c worker now row
            (claimed_pending query_now locked id row
              (query_key _ _ _ id row t v.unique found picked))
            h))
]

pub reap_expired-IsValid :
    (now : ℕ) (locked : ℕ → Bool) (limit : ℕ) (t : JobTable)
    → IsValid t
    → IsValid (reap_expired now locked limit t).1
unfolding reap_expired
reap_expired-IsValid now locked limit t v =
    update_all-IsValid v (reap_rows now locked limit t) (reap_row now)
      (λ id row found picked h. reap_row-IsSound now row h)
