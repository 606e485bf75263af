-- ===== src/Queue/Tests.antt =====
-- The queue on a small history: one job is enqueued and a worker claims it.
use it_outsourcing_knowledge.Base.{
  ℕ, ◌*◌, ◌≤◌, min, ◌≡◌, ◌≢◌, refl, String, Bool, true, false, none, some, List, [], ◌∷◌, arith,
  ◌⊎◌, inl, All, length, eq_iff,
}
use it_outsourcing_knowledge.Base.Int.{pos}
use it_outsourcing_knowledge.Base.Exec.{ok, err, overflow_error}
use it_outsourcing_knowledge.Base.Table.{find, has_key, add, put, update_all}
use it_outsourcing_knowledge.Base.Query.{query}
use it_outsourcing_knowledge.Base.Sort.{sort, insert}
use it_outsourcing_knowledge.Base.Text.{strip, lstrip, rstrip, is_space}
use it_outsourcing_knowledge.Jobs.{
  pending, running, succeeded, EnqueueJobRequest, BackgroundJob, JobTable,
}
use it_outsourcing_knowledge.Queue.{
  QueueConfig, compute_retry_delay, validate_enqueue_request, build_job, insert_job, enqueue,
  is_claimable, claim_order, claim_rows, claim_row, claim, owned_running, complete, complete_row,
  unlocked,
}
use it_outsourcing_knowledge.Queue.Delay.{retry_delay_doubles}
use it_outsourcing_knowledge.Queue.Claim.{
  IsClaimedBy, claim_effect, claim_complete, claims_disjoint, claim_limit, returned, picks,
}
use it_outsourcing_knowledge.Queue.Invariant.{IsValid}
use it_outsourcing_knowledge.Queue.LifeCycle.{JobStep}
use it_outsourcing_knowledge.Queue.Trace.{
  QueueOp, enqueue_op, claim_op, complete_op, apply, run, run-IsValid, empty-IsValid, apply-IsValid,
  apply-JobStep, starts, starts_bounded, done_forever,
}
use it_outsourcing_knowledge.Queue.Lease.{lease_protects_run}
use it_outsourcing_knowledge.Samples.{strokes}

abbrev config : QueueConfig
config = record { lease = pos 30; retry_base = pos 5; retry_max = pos 60; namespace = "prod" }

abbrev nothing_locked : ℕ → Bool
nothing_locked id = false

abbrev request : EnqueueJobRequest
request = record { job_type = "INGEST_DOCUMENT"; aggregate_id = "doc"; max_attempts = 3 }

abbrev queued_row : BackgroundJob
queued_row = record {
  namespace = "prod";
  job_type = "INGEST_DOCUMENT";
  aggregate_id = "doc";
  status = pending;
  attempt_count = 0;
  max_attempts = 3;
  available_at = 10;
  locked_by = none;
  locked_at = none;
  heartbeat_at = none;
  lease_expires_at = none;
  last_error = none;
  created_at = 10;
  updated_at = 10;
}

abbrev claimed_row : BackgroundJob
claimed_row = record queued_row {
  status = running;
  attempt_count = 1;
  locked_by = some "w1";
  locked_at = some 11;
  heartbeat_at = some 11;
  lease_expires_at = some 41;
  updated_at = 11;
}

abbrev enqueued : List QueueOp
enqueued = enqueue_op "prod" 1 10 request ∷ []

abbrev claimed : List QueueOp
claimed = enqueue_op "prod" 1 10 request ∷ claim_op "w1" 11 11 nothing_locked 4 ∷ []

abbrev one_job : JobTable
one_job = run strokes config [] enqueued

abbrev held_job : JobTable
held_job = run strokes config [] claimed

one_job-IsValid : IsValid one_job
one_job-IsValid = run-IsValid strokes config [] enqueued empty-IsValid

held_job-IsValid : IsValid held_job
held_job-IsValid = run-IsValid strokes config [] claimed empty-IsValid

find-one_job : find 1 one_job ≡ some queued_row
unfolding run apply enqueue validate_enqueue_request strip lstrip rstrip is_space insert_job
    build_job add find
find-one_job = refl

find-held_job : find 1 held_job ≡ some claimed_row
unfolding run apply enqueue validate_enqueue_request strip lstrip rstrip is_space insert_job
    build_job add find claim claim_rows claim_row is_claimable claim_order query sort insert
    update_all
find-held_job = refl

abbrev other_worker : String
other_worker = "w2"

w2-ne-w1 : other_worker ≢ "w1"
w2-ne-w1 h = cc ((eq_iff other_worker "w1").1 h)

-- `2.0 ** 1024` raises.
delay_overflows : compute_retry_delay 1025 (pos 5) (pos 60) ≡ err overflow_error
unfolding compute_retry_delay
delay_overflows = refl

third_delay : compute_retry_delay 3 (pos 5) (pos 60) ≡ ok 20
unfolding compute_retry_delay
third_delay = refl

starts_bounded_example :
    (starts strokes config 1 [] claimed ≡ 1) × (starts strokes config 1 [] claimed ≤ 3)
starts_bounded_example = starts_bounded strokes config 1 claimed claimed_row find-held_job

abbrev foreign : List QueueOp
foreign = complete_op 20 "I" "w2" ∷ claim_op "w2" 20 20 nothing_locked 4 ∷ []

lease_protects_run_example : find 1 (run strokes config held_job foreign) ≡ some claimed_row
lease_protects_run_example =
    lease_protects_run strokes config "w1" 41 1 claimed_row held_job foreign held_job-IsValid
      find-held_job (record { runs = refl; owner = refl; until = refl }) (w2-ne-w1, (tt, tt))

claim_effect_example :
    ((picks strokes config "w1" 11 11 nothing_locked 4 one_job 1 ≡ true)
      × (pending ≡ pending)
      × (10 ≤ 11)
      × (false ≡ false)
      × ((row' : BackgroundJob) × (find 1
              (claim strokes config "w1" 11 11 nothing_locked 4 one_job).1
            ≡ some row')
          × IsClaimedBy config "w1" 11 queued_row row'))
    ⊎ ((picks strokes config "w1" 11 11 nothing_locked 4 one_job 1 ≡ false)
        × (find 1 (claim strokes config "w1" 11 11 nothing_locked 4 one_job).1 ≡ some queued_row))
claim_effect_example =
    claim_effect strokes config "w1" 11 11 nothing_locked 4 one_job 1 queued_row one_job-IsValid
      (omega arith) find-one_job

claim_complete_example :
    (picks strokes config "w1" 11 11 nothing_locked 4 one_job 1 ≡ true)
    ⊎ ((length (claim_rows 11 nothing_locked 4 one_job) ≡ 4)
        × All (λ r. claim_order r (1, queued_row) ≡ true) (claim_rows 11 nothing_locked 4 one_job))
claim_complete_example =
    claim_complete strokes config "w1" 11 11 nothing_locked 4 one_job 1 queued_row find-one_job refl
      (omega arith) refl

one_job_picked : picks strokes config "w1" 11 11 nothing_locked 4 one_job 1 ≡ true
unfolding run apply enqueue validate_enqueue_request strip lstrip rstrip is_space insert_job
    build_job add find claim_rows is_claimable claim_order query sort insert
one_job_picked = refl

claims_disjoint_example :
    has_key 1
      (claim_rows 12 nothing_locked 4 (claim strokes config "w1" 11 11 nothing_locked 4 one_job).1)
    ≡ false
claims_disjoint_example =
    claims_disjoint strokes config "w1" 11 11 nothing_locked 4 one_job 12 nothing_locked 4 1
      one_job-IsValid (omega arith) one_job_picked

claim_limit_example :
    length (returned (claim strokes config "w1" 11 11 nothing_locked 4 one_job).0) ≤ 4
claim_limit_example = claim_limit strokes config "w1" 11 11 nothing_locked 4 one_job

apply-IsValid_example :
    IsValid (apply strokes config one_job (claim_op "w1" 11 11 nothing_locked 4))
apply-IsValid_example =
    apply-IsValid strokes config one_job (claim_op "w1" 11 11 nothing_locked 4) one_job-IsValid

apply-JobStep_example :
    JobStep
      (find 1 one_job)
      (find 1 (apply strokes config one_job (claim_op "w1" 11 11 nothing_locked 4)))
apply-JobStep_example =
    apply-JobStep strokes config one_job (claim_op "w1" 11 11 nothing_locked 4) 1 one_job-IsValid

abbrev finished : List QueueOp
finished =
    enqueue_op "prod" 1 10 request
    ∷ claim_op "w1" 11 11 nothing_locked 4
    ∷ complete_op 20 "I" "w1"
    ∷ []

abbrev done_job : JobTable
done_job = run strokes config [] finished

abbrev done_row : BackgroundJob
done_row = record claimed_row {
  status = succeeded;
  locked_by = none;
  locked_at = none;
  heartbeat_at = none;
  lease_expires_at = none;
  updated_at = 20;
}

find-done_job : find 1 done_job ≡ some done_row
unfolding run apply enqueue validate_enqueue_request strip lstrip rstrip is_space insert_job
    build_job add find claim claim_rows claim_row is_claimable claim_order query sort insert
    update_all complete owned_running complete_row unlocked put
find-done_job = refl

done_forever_example : find 1 (run strokes config done_job claimed) ≡ some done_row
done_forever_example =
    done_forever strokes config 1 done_job claimed done_row
      (run-IsValid strokes config [] finished empty-IsValid) find-done_job (inl refl)

retry_delay_doubles_example : compute_retry_delay 4 (pos 5) (pos 60) ≡ ok (min (2 * 20) 60)
retry_delay_doubles_example = retry_delay_doubles 2 5 60 20 (omega arith) third_delay
