-- ===== src/Queue/Trace.antt =====
-- Any history of queue transactions, by any workers, and what holds of a job throughout it.
use it_outsourcing_knowledge.Base.{
  ℕ, ◌+◌, ◌≤◌, ◌≡◌, String, Bool, Option, none, some, List, [], ◌∷◌, arith, ◌⊎◌,
}
use it_outsourcing_knowledge.Base.Table.{find}
use it_outsourcing_knowledge.Base.Uuid.{UuidCodec}
use it_outsourcing_knowledge.Jobs.{
  JobState, pending, running, succeeded, failed, EnqueueJobRequest, BackgroundJob, JobTable,
}
use it_outsourcing_knowledge.Queue.{
  QueueConfig, enqueue, claim, heartbeat, complete, fail, reap_expired,
}
use it_outsourcing_knowledge.Queue.Invariant.{
  IsValid, enqueue-IsValid, claim-IsValid, heartbeat-IsValid, complete-IsValid, fail-IsValid,
  reap_expired-IsValid,
}
use it_outsourcing_knowledge.Queue.LifeCycle.{
  JobStep, stay, create, start, extend, finish, retry, give_up, enqueue_step, heartbeat_step,
  complete_job_step, fail_job_step, reap_job_step, claim_job_step,
}

-- One transaction, with the readings of the clock and the rows locked elsewhere.
pub data QueueOp : Type 0 where
  enqueue_op : String → ℕ → ℕ → EnqueueJobRequest → QueueOp
  claim_op : String → ℕ → ℕ → (ℕ → Bool) → ℕ → QueueOp
  heartbeat_op : ℕ → String → String → QueueOp
  complete_op : ℕ → String → String → QueueOp
  fail_op : ℕ → String → String → String → QueueOp
  reap_op : ℕ → (ℕ → Bool) → ℕ → QueueOp

module _ (uuid : UuidCodec) (c : QueueConfig) where
  unfoldable pub apply : JobTable → QueueOp → JobTable
  apply t (enqueue_op namespace id now request) = (enqueue uuid namespace id now request t).1
  apply t (claim_op worker now query_now locked limit) =
      (claim uuid c worker now query_now locked limit t).1
  apply t (heartbeat_op now job_id worker) = (heartbeat uuid c now job_id worker t).1
  apply t (complete_op now job_id worker) = (complete uuid now job_id worker t).1
  apply t (fail_op now job_id worker code) = (fail uuid c now job_id worker code t).1
  apply t (reap_op now locked limit) = (reap_expired now locked limit t).1

  unfoldable pub run : JobTable → List QueueOp → JobTable
  run t [] = t
  run t (op ∷ ops) = run (apply t op) ops

  -- Every transaction, successful or refused, keeps the invariant of the queue.
  pub apply-IsValid : (t : JobTable) (op : QueueOp) → IsValid t → IsValid (apply t op)
  unfolding apply
  apply-IsValid t (enqueue_op namespace id now request) v =
      enqueue-IsValid uuid namespace id now request t v
  apply-IsValid t (claim_op worker now query_now locked limit) v =
      claim-IsValid uuid c worker now query_now locked limit t v
  apply-IsValid t (heartbeat_op now job_id worker) v =
      heartbeat-IsValid uuid c now job_id worker t v
  apply-IsValid t (complete_op now job_id worker) v = complete-IsValid uuid now job_id worker t v
  apply-IsValid t (fail_op now job_id worker code) v =
      fail-IsValid uuid c now job_id worker code t v
  apply-IsValid t (reap_op now locked limit) v = reap_expired-IsValid now locked limit t v

  -- Every transaction changes a job's row by a step of its life cycle, or not at all.
  pub apply-JobStep :
      (t : JobTable) (op : QueueOp) (j : ℕ) → IsValid t → JobStep (find j t) (find j (apply t op))
  unfolding apply
  apply-JobStep t (enqueue_op namespace id now request) j v =
      enqueue_step uuid namespace id now request t j
  apply-JobStep t (claim_op worker now query_now locked limit) j v =
      claim_job_step uuid c worker now query_now locked limit t j v
  apply-JobStep t (heartbeat_op now job_id worker) j v = heartbeat_step uuid now job_id worker t j c
  apply-JobStep t (complete_op now job_id worker) j v = complete_job_step uuid now job_id worker t j
  apply-JobStep t (fail_op now job_id worker code) j v =
      fail_job_step uuid now job_id worker t j c code
  apply-JobStep t (reap_op now locked limit) j v = reap_job_step now locked limit t j v

  pub run-IsValid : (t : JobTable) (ops : List QueueOp) → IsValid t → IsValid (run t ops)
  unfolding run
  run-IsValid t [] v = v
  run-IsValid t (op ∷ ops) v = run-IsValid (apply t op) ops (apply-IsValid t op v)

pub empty-IsValid : IsValid []
unfolding find
empty-IsValid = record { unique = tt; sound = λ id row e. absurd (cc) }

-- A transaction starts the job if it was pending before and runs afterwards.
abbrev started_from : JobState → JobState → ℕ
started_from pending running = 1
started_from _ _ = 0

abbrev starts_here : Option BackgroundJob → Option BackgroundJob → ℕ
starts_here (some a) (some b) = started_from a.status b.status
starts_here _ _ = 0

abbrev attempts_of : Option BackgroundJob → ℕ
attempts_of none = 0
attempts_of (some a) = a.attempt_count

starts_step :
    {o o' : Option BackgroundJob} → JobStep o o' → attempts_of o' ≡ attempts_of o + starts_here o o'
starts_step (stay {o = none}) = omega arith
starts_step (stay {o = some a}) = ground arith
starts_step (create p z) = ground arith
starts_step (start p r a j) = ground arith
starts_step (extend p r l s) = ground arith
starts_step (finish p r s) = ground arith
starts_step (retry p r l s) = ground arith
starts_step (give_up p r l s) = ground arith

done_step :
    {o o' : Option BackgroundJob} (row : BackgroundJob)
    → JobStep o o'
    → o ≡ some row
    → (row.status ≡ succeeded) ⊎ (row.status ≡ failed)
    → o' ≡ some row
done_step row stay e d = e
done_step row (create p z) e d = cc
done_step row (start p r a j) e d = ground arith
done_step row (extend p r l s) e d = ground arith
done_step row (finish p r s) e d = ground arith
done_step row (retry p r l s) e d = ground arith
done_step row (give_up p r l s) e d = ground arith

module _ (uuid : UuidCodec) (c : QueueConfig) where
  -- How often the job is started in a history.
  unfoldable pub starts : ℕ → JobTable → List QueueOp → ℕ
  starts j t [] = 0
  starts j t (op ∷ ops) =
      starts_here (find j t) (find j (apply uuid c t op)) + starts j (apply uuid c t op) ops

  attempts-eq-starts :
      (j : ℕ) (t : JobTable) (ops : List QueueOp)
      → IsValid t
      → attempts_of (find j (run uuid c t ops)) ≡ attempts_of (find j t) + starts j t ops
  unfolding run starts
  attempts-eq-starts j t [] v = omega arith
  attempts-eq-starts j t (op ∷ ops) v = omega (
    arith,
    starts_step (apply-JobStep uuid c t op j v),
    attempts-eq-starts j (apply uuid c t op) ops (apply-IsValid uuid c t op v),
  )

  -- In any history from the empty queue a job is started exactly as often as its row says, and
  -- never more often than its limit.
  pub starts_bounded :
      (j : ℕ) (ops : List QueueOp) (row : BackgroundJob)
      → find j (run uuid c [] ops) ≡ some row
      → (starts j [] ops ≡ row.attempt_count) × (starts j [] ops ≤ row.max_attempts)
  unfolding find
  starts_bounded j ops row found =
      let e = attempts-eq-starts j [] ops empty-IsValid in
      let h = (run-IsValid uuid c [] ops empty-IsValid).sound j row found in ground (arith, e, h)

  -- A job that has succeeded or failed stays exactly as it is, whatever happens on the queue.
  pub done_forever :
      (j : ℕ) (t : JobTable) (ops : List QueueOp) (row : BackgroundJob)
      → IsValid t
      → find j t ≡ some row
      → (row.status ≡ succeeded) ⊎ (row.status ≡ failed)
      → find j (run uuid c t ops) ≡ some row
  unfolding run
  done_forever j t [] row v found done = found
  done_forever j t (op ∷ ops) row v found done =
      done_forever j (apply uuid c t op) ops row (apply-IsValid uuid c t op v)
        (done_step row (apply-JobStep uuid c t op j v) found done) done
