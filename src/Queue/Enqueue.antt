-- ===== src/Queue/Enqueue.antt =====
-- What `enqueue` writes when it returns.
use it_outsourcing_knowledge.Base.{
  ℕ, ◌≡◌, sym, ap, ◌∙◌, String, none, arith, inl, inr, Option-cases,
}
use it_outsourcing_knowledge.Base.Exec.{
  ok, integrity_error, bind_ok, pair_ok, lift_then, outcome, raise_not_ok,
}
use it_outsourcing_knowledge.Base.Table.{find, add}
use it_outsourcing_knowledge.Base.Uuid.{UuidCodec}
use it_outsourcing_knowledge.Jobs.{EnqueueJobRequest, QueuedJob, BackgroundJob, JobTable}
use it_outsourcing_knowledge.Queue.{validate_enqueue_request, build_job, insert_job, enqueue}

insert_job_ok :
    (id : ℕ) (row : BackgroundJob) (t : JobTable) (u : Unit) (t' : JobTable)
    → insert_job id row t ≡ (ok u, t')
    → (find id t ≡ none) × (t' ≡ add id row t)
unfolding insert_job
insert_job_ok id row t u t' h = elim (Option-cases (find id t)) [
  | inr (old, found) ↦ absurd (raise_not_ok integrity_error t u t' (ground (arith, found, h)))
  | inl free ↦ (free, sym (pair_ok tt u (add id row t) t' (ground (arith, free, h))).1)
]

-- The job is new, and its row is added.
pub enqueue_ok :
    (uuid : UuidCodec) (namespace : String) (id now : ℕ) (request : EnqueueJobRequest)
    (t : JobTable) (job : QueuedJob)
    → (enqueue uuid namespace id now request t).0 ≡ ok job
    → (find id t ≡ none)
      × ((enqueue uuid namespace id now request t).1 ≡ add id (build_job namespace now request) t)
unfolding enqueue
enqueue_ok uuid namespace id now request t job h =
    let end = (enqueue uuid namespace id now request t).1 in
    let h' : enqueue uuid namespace id now request t ≡ (ok job, end) = ap (λ r. outcome r end) h in
    let (u, valid, rest) = lift_then (validate_enqueue_request request) _ t job end h' in
    let (v, s, inserted, rest') =
      bind_ok (insert_job id (build_job namespace now request)) _ t job end rest in
    let (free, added) = insert_job_ok id (build_job namespace now request) t v s inserted in
    (free, sym (pair_ok _ job s end rest').1 ∙ added)
