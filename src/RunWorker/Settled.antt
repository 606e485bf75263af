-- ===== src/RunWorker/Settled.antt =====
-- The run of an execution job (workers/run_execution.py) after its handler has returned.
use it_outsourcing_knowledge.Base.{
  ℕ, ◌≡◌, ◌⊎◌, refl, sym, ap, ◌∙◌, true, false, ◌||◌, Option, none, some, inl, inr, Bool-cases,
  ==_self, leb, subst,
}
use it_outsourcing_knowledge.Base.Exec.{
  Error, Result, ok, err, Exec, bind_ok, pair_ok, lift_then, pure, transaction, outcome,
  raise_not_ok, ◌>>=◌, commit_or_rollback,
}
use it_outsourcing_knowledge.Base.Table.{find, put, find-put}
use it_outsourcing_knowledge.Base.Uuid.{UuidCodec}
use it_outsourcing_knowledge.Jobs.{QueuedJob}
use it_outsourcing_knowledge.Runs.{
  RunStatus, waiting_confirmation, waiting_confirmation_event, AgentEventType, is_terminal,
  is_waiting, Payload, AgentRun, RunRecord, Db, Stamp, RunGraphOutcome,
}
use it_outsourcing_knowledge.RunRepository.{append_event, set_lifecycle, update_run}
use it_outsourcing_knowledge.RunRepository.Effects.{append_event_ok, update_run_ok}
use it_outsourcing_knowledge.RunExecution.{
  RunExecutionPreparation, require_run, prepare_execute, persist_outcome, persist_waiting,
  persist_terminal, terminal_projection, checked_waiting_payload, is_waiting_kind,
}
use it_outsourcing_knowledge.RunHistory.Steps.{require_run_ok, with_lifecycle, projection_ends}
use it_outsourcing_knowledge.RunWorker.{
  RunGraphExecutor, Tick, persist, persist_final_failure, handle_failure, settle, run_id_of,
  execute_handler,
}

-- The run is over, or waits for its user.
abbrev pub IsSettled : ℕ → Db → Type 0
IsSettled id db =
    (row : AgentRun) × (find id db.runs ≡ some row)
    × ((is_terminal row.status || is_waiting row.status) ≡ true)

find-put_self :
    (id : ℕ) (old new : AgentRun) (db : Db)
    → find id db.runs ≡ some old
    → find id (put id new db.runs) ≡ some new
find-put_self id old new db found =
    rw (find-put id id new db.runs) (rw (==_self id) (rw found refl))

lifecycle_row :
    (stamp : Stamp) (id : ℕ) (status : RunStatus) (started finished : Option ℕ)
    (type : AgentEventType) (payload : Payload) (db t : Db) (run : RunRecord)
    → (set_lifecycle id status started finished >>= λ run'.
          append_event stamp id type payload >>= λ e. pure run')
        db
      ≡ (ok run, t)
    → (row : AgentRun) × (find id t.runs ≡ some row) × (row.status ≡ status)
unfolding set_lifecycle
lifecycle_row stamp id status started finished type payload db t run h =
    let f = with_lifecycle status started finished in
    let (run', s, wrote, rest) = bind_ok (update_run id f) _ db run t h in
    let (e, u, appended, returned) = bind_ok (append_event stamp id type payload) _ s run t rest in
    let last = (pair_ok run' run u t returned).1 in
    let (row, found, written, reads) = update_run_ok id f db run' s wrote in
    let (logged, there) = append_event_ok stamp id type payload s e u appended in
    let runs : t.runs ≡ put id (f row) db.runs =
      ap (λ d. d.runs) (sym last) ∙ ap (λ d. d.runs) logged ∙ ap (λ d. d.runs) written in
    (f row, ap (find id) runs ∙ find-put_self id row (f row) db found, refl)

over_or_waits : (s : RunStatus) → is_terminal s ≡ true → (is_terminal s || is_waiting s) ≡ true
over_or_waits s h = rw h refl

persist_terminal_settles :
    (now : ℕ) (stamp : Stamp) (id : ℕ) (run : RunRecord) (outcome : RunGraphOutcome) (db t : Db)
    (out : RunRecord)
    → persist_terminal now stamp id run outcome db ≡ (ok out, t)
    → IsSettled id t
unfolding persist_terminal
persist_terminal_settles now stamp id run outcome db t out h =
    let (p, projected, rest) = lift_then (terminal_projection outcome.kind) _ db out t h in
    let (row, found, status) =
      lifecycle_row stamp id p.0 run.started_at (some now) p.1 _ db t out rest in
    let over : is_terminal row.status ≡ true =
      ap is_terminal status ∙ (projection_ends outcome.kind p projected).0 in
    (row, found, over_or_waits row.status over)

persist_waiting_settles :
    (stamp : Stamp) (id : ℕ) (run : RunRecord) (outcome : RunGraphOutcome) (db t : Db)
    (out : RunRecord)
    → persist_waiting stamp id run outcome db ≡ (ok out, t)
    → IsSettled id t
unfolding persist_waiting
persist_waiting_settles stamp id run outcome db t out h =
    let (p, checked, rest) =
      lift_then (checked_waiting_payload outcome.waiting_payload) _ db out t h in
    let (row, found, status) =
      lifecycle_row stamp id waiting_confirmation run.started_at none waiting_confirmation_event p
        db t out rest in
    (row, found, ap (λ s. is_terminal s || is_waiting s) status)

persist_outcome_settles :
    (now : ℕ) (stamp : Stamp) (id : ℕ) (outcome : RunGraphOutcome) (db t : Db) (out : RunRecord)
    → persist_outcome now stamp id outcome db ≡ (ok out, t)
    → IsSettled id t
unfolding persist_outcome
persist_outcome_settles now stamp id outcome db t out h =
    let (run, s, required, rest) = bind_ok (require_run id) _ db out t h in
    let (before, row, found, reads) = require_run_ok id db run s required in
    elim (Bool-cases (is_terminal run.status || is_waiting run.status)) [
      | inl over ↦
          let last = (pair_ok run out s t (rw over at rest)).1 in
          (
            row,
            ap (λ d. find id d.runs) (sym last ∙ before) ∙ found,
            ap (λ x. is_terminal x || is_waiting x) (sym reads.status) ∙ over,
          )
      | inr more ↦ elim (Bool-cases (is_waiting_kind outcome.kind)) [
        | inl waits ↦
            persist_waiting_settles stamp id run outcome s t out (rw waits at (rw more at rest))
        | inr ends ↦
            persist_terminal_settles now stamp id run outcome s t out (rw ends at (rw more at rest))
      ]
    ]

committed_ok :
    {A : Type 0} (body : Exec Db A) (db : Db) (a : A) (t : Db)
    → transaction body db ≡ (ok a, t)
    → body db ≡ (ok a, t)
unfolding transaction
committed_ok {A = A} body db a t h = go (body db).0 (body db).1 h
  where
    go : (r : Result A) (s : Db) → commit_or_rollback db r s ≡ (ok a, t) → outcome r s ≡ (ok a, t)
    go (ok b) s k = k
    go (err e) s k = absurd (raise_not_ok e db a t k)

-- `_handle_failure` never returns.
failure_raises :
    (tick : Tick) (job : QueuedJob) (id : ℕ) (e : Error) (db t : Db) (u : Unit)
    → ¬ (handle_failure tick job id e db ≡ (ok u, t))
unfolding handle_failure
failure_raises tick job id e db t u h = elim (Bool-cases (leb job.max_attempts job.attempts)) [
  | inl last ↦
      let (run, s, persisted, rest) =
        bind_ok (persist_final_failure tick id e) _ db u t (rw last at h) in
      raise_not_ok e s u t rest
  | inr more ↦ raise_not_ok e db u t (rw more at h)
]

settle_settles :
    (tick : Tick) (job : QueuedJob) (id : ℕ) (r : Result RunGraphOutcome) (db t : Db) (u : Unit)
    → settle tick job id r db ≡ (ok u, t)
    → IsSettled id t
unfolding settle persist
settle_settles tick job id (err e) db t u h = absurd (failure_raises tick job id e db t u h)
settle_settles tick job id (ok outcome) db t u h =
    let (run, s, persisted, rest) = bind_ok (persist tick id outcome) _ db u t h in
    let last = (pair_ok tt u s t rest).1 in
    let settled = persist_outcome_settles tick.last_now tick.last_stamp id outcome db s run (
      committed_ok (persist_outcome tick.last_now tick.last_stamp id outcome) db run s persisted) in
    subst (IsSettled id) last settled

-- When the handler of an execution returns, the job names a run, and either the preparation
-- decided not to execute it and only the preparation's writes were made, or the run is over or
-- waits for its user.
pub execute_handler_settles :
    (uuid : UuidCodec) (graph : RunGraphExecutor) (tick : Tick) (job : QueuedJob) (db t : Db)
    (u : Unit)
    → execute_handler uuid graph tick job db ≡ (ok u, t)
    → (id : ℕ) × (run_id_of uuid job ≡ ok id)
      × (((preparation : RunExecutionPreparation) × (prepare_execute tick.first_now tick.first_stamp
                id db
              ≡ (ok preparation, t))
            × (preparation.invoke ≡ false))
          ⊎ IsSettled id t)
unfolding execute_handler
execute_handler_settles uuid graph tick job db t u h =
    let (id, named, h1) = lift_then (run_id_of uuid job) _ db u t h in
    let (preparation, s, prepared, h2) =
      bind_ok (transaction (prepare_execute tick.first_now tick.first_stamp id)) _ db u t h1 in
    let done =
      committed_ok (prepare_execute tick.first_now tick.first_stamp id) db preparation s prepared in
    (
      id,
      named,
      elim (Bool-cases preparation.invoke) [
        | inr skipped ↦
            let last = (pair_ok tt u s t (rw skipped at h2)).1 in
            inl (preparation, done ∙ ap (outcome (ok preparation)) last, skipped)
        | inl invoked ↦
            inr
              (settle_settles tick job id (graph.execute preparation.run) s t u (rw invoked at h2))
      ],
    )
