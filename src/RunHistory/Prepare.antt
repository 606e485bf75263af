-- ===== src/RunHistory/Prepare.antt =====
-- The steps that the worker's preparations take.
use it_outsourcing_knowledge.Base.{
  ℕ, ◌≡◌, ◌⊎◌, refl, sym, ◌∙◌, Bool, true, false, ◌||◌, Option, none, some, [], ◌∷◌, inl, inr,
  Bool-cases,
}
use it_outsourcing_knowledge.Base.Table.{find}
use it_outsourcing_knowledge.Base.Exec.{ok, bind_ok, pair_ok, pure, ◌>>=◌}
use it_outsourcing_knowledge.Runs.{
  RunStatus, queued, running, AgentEventType, run_started, run_resume_queued, run_resumed,
  is_terminal_event, is_terminal, is_waiting, is_queued, is_running, Payload, AgentRun, RunRecord,
  AgentEvent, Db, Stamp,
}
use it_outsourcing_knowledge.RunRepository.{
  next_event, append_event, latest_event_of_type, set_lifecycle, update_run, latest, of_type,
}
use it_outsourcing_knowledge.RunRepository.Effects.{Reads, append_event_ok, update_run_ok}
use it_outsourcing_knowledge.RunExecution.{
  RunExecutionPreparation, skip, require_run, is_after, is_before, not_after, append_if,
  started_or_now, begin_execute, execute_after_queued, prepare_execute, begin_resume,
  resume_after_queued, prepare_resume,
}
use it_outsourcing_knowledge.RunHistory.{RunStep, begin, Step}
use it_outsourcing_knowledge.RunHistory.Local.{quiet, put-Step, write-Step, event-Step}
use it_outsourcing_knowledge.RunHistory.Steps.{
  require_run_ok, with_lifecycle, with_lifecycle-SameRun, unchanged-Step,
}

append_if_ok :
    (b : Bool) (stamp : Stamp) (id : ℕ) (type : AgentEventType) (payload : Payload) (db : Db)
    (u : Unit) (t : Db)
    → append_if b stamp id type payload db ≡ (ok u, t)
    → (t ≡ db) ⊎ (t ≡ record db { events = next_event stamp id type payload db.events ∷ db.events })
unfolding append_if
append_if_ok false stamp id type payload db u t h = inl (sym (pair_ok tt u db t h).1)
append_if_ok true stamp id type payload db u t h =
    let (e, s, appended, rest) = bind_ok (append_event stamp id type payload) _ db u t h in
    inr (sym (pair_ok tt u s t rest).1 ∙ (append_event_ok stamp id type payload db e s appended).0)

module _ {A : Type 0} (stamp : Stamp) (id j : ℕ) (status : RunStatus) (started : Option ℕ)
    (type : AgentEventType) (quiet_type : is_terminal_event type ≡ false) (b : Bool)
    (g : RunRecord → A) (row : AgentRun) (db t : Db) (out : A)
    (found : find id db.runs ≡ some row) where
  -- `set_lifecycle`, and then perhaps an event that ends nothing.
  begin-Step :
      ((n : ℕ) → RunStep (some row) n (some (with_lifecycle status started none row)) n)
      → (set_lifecycle id status started none >>= λ run'.
            append_if b stamp id type [] >>= λ u. pure (g run'))
          db
        ≡ (ok out, t)
      → Step j db t
  unfolding set_lifecycle
  begin-Step local h =
      let f = with_lifecycle status started none in
      let (run', s, wrote, rest) = bind_ok (update_run id f) _ db out t h in
      let (u, v, appended, returned) = bind_ok (append_if b stamp id type []) _ s out t rest in
      let last : t ≡ v = sym (pair_ok (g run') out v t returned).1 in
      let (row', found', written, reads) = update_run_ok id f db run' s wrote in
      let same : row' ≡ row = cc (found, found') in
      elim (append_if_ok b stamp id type [] s u v appended) [
        | inl nothing ↦
            put-Step id j row (f row) db t found local
              (rw last (rw nothing (rw written (rw same refl))))
              (rw last (rw nothing (rw written refl)))
        | inr logged ↦
            write-Step id j row (f row) db t found stamp type []
              (rw quiet_type (quiet row (f row) local))
              (rw last (rw logged (rw written (rw same refl))))
              (rw last (rw logged (rw written refl)))
      ]

is_queued_eq : (s : RunStatus) → is_queued s ≡ true → s ≡ queued
is_queued_eq queued h = refl
is_queued_eq s h = cc

-- The row of a queued run that starts or resumes.
begins :
    (id : ℕ) (row : AgentRun) (run : RunRecord) (started : Option ℕ)
    → Reads id row run
    → is_queued run.status ≡ true
    → (n : ℕ) → RunStep (some row) n (some (with_lifecycle running started none row)) n
begins id row run started reads waits n =
    begin (sym reads.status ∙ is_queued_eq run.status waits) refl refl
      (with_lifecycle-SameRun running started none row)

module _ (now : ℕ) (stamp : Stamp) (id j : ℕ) (run : RunRecord) (row : AgentRun) (db t : Db)
    (out : RunExecutionPreparation) (found : find id db.runs ≡ some row)
    (reads : Reads id row run) where
  begin_execute-Step :
      (queued_event : AgentEvent) (started : Option AgentEvent)
      → begin_execute now stamp id queued_event started run db ≡ (ok out, t)
      → Step j db t
  unfolding begin_execute
  begin_execute-Step queued_event started h = elim (Bool-cases (is_queued run.status)) [
    | inl waits ↦
        begin-Step stamp id j running (started_or_now run.started_at now) run_started refl
          (is_before started queued_event.sequence_no) _ row db t out found
          (begins id row run _ reads waits) (rw waits at h)
    | inr other ↦ elim (Bool-cases (is_running run.status)) [
      | inl runs ↦ unchanged-Step j db db t refl (pair_ok _ out db t (rw runs at (rw other at h))).1
      | inr gone ↦ unchanged-Step j db db t refl (pair_ok _ out db t (rw gone at (rw other at h))).1
    ]
  ]

  execute_after_queued-Step :
      (o : Option AgentEvent)
      → execute_after_queued now stamp id run o db ≡ (ok out, t)
      → Step j db t
  unfolding execute_after_queued latest_event_of_type
  execute_after_queued-Step none h = unchanged-Step j db db t refl (pair_ok (skip run) out db t h).1
  execute_after_queued-Step (some queued_event) h =
      elim (Bool-cases (
        is_after (latest (of_type id run_resume_queued) db.events) queued_event.sequence_no
        || is_after (latest (of_type id run_resumed) db.events) queued_event.sequence_no)) [
          | inl later ↦
              unchanged-Step j db db t refl (pair_ok (skip run) out db t (rw later at h)).1
          | inr first ↦ begin_execute-Step queued_event _ (rw first at h)
        ]

  begin_resume-Step :
      (resume_event : AgentEvent) (resumed : Option AgentEvent)
      → begin_resume stamp id run resume_event resumed db ≡ (ok out, t)
      → Step j db t
  unfolding begin_resume
  begin_resume-Step resume_event resumed h = elim (Bool-cases (is_queued run.status)) [
    | inl waits ↦
        begin-Step stamp id j running run.started_at run_resumed refl
          (is_before resumed resume_event.sequence_no) _ row db t out found
          (begins id row run _ reads waits) (rw waits at h)
    | inr other ↦
        let (u, s, appended, rest) =
          bind_ok (append_if (is_before resumed resume_event.sequence_no) stamp id run_resumed []) _
            db out t (rw other at h) in
        let last : t ≡ s = sym (pair_ok _ out s t rest).1 in
        elim (append_if_ok (is_before resumed resume_event.sequence_no) stamp id run_resumed [] db u
          s appended) [
            | inl nothing ↦ unchanged-Step j db s t nothing (sym last)
            | inr logged ↦
                event-Step stamp id j run_resumed [] db t refl (rw last (rw logged refl))
                  (rw last (rw logged refl))
          ]
  ]

  resume_after_queued-Step :
      (o : Option AgentEvent) → resume_after_queued stamp id run o db ≡ (ok out, t) → Step j db t
  unfolding resume_after_queued latest_event_of_type
  resume_after_queued-Step none h = unchanged-Step j db db t refl (pair_ok (skip run) out db t h).1
  resume_after_queued-Step (some resume_event) h =
      elim (Bool-cases
        (not_after (latest (of_type id run_started) db.events) resume_event.sequence_no)) [
          | inl later ↦
              unchanged-Step j db db t refl (pair_ok (skip run) out db t (rw later at h)).1
          | inr first ↦ begin_resume-Step resume_event _ (rw first at h)
        ]

pub prepare_execute-Step :
    (now : ℕ) (stamp : Stamp) (id j : ℕ) (db t : Db) (out : RunExecutionPreparation)
    → prepare_execute now stamp id db ≡ (ok out, t)
    → Step j db t
unfolding prepare_execute latest_event_of_type
prepare_execute-Step now stamp id j db t out h =
    let (run, s, required, rest) = bind_ok (require_run id) _ db out t h in
    let (before, row, found, reads) = require_run_ok id db run s required in
    elim (Bool-cases (is_waiting run.status || is_terminal run.status)) [
      | inl over ↦ unchanged-Step j db s t before (pair_ok (skip run) out s t (rw over at rest)).1
      | inr more ↦
          execute_after_queued-Step now stamp id j run row db t out found reads _
            (rw before at (rw more at rest))
    ]

pub prepare_resume-Step :
    (stamp : Stamp) (id j : ℕ) (db t : Db) (out : RunExecutionPreparation)
    → prepare_resume stamp id db ≡ (ok out, t)
    → Step j db t
unfolding prepare_resume latest_event_of_type
prepare_resume-Step stamp id j db t out h =
    let (run, s, required, rest) = bind_ok (require_run id) _ db out t h in
    let (before, row, found, reads) = require_run_ok id db run s required in
    elim (Bool-cases (is_waiting run.status || is_terminal run.status)) [
      | inl over ↦ unchanged-Step j db s t before (pair_ok (skip run) out s t (rw over at rest)).1
      | inr more ↦ elim (Bool-cases (is_queued run.status || is_running run.status)) [
        | inr idle ↦
            unchanged-Step j db s t before
              (pair_ok (skip run) out s t (rw idle at (rw more at rest))).1
        | inl active ↦
            resume_after_queued-Step 0 stamp id j run row db t out found reads _
              (rw before at (rw active at (rw more at rest)))
      ]
    ]
