-- ===== src/RunHistory/Trace.antt =====
-- Any history of requests, of workers' transactions and of sessions of graphs, and what holds of each run throughout it.
use it_outsourcing_knowledge.Base.{
  map_option, subst, ℕ, ◌≡◌, refl, sym, ap, ◌∙◌, String, Bool, true, false, Option, none, some,
  List, [], ◌∷◌, arith, inl, inr, is_some, ltb, leb, ◌&&◌,
}
use it_outsourcing_knowledge.Base.Exec.{ok, Exec, transaction, transaction_cases}
use it_outsourcing_knowledge.Base.Table.{find}
use it_outsourcing_knowledge.Base.Uuid.{UuidCodec}
use it_outsourcing_knowledge.Runs.{
  without_usage, artifact_available, is_terminal, AgentRun, AgentEvent, Db, Stamp, RunGraphOutcome,
}
use it_outsourcing_knowledge.RunRepository.Log.{
  count_events, count_terminal, as_number, IsNumbered, next_event-IsNumbered, has_number,
  numbers_exact,
}
use it_outsourcing_knowledge.RunExecution.{
  prepare_execute, prepare_resume, persist_outcome, mark_final_failure,
}
use it_outsourcing_knowledge.RunService.{
  Request, CreateRunCommand, ResumeRunCommand, create, resume, post_run, post_resume,
}
use it_outsourcing_knowledge.RunHistory.{
  measure, Artifacts, nothing, another, artifacts, RunStep, stay, begin, await, requeue, end, Logs,
  same, append, Step,
}
use it_outsourcing_knowledge.RunHistory.Session.{GraphWrite, graph_session}
use it_outsourcing_knowledge.RunHistory.Measures.{graph_session-Step}
use it_outsourcing_knowledge.RunHistory.Local.{same-Step}
use it_outsourcing_knowledge.RunHistory.Steps.{persist_outcome-Step, mark_final_failure-Step}
use it_outsourcing_knowledge.RunHistory.Prepare.{prepare_execute-Step, prepare_resume-Step}
use it_outsourcing_knowledge.RunHistory.Requests.{create_run-Step, resume-Step}

-- One transaction: a request of a user, a session of a worker's handler, or the session of a graph,
-- of which the writes of its store on the run and its log are listed.
pub data RunOp : Type 0 where
  create_op : Request → ℕ → CreateRunCommand → RunOp
  resume_op : Request → ℕ → ℕ → ResumeRunCommand → RunOp
  prepare_execute_op : ℕ → Stamp → ℕ → RunOp
  prepare_resume_op : Stamp → ℕ → RunOp
  persist_op : ℕ → Stamp → ℕ → RunGraphOutcome → RunOp
  final_failure_op : ℕ → Stamp → ℕ → String → RunOp
  graph_op : ℕ → List GraphWrite → RunOp

committed-Step :
    {A : Type 0} (j : ℕ) (body : Exec Db A) (db : Db)
    → ((a : A) (t : Db) → body db ≡ (ok a, t) → Step j db t)
    → Step j db (transaction body db).1
committed-Step j body db step = elim (transaction_cases body db) [
  | inl back ↦
      same-Step j db (transaction body db).1 (ap (λ d. d.runs) back) (ap (λ d. d.events) back)
  | inr (a, done) ↦ step a (transaction body db).1 done
]

module _ (uuid : UuidCodec) (namespace : String) where
  unfoldable pub apply : Db → RunOp → Db
  apply db (create_op request user command) = (post_run uuid namespace request user command db).1
  apply db (resume_op request user id command) =
      (post_resume uuid namespace request user id command db).1
  apply db (prepare_execute_op now stamp id) = (transaction (prepare_execute now stamp id) db).1
  apply db (prepare_resume_op stamp id) = (transaction (prepare_resume stamp id) db).1
  apply db (persist_op now stamp id outcome) =
      (transaction (persist_outcome now stamp id outcome) db).1
  apply db (final_failure_op now stamp id code) =
      (transaction (mark_final_failure now stamp id code) db).1
  apply db (graph_op id writes) = (transaction (graph_session id writes) db).1

  unfoldable pub run : Db → List RunOp → Db
  run db [] = db
  run db (op ∷ ops) = run (apply db op) ops

  -- Every request, every session of a worker's handler and every session of a graph, returned or
  -- raised, leaves every run, moves it by a step of its life cycle, or changes only the columns that
  -- measure what its graph uses; and the log stays, or grows by one event, numbered next, or by
  -- artifacts of one run, each numbered next.
  pub apply-Step : (db : Db) (op : RunOp) (j : ℕ) → Step j db (apply db op)
  unfolding apply post_run post_resume
  apply-Step db (create_op request user command) j =
      committed-Step j (create uuid namespace request user command) db
        (λ a t. create_run-Step uuid namespace request user command j db a t)
  apply-Step db (resume_op request user id command) j =
      committed-Step j (resume uuid namespace request user id command) db
        (λ a t. resume-Step uuid namespace request user id command j db a t)
  apply-Step db (prepare_execute_op now stamp id) j =
      committed-Step j (prepare_execute now stamp id) db
        (λ a t. prepare_execute-Step now stamp id j db t a)
  apply-Step db (prepare_resume_op stamp id) j =
      committed-Step j (prepare_resume stamp id) db (λ a t. prepare_resume-Step stamp id j db t a)
  apply-Step db (persist_op now stamp id outcome) j =
      committed-Step j (persist_outcome now stamp id outcome) db
        (λ a t. persist_outcome-Step now stamp id j outcome db t a)
  apply-Step db (final_failure_op now stamp id code) j =
      committed-Step j (mark_final_failure now stamp id code) db
        (λ a t. mark_final_failure-Step now stamp id j code db t a)
  apply-Step db (graph_op id writes) j =
      committed-Step j (graph_session id writes) db (λ a t. graph_session-Step id j writes db t a)

-- A run has a terminal event, exactly one, and a time of finishing, if and only if its status is
-- terminal; what is not a run has no terminal event.
abbrev pub Settled : Option AgentRun → ℕ → Type 0
Settled none n = n ≡ 0
Settled (some row) n =
    (n ≡ as_number (is_terminal row.status)) × (is_some row.finished_at ≡ is_terminal row.status)

-- A live row with no time of finishing.
live_row :
    (row : AgentRun) (n : ℕ)
    → is_terminal row.status ≡ false
    → is_some row.finished_at ≡ false
    → n ≡ 0
    → Settled (some row) n
live_row row n live unfinished zero_yet = (rw live zero_yet, rw live unfinished)

-- The number of terminal events of a live row.
none_yet : (row : AgentRun) (n : ℕ) → is_terminal row.status ≡ false → Settled (some row) n → n ≡ 0
none_yet row n live h = rw live at h.0

-- What is settled does not depend on what a graph has used.
measured-Settled :
    (o o' : Option AgentRun) (n : ℕ)
    → map_option without_usage o' ≡ map_option without_usage o
    → Settled o n
    → Settled o' n
measured-Settled o o' n e h = back o' n (subst (λ x. Settled x n) (sym e) (forth o n h))
  where
    forth : (o : Option AgentRun) (n : ℕ) → Settled o n → Settled (map_option without_usage o) n
    forth none n h = h
    forth (some row) n h = h

    back : (o : Option AgentRun) (n : ℕ) → Settled (map_option without_usage o) n → Settled o n
    back none n h = h
    back (some row) n h = h

step-Settled : {o o' : Option AgentRun} {n n' : ℕ} → RunStep o n o' n' → Settled o n → Settled o' n'
step-Settled stay h = h
step-Settled (RunStep.create {row = row} {n = n} s f) h =
    live_row row n (ap is_terminal s) (ap is_some f) h
step-Settled (begin {a = x} {b = y} {n = n} a b f s) h =
    live_row y n (ap is_terminal b) (ap is_some f) (none_yet x n (ap is_terminal a) h)
step-Settled (await {a = x} {b = y} {n = n} (inl a) b f s) h =
    live_row y n (ap is_terminal b) (ap is_some f) (none_yet x n (ap is_terminal a) h)
step-Settled (await {a = x} {b = y} {n = n} (inr a) b f s) h =
    live_row y n (ap is_terminal b) (ap is_some f) (none_yet x n (ap is_terminal a) h)
step-Settled (requeue {a = x} {b = y} {n = n} a b f s) h =
    live_row y n (ap is_terminal b) (ap is_some f ∙ h.1 ∙ ap is_terminal a)
      (none_yet x n (ap is_terminal a) h)
step-Settled (end {a = x} {b = y} {n = n} a b f s) h =
    let e : n ≡ 0 = none_yet x n a h in (rw b (omega (arith, e)), rw b f)
step-Settled (measure {o = o} {o' = o'} {n = n} e) h = measured-Settled o o' n e h

-- The invariant of the runs and of their log.
pub record IsLogged (db : Db) : Type 0 where
  pub numbered : IsNumbered db.events
  pub settled : (j : ℕ) → Settled (find j db.runs) (count_terminal j db.events)

Artifacts-IsNumbered :
    (run : ℕ) {es es' : List AgentEvent} → Artifacts run es es' → IsNumbered es → IsNumbered es'
Artifacts-IsNumbered run nothing h = h
Artifacts-IsNumbered run (another {es' = es'} stamp payload log) h =
    next_event-IsNumbered stamp run artifact_available payload es' (Artifacts-IsNumbered run log h)

Logs-IsNumbered : {es es' : List AgentEvent} → Logs es es' → IsNumbered es → IsNumbered es'
Logs-IsNumbered same h = h
Logs-IsNumbered (append {es = es} stamp run type payload) h =
    next_event-IsNumbered stamp run type payload es h
Logs-IsNumbered (artifacts run log) h = Artifacts-IsNumbered run log h

abbrev is_over : Option AgentRun → Bool
is_over none = false
is_over (some row) = is_terminal row.status

live_or_over :
    (x row : AgentRun)
    → is_terminal x.status ≡ false
    → some (without_usage x) ≡ some (without_usage row)
    → ¬ (is_terminal row.status ≡ true)
live_or_over x row live e over = cc (sym live ∙ ap is_over e ∙ over)

module _ (uuid : UuidCodec) (namespace : String) where
  -- From a database whose log is sound, whatever requests, workers' handlers and the sessions of
  -- graphs do, in whatever order: the events of each run stay numbered 1, 2, 3, …, and a run has
  -- exactly one terminal event and a time of finishing from when its status is terminal, and neither
  -- before.
  pub run-IsLogged :
      (db : Db) (ops : List RunOp) → IsLogged db → IsLogged (run uuid namespace db ops)
  unfolding run
  run-IsLogged db [] h = h
  run-IsLogged db (op ∷ ops) h = run-IsLogged (apply uuid namespace db op) ops (record {
    numbered = Logs-IsNumbered (apply-Step uuid namespace db op 0).1 h.numbered;
    settled = λ j. step-Settled (apply-Step uuid namespace db op j).0 (h.settled j);
  })

  -- In any history of requests, workers' handlers and sessions of graphs that begins with no runs and
  -- no events, the numbers of a run's events are exactly 1, …, n, where n is how many events the run
  -- has.
  pub event_numbers :
      (db : Db) (ops : List RunOp) (j n : ℕ)
      → db.runs ≡ []
      → db.events ≡ []
      → has_number j n (run uuid namespace db ops).events
        ≡ (ltb 0 n && leb n (count_events j (run uuid namespace db ops).events))
  unfolding find
  event_numbers db ops j n no_runs no_events =
      numbers_exact j n (run uuid namespace db ops).events
        (run-IsLogged db ops (start-IsLogged db no_runs no_events)).numbered
    where
      start-IsLogged : (db : Db) → db.runs ≡ [] → db.events ≡ [] → IsLogged db
      start-IsLogged db r e = record { numbered = rw e tt; settled = λ j. rw r (rw e refl) }

  terminal_step :
      {o o' : Option AgentRun} {n n' : ℕ} (row : AgentRun)
      → RunStep o n o' n'
      → map_option without_usage o ≡ some (without_usage row)
      → is_terminal row.status ≡ true
      → (map_option without_usage o' ≡ some (without_usage row)) × (n' ≡ n)
  terminal_step row stay e over = (e, refl)
  terminal_step row (RunStep.create s f) e over = absurd (cc (e))
  terminal_step row (begin {a = x} a b f s) e over =
      absurd (live_or_over x row (ap is_terminal a) e over)
  terminal_step row (await {a = x} (inl a) b f s) e over =
      absurd (live_or_over x row (ap is_terminal a) e over)
  terminal_step row (await {a = x} (inr a) b f s) e over =
      absurd (live_or_over x row (ap is_terminal a) e over)
  terminal_step row (requeue {a = x} a b f s) e over =
      absurd (live_or_over x row (ap is_terminal a) e over)
  terminal_step row (end {a = x} a b f s) e over = absurd (live_or_over x row a e over)
  terminal_step row (measure m) e over = (m ∙ e, refl)

  over_forever :
      (db : Db) (ops : List RunOp) (j : ℕ) (row : AgentRun)
      → map_option without_usage (find j db.runs) ≡ some (without_usage row)
      → is_terminal row.status ≡ true
      → (map_option without_usage (find j (run uuid namespace db ops).runs)
          ≡ some (without_usage row))
        × (count_terminal j (run uuid namespace db ops).events ≡ count_terminal j db.events)
  unfolding run
  over_forever db [] j row found over = (found, refl)
  over_forever db (op ∷ ops) j row found over =
      let (found', same_count) =
        terminal_step row (apply-Step uuid namespace db op j).0 found over in
      let (last, count) = over_forever (apply uuid namespace db op) ops j row found' over in
      (last, count ∙ same_count)

  -- A run whose status is terminal keeps its row, but for the columns that measure what its graph
  -- uses, and gets no further terminal event, whatever requests, workers' handlers and the sessions of
  -- graphs do after it.
  pub terminal_forever :
      (db : Db) (ops : List RunOp) (j : ℕ) (row : AgentRun)
      → find j db.runs ≡ some row
      → is_terminal row.status ≡ true
      → (map_option without_usage (find j (run uuid namespace db ops).runs)
          ≡ some (without_usage row))
        × (count_terminal j (run uuid namespace db ops).events ≡ count_terminal j db.events)
  terminal_forever db ops j row found over =
      over_forever db ops j row (ap (map_option without_usage) found) over
