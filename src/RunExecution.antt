-- ===== src/RunExecution.antt =====
-- application/services/run_execution.py: what a worker does to a run before and after its graph.
-- The service works in a session that its caller commits (workers/run_execution.py).
use it_outsourcing_knowledge.Base.{
  ℕ, String, Bool, true, false, not, ◌||◌, Option, none, some, [], ◌∷◌, ltb, leb, if◌then◌else◌,
  is_some, ◌++◌,
}
use it_outsourcing_knowledge.Base.Exec.{
  lookup_error, run_execution_contract_error, Result, ok, err, Exec, pure, lift, or_raise, ◌>>=◌,
  ◌>>◌,
}
use it_outsourcing_knowledge.Runs.{
  RunStatus, running, waiting_confirmation, succeeded, refused, cancelled, failed, AgentEventType,
  run_queued, run_started, waiting_confirmation_event, run_resume_queued, run_resumed,
  run_succeeded, run_refused, run_cancelled, run_failed, is_terminal, is_waiting, is_queued,
  is_running, text, Payload, get_value, as_text, RunRecord, AgentEvent, Db, Stamp,
  RunGraphOutcomeKind, succeeded_kind, refused_kind, cancelled_kind, waiting_kind, RunGraphOutcome,
}
use it_outsourcing_knowledge.RunRepository.{
  get_run, latest_event_of_type, append_event, set_lifecycle,
}

pub record RunExecutionPreparation : Type 0 where
  pub run : RunRecord
  pub invoke : Bool
  pub resume_payload : Option Payload

abbrev pub skip : RunRecord → RunExecutionPreparation
skip run = record { run = run; invoke = false; resume_payload = none }

-- `_require_run`
unfoldable pub require_run : ℕ → Exec Db RunRecord
require_run id = do found ← get_run id; or_raise found lookup_error

-- `event is not None and event.sequence_no > sequence_no`
abbrev pub is_after : Option AgentEvent → ℕ → Bool
is_after none n = false
is_after (some e) n = ltb n e.sequence_no

-- `event is None or event.sequence_no < sequence_no`
abbrev pub is_before : Option AgentEvent → ℕ → Bool
is_before none n = true
is_before (some e) n = ltb e.sequence_no n

unfoldable pub append_if : Bool → Stamp → ℕ → AgentEventType → Payload → Exec Db Unit
append_if true stamp run type payload = do append_event stamp run type payload; pure tt
append_if false stamp run type payload = pure tt

-- `run.started_at or self._clock()`
abbrev pub started_or_now : Option ℕ → ℕ → Option ℕ
started_or_now none now = some now
started_or_now (some t) now = some t

-- The end of `prepare_execute`, once the run may be executed.
unfoldable pub begin_execute :
    ℕ → Stamp → ℕ → AgentEvent → Option AgentEvent → RunRecord → Exec Db RunExecutionPreparation
begin_execute now stamp id queued_event started run =
    if is_queued run.status
    then (do
      run' ← set_lifecycle id running (started_or_now run.started_at now) none
      append_if (is_before started queued_event.sequence_no) stamp id run_started []
      pure (record { run = run'; invoke = true; resume_payload = none }))
    else if not (is_running run.status)
    then pure (skip run)
    else pure (record { run = run; invoke = true; resume_payload = none })

unfoldable pub execute_after_queued :
    ℕ → Stamp → ℕ → RunRecord → Option AgentEvent → Exec Db RunExecutionPreparation
execute_after_queued now stamp id run none = pure (skip run)
execute_after_queued now stamp id run (some queued_event) = do
  resume_queued ← latest_event_of_type id run_resume_queued
  resumed ← latest_event_of_type id run_resumed
  started ← latest_event_of_type id run_started
  if is_after resume_queued queued_event.sequence_no || is_after resumed queued_event.sequence_no
      then pure (skip run)
      else begin_execute now stamp id queued_event started run

unfoldable pub prepare_execute : ℕ → Stamp → ℕ → Exec Db RunExecutionPreparation
unfolding execute_after_queued begin_execute append_if require_run
prepare_execute now stamp id = do
  run ← require_run id
  queued_event ← latest_event_of_type id run_queued
  if is_waiting run.status || is_terminal run.status
      then pure (skip run)
      else execute_after_queued now stamp id run queued_event

unfoldable pub begin_resume :
    Stamp → ℕ → RunRecord → AgentEvent → Option AgentEvent → Exec Db RunExecutionPreparation
begin_resume stamp id run resume_event resumed = do
  run' ← if is_queued run.status then set_lifecycle id running run.started_at none else pure run
  append_if (is_before resumed resume_event.sequence_no) stamp id run_resumed []
  pure (record { run = run'; invoke = true; resume_payload = some resume_event.payload })

-- `started is not None and resume_queued.sequence_no <= started.sequence_no`
abbrev pub not_after : Option AgentEvent → ℕ → Bool
not_after none n = false
not_after (some e) n = leb n e.sequence_no

unfoldable pub resume_after_queued :
    Stamp → ℕ → RunRecord → Option AgentEvent → Exec Db RunExecutionPreparation
resume_after_queued stamp id run none = pure (skip run)
resume_after_queued stamp id run (some resume_event) = do
  started ← latest_event_of_type id run_started
  resumed ← latest_event_of_type id run_resumed
  if not_after started resume_event.sequence_no
      then pure (skip run)
      else begin_resume stamp id run resume_event resumed

unfoldable pub prepare_resume : Stamp → ℕ → Exec Db RunExecutionPreparation
unfolding resume_after_queued begin_resume append_if require_run
prepare_resume stamp id = do
  run ← require_run id
  resume_queued ← latest_event_of_type id run_resume_queued
  if is_waiting run.status || is_terminal run.status
      then pure (skip run)
      else if not (is_queued run.status || is_running run.status)
      then pure (skip run)
      else resume_after_queued stamp id run resume_queued

-- `_terminal_projection`
unfoldable pub terminal_projection : RunGraphOutcomeKind → Result (RunStatus × AgentEventType)
terminal_projection succeeded_kind = ok (succeeded, run_succeeded)
terminal_projection refused_kind = ok (refused, run_refused)
terminal_projection cancelled_kind = ok (cancelled, run_cancelled)
terminal_projection waiting_kind = err run_execution_contract_error

abbrev entry : String → Option String → Payload
entry key none = []
entry key (some s) = (key, text s) ∷ []

unfoldable pub outcome_payload : RunGraphOutcome → Payload
outcome_payload outcome = entry "result_ref" outcome.result_ref ++ entry "summary" outcome.summary

-- The waiting payload, if it holds a text under `request_payload_hash`.
unfoldable pub checked_waiting_payload : Option Payload → Result Payload
checked_waiting_payload none = err run_execution_contract_error
checked_waiting_payload (some p) =
    if is_some (as_text (get_value "request_payload_hash" p))
    then ok p
    else err run_execution_contract_error

unfoldable pub persist_waiting : Stamp → ℕ → RunRecord → RunGraphOutcome → Exec Db RunRecord
persist_waiting stamp id run outcome = do
  payload ← lift (checked_waiting_payload outcome.waiting_payload)
  run' ← set_lifecycle id waiting_confirmation run.started_at none
  append_event stamp id waiting_confirmation_event payload
  pure run'

unfoldable pub persist_terminal : ℕ → Stamp → ℕ → RunRecord → RunGraphOutcome → Exec Db RunRecord
persist_terminal now stamp id run outcome = do
  projected ← lift (terminal_projection outcome.kind)
  run' ← set_lifecycle id projected.0 run.started_at (some now)
  append_event stamp id projected.1 (outcome_payload outcome)
  pure run'

abbrev pub is_waiting_kind : RunGraphOutcomeKind → Bool
is_waiting_kind waiting_kind = true
is_waiting_kind _ = false

unfoldable pub persist_outcome : ℕ → Stamp → ℕ → RunGraphOutcome → Exec Db RunRecord
unfolding persist_waiting persist_terminal require_run
persist_outcome now stamp id outcome = do
  run ← require_run id
  if is_terminal run.status || is_waiting run.status
      then pure run
      else if is_waiting_kind outcome.kind
      then persist_waiting stamp id run outcome
      else persist_terminal now stamp id run outcome

unfoldable pub mark_final_failure : ℕ → Stamp → ℕ → String → Exec Db RunRecord
unfolding require_run
mark_final_failure now stamp id error_code = do
  run ← require_run id
  if is_terminal run.status then pure run else (do
    run' ← set_lifecycle id failed run.started_at (some now)
    append_event stamp id run_failed (("error_code", text error_code) ∷ [])
    pure run')
