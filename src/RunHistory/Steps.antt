-- ===== src/RunHistory/Steps.antt =====
-- The step that each transaction of a run takes.
use it_outsourcing_knowledge.Base.{
  ℕ, ◌≡◌, ◌⊎◌, refl, sym, ap, ◌∙◌, String, true, false, ◌||◌, Option, none, some, inl, inr,
  Bool-cases,
}
use it_outsourcing_knowledge.Base.Table.{find}
use it_outsourcing_knowledge.Base.Exec.{
  lookup_error, ok, bind_ok, or_raise, or_raise_ok, pair_ok, lift_ok, ok_inj, ◌>>=◌, lift, pure,
}
use it_outsourcing_knowledge.Runs.{
  RunStatus, queued, running, waiting_confirmation, succeeded, refused, cancelled, failed,
  AgentEventType, run_failed, waiting_confirmation_event, is_terminal_event, is_terminal,
  is_waiting, Payload, AgentRun, RunRecord, Db, Stamp, RunGraphOutcome, RunGraphOutcomeKind,
  succeeded_kind, refused_kind, cancelled_kind, waiting_kind,
}
use it_outsourcing_knowledge.RunRepository.{get_run, append_event, set_lifecycle, update_run}
use it_outsourcing_knowledge.RunRepository.Effects.{
  Reads, get_run_ok, append_event_ok, update_run_ok,
}
use it_outsourcing_knowledge.RunRepository.Log.{as_number}
use it_outsourcing_knowledge.RunExecution.{
  require_run, mark_final_failure, persist_outcome, persist_waiting, persist_terminal,
  terminal_projection, checked_waiting_payload, is_waiting_kind,
}
use it_outsourcing_knowledge.RunHistory.{SameRun, await, end, Step}
use it_outsourcing_knowledge.RunHistory.Local.{LocalStep, quiet, write-Step, same-Step}

pub require_run_ok :
    (id : ℕ) (db : Db) (run : RunRecord) (t : Db)
    → require_run id db ≡ (ok run, t)
    → (t ≡ db) × (row : AgentRun) × (find id db.runs ≡ some row) × Reads id row run
unfolding require_run
require_run_ok id db run t h =
    let (o, s, read, rest) =
      bind_ok (get_run id) (λ found. or_raise found lookup_error) db run t h in
    let (is, last) = or_raise_ok o lookup_error s run t rest in
    let (same, found) = get_run_ok id db o s read in
    elim found [
      | inl nothing ↦ absurd (cc (is, nothing))
      | inr (row, run', there, e, reads) ↦
          let same_run : run' ≡ run = cc (e, is) in
          (sym last ∙ same, row, there, rw (← same_run) reads)
    ]

-- The row with new lifecycle columns.
abbrev pub with_lifecycle : RunStatus → Option ℕ → Option ℕ → AgentRun → AgentRun
with_lifecycle status started finished row = record row {
  status = status;
  started_at = started;
  finished_at = finished;
}

pub with_lifecycle-SameRun :
    (status : RunStatus) (started finished : Option ℕ) (row : AgentRun)
    → SameRun row (with_lifecycle status started finished row)
with_lifecycle-SameRun status started finished row = record {
  thread_id = refl;
  company_id = refl;
  project_id = refl;
  user_id = refl;
  business_mode = refl;
}

-- `set_lifecycle` and then `append_event` for the same run.
pub lifecycle_event-Step :
    (stamp : Stamp) (id j : ℕ) (status : RunStatus) (started finished : Option ℕ)
    (type : AgentEventType) (payload : Payload) (row : AgentRun) (db t : Db) (run : RunRecord)
    → find id db.runs ≡ some row
    → LocalStep row
        (with_lifecycle status started finished row)
        (as_number (is_terminal_event type))
    → (set_lifecycle id status started finished >>= λ run'.
          append_event stamp id type payload >>= λ e. pure run')
        db
      ≡ (ok run, t)
    → Step j db t
unfolding set_lifecycle
lifecycle_event-Step stamp id j status started finished type payload row db t run found local h =
    let f = with_lifecycle status started finished in
    let (run', s, wrote, rest) =
      bind_ok (update_run id f) (λ r. append_event stamp id type payload >>= λ e. pure r) db run t
        h in
    let (e, u, appended, returned) =
      bind_ok (append_event stamp id type payload) (λ e. pure run') s run t rest in
    let last = (pair_ok run' run u t returned).1 in
    let (row', found', written, reads) = update_run_ok id f db run' s wrote in
    let (logged, there) = append_event_ok stamp id type payload s e u appended in
    let same : row' ≡ row = cc (found, found') in
    let end_state : t ≡ u = sym last in
    write-Step id j row (f row) db t found stamp type payload local
      (rw end_state (rw logged (rw written (rw same refl))))
      (rw end_state (rw logged (rw written refl)))

-- The row that a run ends in.
ends :
    (status : RunStatus) (now : ℕ) (row : AgentRun) (run : RunRecord) (id : ℕ)
    (type : AgentEventType)
    → Reads id row run
    → is_terminal run.status ≡ false
    → is_terminal status ≡ true
    → is_terminal_event type ≡ true
    → LocalStep row
        (with_lifecycle status run.started_at (some now) row)
        (as_number (is_terminal_event type))
ends status now row run id type reads live over event n =
    rw event (end (rw (← reads.status) live) over refl (with_lifecycle-SameRun status _ _ row))

pub unchanged-Step : (j : ℕ) (db s t : Db) → s ≡ db → s ≡ t → Step j db t
unchanged-Step j db s t before after =
    let e : t ≡ db = sym after ∙ before in
    same-Step j db t (ap (λ x. x.runs) e) (ap (λ x. x.events) e)

pub mark_final_failure-Step :
    (now : ℕ) (stamp : Stamp) (id j : ℕ) (code : String) (db t : Db) (out : RunRecord)
    → mark_final_failure now stamp id code db ≡ (ok out, t)
    → Step j db t
unfolding mark_final_failure
mark_final_failure-Step now stamp id j code db t out h =
    let (run, s, required, rest) = bind_ok (require_run id) _ db out t h in
    let (before, row, found, reads) = require_run_ok id db run s required in
    elim (Bool-cases (is_terminal run.status)) [
      | inl over ↦ unchanged-Step j db s t before (pair_ok run out s t (rw over at rest)).1
      | inr live ↦
          lifecycle_event-Step stamp id j failed run.started_at (some now) run_failed _ row db t out
            found (ends failed now row run id run_failed reads live refl refl)
            (rw before at (rw live at rest))
    ]

pub projection_ends :
    (kind : RunGraphOutcomeKind) (p : RunStatus × AgentEventType)
    → terminal_projection kind ≡ ok p
    → (is_terminal p.0 ≡ true) × (is_terminal_event p.1 ≡ true)
unfolding terminal_projection
projection_ends succeeded_kind p h = let e = ok_inj _ p h in rw (← e) (refl, refl)
projection_ends refused_kind p h = let e = ok_inj _ p h in rw (← e) (refl, refl)
projection_ends cancelled_kind p h = let e = ok_inj _ p h in rw (← e) (refl, refl)
projection_ends waiting_kind p h = absurd (cc (h))

persist_terminal-Step :
    (now : ℕ) (stamp : Stamp) (id j : ℕ) (run : RunRecord) (row : AgentRun)
    (outcome : RunGraphOutcome) (db t : Db) (out : RunRecord)
    → find id db.runs ≡ some row
    → Reads id row run
    → is_terminal run.status ≡ false
    → persist_terminal now stamp id run outcome db ≡ (ok out, t)
    → Step j db t
unfolding persist_terminal
persist_terminal-Step now stamp id j run row outcome db t out found reads live h =
    let (p, s, projected, rest) = bind_ok (lift (terminal_projection outcome.kind)) _ db out t h in
    let (good, before) = lift_ok (terminal_projection outcome.kind) db p s projected in
    let (over, event) = projection_ends outcome.kind p good in
    lifecycle_event-Step stamp id j p.0 run.started_at (some now) p.1 _ row db t out found
      (ends p.0 now row run id p.1 reads live over event) (rw (sym before) at rest)

not_waiting_nor_terminal :
    (s : RunStatus)
    → (is_terminal s || is_waiting s) ≡ false
    → (is_terminal s ≡ false) × ((s ≡ queued) ⊎ (s ≡ running))
not_waiting_nor_terminal queued h = (refl, inl refl)
not_waiting_nor_terminal running h = (refl, inr refl)
not_waiting_nor_terminal waiting_confirmation h = cc
not_waiting_nor_terminal succeeded h = cc
not_waiting_nor_terminal refused h = cc
not_waiting_nor_terminal cancelled h = cc
not_waiting_nor_terminal failed h = cc

persist_waiting-Step :
    (stamp : Stamp) (id j : ℕ) (run : RunRecord) (row : AgentRun) (outcome : RunGraphOutcome)
    (db t : Db) (out : RunRecord)
    → find id db.runs ≡ some row
    → Reads id row run
    → (run.status ≡ queued) ⊎ (run.status ≡ running)
    → persist_waiting stamp id run outcome db ≡ (ok out, t)
    → Step j db t
unfolding persist_waiting
persist_waiting-Step stamp id j run row outcome db t out found reads live h =
    let (p, s, checked, rest) =
      bind_ok (lift (checked_waiting_payload outcome.waiting_payload)) _ db out t h in
    let (good, before) = lift_ok (checked_waiting_payload outcome.waiting_payload) db p s checked in
    lifecycle_event-Step stamp id j waiting_confirmation run.started_at none
      waiting_confirmation_event p row db t out found
      (quiet _ _ (λ n.
        await (rw (← reads.status) live) refl refl
          (with_lifecycle-SameRun waiting_confirmation _ _ row)))
      (rw (sym before) at rest)

pub persist_outcome-Step :
    (now : ℕ) (stamp : Stamp) (id j : ℕ) (outcome : RunGraphOutcome) (db t : Db) (out : RunRecord)
    → persist_outcome now stamp id outcome db ≡ (ok out, t)
    → Step j db t
unfolding persist_outcome
persist_outcome-Step now stamp id j outcome db t out h =
    let (run, s, required, rest) = bind_ok (require_run id) _ db out t h in
    let (before, row, found, reads) = require_run_ok id db run s required in
    elim (Bool-cases (is_terminal run.status || is_waiting run.status)) [
      | inl over ↦ unchanged-Step j db s t before (pair_ok run out s t (rw over at rest)).1
      | inr more ↦
          let (live, active) = not_waiting_nor_terminal run.status more in
          elim (Bool-cases (is_waiting_kind outcome.kind)) [
            | inl waits ↦
                persist_waiting-Step stamp id j run row outcome db t out found reads active
                  (rw before at (rw waits at (rw more at rest)))
            | inr ends ↦
                persist_terminal-Step now stamp id j run row outcome db t out found reads live
                  (rw before at (rw ends at (rw more at rest)))
          ]
    ]
