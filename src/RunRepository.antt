-- ===== src/RunRepository.antt =====
-- infrastructure/db/repositories/runs.py: threads, runs and the event log of each run. A
-- repository works in the caller's session, and the caller commits.
pub mod Log
pub mod Effects
use it_outsourcing_knowledge.Base.{
  ℕ, ◌+◌, String, Bool, true, false, not, ◌&&◌, ◌||◌, Option, none, some, List, [], ◌∷◌, ltb, leb,
  max, ◌==◌, if◌then◌else◌, is_some, is_none, take, select, get_or,
}
use it_outsourcing_knowledge.Base.Exec.{
  Error, lookup_error, value_error, integrity_error, Result, ok, err, Exec, pure, raise, lift, gets,
  or_raise, modify, raise_if, ◌>>=◌, ◌>>◌,
}
use it_outsourcing_knowledge.Base.Sort.{sort}
use it_outsourcing_knowledge.Base.Table.{find, add, put}
use it_outsourcing_knowledge.Runs.{
  no_usage, RunBusinessMode, RunStatus, queued, AgentEventType, tag, is_terminal_event, Payload,
  get_value, as_text, Thread, AgentRun, RunRecord, AgentEvent, Db, Stamp,
}

unfoldable pub to_run : ℕ → Option AgentEvent → AgentRun → Result RunRecord
to_run id terminal row = elim row.business_mode [
  | none ↦ err value_error
  | some mode ↦ ok (record {
    id = id;
    thread_id = row.thread_id;
    company_id = row.company_id;
    project_id = row.project_id;
    user_id = row.user_id;
    business_mode = mode;
    status = row.status;
    started_at = row.started_at;
    finished_at = row.finished_at;
    result_ref = elim terminal [
      | none ↦ none
      | some e ↦ as_text (get_value "result_ref" e.payload)
    ];
    result_summary = elim terminal [
      | none ↦ none
      | some e ↦ as_text (get_value "summary" e.payload)
    ];
  })
]

unfoldable pub get_thread : ℕ → Exec Db (Option Thread)
get_thread id db = (ok (find id db.threads), db)

unfoldable pub create_thread : Stamp → ℕ → ℕ → ℕ → Option String → Exec Db (ℕ × Thread)
create_thread stamp company project user title db =
    let row : Thread = record {
      company_id = company;
      project_id = project;
      user_id = user;
      title = title;
    } in
    if is_some (find stamp.key db.threads)
    then (err integrity_error, db)
    else (ok (stamp.key, row), record db { threads = add stamp.key row db.threads })

unfoldable pub new_run : ℕ → ℕ → ℕ → ℕ → RunBusinessMode → AgentRun
new_run thread company project user mode = record {
  thread_id = thread;
  company_id = company;
  project_id = project;
  user_id = user;
  business_mode = some mode;
  status = queued;
  started_at = none;
  finished_at = none;
  usage = no_usage;
}

insert_run : ℕ → AgentRun → Exec Db Unit
insert_run id row db =
    if is_some (find id db.runs)
    then (err integrity_error, db)
    else (ok tt, record db { runs = add id row db.runs })

unfoldable pub create_run : Stamp → ℕ → ℕ → ℕ → ℕ → RunBusinessMode → Exec Db RunRecord
unfolding insert_run
create_run stamp thread company project user mode = do
  let row = new_run thread company project user mode
  insert_run stamp.key row
  lift (to_run stamp.key none row)

abbrev newer : AgentEvent → Option AgentEvent → Option AgentEvent
newer e none = some e
newer e (some f) = if ltb f.sequence_no e.sequence_no then some e else some f

-- `ORDER BY sequence_no DESC LIMIT 1` over the rows that meet `p`.
unfoldable pub latest : (AgentEvent → Bool) → List AgentEvent → Option AgentEvent
latest p [] = none
latest p (e ∷ es) = let rest = latest p es in if p e then newer e rest else rest

abbrev pub of_type : ℕ → AgentEventType → AgentEvent → Bool
of_type run type e = e.run_id == run && tag e.event_type == tag type

abbrev pub of_terminal : ℕ → AgentEvent → Bool
of_terminal run e = e.run_id == run && is_terminal_event e.event_type

-- With `for_update` the row is locked as well, which is the transaction's business.
unfoldable pub get_run : ℕ → Exec Db (Option RunRecord)
get_run id db = elim (find id db.runs) [
  | none ↦ (ok none, db)
  | some row ↦ elim (to_run id (latest (of_terminal id) db.events) row) [
    | err e ↦ (err e, db)
    | ok run ↦ (ok (some run), db)
  ]
]

-- `SELECT max(sequence_no) … WHERE run_id = run`
unfoldable pub max_sequence : ℕ → List AgentEvent → Option ℕ
max_sequence run [] = none
max_sequence run (e ∷ es) =
    let rest = max_sequence run es in
    if e.run_id == run then some (max e.sequence_no (get_or rest 0)) else rest

abbrev pub has_id : ℕ → List AgentEvent → Bool
has_id k [] = false
has_id k (e ∷ es) = k == e.id || has_id k es

unfoldable pub next_event : Stamp → ℕ → AgentEventType → Payload → List AgentEvent → AgentEvent
next_event stamp run type payload es = record {
  id = stamp.key;
  run_id = run;
  sequence_no = get_or (max_sequence run es) 0 + 1;
  event_type = type;
  payload = payload;
  created_at = stamp.at;
}

unfoldable pub append_event : Stamp → ℕ → AgentEventType → Payload → Exec Db AgentEvent
append_event stamp run type payload db =
    let event = next_event stamp run type payload db.events in
    if is_none (find run db.runs)
    then (err lookup_error, db)
    else if has_id stamp.key db.events
    then (err integrity_error, db)
    else (ok event, record db { events = event ∷ db.events })

abbrev pub earlier : AgentEvent → AgentEvent → Bool
earlier a b = leb a.sequence_no b.sequence_no

unfoldable pub list_events_after : ℕ → ℕ → ℕ → List AgentEvent → List AgentEvent
list_events_after run after limit es =
    if ltb limit 1
    then []
    else take limit (sort earlier (select (λ e. e.run_id == run && ltb after e.sequence_no) es))

unfoldable pub latest_event_of_type : ℕ → AgentEventType → Exec Db (Option AgentEvent)
latest_event_of_type run type db = (ok (latest (of_type run type) db.events), db)

-- `set_status` and `set_lifecycle` read the row, change it and return it.
unfoldable pub update_run : ℕ → (AgentRun → AgentRun) → Exec Db RunRecord
update_run id f db = elim (find id db.runs) [
  | none ↦ (err lookup_error, db)
  | some row ↦ (to_run id none (f row), record db { runs = put id (f row) db.runs })
]

unfoldable pub set_status : ℕ → RunStatus → Exec Db RunRecord
unfolding update_run
set_status id status = update_run id (λ row. record row { status = status })

unfoldable pub set_lifecycle : ℕ → RunStatus → Option ℕ → Option ℕ → Exec Db RunRecord
unfolding update_run
set_lifecycle id status started_at finished_at =
    update_run id
      (λ row. record row { status = status; started_at = started_at; finished_at = finished_at })
