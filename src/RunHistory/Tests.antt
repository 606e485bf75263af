-- ===== src/RunHistory/Tests.antt =====
-- A run from its creation to its end.
use it_outsourcing_knowledge.Base.{
  map_option, map, ◌+◌, ℕ, ◌≡◌, refl, ltb, leb, ◌&&◌, none, some, List, [], ◌∷◌,
}
use it_outsourcing_knowledge.Base.Exec.{transaction}
use it_outsourcing_knowledge.Base.Int.{pos}
use it_outsourcing_knowledge.Base.Table.{find, put}
use it_outsourcing_knowledge.Documents.{DocumentStore}
use it_outsourcing_knowledge.Access.{developer, active, AccessStore}
use it_outsourcing_knowledge.Runs.{
  text, without_usage, no_usage, issue_create, succeeded, AgentRun, Db, Stamp, succeeded_kind,
  RunGraphOutcome,
}
use it_outsourcing_knowledge.RunRepository.Log.{count_events, count_terminal, has_number}
use it_outsourcing_knowledge.RunRepository.{append_event, next_event, max_sequence}
use it_outsourcing_knowledge.RunHistory.Session.{
  GraphWrite, artifact_write, usage_write, round_write, append_artifact, update_usage, graph_write,
  graph_session,
}
use it_outsourcing_knowledge.RunService.{Request, CreateRunCommand}
use it_outsourcing_knowledge.RunHistory.{Step}
use it_outsourcing_knowledge.RunHistory.Trace.{
  graph_op, RunOp, create_op, prepare_execute_op, persist_op, final_failure_op, apply, run,
  apply-Step, IsLogged, run-IsLogged, event_numbers, terminal_forever,
}
use it_outsourcing_knowledge.Samples.{strokes}

abbrev no_documents : DocumentStore
no_documents = record { documents = []; versions = [] }

abbrev store : AccessStore
store = record {
  projects =
      (7, record { company_id = 1; client_id = 2; code = "P"; lifecycle_status = active }) ∷ [];
  memberships =
      record { project_id = 7; user_id = 5; role = developer; valid_from = 0; valid_to = none }
      ∷ [];
  spaces = [];
  docs = no_documents;
}

abbrev start : Db
start = record { threads = []; runs = []; events = []; jobs = []; access = store }

abbrev stamp : ℕ → Stamp
stamp k = record { key = k; at = 10 }

abbrev request : Request
request = record {
  now = 10;
  thread_stamp = stamp 1;
  run_stamp = stamp 2;
  event_stamp = stamp 3;
  job_key = 4;
}

abbrev command : CreateRunCommand
command = record {
  project_id = 7;
  business_mode = issue_create;
  query_text = " file a bug ";
  thread_id = none;
}

abbrev success : RunGraphOutcome
success = record {
  kind = succeeded_kind;
  result_ref = some "ISSUE-1";
  summary = none;
  waiting_payload = none;
}

-- A graph that is still at work.
abbrev writes : List GraphWrite
writes =
    artifact_write (stamp 21) "QUERY_ANALYSIS" (text "bug")
    ∷ round_write
    ∷ usage_write (pos 100) (pos 20) (λ input output. (input + output, "USD"))
    ∷ artifact_write (stamp 22) "ANSWER_DRAFT" (text "done")
    ∷ []

abbrev history : List RunOp
history =
    create_op request 5 command
    ∷ prepare_execute_op 11 (stamp 5) 2
    ∷ graph_op 2 writes
    ∷ persist_op 12 (stamp 6) 2 success
    ∷ []

start-IsLogged : IsLogged start
unfolding find
start-IsLogged = record { numbered = tt; settled = λ j. refl }

run-IsLogged_example : IsLogged (run strokes "prod" start history)
run-IsLogged_example = run-IsLogged strokes "prod" start history start-IsLogged

event_numbers_example :
    has_number 2 5 (run strokes "prod" start history).events
    ≡ (ltb 0 5 && leb 5 (count_events 2 (run strokes "prod" start history).events))
event_numbers_example = event_numbers strokes "prod" start history 2 5 refl refl

apply-Step_example : Step 2 start (apply strokes "prod" start (create_op request 5 command))
apply-Step_example = apply-Step strokes "prod" start (create_op request 5 command) 2

abbrev done_row : AgentRun
done_row = record {
  thread_id = 1;
  company_id = 1;
  project_id = 7;
  user_id = 5;
  business_mode = some issue_create;
  status = succeeded;
  started_at = some 11;
  finished_at = some 12;
  usage = no_usage;
}

abbrev ended : Db
ended = record start { runs = (2, done_row) ∷ [] }

find_ended : find 2 ended.runs ≡ some done_row
unfolding find
find_ended = refl

abbrev late : List RunOp
late =
    final_failure_op 13 (stamp 7) 2 "TimeoutError"
    ∷ prepare_execute_op 14 (stamp 8) 2
    ∷ graph_op 2 writes
    ∷ []

terminal_forever_example :
    (map_option without_usage (find 2 (run strokes "prod" ended late).runs)
      ≡ some (without_usage done_row))
    × (count_terminal 2 (run strokes "prod" ended late).events ≡ count_terminal 2 ended.events)
terminal_forever_example = terminal_forever strokes "prod" ended late 2 done_row find_ended refl

-- The graph's two artifacts follow on the log that is there.
artifacts_numbered :
    map (λ e. e.sequence_no) (apply strokes "prod" ended (graph_op 2 writes)).events ≡ 2 ∷ 1 ∷ []
unfolding transaction apply graph_session graph_write append_artifact update_usage append_event
    next_event max_sequence find put
artifacts_numbered = refl

rounds_counted :
    map_option
      (λ r. r.usage.retrieval_rounds)
      (find 2 (apply strokes "prod" ended (graph_op 2 writes)).runs)
    ≡ some 1
unfolding transaction apply graph_session graph_write append_artifact update_usage append_event
    next_event max_sequence find put
rounds_counted = refl
