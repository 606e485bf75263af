-- ===== src/Runs.antt =====
-- domain/runs.py, application/ports/run_graph.py and the tables `threads`, `agent_runs` and
-- `agent_events` of infrastructure/db/models/schema.py.
use it_outsourcing_knowledge.Base.{
  ℕ, String, Bool, true, false, Option, none, some, List, [], ◌∷◌, str_eq, if◌then◌else◌,
}
use it_outsourcing_knowledge.Base.Int.{ℤ}
use it_outsourcing_knowledge.Base.Table.{Table}
use it_outsourcing_knowledge.Jobs.{JobTable}
use it_outsourcing_knowledge.Access.{AccessStore}

pub data RunBusinessMode : Type 0 where
  qa_mode issue_lookup issue_create : RunBusinessMode

pub data RunStatus : Type 0 where
  queued running waiting_confirmation succeeded refused cancelled failed : RunStatus

pub data AgentEventType : Type 0 where
  run_queued run_started run_progress artifact_available waiting_confirmation_event : AgentEventType
  run_resume_queued run_resumed run_succeeded run_refused run_cancelled run_failed : AgentEventType

-- The number of an event type stands for its text, in the tests for equality.
abbrev pub tag : AgentEventType → ℕ
tag run_queued = 0
tag run_started = 1
tag run_progress = 2
tag artifact_available = 3
tag waiting_confirmation_event = 4
tag run_resume_queued = 5
tag run_resumed = 6
tag run_succeeded = 7
tag run_refused = 8
tag run_cancelled = 9
tag run_failed = 10

-- `status in TERMINAL_RUN_STATUSES`
abbrev pub is_terminal : RunStatus → Bool
is_terminal succeeded = true
is_terminal refused = true
is_terminal cancelled = true
is_terminal failed = true
is_terminal _ = false

-- `event_type in TERMINAL_EVENT_TYPES`
abbrev pub is_terminal_event : AgentEventType → Bool
is_terminal_event run_succeeded = true
is_terminal_event run_refused = true
is_terminal_event run_cancelled = true
is_terminal_event run_failed = true
is_terminal_event _ = false

abbrev pub is_waiting : RunStatus → Bool
is_waiting waiting_confirmation = true
is_waiting _ = false

abbrev pub is_queued : RunStatus → Bool
is_queued queued = true
is_queued _ = false

abbrev pub is_running : RunStatus → Bool
is_running running = true
is_running _ = false

abbrev pub is_issue_create : RunBusinessMode → Bool
is_issue_create issue_create = true
is_issue_create _ = false

-- A value of a JSON payload.
mutual
  pub data Json : Type 0 where
    null : Json
    text : String → Json
    number : ℤ → Json
    boolean : Bool → Json
    array : Items → Json
    object : Members → Json

  pub data Items : Type 0 where
    no_items : Items
    item : Json → Items → Items

  pub data Members : Type 0 where
    no_members : Members
    member : String → Json → Members → Members

-- `dict[str, object]`
abbrev pub Payload : Type 0
Payload = List (String × Json)

-- `payload.get(key)`
unfoldable pub get_value : String → Payload → Option Json
get_value key [] = none
get_value key ((k, v) ∷ rest) =
    let other = get_value key rest in if str_eq k key then some v else other

-- `value if isinstance(value, str) else None`
abbrev pub as_text : Option Json → Option String
as_text (some (text s)) = some s
as_text _ = none

pub record Thread : Type 0 where
  pub company_id : ℕ
  pub project_id : ℕ
  pub user_id : ℕ
  pub title : Option String

-- The columns of a run that only the store of the answering graph writes.
pub record RunUsage : Type 0 where
  pub model_alias : Option String
  pub prompt_version : Option String
  pub prompt_content_hash : Option String
  pub input_tokens : ℕ
  pub output_tokens : ℕ
  pub total_tokens : ℕ
  pub retrieval_rounds : ℕ
  pub estimated_cost_microunits : ℕ
  pub cost_currency : String

-- Their defaults.
abbrev pub no_usage : RunUsage
no_usage = record {
  model_alias = none;
  prompt_version = none;
  prompt_content_hash = none;
  input_tokens = 0;
  output_tokens = 0;
  total_tokens = 0;
  retrieval_rounds = 0;
  estimated_cost_microunits = 0;
  cost_currency = "USD";
}

-- A row of `agent_runs`.
pub record AgentRun : Type 0 where
  pub thread_id : ℕ
  pub company_id : ℕ
  pub project_id : ℕ
  pub user_id : ℕ
  pub business_mode : Option RunBusinessMode
  pub status : RunStatus
  pub started_at : Option ℕ
  pub finished_at : Option ℕ
  pub usage : RunUsage

-- The run without what its graph has used so far.
abbrev pub without_usage : AgentRun → AgentRun
without_usage row = record row { usage = no_usage }

pub record RunRecord : Type 0 where
  pub id : ℕ
  pub thread_id : ℕ
  pub company_id : ℕ
  pub project_id : ℕ
  pub user_id : ℕ
  pub business_mode : RunBusinessMode
  pub status : RunStatus
  pub started_at : Option ℕ
  pub finished_at : Option ℕ
  pub result_ref : Option String
  pub result_summary : Option String

pub record AgentEvent : Type 0 where
  pub id : ℕ
  pub run_id : ℕ
  pub sequence_no : ℕ
  pub event_type : AgentEventType
  pub payload : Payload
  pub created_at : ℕ

-- The part of the database that the runs use.
pub record Db : Type 0 where
  pub threads : Table Thread
  pub runs : Table AgentRun
  pub events : List AgentEvent
  pub jobs : JobTable
  pub access : AccessStore

-- The generated key and the database's clock of one `INSERT`.
pub record Stamp : Type 0 where
  pub key : ℕ
  pub at : ℕ

pub data RunGraphOutcomeKind : Type 0 where
  succeeded_kind refused_kind cancelled_kind waiting_kind : RunGraphOutcomeKind

pub record RunGraphOutcome : Type 0 where
  pub kind : RunGraphOutcomeKind
  pub result_ref : Option String
  pub summary : Option String
  pub waiting_payload : Option Payload
