-- ===== src/IssueTracker.antt =====
-- infrastructure/project_tracker/sandbox.py: the sandbox of a project tracker, in the session of
-- its caller.
use it_outsourcing_knowledge.Base.{
  ℕ, ◌/◌, ◌%◌, String, Bool, true, false, ◌&&◌, ◌||◌, Option, none, some, List, [], ◌∷◌, str_eq,
  ltb, leb, ◌==◌, if◌then◌else◌, map_option, is_some,
}
use Prim.Native.String.{◌++◌}
use it_outsourcing_knowledge.Base.Exec.{
  lookup_error, value_error, runtime_error, integrity_error, ok, err, result_of, Exec, pure, lift,
  gets, or_raise, modify, ◌>>=◌, ◌>>◌,
}
use it_outsourcing_knowledge.Base.Query.{query}
use it_outsourcing_knowledge.Base.Table.{Table, find, add}
use it_outsourcing_knowledge.Base.Uuid.{UuidCodec}
use it_outsourcing_knowledge.Issues.{
  CreateIssueRequest, CreatedIssue, SandboxProject, SandboxIssue, IssueDb, IssueTexts,
}

-- The clock and the key of the row that `create_issue` inserts.
pub record IssueStamp : Type 0 where
  pub key : ℕ
  pub at : ℕ

abbrev digit : ℕ → String
digit n =
    if n == 0
    then "0"
    else if n == 1
    then "1"
    else if n == 2
    then "2"
    else if n == 3
    then "3"
    else if n == 4
    then "4"
    else if n == 5
    then "5"
    else if n == 6
    then "6"
    else if n == 7
    then "7"
    else if n == 8
    then "8"
    else "9"

-- `f"{n % 1_000_000:06d}"`
unfoldable pub six_digits : ℕ → String
six_digits n =
    digit (n / 100000 % 10)
    ++ digit (n / 10000 % 10)
    ++ digit (n / 1000 % 10)
    ++ digit (n / 100 % 10)
    ++ digit (n / 10 % 10)
    ++ digit (n % 10)

-- `client_request_id = request_id`, which a missing one never meets.
abbrev pub is_text : String → Option String → Bool
is_text s none = false
is_text s (some t) = str_eq t s

unfoldable pub is_request : ℕ → String → ℕ × SandboxIssue → Bool
is_request project request_id (id, row) =
    row.project_id == project && is_text request_id row.client_request_id

unfoldable pub oldest_first : ℕ × SandboxIssue → ℕ × SandboxIssue → Bool
oldest_first (i, a) (j, b) =
    ltb a.created_at b.created_at || a.created_at == b.created_at && leb i j

abbrev pub first_row : Table SandboxIssue → Option (ℕ × SandboxIssue)
first_row [] = none
first_row (r ∷ rs) = some r

unfoldable pub request_row : ℕ → String → Table SandboxIssue → Option (ℕ × SandboxIssue)
request_row project request_id t =
    first_row (query oldest_first (is_request project request_id) 1 t)

unfoldable pub to_created : UuidCodec → String → ℕ × SandboxIssue → CreatedIssue
to_created uuid request_id (id, row) = record {
  project_id = uuid.to_str row.project_id;
  request_id = request_id;
  issue_key = row.issue_key;
  status = row.status;
}

unfoldable pub get_issue_by_request_id :
    UuidCodec → String → String → Exec IssueDb (Option CreatedIssue)
get_issue_by_request_id uuid project_id request_id = do
  project ← lift (result_of value_error (uuid.parse project_id))
  row ← gets (λ db. request_row project request_id db.issues)
  pure (map_option (to_created uuid request_id) row)

unfoldable pub active_project : ℕ → List SandboxProject → Option SandboxProject
active_project project [] = none
active_project project (p ∷ ps) =
    let rest = active_project project ps in
    if p.project_id == project && str_eq p.status "active" then some p else rest

-- Is the key of the issue taken in its project?
abbrev pub has_issue_key : ℕ → String → Table SandboxIssue → Bool
has_issue_key project key [] = false
has_issue_key project key ((id, row) ∷ rows) =
    (row.project_id == project && str_eq row.issue_key key) || has_issue_key project key rows

-- `request.error_code.upper() if request.error_code else None`
abbrev upper_code : (String → String) → Option String → Option String
upper_code upper none = none
upper_code upper (some String.[]) = none
upper_code upper (some (String.◌∷◌ c s)) = some (upper (String.◌∷◌ c s))

unfoldable pub new_issue :
    IssueTexts → IssueStamp → ℕ → ℕ → SandboxProject → CreateIssueRequest → SandboxIssue
new_issue texts stamp project reporter sandbox request = record {
  project_id = project;
  sandbox_project_id = sandbox.id;
  issue_key = sandbox.external_key ++ ("-" ++ six_digits stamp.key);
  title = request.title;
  description = request.description;
  issue_type = request.issue_type;
  priority = request.priority;
  status = "OPEN";
  module_name = request.module_name;
  error_code = upper_code texts.upper request.error_code;
  environment = request.environment;
  reporter_id = reporter;
  client_request_id = some request.request_id;
  created_at = stamp.at;
}

-- `INSERT … ON CONFLICT (project_id, client_request_id) DO NOTHING RETURNING …`. The primary key
-- and the unique key of the project's issues are not covered by the clause.
unfoldable pub insert_issue : IssueStamp → SandboxIssue → String → Exec IssueDb Bool
insert_issue stamp row request_id db =
    if is_some (request_row row.project_id request_id db.issues)
    then (ok false, db)
    else if is_some (find stamp.key db.issues)
        || has_issue_key row.project_id row.issue_key db.issues
    then (err integrity_error, db)
    else (ok true, record db { issues = add stamp.key row db.issues })

unfoldable pub log_issue : ℕ → ℕ → String → IssueDb → IssueDb
log_issue issue actor request_id db = record db {
  issue_events =
      record {
        sandbox_issue_id = issue;
        event_type = "CREATED";
        actor_id = actor;
        client_request_id = request_id;
      }
      ∷ db.issue_events;
}

unfoldable pub after_insert :
    UuidCodec → IssueStamp → SandboxIssue → CreateIssueRequest → Bool → Exec IssueDb CreatedIssue
after_insert uuid stamp row request true = do
  modify (log_issue stamp.key row.reporter_id request.request_id)
  pure (record {
    project_id = request.project_id;
    request_id = request.request_id;
    issue_key = row.issue_key;
    status = row.status;
  })
after_insert uuid stamp row request false = do
  existing ← get_issue_by_request_id uuid request.project_id request.request_id
  or_raise existing runtime_error

unfoldable pub insert_new :
    UuidCodec → IssueTexts → IssueStamp → CreateIssueRequest → Exec IssueDb CreatedIssue
insert_new uuid texts stamp request = do
  project ← lift (result_of value_error (uuid.parse request.project_id))
  found ← gets (λ db. active_project project db.sandbox_projects)
  sandbox ← or_raise found lookup_error
  reporter ← lift (result_of value_error (uuid.parse request.reporter_id))
  let row = new_issue texts stamp project reporter sandbox request
  inserted ← insert_issue stamp row request.request_id
  after_insert uuid stamp row request inserted

abbrev pub or_insert : Option CreatedIssue → Exec IssueDb CreatedIssue → Exec IssueDb CreatedIssue
or_insert (some issue) m = pure issue
or_insert none m = m

unfoldable pub create_issue :
    UuidCodec → IssueTexts → IssueStamp → CreateIssueRequest → Exec IssueDb CreatedIssue
create_issue uuid texts stamp request = do
  existing ← get_issue_by_request_id uuid request.project_id request.request_id
  or_insert existing (insert_new uuid texts stamp request)
