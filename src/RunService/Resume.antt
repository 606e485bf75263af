-- ===== src/RunService/Resume.antt =====
-- Who may resume a run, and what a confirmed run looks like afterwards.
use it_outsourcing_knowledge.Base.{
  ℕ, ◌≡◌, refl, sym, ap, ◌∙◌, subst, String, Bool, true, false, not, none, some, ◌∷◌, inl, inr,
  ◌==◌, ==_iff, str_eq, eq_iff,
}
use it_outsourcing_knowledge.Base.Exec.{
  Error, ok, Exec, bind_ok, pair_ok, lift_ok, or_raise, guard_then, found_then, lift_then,
  run_not_found, run_access_denied, run_state_conflict, resume_input_mismatch, ◌>>=◌,
}
use it_outsourcing_knowledge.Base.Table.{find, add, put}
use it_outsourcing_knowledge.Jobs.{resume_agent_run}
use it_outsourcing_knowledge.Queue.{enqueue, build_job}
use it_outsourcing_knowledge.Queue.Enqueue.{enqueue_ok}
use it_outsourcing_knowledge.Base.Uuid.{UuidCodec}
use it_outsourcing_knowledge.Access.{AuthorizedProjectContext, authorize_project}
use it_outsourcing_knowledge.Runs.{
  RunBusinessMode, issue_create, RunStatus, queued, waiting_confirmation,
  waiting_confirmation_event, run_resume_queued, is_waiting, is_issue_create, get_value, as_text,
  AgentRun, RunRecord, AgentEvent, Db,
}
use it_outsourcing_knowledge.RunRepository.{
  get_run, latest, of_type, latest_event_of_type, append_event, set_status, update_run, next_event,
}
use it_outsourcing_knowledge.RunRepository.Effects.{
  Reads, get_run_ok, append_event_ok, update_run_ok,
}
use it_outsourcing_knowledge.RunService.{
  Request, ResumeRunCommand, authorize_identity, enqueue_job, run_job, resumable, resume_payload,
  queue_resume, resume,
}

-- The run waits for its user, who is authorized in its project and company, and whose run it is.
pub record Resumable (uuid : UuidCodec) (request : Request) (user id : ℕ) (hash : String) (db : Db)
    (row : AgentRun) : Type 0 where
  pub found : find id db.runs ≡ some row
  pub status : row.status ≡ waiting_confirmation
  pub mode : row.business_mode ≡ some issue_create
  pub owner : row.user_id ≡ user
  pub context : AuthorizedProjectContext
  pub authorized : authorize_project uuid request.now user row.project_id db.access ≡ ok context
  pub company : context.scope.company_id ≡ row.company_id
  pub waiting : AgentEvent
  pub newest : latest (of_type id waiting_confirmation_event) db.events ≡ some waiting
  pub confirmed : as_text (get_value "request_payload_hash" waiting.payload) ≡ some hash

not-false : (b : Bool) → not b ≡ false → b ≡ true
not-false true h = refl
not-false false h = cc

is_issue_create_eq : (m : RunBusinessMode) → is_issue_create m ≡ true → m ≡ issue_create
is_issue_create_eq issue_create h = refl
is_issue_create_eq m h = cc

is_waiting_eq : (s : RunStatus) → is_waiting s ≡ true → s ≡ waiting_confirmation
is_waiting_eq waiting_confirmation h = refl
is_waiting_eq s h = cc

module _ {B : Type 0} (id : ℕ) (error : Error) (m : RunRecord → Exec Db B) where
  -- A block that begins by reading a run, or raising if there is none.
  pub get_run_then :
      (db : Db) (out : B) (t : Db)
      → (get_run id >>= λ found. or_raise found error >>= m) db ≡ (ok out, t)
      → (row : AgentRun) × (run : RunRecord) × (find id db.runs ≡ some row)
        × Reads id row run
        × (m run db ≡ (ok out, t))
  get_run_then db out t h =
      let (o, s, read, rest) = bind_ok (get_run id) _ db out t h in
      let (run, is, rest') = found_then o error m s out t rest in
      let (same, found) = get_run_ok id db o s read in
      elim found [
        | inl nothing ↦ absurd (cc (is, nothing))
        | inr (row, run', there, e, reads) ↦
            let same_run : run' ≡ run = cc (e, is) in
            (row, run, there, rw (← same_run) reads, rw same at rest')
      ]

module _ (uuid : UuidCodec) (namespace : String) (request : Request) (user : ℕ) where
  pub resumable_ok :
      (id : ℕ) (db : Db) (accepted : RunRecord × String) (t : Db)
      → resumable uuid namespace request user id db ≡ (ok accepted, t)
      → (t ≡ db)
        × (accepted.0.id ≡ id)
        × (row : AgentRun) × Resumable uuid request user id accepted.1 db row
  unfolding resumable authorize_identity latest_event_of_type
  resumable_ok id db accepted t h =
      let (row, run, there, reads, h1) = get_run_then id run_not_found _ db accepted t h in
      let (c, granted, h2) =
        lift_then (authorize_project uuid request.now user run.project_id db.access) _ db accepted t
          h1 in
      let (company, h3) =
        guard_then (not (c.scope.company_id == run.company_id)) run_access_denied _ db accepted t
          h2 in
      let (owner, h4) =
        guard_then (not (user == run.user_id)) run_access_denied _ db accepted t h3 in
      let (mode, h5) =
        guard_then (not (is_issue_create run.business_mode)) run_state_conflict _ db accepted t
          h4 in
      let (status, h6) =
        guard_then (not (is_waiting run.status)) run_state_conflict _ db accepted t h5 in
      let (waiting, newest, h7) =
        found_then (latest (of_type run.id waiting_confirmation_event) db.events) run_state_conflict
          _ db accepted t h6 in
      let (hash, confirmed, h8) =
        found_then (as_text (get_value "request_payload_hash" waiting.payload)) run_state_conflict _
          db accepted t h7 in
      let (result, last) = pair_ok (run, hash) accepted db t h8 in
      (
        sym last,
        sym (ap (λ a. a.0.id) result) ∙ reads.key,
        row,
        record {
          found = there;
          status = sym reads.status ∙ is_waiting_eq run.status (not-false _ status);
          mode = reads.mode ∙ ap some (is_issue_create_eq run.business_mode (not-false _ mode));
          owner = sym reads.user ∙ sym ((==_iff user run.user_id).0 (not-false _ owner));
          context = c;
          authorized =
              ap (λ k. authorize_project uuid request.now user k db.access) (sym reads.project)
              ∙ granted;
          company =
              (==_iff c.scope.company_id run.company_id).0 (not-false _ company) ∙ reads.company;
          waiting = waiting;
          newest =
              ap (λ k. latest (of_type k waiting_confirmation_event) db.events) (sym reads.key)
              ∙ newest;
          confirmed = confirmed ∙ ap (λ a. some a.1) result;
        },
      )

  -- What `resume_run` leaves behind when it returns: the run queued again, one event and one job.
  pub record Resumed (command : ResumeRunCommand) (id : ℕ) (row : AgentRun) (db t : Db)
      : Type 0 where
    pub run : t.runs ≡ put id (record row { status = queued }) db.runs
    pub log :
        t.events
        ≡ next_event request.event_stamp id run_resume_queued
            (resume_payload uuid namespace request user command)
            db.events
          ∷ db.events
    pub fresh : find request.job_key db.jobs ≡ none
    pub job :
        t.jobs
        ≡ add request.job_key
            (build_job namespace request.now (run_job uuid resume_agent_run id))
            db.jobs
    pub threads : t.threads ≡ db.threads
    pub access : t.access ≡ db.access

  queue_resume_ok :
      (command : ResumeRunCommand) (id : ℕ) (db : Db) (run : RunRecord) (t : Db)
      → queue_resume uuid namespace request user command id db ≡ (ok run, t)
      → (row : AgentRun) × (find id db.runs ≡ some row)
        × (run.status ≡ queued)
        × Resumed command id row db t
  unfolding queue_resume set_status enqueue_job
  queue_resume_ok command id db run t h =
      let (e, s1, appended, h1) =
        bind_ok
          (append_event request.event_stamp id run_resume_queued
            (resume_payload uuid namespace request user command))
          _ db run t h in
      let (logged, there) =
        append_event_ok request.event_stamp id run_resume_queued _ db e s1 appended in
      let f : AgentRun → AgentRun = λ row. record row { status = queued } in
      let (updated, s2, wrote, h2) = bind_ok (update_run id f) _ s1 run t h1 in
      let (row, found, written, reads) = update_run_ok id f s1 updated s2 wrote in
      let job_request = run_job uuid resume_agent_run id in
      let (job, s3, queue, h3) =
        bind_ok (enqueue_job uuid namespace request.job_key request.now job_request) _ s2 run t
          h2 in
      let (result, last) = pair_ok updated run s3 t h3 in
      let (queued_job, at_end) =
        lift_ok (enqueue uuid namespace request.job_key request.now job_request s2.jobs).0
          (record s2 {
            jobs = (enqueue uuid namespace request.job_key request.now job_request s2.jobs).1;
          })
          job s3 queue in
      let (fresh, added) =
        enqueue_ok uuid namespace request.job_key request.now job_request s2.jobs job queued_job in
      let end : t ≡ record s2 {
        jobs = (enqueue uuid namespace request.job_key request.now job_request s2.jobs).1;
      } =
        sym last ∙ sym at_end in
      let s2_is = written in
      let jobs : s2.jobs ≡ db.jobs = ap (λ x. x.jobs) written ∙ ap (λ x. x.jobs) logged in
      (
        row,
        sym (ap (λ x. find id x.runs) logged) ∙ found,
        ap (λ r. r.status) (sym result) ∙ reads.status,
        record {
          run =
              ap (λ x. x.runs) end
              ∙ ap (λ x. x.runs) written
              ∙ ap (λ x. put id (f row) x.runs) logged;
          log = ap (λ x. x.events) end ∙ ap (λ x. x.events) written ∙ ap (λ x. x.events) logged;
          fresh = ap (λ x. find request.job_key x) (sym jobs) ∙ fresh;
          job =
              ap (λ x. x.jobs) end
              ∙ added
              ∙ ap (λ x. add request.job_key (build_job namespace request.now job_request) x) jobs;
          threads =
              ap (λ x. x.threads) end ∙ ap (λ x. x.threads) written ∙ ap (λ x. x.threads) logged;
          access = ap (λ x. x.access) end ∙ ap (λ x. x.access) written ∙ ap (λ x. x.access) logged;
        },
      )

  -- A resume returns only for a run that waits for this user's confirmation, in a project and a
  -- company in which the user is authorized now, and only with the hash of the run's newest
  -- waiting event. Then the run is queued, and one event and one job are written and nothing else.
  pub resume_ok :
      (id : ℕ) (command : ResumeRunCommand) (db : Db) (run : RunRecord) (t : Db)
      → resume uuid namespace request user id command db ≡ (ok run, t)
      → (row : AgentRun) × Resumable uuid request user id command.request_payload_hash db row
        × (run.status ≡ queued)
        × Resumed command id row db t
  unfolding resume
  resume_ok id command db run t h =
      let (accepted, s, tested, h1) =
        bind_ok (resumable uuid namespace request user id) _ db run t h in
      let (same, key, row, who) = resumable_ok id db accepted s tested in
      let (hash, h2) =
        guard_then (not (str_eq command.request_payload_hash accepted.1)) resume_input_mismatch _ s
          run t h1 in
      let hash_eq : command.request_payload_hash ≡ accepted.1 =
        (eq_iff command.request_payload_hash accepted.1).0 (not-false _ hash) in
      let h3 : queue_resume uuid namespace request user command id db ≡ (ok run, t) =
        sym (ap (λ k. queue_resume uuid namespace request user command k db) key)
        ∙ sym (ap (λ d. queue_resume uuid namespace request user command accepted.0.id d) same)
        ∙ h2 in
      let (row', found, status, resumed) = queue_resume_ok command id db run t h3 in
      let same_row : row' ≡ row = cc (found, who.found) in
      (
        row,
        subst (λ x. Resumable uuid request user id x db row) (sym hash_eq) who,
        status,
        subst (λ x. Resumed command id x db t) same_row resumed,
      )
