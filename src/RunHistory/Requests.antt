-- ===== src/RunHistory/Requests.antt =====
-- The steps that the API's requests take.
use it_outsourcing_knowledge.Base.{
  ℕ, ◌≡◌, refl, sym, ap, ◌∙◌, String, not, ◌||◌, Option, none, some, [], ◌∷◌, inl, inr, Bool-cases,
  ◌==◌, is_some,
}
use it_outsourcing_knowledge.Base.Exec.{
  value_error, integrity_error, thread_not_found, run_access_denied, ok, bind_ok, pair_ok,
  guard_then, found_then, lift_then, raise_not_ok,
}
use it_outsourcing_knowledge.Base.Table.{find, add}
use it_outsourcing_knowledge.Base.Text.{strip, is_blank}
use it_outsourcing_knowledge.Base.Uuid.{UuidCodec}
use it_outsourcing_knowledge.Jobs.{EnqueueJobRequest, QueuedJob, execute_agent_run}
use it_outsourcing_knowledge.Access.{authorize_project}
use it_outsourcing_knowledge.Runs.{
  queued, run_queued, run_resume_queued, text, AgentRun, RunRecord, Db, Stamp,
}
use it_outsourcing_knowledge.RunRepository.{
  get_thread, create_thread, create_run, new_run, append_event, next_event,
}
use it_outsourcing_knowledge.RunRepository.Effects.{append_event_ok, create_run_ok}
use it_outsourcing_knowledge.RunService.{
  Request, CreateRunCommand, ResumeRunCommand, authorize_identity, enqueue_job, run_job,
  check_thread, thread_of, create, resume,
}
use it_outsourcing_knowledge.RunService.Resume.{resume_ok}
use it_outsourcing_knowledge.RunHistory.{requeue, Step}
use it_outsourcing_knowledge.RunHistory.Local.{quiet, write-Step, create-Step}

-- Whatever thread a run is put in, only the threads may have changed.
thread_of_ok :
    (stamp : Stamp) (company project user : ℕ) (thread : Option ℕ) (db : Db) (id : ℕ) (t : Db)
    → thread_of stamp company project user thread db ≡ (ok id, t)
    → (t.runs ≡ db.runs) × (t.events ≡ db.events)
unfolding thread_of create_thread get_thread check_thread
thread_of_ok stamp company project user none db id t h =
    elim (Bool-cases (is_some (find stamp.key db.threads))) [
      | inl taken ↦ absurd (raise_not_ok integrity_error db id t (rw taken at h))
      | inr free ↦
          let last = (pair_ok _ id _ t (rw free at h)).1 in
          (ap (λ d. d.runs) (sym last), ap (λ d. d.events) (sym last))
    ]
thread_of_ok stamp company project user (some k) db id t h =
    let (thread, found, h1) = found_then (find k db.threads) thread_not_found _ db id t h in
    elim (Bool-cases (
      not (thread.project_id == project)
      || not (thread.company_id == company)
      || not (thread.user_id == user))) [
        | inl foreign ↦ absurd (raise_not_ok run_access_denied db id t (rw foreign at h1))
        | inr own ↦
            let last = (pair_ok k id db t (rw own at h1)).1 in
            (ap (λ d. d.runs) (sym last), ap (λ d. d.events) (sym last))
      ]

module _ (uuid : UuidCodec) (namespace : String) (request : Request) (user : ℕ) where
  enqueue_job_ok :
      (job_request : EnqueueJobRequest) (db : Db) (job : QueuedJob) (t : Db)
      → enqueue_job uuid namespace request.job_key request.now job_request db ≡ (ok job, t)
      → (t.runs ≡ db.runs) × (t.events ≡ db.events)
  unfolding enqueue_job
  enqueue_job_ok job_request db job t h = (ap (λ p. p.1.runs) (sym h), ap (λ p. p.1.events) (sym h))

  pub create_run-Step :
      (command : CreateRunCommand) (j : ℕ) (db : Db) (run : RunRecord) (t : Db)
      → create uuid namespace request user command db ≡ (ok run, t)
      → Step j db t
  unfolding create authorize_identity new_run
  create_run-Step command j db run t h =
      let (present, h1) = guard_then (is_blank command.query_text) value_error _ db run t h in
      let (c, granted, h2) =
        lift_then (authorize_project uuid request.now user command.project_id db.access) _ db run t
          h1 in
      let company = c.scope.company_id in
      let (thread, s1, threaded, h3) =
        bind_ok (thread_of request.thread_stamp company command.project_id user command.thread_id) _
          db run t h2 in
      let (runs1, events1) =
        thread_of_ok request.thread_stamp company command.project_id user command.thread_id db
          thread s1 threaded in
      let (made, s2, inserted, h4) =
        bind_ok
          (create_run request.run_stamp thread company command.project_id user
            command.business_mode)
          _ s1 run t h3 in
      let (free, added, reads) =
        create_run_ok request.run_stamp thread company command.project_id user command.business_mode
          s1 made s2 inserted in
      let (e, s3, appended, h5) =
        bind_ok
          (append_event request.event_stamp made.id run_queued
            (("query_text", text (strip command.query_text)) ∷ []))
          _ s2 run t h4 in
      let (logged, there) =
        append_event_ok request.event_stamp made.id run_queued _ s2 e s3 appended in
      let (job, s4, queue, h6) =
        bind_ok
          (enqueue_job uuid namespace request.job_key request.now
            (run_job uuid execute_agent_run made.id))
          _ s3 run t h5 in
      let (runs4, events4) =
        enqueue_job_ok (run_job uuid execute_agent_run made.id) s3 job s4 queue in
      let last = (pair_ok made run s4 t h6).1 in
      let row = new_run thread company command.project_id user command.business_mode in
      let payload = ("query_text", text (strip command.query_text)) ∷ [] in
      create-Step request.run_stamp.key j row request.event_stamp run_queued payload db t
        (ap (λ x. find request.run_stamp.key x) (sym runs1) ∙ free) refl refl refl
        (ap (λ d. d.runs) (sym last)
          ∙ runs4
          ∙ ap (λ d. d.runs) logged
          ∙ ap (λ d. d.runs) added
          ∙ ap (λ x. add request.run_stamp.key row x) runs1)
        (ap (λ d. d.events) (sym last)
          ∙ events4
          ∙ ap (λ d. d.events) logged
          ∙ ap (λ k. next_event request.event_stamp k run_queued payload s2.events ∷ s2.events)
              reads.key
          ∙ ap
              (λ es.
                next_event request.event_stamp request.run_stamp.key run_queued payload es ∷ es)
              (ap (λ d. d.events) added ∙ events1))

  pub resume-Step :
      (id : ℕ) (command : ResumeRunCommand) (j : ℕ) (db : Db) (run : RunRecord) (t : Db)
      → resume uuid namespace request user id command db ≡ (ok run, t)
      → Step j db t
  resume-Step id command j db run t h =
      let (row, who, status, resumed) =
        resume_ok uuid namespace request user id command db run t h in
      let new : AgentRun = record row { status = queued } in
      write-Step id j row new db t who.found request.event_stamp run_resume_queued _
        (quiet row new (λ n. requeue who.status refl refl (record {
          thread_id = refl;
          company_id = refl;
          project_id = refl;
          user_id = refl;
          business_mode = refl;
        })))
        resumed.run resumed.log
