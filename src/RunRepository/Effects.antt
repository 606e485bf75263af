-- ===== src/RunRepository/Effects.antt =====
-- What the calls of the repository do to the database when they return.
use it_outsourcing_knowledge.Base.{
  ℕ, ◌≡◌, sym, ap, ◌∙◌, false, Option, none, some, ◌∷◌, arith, inl, inr, ◌⊎◌, Bool-cases,
  Option-cases, is_none,
}
use it_outsourcing_knowledge.Base.Exec.{
  lookup_error, integrity_error, ok, Result-cases, raise_not_ok, pair_ok, lift_ok, ok_inj,
}
use it_outsourcing_knowledge.Base.Table.{find, add, put}
use it_outsourcing_knowledge.Runs.{
  RunBusinessMode, AgentEventType, Payload, AgentRun, RunRecord, AgentEvent, Db, Stamp,
}
use it_outsourcing_knowledge.RunRepository.{
  to_run, new_run, insert_run, create_run, latest, of_terminal, get_run, has_id, next_event,
  append_event, update_run,
}

-- What a record says of its row.
pub record Reads (id : ℕ) (row : AgentRun) (run : RunRecord) : Type 0 where
  pub key : run.id ≡ id
  pub status : run.status ≡ row.status
  pub started : run.started_at ≡ row.started_at
  pub company : run.company_id ≡ row.company_id
  pub project : run.project_id ≡ row.project_id
  pub user : run.user_id ≡ row.user_id
  pub mode : row.business_mode ≡ some run.business_mode

pub to_run_ok :
    (id : ℕ) (terminal : Option AgentEvent) (row : AgentRun) (run : RunRecord)
    → to_run id terminal row ≡ ok run
    → Reads id row run
unfolding to_run
to_run_ok id terminal row run h = elim (Option-cases row.business_mode) [
  | inl missing ↦ absurd (cc (rw missing at h))
  | inr (mode, e) ↦
      let same = ok_inj _ run (rw e at h) in
      record {
        key = sym (ap (λ r. r.id) same);
        status = sym (ap (λ r. r.status) same);
        started = sym (ap (λ r. r.started_at) same);
        company = sym (ap (λ r. r.company_id) same);
        project = sym (ap (λ r. r.project_id) same);
        user = sym (ap (λ r. r.user_id) same);
        mode = e ∙ ap (λ r. some r.business_mode) same;
      }
]

-- A row is read only if its business mode is known.
get_run_read :
    (id : ℕ) (db : Db) (row : AgentRun) (o : Option RunRecord) (t : Db)
    → find id db.runs ≡ some row
    → get_run id db ≡ (ok o, t)
    → (t ≡ db) × (run : RunRecord) × (o ≡ some run) × Reads id row run
unfolding get_run
get_run_read id db row o t found h =
    elim (Result-cases (to_run id (latest (of_terminal id) db.events) row)) [
      | inl (e, bad) ↦ absurd (raise_not_ok e db o t (ground (arith, found, bad, h)))
      | inr (run, good) ↦
          let (same, last) = pair_ok (some run) o db t (ground (arith, found, good, h)) in
          (sym last, run, sym same, to_run_ok id _ row run good)
    ]

pub get_run_ok :
    (id : ℕ) (db : Db) (o : Option RunRecord) (t : Db)
    → get_run id db ≡ (ok o, t)
    → (t ≡ db)
      × ((o ≡ none)
          ⊎ ((row : AgentRun) × (run : RunRecord) × (find id db.runs ≡ some row)
              × (o ≡ some run)
              × Reads id row run))
unfolding get_run
get_run_ok id db o t h = elim (Option-cases (find id db.runs)) [
  | inl missing ↦
      let (same, last) = pair_ok none o db t (ground (arith, missing, h)) in
      (sym last, inl (sym same))
  | inr (row, found) ↦
      let (last, run, same, reads) = get_run_read id db row o t found h in
      (last, inr (row, run, found, same, reads))
]

pub append_event_ok :
    (stamp : Stamp) (run : ℕ) (type : AgentEventType) (payload : Payload) (db : Db) (e : AgentEvent)
    (t : Db)
    → append_event stamp run type payload db ≡ (ok e, t)
    → (t ≡ record db { events = next_event stamp run type payload db.events ∷ db.events })
      × (is_none (find run db.runs) ≡ false)
unfolding append_event
append_event_ok stamp run type payload db e t h = elim (Bool-cases (is_none (find run db.runs))) [
  | inl missing ↦ absurd (raise_not_ok lookup_error db e t (rw missing at h))
  | inr there ↦ elim (Bool-cases (has_id stamp.key db.events)) [
    | inl taken ↦ absurd (raise_not_ok integrity_error db e t (rw taken at (rw there at h)))
    | inr free ↦ (sym (pair_ok _ e _ t (rw free at (rw there at h))).1, there)
  ]
]

pub update_run_ok :
    (id : ℕ) (f : AgentRun → AgentRun) (db : Db) (run : RunRecord) (t : Db)
    → update_run id f db ≡ (ok run, t)
    → (row : AgentRun) × (find id db.runs ≡ some row)
      × (t ≡ record db { runs = put id (f row) db.runs })
      × Reads id (f row) run
unfolding update_run
update_run_ok id f db run t h = elim (Option-cases (find id db.runs)) [
  | inl missing ↦ absurd (raise_not_ok lookup_error db run t (ground (arith, missing, h)))
  | inr (row, found) ↦
      let (good, last) =
        lift_ok (to_run id none (f row)) (record db { runs = put id (f row) db.runs }) run t
          (ground (arith, found, h)) in
      (row, found, sym last, to_run_ok id none (f row) run good)
]

pub create_run_ok :
    (stamp : Stamp) (thread company project user : ℕ) (mode : RunBusinessMode) (db : Db)
    (run : RunRecord) (t : Db)
    → create_run stamp thread company project user mode db ≡ (ok run, t)
    → (find stamp.key db.runs ≡ none)
      × (t ≡ record db { runs = add stamp.key (new_run thread company project user mode) db.runs })
      × Reads stamp.key (new_run thread company project user mode) run
unfolding create_run insert_run
create_run_ok stamp thread company project user mode db run t h =
    let row = new_run thread company project user mode in
    elim (Option-cases (find stamp.key db.runs)) [
      | inr (old, found) ↦ absurd (raise_not_ok integrity_error db run t (ground (arith, found, h)))
      | inl free ↦
          let (good, last) =
            lift_ok (to_run stamp.key none row) (record db { runs = add stamp.key row db.runs }) run
              t (ground (arith, free, h)) in
          (free, sym last, to_run_ok stamp.key none row run good)
    ]
