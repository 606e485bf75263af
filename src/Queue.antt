-- ===== src/Queue.antt =====
-- infrastructure/jobs/postgres.py: the queue of background jobs with leases and retries.
-- Each operation is one transaction. The clock's readings, the generated key and the rows that
-- other transactions hold locked (`skip_locked`) are arguments. Metrics and logs are left out.
mod Invariant
pub mod Enqueue
mod Delay
mod Claim
mod LifeCycle
mod Trace
mod Lease
mod Tests
use it_outsourcing_knowledge.Base.{
  map_option, ℕ, zero, suc, ◌+◌, ◌-◌, ◌*◌, ◌^◌, min, String, Bool, true, false, not, ◌&&◌, ◌||◌,
  Option, none, some, List, [], map, str_eq, ltb, leb, ◌==◌, if◌then◌else◌, is_some, length,
}
use it_outsourcing_knowledge.Base.Int.{ℤ, pos, negsuc, is_negative, magnitude}
use it_outsourcing_knowledge.Base.Text.{is_blank, is_empty}
use it_outsourcing_knowledge.Base.Exec.{
  lookup_error, value_error, integrity_error, job_ownership_error, Result, ok, err, result_of, Exec,
  pure, lift, gets, or_raise, modify, ◌>>=◌, ◌>>◌, overflow_error,
}
use it_outsourcing_knowledge.Base.Query.{query}
use it_outsourcing_knowledge.Base.Table.{find, add, put, update_all}
use it_outsourcing_knowledge.Base.Uuid.{UuidCodec}
use it_outsourcing_knowledge.Jobs.{
  pending, running, succeeded, failed, EnqueueJobRequest, QueuedJob, BackgroundJob, JobTable,
  is_pending, is_running,
}

-- `PostgresJobQueue.__init__`: what the constructor keeps, in microseconds.
pub record QueueConfig : Type 0 where
  pub lease : ℤ
  pub retry_base : ℤ
  pub retry_max : ℤ
  pub namespace : String

abbrev is_positive : ℤ → Bool
is_positive (pos zero) = false
is_positive (pos (suc n)) = true
is_positive (negsuc n) = false

unfoldable pub new_queue : QueueConfig → Result QueueConfig
new_queue c =
    if not (is_positive c.lease)
    then err value_error
    else if is_negative c.retry_base || is_negative c.retry_max
    then err value_error
    else ok c

-- Truncated `-` is `max(0, attempt_count - 1)`. The power of two is a float, which overflows from
-- the exponent 1024 on.
unfoldable pub compute_retry_delay : ℕ → ℤ → ℤ → Result ℕ
compute_retry_delay attempt_count base max =
    if is_negative base || is_negative max
    then err value_error
    else if magnitude base == 0
    then ok 0
    else if leb 1024 (attempt_count - 1)
    then err overflow_error
    else ok (min (magnitude base * 2 ^ (attempt_count - 1)) (magnitude max))

abbrev pub should_retry : BackgroundJob → Bool
should_retry row = ltb row.attempt_count row.max_attempts

unfoldable pub validate_enqueue_request : EnqueueJobRequest → Result Unit
validate_enqueue_request request =
    if is_blank request.aggregate_id
    then err value_error
    else if ltb request.max_attempts 1
    then err value_error
    else ok tt

unfoldable pub build_job : String → ℕ → EnqueueJobRequest → BackgroundJob
build_job namespace now request = record {
  namespace = namespace;
  job_type = request.job_type;
  aggregate_id = request.aggregate_id;
  status = pending;
  attempt_count = 0;
  max_attempts = request.max_attempts;
  available_at = now;
  locked_by = none;
  locked_at = none;
  heartbeat_at = none;
  lease_expires_at = none;
  last_error = none;
  created_at = now;
  updated_at = now;
}

unfoldable pub to_job : UuidCodec → ℕ × BackgroundJob → QueuedJob
to_job uuid (id, row) = record {
  job_id = uuid.to_str id;
  job_type = row.job_type;
  aggregate_id = row.aggregate_id;
  state = row.status;
  attempts = row.attempt_count;
  max_attempts = row.max_attempts;
  worker_id = row.locked_by;
  last_error_code = row.last_error;
  available_at = row.available_at;
  lease_expires_at = row.lease_expires_at;
  heartbeat_at = row.heartbeat_at;
}

unfoldable pub insert_job : ℕ → BackgroundJob → Exec JobTable Unit
insert_job id row t =
    if is_some (find id t) then (err integrity_error, t) else (ok tt, add id row t)

-- Both `enqueue`s; `SqlAlchemySessionJobEnqueuer` leaves the commit to the caller.
unfoldable pub enqueue : UuidCodec → String → ℕ → ℕ → EnqueueJobRequest → Exec JobTable QueuedJob
unfolding insert_job
enqueue uuid namespace id now request = do
  lift (validate_enqueue_request request)
  let row = build_job namespace now request
  insert_job id row
  pure (to_job uuid (id, row))

-- The `WHERE` of `build_claim_statement`.
unfoldable pub is_claimable : ℕ → (ℕ → Bool) → ℕ × BackgroundJob → Bool
is_claimable query_now locked (id, row) =
    is_pending row.status && leb row.available_at query_now && not (locked id)

-- Its `ORDER BY available_at, created_at, id`.
unfoldable pub claim_order : ℕ × BackgroundJob → ℕ × BackgroundJob → Bool
claim_order (i, a) (j, b) =
    ltb a.available_at b.available_at
    || a.available_at == b.available_at
      && (ltb a.created_at b.created_at || a.created_at == b.created_at && leb i j)

unfoldable pub claim_rows : ℕ → (ℕ → Bool) → ℕ → JobTable → JobTable
claim_rows query_now locked limit t = query claim_order (is_claimable query_now locked) limit t

-- The body of the loop of `claim`.
unfoldable pub claim_row : QueueConfig → String → ℕ → BackgroundJob → BackgroundJob
claim_row c worker now row = record row {
  status = running;
  attempt_count = row.attempt_count + 1;
  locked_by = some worker;
  locked_at = some now;
  heartbeat_at = some now;
  lease_expires_at = some (now + magnitude c.lease);
  updated_at = now;
}

-- `claim` reads the clock, and the statement reads it once more.
unfoldable pub claim :
    UuidCodec → QueueConfig → String → ℕ → ℕ → (ℕ → Bool) → ℕ → Exec JobTable (List QueuedJob)
claim uuid c worker now query_now locked limit t =
    if ltb limit 1
    then (ok [], t)
    else let rows = claim_rows query_now locked limit t in
      let f = claim_row c worker now in
      (ok (map (λ r. to_job uuid (r.0, f r.1)) rows), update_all rows f t)

-- `_uuid`
abbrev pub uuid_of : UuidCodec → String → Result ℕ
uuid_of uuid job_id = result_of lookup_error (uuid.parse job_id)

abbrev pub owns : String → BackgroundJob → Bool
owns worker row =
    is_running row.status && elim row.locked_by [ none ↦ false | some w ↦ str_eq w worker ]

abbrev check_owner : String → ℕ → BackgroundJob → Result (ℕ × BackgroundJob)
check_owner worker id row = if owns worker row then ok (id, row) else err job_ownership_error

-- `_owned_running`
unfoldable pub owned_running : UuidCodec → String → String → Exec JobTable (ℕ × BackgroundJob)
owned_running uuid job_id worker = do
  id ← lift (uuid_of uuid job_id)
  found ← gets (find id)
  row ← or_raise found lookup_error
  lift (check_owner worker id row)

unfoldable pub heartbeat : UuidCodec → QueueConfig → ℕ → String → String → Exec JobTable Unit
heartbeat uuid c now job_id worker = do
  found ← owned_running uuid job_id worker
  let row = found.1
  modify (
      put found.0 (record row {
        heartbeat_at = some now;
        lease_expires_at = some (now + magnitude c.lease);
        updated_at = now;
      }))

unlocked : BackgroundJob → BackgroundJob
unlocked row = record row {
  locked_by = none;
  locked_at = none;
  heartbeat_at = none;
  lease_expires_at = none;
}

unfoldable pub complete_row : ℕ → BackgroundJob → BackgroundJob
unfolding unlocked
complete_row now row = record (unlocked row) { status = succeeded; updated_at = now }

unfoldable pub complete : UuidCodec → ℕ → String → String → Exec JobTable Unit
complete uuid now job_id worker = do
  found ← owned_running uuid job_id worker
  modify (put found.0 (complete_row now found.1))

unfoldable pub fail_row : QueueConfig → ℕ → String → BackgroundJob → Result BackgroundJob
unfolding unlocked
fail_row c now error_code row =
    let freed = record (unlocked row) { last_error = some error_code } in
    if not (should_retry row)
    then ok (record freed { status = failed; updated_at = now })
    else elim (compute_retry_delay row.attempt_count c.retry_base c.retry_max) [
      | err e ↦ err e
      | ok delay ↦
          ok (record freed { status = pending; available_at = now + delay; updated_at = now })
    ]

-- The row was changed only in the session: if the delay raises, nothing is committed.
unfoldable pub fail : UuidCodec → QueueConfig → ℕ → String → String → String → Exec JobTable Unit
fail uuid c now job_id worker error_code = do
  found ← owned_running uuid job_id worker
  row ← lift (fail_row c now error_code found.1)
  modify (put found.0 row)

unfoldable pub get : UuidCodec → String → Exec JobTable (Option QueuedJob)
get uuid job_id = do
  id ← lift (uuid_of uuid job_id)
  found ← gets (find id)
  pure (map_option (λ row. to_job uuid (id, row)) found)

lease_before : Option ℕ → ℕ → Bool
lease_before none now = false
lease_before (some t) now = ltb t now

-- The `WHERE` of `reap_expired`.
unfoldable pub is_expired : ℕ → (ℕ → Bool) → ℕ × BackgroundJob → Bool
unfolding lease_before
is_expired now locked (id, row) =
    is_running row.status && lease_before row.lease_expires_at now && not (locked id)

-- `last_error or "LEASE_EXPIRED_MAX_ATTEMPTS"`, where an empty text counts as none.
unfoldable pub error_or_expired : Option String → String
error_or_expired none = "LEASE_EXPIRED_MAX_ATTEMPTS"
error_or_expired (some e) = if is_empty e then "LEASE_EXPIRED_MAX_ATTEMPTS" else e

unfoldable pub reap_row : ℕ → BackgroundJob → BackgroundJob
unfolding unlocked error_or_expired
reap_row now row =
    if not (should_retry row)
    then record (unlocked row) {
      status = failed;
      last_error = some (error_or_expired row.last_error);
      updated_at = now;
    }
    else record (unlocked row) {
      status = pending;
      available_at = now;
      last_error = some "LEASE_EXPIRED";
      updated_at = now;
    }

lease_key : BackgroundJob → ℕ
lease_key row = elim row.lease_expires_at [ none ↦ 0 | some t ↦ t ]

-- `ORDER BY lease_expires_at, id`
unfoldable pub reap_order : ℕ × BackgroundJob → ℕ × BackgroundJob → Bool
unfolding lease_key
reap_order (i, a) (j, b) = ltb (lease_key a) (lease_key b) || lease_key a == lease_key b && leb i j

unfoldable pub reap_rows : ℕ → (ℕ → Bool) → ℕ → JobTable → JobTable
reap_rows now locked limit t = query reap_order (is_expired now locked) limit t

unfoldable pub reap_expired : ℕ → (ℕ → Bool) → ℕ → Exec JobTable ℕ
reap_expired now locked limit t =
    let rows = reap_rows now locked limit t in (ok (length rows), update_all rows (reap_row now) t)
