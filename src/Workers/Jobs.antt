-- ===== src/Workers/Jobs.antt =====
-- The in-process job registry: server/src/envelock/workers/jobs.py. The ordered dictionary `_jobs`
-- is the list of its jobs, oldest first; ids and times are numbers.
pub mod Retention
pub mod Handles
use envelock.Prelude.{
  ℕ, String, Bool, true, false, not, ◌&&◌, ◌||◌, Option, none, some, List, [], ◌∷◌, ◌++◌, ◌==◌,
  str_eq, if◌then◌else◌, ltb, length,
}

-- `Job.status`
pub data Status : Type 0 where
  queued running done failed : Status

-- `status in ("queued", "running")`
unfoldable pub is_unfinished : Status → Bool
is_unfinished queued = true
is_unfinished running = true
is_unfinished _ = false

-- `Job`, with what `progress` holds at "key"
pub record Job : Type 0 where
  pub id : ℕ
  pub kind : String
  pub tenant_id : ℕ
  pub status : Status
  pub created_at : ℕ
  pub started_at : Option ℕ
  pub finished_at : Option ℕ
  pub result : Option String
  pub error : Option String
  pub key : Option String

-- `_MAX_RETAINED`
abbrev pub max_retained : ℕ
max_retained = 200

-- `_jobs.get`
unfoldable pub find : ℕ → List Job → Option Job
find id [] = none
find id (job ∷ jobs) = if job.id == id then some job else find id jobs

-- `if job is None or job.tenant_id != tenant_id: return None`
unfoldable pub owned : ℕ → Option Job → Option Job
owned tenant_id none = none
owned tenant_id (some job) = if not (job.tenant_id == tenant_id) then none else some job

-- `get`
unfoldable pub get : List Job → (job_id tenant_id : ℕ) → Option Job
get jobs job_id tenant_id = owned tenant_id (find job_id jobs)

-- `job.progress.get("key") == key`
unfoldable pub has_key : Option String → String → Bool
has_key none key = false
has_key (some k) key = str_eq k key

-- `key is None or job.progress.get("key") == key`
unfoldable pub key_matches : Option String → Option String → Bool
key_matches progress none = true
key_matches progress (some key) = has_key progress key

-- The condition of the loop in `running_for`.
unfoldable pub joins : (tenant_id : ℕ) (kind : String) (key : Option String) → Job → Bool
joins tenant_id kind key job =
    job.tenant_id == tenant_id
    && str_eq job.kind kind
    && is_unfinished job.status
    && key_matches job.key key

-- The last job of a list that satisfies a test: a loop over `reversed(_jobs.values())`.
unfoldable pub last_where : (Job → Bool) → List Job → Option Job
last_where p [] = none
last_where p (job ∷ jobs) = newer (last_where p jobs) (if p job then some job else none)
  where
    newer : Option Job → Option Job → Option Job
    newer none first = first
    newer (some later) first = some later

-- `running_for`
unfoldable pub running_for :
    List Job → (tenant_id : ℕ) (kind : String) (key : Option String) → Option Job
running_for jobs tenant_id kind key = last_where (joins tenant_id kind key) jobs

-- The eviction loop of `submit`: the oldest jobs are dropped while more than the limit are held, up
-- to the first that is unfinished.
unfoldable pub evict : List Job → List Job
evict [] = []
evict (oldest ∷ rest) =
    if ltb max_retained (length (oldest ∷ rest)) && not (is_unfinished oldest.status)
    then evict rest
    else oldest ∷ rest

-- `Job(id=uuid4(), kind=kind, tenant_id=tenant_id)`; `id` and `now` come from outside
unfoldable pub new_job : (id now : ℕ) (kind : String) (tenant_id : ℕ) (key : Option String) → Job
new_job id now kind tenant_id key = record {
  id = id;
  kind = kind;
  tenant_id = tenant_id;
  status = queued;
  created_at = now;
  started_at = none;
  finished_at = none;
  result = none;
  error = none;
  key = key;
}

-- `submit`, to the point where the task is created; `id` is fresh
unfoldable pub submit :
    List Job → (id now : ℕ) (kind : String) (tenant_id : ℕ) (key : Option String) → List Job
submit jobs id now kind tenant_id key = evict (jobs ++ (new_job id now kind tenant_id key ∷ []))

-- How the body of a job ends.
pub data Outcome : Type 0 where
  returned : String → Outcome
  cancelled : Outcome
  raised : String → Outcome

-- `_run` before the body
unfoldable pub start : ℕ → Job → Job
start now job = record job { status = running; started_at = some now }

-- `_run` after the body
unfoldable pub finish : ℕ → Outcome → Job → Job
finish now (returned result) job = record job {
  status = done;
  result = some result;
  finished_at = some now;
}
finish now cancelled job = record job {
  status = failed;
  error = some "cancelled";
  finished_at = some now;
}
finish now (raised reason) job = record job {
  status = failed;
  error = some reason;
  finished_at = some now;
}

-- The job object that the registry and the task share, changed in place.
unfoldable pub update : ℕ → (Job → Job) → List Job → List Job
update id change [] = []
update id change (job ∷ jobs) = (if job.id == id then change job else job) ∷ update id change jobs
