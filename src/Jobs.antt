-- ===== src/Jobs.antt =====
-- crates/blitz-jobs/src/job.rs: jobs, their retries, and the scheduler.
--
-- The clock is an argument of the operations that read it, and so is the random id of a new job. A
-- handler is a function on jobs. Locking is left out: a call is one step.
pub mod Retries
use blitz_db.Prelude.{
  ℕ, ◌+◌, String, Bool, true, false, not, ◌&&◌, ◌||◌, Option, none, some, List, [], ◌∷◌, map, keep,
  length, if◌then◌else◌, leb, ltb, ◌==◌, str_eq,
}
use blitz_db.Prelude.Map
use blitz_db.Prelude.Map.{Map, string_key, nat_key}

pub data JobStatus : Type 0 where
  pending running completed failed cancelled : JobStatus

pub data JobPriority : Type 0 where
  low normal high critical : JobPriority

unfoldable pub order : JobPriority → ℕ
order low = 0
order normal = 1
order high = 2
order critical = 3

-- The derived `==`.
unfoldable pub same_status : JobStatus → JobStatus → Bool
same_status pending pending = true
same_status running running = true
same_status completed completed = true
same_status failed failed = true
same_status cancelled cancelled = true
same_status _ _ = false

pub record Job : Type 0 where
  pub id : ℕ
  pub job_type : String
  pub status : JobStatus
  pub priority : JobPriority
  pub payload : Map String String
  pub result : Option String
  pub error : Option String
  pub created_at : ℕ
  pub started_at : Option ℕ
  pub completed_at : Option ℕ
  pub retry_count : ℕ
  pub max_retries : ℕ

unfoldable pub new_job : ℕ → ℕ → String → Job
new_job uuid now t = record {
  id = uuid;
  job_type = t;
  status = pending;
  priority = normal;
  payload = [];
  result = none;
  error = none;
  created_at = now;
  started_at = none;
  completed_at = none;
  retry_count = 0;
  max_retries = 3;
}

unfoldable pub with_priority : Job → JobPriority → Job
with_priority j p = record j { priority = p }

unfoldable pub with_payload : Job → String → String → Job
with_payload j k v = record j { payload = Map.insert j.payload k v }

unfoldable pub with_max_retries : Job → ℕ → Job
with_max_retries j max = record j { max_retries = max }

unfoldable pub mark_running : ℕ → Job → Job
mark_running now j = record j { status = running; started_at = some now }

unfoldable pub mark_completed : ℕ → String → Job → Job
mark_completed now result j = record j {
  status = completed;
  result = some result;
  completed_at = some now;
}

unfoldable pub mark_failed : ℕ → String → Job → Job
mark_failed now error j =
    if ltb j.retry_count j.max_retries
    then record j { error = some error; retry_count = j.retry_count + 1; status = pending }
    else record j { error = some error; status = failed; completed_at = some now }

unfoldable pub mark_cancelled : ℕ → Job → Job
mark_cancelled now j = record j { status = cancelled; completed_at = some now }

unfoldable pub can_retry : Job → Bool
unfolding same_status
can_retry j = same_status j.status pending && ltb j.retry_count j.max_retries

-- `JobScheduler`: its jobs by id, and its handlers by job type.
pub record JobScheduler : Type 0 where
  pub jobs : Map ℕ Job
  pub handlers : Map String (Job → Job)

unfoldable pub register_handler : JobScheduler → String → (Job → Job) → JobScheduler
register_handler s t h = record s { handlers = Map.insert s.handlers t h }

unfoldable pub submit : JobScheduler → Job → ℕ × JobScheduler
submit s j = (j.id, record s { jobs = Map.insert s.jobs j.id j })

unfoldable pub get_job : JobScheduler → ℕ → Option Job
get_job s i = Map.get s.jobs i

pub jobs_by_status : JobScheduler → JobStatus → List Job
jobs_by_status s status = keep (λ j. same_status j.status status) (map (λ entry. entry.1) s.jobs)

pub jobs_by_type : JobScheduler → String → List Job
jobs_by_type s t = keep (λ j. str_eq j.job_type t) (map (λ entry. entry.1) s.jobs)

-- `sort_by` is stable: a job goes behind those of its own priority and above.
unfoldable pub place : Job → List Job → List Job
place j [] = j ∷ []
place j (k ∷ ks) =
    let rest = place j ks in
    if leb (order j.priority) (order k.priority) then k ∷ rest else j ∷ k ∷ ks

unfoldable pub by_priority : List Job → List Job → List Job
by_priority sorted [] = sorted
by_priority sorted (j ∷ js) = by_priority (place j sorted) js

unfoldable pub pending_jobs : JobScheduler → List Job
unfolding by_priority
pending_jobs s =
    by_priority [] (keep (λ j. same_status j.status pending) (map (λ entry. entry.1) s.jobs))

-- What a job becomes when its handler has run.
unfoldable pub run_handler : Map String (Job → Job) → ℕ → Job → Job
unfolding mark_completed
run_handler handlers now j = elim (Map.get handlers j.job_type) [
  | none ↦ mark_completed now "no handler registered" j
  | some h ↦ h j
]

unfoldable pub execute_job : JobScheduler → ℕ → ℕ → Option Job × JobScheduler
unfolding run_handler mark_running
execute_job s now i = elim (Map.get s.jobs i) [
  | none ↦ (none, s)
  | some j ↦
      if not (same_status j.status pending)
      then (none, s)
      else let ran = run_handler s.handlers now (mark_running now j) in
        (some ran, record s { jobs = Map.insert s.jobs i ran })
]

unfoldable pub execute_next : JobScheduler → ℕ → Option Job × JobScheduler
unfolding pending_jobs
execute_next s now = elim (pending_jobs s) [ [] ↦ (none, s) | j ∷ js ↦ execute_job s now j.id ]

unfoldable pub cancel_job : JobScheduler → ℕ → ℕ → Bool × JobScheduler
unfolding mark_cancelled
cancel_job s now i = elim (Map.get s.jobs i) [
  | none ↦ (false, s)
  | some j ↦
      if same_status j.status pending || same_status j.status running
      then (true, record s { jobs = Map.insert s.jobs i (mark_cancelled now j) })
      else (false, s)
]

pub job_count : JobScheduler → ℕ
job_count s = length s.jobs

pub pending_count : JobScheduler → ℕ
pending_count s = length (keep (λ j. same_status j.status pending) (map (λ entry. entry.1) s.jobs))
