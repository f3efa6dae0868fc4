-- ===== src/Jobs/Retries.antt =====
-- How often a job may fail, and that a job that has ended stays as it ended.
use blitz_db.Prelude.{
  ℕ, suc, ◌+◌, ◌≤◌, String, Bool, true, false, none, some, List, [], ◌∷◌, if◌then◌else◌, ltb, leb,
  ==_refl, ◌==◌, ◌||◌, ◌≡◌, refl, arith, Bool-cases, Option-cases, ◌⊎◌, inl, inr, length,
}
use blitz_db.Prelude.Map
use blitz_db.Prelude.Map.{Map, nat_key, get-insert}
use blitz_db.Jobs.{
  Job, JobStatus, pending, running, completed, failed, cancelled, same_status, JobScheduler,
  mark_failed, mark_running, mark_cancelled, run_handler, pending_jobs, register_handler, submit,
  execute_job, execute_next, cancel_job,
}

-- The job after failing `n` times, at some times and with some messages.
unfoldable pub failures : Job → List (ℕ × String) → Job
failures j [] = j
failures j ((now, error) ∷ es) = failures (mark_failed now error j) es

-- A job that has not used more than its retries and then fails one or more times in a row keeps its
-- limit and stays within it; it is pending again as long as the failures do not exceed the retries
-- left, and failed after that.
pub retries_then_fails :
    (j : Job) (now : ℕ) (error : String) (es : List (ℕ × String))
    → j.retry_count ≤ j.max_retries
    → let done = failures j ((now, error) ∷ es) in
      (done.max_retries ≡ j.max_retries)
      × (done.retry_count ≤ done.max_retries)
      × (done.status
          ≡ (if leb (j.retry_count + suc (length es)) j.max_retries then pending else failed))
unfolding failures mark_failed
retries_then_fails j now error [] within = elim (Bool-cases (ltb j.retry_count j.max_retries)) [
  | inl left ↦ ground (arith, left)
  | inr spent ↦ ground (arith, spent)
]
retries_then_fails j now error ((later, message) ∷ es) within =
    let rest = retries_then_fails (mark_failed now error j) later message es (ground arith) in
    elim (Bool-cases (ltb j.retry_count j.max_retries)) [
      | inl left ↦ ground (arith, left, rest)
      | inr spent ↦ ground (arith, spent, rest)
    ]

-- The status of a job that has ended.
unfoldable pub is_ended : JobStatus → Bool
is_ended pending = false
is_ended running = false
is_ended completed = true
is_ended failed = true
is_ended cancelled = true

-- A job that is completed, failed or cancelled is neither executed nor cancelled.
pub ended_stays :
    (s : JobScheduler) (now i : ℕ) (j : Job)
    → Map.get s.jobs i ≡ some j
    → is_ended j.status ≡ true
    → (execute_job s now i ≡ (none, s)) × (cancel_job s now i ≡ (false, s))
unfolding execute_job cancel_job is_ended same_status
ended_stays s now i j found ended = ground (arith, found)

-- The job that is stored under an id is cancelled.
pub data IsCancelled (i : ℕ) (s : JobScheduler) : Type 0 where
  cancelled_job : (j : Job) → Map.get s.jobs i ≡ some j → j.status ≡ cancelled → IsCancelled i s

-- A call on the scheduler that does not submit a job under the id `i`.
pub data Call (i : ℕ) : JobScheduler → JobScheduler → Type 0 where
  registers : (s : JobScheduler) (t : String) (h : Job → Job) → Call i s (register_handler s t h)
  submits : (s : JobScheduler) (j : Job) → (j.id == i) ≡ false → Call i s (submit s j).1
  executes : (s : JobScheduler) (now k : ℕ) → Call i s (execute_job s now k).1
  executes_next : (s : JobScheduler) (now : ℕ) → Call i s (execute_next s now).1
  cancels : (s : JobScheduler) (now k : ℕ) → Call i s (cancel_job s now k).1

pub data Calls (i : ℕ) (s : JobScheduler) : JobScheduler → Type 0 where
  here : Calls i s s
  next : {t u : JobScheduler} → Calls i s t → Call i t u → Calls i s u

execute_job-IsCancelled :
    (i : ℕ) (s : JobScheduler) (now k : ℕ) → IsCancelled i s → IsCancelled i (execute_job s now k).1
unfolding execute_job same_status
execute_job-IsCancelled i s now k (cancelled_job j found off) =
    elim (Option-cases (Map.get s.jobs k)) [
      | inl absent ↦ rw (absent, execute_job) (cancelled_job j found off)
      | inr (l, present) ↦ elim (Bool-cases (same_status l.status pending)) [
        | inr ended ↦ rw (present, ended, execute_job) (cancelled_job j found off)
        | inl waits ↦
            let ran = run_handler s.handlers now (mark_running now l) in
            let other : (k == i) ≡ false = ground (arith, found, off, present, waits) in
            rw (present, waits, execute_job)
              (cancelled_job j (rw (get-insert s.jobs k i ran, other) found) off)
      ]
    ]

cancel_job-IsCancelled :
    (i : ℕ) (s : JobScheduler) (now k : ℕ) → IsCancelled i s → IsCancelled i (cancel_job s now k).1
unfolding cancel_job same_status
cancel_job-IsCancelled i s now k (cancelled_job j found off) =
    elim (Option-cases (Map.get s.jobs k)) [
      | inl absent ↦ rw (absent, cancel_job) (cancelled_job j found off)
      | inr (l, present) ↦
          elim (Bool-cases (same_status l.status pending || same_status l.status running)) [
            | inr ended ↦ rw (present, ended, cancel_job) (cancelled_job j found off)
            | inl open_job ↦
                let other : (k == i) ≡ false = ground (arith, found, off, present, open_job) in
                rw (present, open_job, cancel_job)
                  (cancelled_job j (rw (get-insert s.jobs k i (mark_cancelled now l), other) found)
                    off)
          ]
    ]

List-cases : (js : List Job) → (js ≡ []) ⊎ ((j : Job) × (ks : List Job) × (js ≡ j ∷ ks))
List-cases [] = inl refl
List-cases (j ∷ ks) = inr (j, ks, refl)

Call-IsCancelled : {i : ℕ} {s t : JobScheduler} → Call i s t → IsCancelled i s → IsCancelled i t
unfolding register_handler submit execute_next
Call-IsCancelled (registers s t h) (cancelled_job j found off) = cancelled_job j found off
Call-IsCancelled {i} (submits s l other) (cancelled_job j found off) =
    cancelled_job j (rw (get-insert s.jobs l.id i l, other) found) off
Call-IsCancelled {i} (executes s now k) off = execute_job-IsCancelled i s now k off
Call-IsCancelled {i} (executes_next s now) off = elim (List-cases (pending_jobs s)) [
  | inl idle ↦ rw (idle, execute_next) off
  | inr (j, js, waiting) ↦ rw (waiting, execute_next) (execute_job-IsCancelled i s now j.id off)
]
Call-IsCancelled {i} (cancels s now k) off = cancel_job-IsCancelled i s now k off

Calls-IsCancelled : {i : ℕ} {s t : JobScheduler} → Calls i s t → IsCancelled i s → IsCancelled i t
Calls-IsCancelled here off = off
Calls-IsCancelled (next r c) off = Call-IsCancelled c (Calls-IsCancelled r off)

cancel_job-cancels :
    (s : JobScheduler) (now i : ℕ)
    → (cancel_job s now i).0 ≡ true
    → IsCancelled i (cancel_job s now i).1
unfolding cancel_job mark_cancelled
cancel_job-cancels s now i worked = elim (Option-cases (Map.get s.jobs i)) [
  | inl absent ↦ ground (arith, absent)
  | inr (j, found) ↦
      elim (Bool-cases (same_status j.status pending || same_status j.status running)) [
        | inr ended ↦ ground (arith, found, ended)
        | inl open_job ↦
            rw (found, open_job, cancel_job)
              (cancelled_job (mark_cancelled now j)
                (rw (get-insert s.jobs i i (mark_cancelled now j), ==_refl i) refl) refl)
      ]
]

-- After `cancel_job` succeeds on a job, and then any calls of the scheduler that do not submit a
-- job under the same id again, executing the job does nothing, at any time: it returns none and
-- leaves the scheduler as it is.
pub cancelled_never_runs :
    (s : JobScheduler) (now i : ℕ)
    → (cancel_job s now i).0 ≡ true
    → {t : JobScheduler} → Calls i (cancel_job s now i).1 t
    → (later : ℕ) → execute_job t later i ≡ (none, t)
unfolding execute_job same_status
cancelled_never_runs s now i worked {t} calls later =
    elim (Calls-IsCancelled calls (cancel_job-cancels s now i worked)) [
      | cancelled_job j found off ↦ ground (arith, found, off)
    ]
