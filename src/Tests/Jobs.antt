-- ===== src/Tests/Jobs.antt =====
-- A mail job that may be retried once.
use blitz_db.Prelude.{
  ℕ, String, ◌+◌, ◌≤◌, suc, none, true, ◌∷◌, [], length, leb, if◌then◌else◌, ◌≡◌, refl, arith,
}
use blitz_db.Prelude.Map
use blitz_db.Prelude.Map.{nat_key}
use blitz_db.Jobs.{
  Job, JobScheduler, pending, failed, completed, normal, mark_failed, submit, execute_job,
  execute_next, cancel_job, same_status,
}
use blitz_db.Jobs.Retries.{
  failures, retries_then_fails, cancelled_never_runs, Calls, here, next, submits, executes_next,
}

abbrev mail : Job
mail = record {
  id = 5;
  job_type = "mail";
  status = pending;
  priority = normal;
  payload = [];
  result = none;
  error = none;
  created_at = 0;
  started_at = none;
  completed_at = none;
  retry_count = 0;
  max_retries = 1;
}

abbrev queue : JobScheduler
queue = record {
  jobs = (5, mail) ∷ (6, record mail { id = 6; status = completed }) ∷ [];
  handlers = [];
}

second_failure : (failures mail ((1, "a") ∷ (2, "b") ∷ [])).status ≡ failed
unfolding failures mark_failed
second_failure = refl

retries_then_fails_example :
    ((failures mail ((1, "a") ∷ (2, "b") ∷ [])).max_retries ≡ 1)
    × ((failures mail ((1, "a") ∷ (2, "b") ∷ [])).retry_count
        ≤ (failures mail ((1, "a") ∷ (2, "b") ∷ [])).max_retries)
    × ((failures mail ((1, "a") ∷ (2, "b") ∷ [])).status
        ≡ (if leb (0 + suc (length {A = ℕ × String} ((2, "b") ∷ []))) 1 then pending else failed))
retries_then_fails_example = retries_then_fails mail 1 "a" ((2, "b") ∷ []) (omega arith)

-- After the cancellation a job of another id is submitted and the next pending job is run.
abbrev later_on : JobScheduler
later_on = (execute_next (submit (cancel_job queue 1 5).1 (record mail { id = 7 })).1 2).1

calls_since : Calls 5 (cancel_job queue 1 5).1 later_on
calls_since =
    let submitted = submits (cancel_job queue 1 5).1 (record mail { id = 7 }) refl in
    next (next here submitted)
      (executes_next (submit (cancel_job queue 1 5).1 (record mail { id = 7 })).1 2)

cancelled_never_runs_example : execute_job later_on 3 5 ≡ (none, later_on)
cancelled_never_runs_example = cancelled_never_runs queue 1 5 works calls_since 3
  where
    works : (cancel_job queue 1 5).0 ≡ true
    works = unfold Map.get cancel_job same_status in refl
