-- ===== src/Jobs/Fetch/Lifecycle.antt =====
-- Starting and cancelling fetch jobs.
use finbar.Common.{
  ℕ, ◌-◌, ◌≡◌, ◌≤◌, ◌⊎◌, refl, ap, true, false, List, [], ◌∷◌, some, if◌then◌else◌, arith, length,
  ◌==◌,
}
use mathlib.Core.Option
use finbar.Jobs.Store.{expired, ended, find, put, modify, cleanup}
use finbar.Jobs.Dict.{IsKeyed, find-put, put-IsKeyed, find-modify}
use finbar.Jobs.Eviction.{enforce_max_jobs-active, enforce_max_jobs-enough}
use finbar.Jobs.Expiry.{find-cleanup, pop_all-IsKeyed}
use finbar.Jobs.Fetch.{FetchJob, FetchJobManager, start, cancel, cancel_job}

cleanup-IsKeyed : (cutoff : ℕ) (jobs : List FetchJob) → IsKeyed jobs → IsKeyed (cleanup cutoff jobs)
unfolding cleanup
cleanup-IsKeyed cutoff jobs keyed = pop_all-IsKeyed (expired cutoff jobs) jobs keyed

-- In a manager that holds no id twice, starting a job keeps every other job that is queued or
-- running, and holds the new one if it has not ended yet.
start-active :
    (m : FetchJobManager) (now i : ℕ) (job : FetchJob) {j : FetchJob}
    → IsKeyed m.jobs
    → (if job.job_id == i then some job else find i m.jobs) ≡ some j
    → ended j ≡ false
    → find i (start m now job).jobs ≡ some j
unfolding start
start-active m now i job {j = j} keyed held active =
    let cutoff = now - m.ttl in
    enforce_max_jobs-active m.max_jobs (put job (cleanup cutoff m.jobs)) i
      (put-IsKeyed job _ (cleanup-IsKeyed cutoff m.jobs keyed))
      (ground (arith, find-put i job (cleanup cutoff m.jobs), find-cleanup cutoff i m.jobs keyed))
      active

-- After a start, a manager that held no id twice is within its limit, or all that it holds is queued
-- or running.
start-enough :
    (m : FetchJobManager) (now : ℕ) (job : FetchJob)
    → IsKeyed m.jobs
    → let left = (start m now job).jobs in
      (length left ≤ m.max_jobs) ⊎ ((i : ℕ) (x : FetchJob) → find i left ≡ some x → ended x ≡ false)
unfolding start
start-enough m now job keyed =
    enforce_max_jobs-enough m.max_jobs (put job (cleanup (now - m.ttl) m.jobs))
      (put-IsKeyed job _ (cleanup-IsKeyed (now - m.ttl) m.jobs keyed))

-- Cancelling touches the named job alone: a job that has ended stays as it is, any other ends as
-- cancelled. What `cancel` returns is the job that the manager then holds.
find-cancel :
    (m : FetchJobManager) (i k : ℕ)
    → (find k (cancel m i).0.jobs
        ≡ (if i == k then Option.map cancel_job (find k m.jobs) else find k m.jobs))
      × ((cancel m i).1 ≡ find i (cancel m i).0.jobs)
unfolding cancel
find-cancel m i k = (
  find-modify i k cancel_job m.jobs keeps_id,
  ground (arith, find-modify i i cancel_job m.jobs keeps_id),
)
  where
    keeps_id : (j : FetchJob) → (cancel_job j).job_id ≡ j.job_id
    keeps_id j = ground arith

cancel_job-ended : (j : FetchJob) → ended (cancel_job j) ≡ true
unfolding cancel_job
cancel_job-ended j = ground arith

-- Cancelling again changes nothing.
cancel-cancel : (m : FetchJobManager) (i : ℕ) → (cancel (cancel m i).0 i).0 ≡ (cancel m i).0
unfolding cancel modify
cancel-cancel m i = ap (λ jobs. record m { jobs = jobs }) (twice m.jobs)
  where
    twice :
        (jobs : List FetchJob)
        → modify i cancel_job (modify i cancel_job jobs) ≡ modify i cancel_job jobs
    twice [] = refl
    twice (j ∷ js) = ground (arith, twice js)
