-- ===== src/Jobs/Tests.antt =====
-- Runs of the job managers.
use finbar.Common.{true, pos, ℕ, ◌≡◌, refl, false, List, [], ◌∷◌, none, some, if◌then◌else◌, ◌==◌}
use finbar.Jobs.Store.{pop, Status, queued, running, completed, failed, find, enforce_max_jobs}
use finbar.Jobs.Dict.{IsKeyed}
use finbar.Jobs.Eviction.{enforce_max_jobs-active}
use finbar.Jobs.Fetch.{FetchInfo, FetchJob, FetchJobManager}
use finbar.Jobs.Optimization.{Operation, started, cancels, cleans, sets_status, run, new_manager}
use finbar.Jobs.Optimization.Tasks.{IsTidy, new_manager-IsTidy}

abbrev info : FetchInfo
info = record {
  symbol = "AAPL";
  source = "yfinance";
  interval = "1d";
  start_date = none;
  end_date = none;
  progress_pct = 0;
  result = none;
  task = some (record { done = false; cancel_requested = false });
}

abbrev job : ℕ → Status → ℕ → FetchJob
job i status created_at = record {
  job_id = i;
  status = status;
  created_at = created_at;
  error = none;
  payload = info;
}

abbrev held : List FetchJob
held = job 1 running 10 ∷ job 2 completed 40 ∷ job 3 failed 20 ∷ []

abbrev manager : FetchJobManager
manager = record { jobs = held; max_jobs = 2; ttl = 100 }

held-IsKeyed : IsKeyed held
unfolding find
held-IsKeyed = (refl, (refl, (refl, tt)))

enforce_test : enforce_max_jobs 2 held ≡ (3 ∷ [], job 1 running 10 ∷ job 2 completed 40 ∷ [])
unfolding enforce_max_jobs pop
enforce_test = refl

found_first : find 1 held ≡ some (job 1 running 10)
unfolding find
found_first = refl

enforce_max_jobs-active_example : find 1 (enforce_max_jobs 1 held).1 ≡ some (job 1 running 10)
enforce_max_jobs-active_example = enforce_max_jobs-active 1 held 1 held-IsKeyed found_first refl

chosen : (if 4 == 1 then some (job 4 queued 50) else find 1 held) ≡ some (job 1 running 10)
unfolding find
chosen = refl

-- A manager of at most one job, which drops the first job and its task.
abbrev operations : List (Operation FetchInfo)
operations =
    started 0 (job 1 completed 0) (some (record { done = true; cancel_requested = false }))
    ∷ started 5 (job 2 queued 5) (some (record { done = false; cancel_requested = false }))
    ∷ cancels 2
    ∷ sets_status 2 failed none
    ∷ cleans 9
    ∷ []

new_manager-IsTidy_example :
    let m = run (new_manager (pos 1) (pos 100)) operations in IsTidy m.jobs m.tasks
new_manager-IsTidy_example = new_manager-IsTidy (pos 1) (pos 100) operations
