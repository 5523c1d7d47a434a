-- ===== src/Jobs/Fetch.antt =====
-- FetchJobManager and its FetchJob (finbar/infrastructure/services/fetch_job_manager.py,
-- fetch_job.py). A fresh job comes in as an argument, in the state that it has when `start` takes the
-- lock: on a thread of its own it may have gone on already.
pub mod Lifecycle
use finbar.Common.{
  ℕ, suc, ◌-◌, String, Bool, true, false, not, List, [], ◌∷◌, Option, none, some, ℤ, to_ℕ,
  if◌then◌else◌, map, leb,
}
use mathlib.Core.Option
use finbar.Jobs.Store.{Job, Status, cancelled, ended, find, put, modify, cleanup, enforce_max_jobs}

-- An asyncio task, as far as the manager acts on it.
pub record Task : Type 0 where
  pub done : Bool
  pub cancel_requested : Bool

pub record FetchInfo : Type 0 where
  pub symbol : String
  pub source : String
  pub interval : String
  pub start_date : Option String
  pub end_date : Option String
  pub progress_pct : ℕ
  pub result : Option String
  pub task : Option Task

abbrev pub FetchJob : Type 0
FetchJob = Job FetchInfo

pub record FetchJobManager : Type 0 where
  pub jobs : List FetchJob
  pub max_jobs : ℕ
  pub ttl : ℕ

-- `max(1, n)` of an argument.
unfoldable pub at_least_one : ℤ → ℕ
at_least_one n = if leb (to_ℕ n) 1 then 1 else to_ℕ n

unfoldable pub new_manager : ℤ → ℤ → FetchJobManager
new_manager max_jobs ttl_seconds = record {
  jobs = [];
  max_jobs = at_least_one max_jobs;
  ttl = at_least_one ttl_seconds;
}

unfoldable pub cleanup_expired : FetchJobManager → ℕ → FetchJobManager
cleanup_expired m now = record m { jobs = cleanup (now - m.ttl) m.jobs }

unfoldable pub start : FetchJobManager → ℕ → FetchJob → FetchJobManager
unfolding cleanup_expired
start m now job =
    let cleaned = cleanup_expired m now in
    record cleaned { jobs = (enforce_max_jobs m.max_jobs (put job cleaned.jobs)).1 }

unfoldable pub get : FetchJobManager → ℕ → Option FetchJob
get m i = find i m.jobs

-- `update` writes fields of the job object.
unfoldable pub update : FetchJobManager → ℕ → (FetchJob → FetchJob) → FetchJobManager
update m i f = record m { jobs = modify i f m.jobs }

-- `task.cancel()`
unfoldable pub request_cancel : Task → Task
request_cancel t = record t { cancel_requested = true }

-- What `cancel` does to the job that it finds.
unfoldable pub cancel_job : FetchJob → FetchJob
unfolding request_cancel
cancel_job j =
    if ended j
    then j
    else (let info = j.payload in
        record j {
          status = cancelled;
          error = some "Cancelled by user";
          payload = record info { task = Option.map request_cancel info.task };
        })

unfoldable pub cancel : FetchJobManager → ℕ → FetchJobManager × Option FetchJob
unfolding update cancel_job
cancel m i = (update m i cancel_job, Option.map cancel_job (find i m.jobs))

-- `clear` empties the manager, and asks each task that is not done to cancel.
cancel_task : FetchJob → FetchJob
unfolding request_cancel
cancel_task j =
    let info = j.payload in
    record j {
      payload = record info {
        task = Option.map (λ t. if t.done then t else request_cancel t) info.task;
      };
    }

unfoldable pub clear : FetchJobManager → FetchJobManager × List FetchJob
unfolding cancel_task
clear m = (record m { jobs = [] }, map cancel_task m.jobs)
