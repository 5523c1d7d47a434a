-- ===== src/Jobs/Optimization.antt =====
-- InMemoryOptimizationJobManager
-- (finbar/infrastructure/services/in_memory_optimization_job_manager.py) keeps the asyncio tasks in a
-- dict of their own. `P` is what an optimization job carries. A job and its task come in as
-- arguments, in the state that they have when `start` takes the lock; on a thread there is no task.
-- The two blocks of `start` under the lock, which note the task and the job, are one step.
pub mod Tasks
use finbar.Common.{ℕ, ◌-◌, Bool, String, List, [], ◌∷◌, Option, none, some, if◌then◌else◌, ℤ}
use mathlib.Core.Option
use finbar.Common.Table.{Table, lookup, insert, erase_all}
use finbar.Jobs.Store.{
  Job, Status, cancelled, ended, find, put, modify, expired, pop_all, enforce_max_jobs,
}
use finbar.Jobs.Fetch.{Task, request_cancel, at_least_one}

pub record OptimizationJobManager (P : Type 0) : Type 0 where
  pub jobs : List (Job P)
  pub tasks : Table Task
  pub max_jobs : ℕ
  pub ttl : ℕ

unfoldable pub note_task : ℕ → Option Task → Table Task → Table Task
note_task i none tasks = tasks
note_task i (some t) tasks = insert i t tasks

-- `task = self._tasks.get(job_id); if task: task.cancel()`
unfoldable pub cancel_task : ℕ → Option Task → Table Task → Table Task
cancel_task i none tasks = tasks
cancel_task i (some t) tasks = insert i (request_cancel t) tasks

-- The operations on a manager, in the order in which they take the lock.
pub data Operation (P : Type 0) : Type 0 where
  started : ℕ → Job P → Option Task → Operation P
  cancels : ℕ → Operation P
  cleans : ℕ → Operation P
  sets_status : ℕ → Status → Option String → Operation P

module _ {P : Type 0} where
  unfoldable pub new_manager : ℤ → ℤ → OptimizationJobManager P
  new_manager max_jobs ttl_seconds = record {
    jobs = [];
    tasks = [];
    max_jobs = at_least_one max_jobs;
    ttl = at_least_one ttl_seconds;
  }

  unfoldable pub cleanup_expired : OptimizationJobManager P → ℕ → OptimizationJobManager P
  cleanup_expired m now =
      let ids = expired (now - m.ttl) m.jobs in
      record m { jobs = pop_all ids m.jobs; tasks = erase_all ids m.tasks }

  unfoldable pub start :
      OptimizationJobManager P → ℕ → Job P → Option Task → OptimizationJobManager P
  unfolding cleanup_expired note_task
  start m now job task =
      let cleaned = cleanup_expired m now in
      let noted = note_task job.job_id task cleaned.tasks in
      let (popped, left) = enforce_max_jobs m.max_jobs (put job cleaned.jobs) in
      record cleaned { jobs = left; tasks = erase_all popped noted }

  unfoldable pub get : OptimizationJobManager P → ℕ → Option (Job P)
  get m i = find i m.jobs

  unfoldable pub update : OptimizationJobManager P → ℕ → (Job P → Job P) → OptimizationJobManager P
  update m i f = record m { jobs = modify i f m.jobs }

  unfoldable pub mark_cancelled : Job P → Job P
  mark_cancelled j = record j { status = cancelled; error = some "Cancelled by user" }

  unfoldable pub cancel_found :
      OptimizationJobManager P → ℕ → Option (Job P) → OptimizationJobManager P × Option (Job P)
  unfolding update cancel_task mark_cancelled
  cancel_found m i none = (m, none)
  cancel_found m i (some j) = if ended j then (m, some j) else (
    update (record m { tasks = cancel_task i (lookup i m.tasks) m.tasks }) i mark_cancelled,
    some (mark_cancelled j),
  )

  unfoldable pub cancel : OptimizationJobManager P → ℕ → OptimizationJobManager P × Option (Job P)
  unfolding cancel_found
  cancel m i = cancel_found m i (find i m.jobs)

  unfoldable pub run : OptimizationJobManager P → List (Operation P) → OptimizationJobManager P
  run m [] = m
  run m (started now job task ∷ ops) = run (start m now job task) ops
  run m (cancels i ∷ ops) = run (cancel m i).0 ops
  run m (cleans now ∷ ops) = run (cleanup_expired m now) ops
  run m (sets_status i status error ∷ ops) =
      run (update m i (λ j. record j { status = status; error = error })) ops
