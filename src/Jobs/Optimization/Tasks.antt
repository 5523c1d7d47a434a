-- ===== src/Jobs/Optimization/Tasks.antt =====
-- The tasks that in_memory_optimization_job_manager.py keeps beside its jobs.
use finbar.Common.{
  Option-cases, ℕ, ◌-◌, ◌≡◌, refl, List, [], ◌∷◌, Option, none, some, ℤ, if◌then◌else◌, arith,
  length, leb, Bool-cases, inl, inr,
}
use finbar.Common.Table.{Table, lookup, erase_all, erase, lookup-insert, lookup-erase}
use finbar.Jobs.Store.{
  Job, ended, find, put, pop, modify, expired, pop_all, evict, enforce_max_jobs, sort_by_age,
}
use finbar.Jobs.Dict.{modify-IsKeyed, IsKeyed, find-put, put-IsKeyed, find-modify}
use finbar.Jobs.Expiry.{contains, find-pop_all, pop_all-IsKeyed}
use finbar.Jobs.Fetch.{request_cancel, Task}
use finbar.Jobs.Optimization.{
  OptimizationJobManager, new_manager, cleanup_expired, note_task, start, update, cancel,
  cancel_found, cancel_task, mark_cancelled, Operation, started, cancels, cleans, sets_status, run,
}

lookup-erase_all :
    (i : ℕ) (ids : List ℕ) (tasks : Table Task)
    → lookup i (erase_all ids tasks) ≡ (if contains i ids then none else lookup i tasks)
unfolding erase_all
lookup-erase_all i [] tasks = refl
lookup-erase_all i (k ∷ ks) tasks =
    ground (arith, lookup-erase_all i ks (erase k tasks), lookup-erase k i tasks)

cancel_task-no_orphan :
    (i k : ℕ) (tasks : Table Task)
    → lookup k tasks ≡ none
    → lookup k (cancel_task i (lookup i tasks) tasks) ≡ none
unfolding cancel_task
cancel_task-no_orphan i k tasks absent = elim (Option-cases (lookup i tasks)) [
  | inl missing ↦ rw missing absent
  | inr (t, found) ↦ rw found (ground (arith, lookup-insert i k (request_cancel t) tasks))
]

module _ {P : Type 0} where
  evict-eq-pop_all :
      (most : ℕ) (old jobs : List (Job P))
      → (evict most old jobs).1 ≡ pop_all (evict most old jobs).0 jobs
  unfolding evict pop_all
  evict-eq-pop_all most [] jobs = refl
  evict-eq-pop_all most (k ∷ ks) jobs = elim (Bool-cases (leb (length jobs) most)) [
    | inl fits ↦ rw fits refl
    | inr full ↦ elim (Bool-cases (ended k)) [
      | inl done ↦ rw (full, done) (evict-eq-pop_all most ks (pop k.job_id jobs))
      | inr running ↦ rw (full, running) (evict-eq-pop_all most ks jobs)
    ]
  ]

  enforce_max_jobs-eq-pop_all :
      (most : ℕ) (jobs : List (Job P))
      → (enforce_max_jobs most jobs).1 ≡ pop_all (enforce_max_jobs most jobs).0 jobs
  unfolding enforce_max_jobs pop_all
  enforce_max_jobs-eq-pop_all most jobs = elim (Bool-cases (leb (length jobs) most)) [
    | inl fits ↦ rw fits refl
    | inr full ↦ rw full (evict-eq-pop_all most (sort_by_age jobs) jobs)
  ]

  -- No id is held twice, and an id with no job has no task.
  pub record IsTidy (jobs : List (Job P)) (tasks : Table Task) : Type 0 where
    pub keyed : IsKeyed jobs
    pub no_orphan : (i : ℕ) → find i jobs ≡ none → lookup i tasks ≡ none

  pop_all-IsTidy :
      (ids : List ℕ) (jobs : List (Job P)) (tasks : Table Task)
      → IsTidy jobs tasks
      → IsTidy (pop_all ids jobs) (erase_all ids tasks)
  pop_all-IsTidy ids jobs tasks tidy = record {
    keyed = pop_all-IsKeyed ids jobs tidy.keyed;
    no_orphan = λ i gone.
        ground (
          arith,
          tidy.no_orphan i,
          find-pop_all i ids jobs tidy.keyed,
          lookup-erase_all i ids tasks,
        );
  }

  put-IsTidy :
      (job : Job P) (task : Option Task) (jobs : List (Job P)) (tasks : Table Task)
      → IsTidy jobs tasks
      → IsTidy (put job jobs) (note_task job.job_id task tasks)
  unfolding note_task
  put-IsTidy job none jobs tasks tidy = record {
    keyed = put-IsKeyed job jobs tidy.keyed;
    no_orphan = λ i gone. ground (arith, tidy.no_orphan i, find-put i job jobs);
  }
  put-IsTidy job (some t) jobs tasks tidy = record {
    keyed = put-IsKeyed job jobs tidy.keyed;
    no_orphan = λ i gone.
        ground (arith, tidy.no_orphan i, find-put i job jobs, lookup-insert job.job_id i t tasks);
  }

  modify-IsTidy :
      (i : ℕ) (f : Job P → Job P) (jobs : List (Job P)) (tasks : Table Task)
      → ((j : Job P) → (f j).job_id ≡ j.job_id)
      → IsTidy jobs tasks
      → IsTidy (modify i f jobs) tasks
  modify-IsTidy i f jobs tasks keeps tidy = record {
    keyed = modify-IsKeyed i f jobs keeps tidy.keyed;
    no_orphan = λ k gone. ground (arith, tidy.no_orphan k, find-modify i k f jobs keeps);
  }

  abbrev TidyManager : OptimizationJobManager P → Type 0
  TidyManager m = IsTidy m.jobs m.tasks

  cleanup_expired-IsTidy :
      (m : OptimizationJobManager P) (now : ℕ) → TidyManager m → TidyManager (cleanup_expired m now)
  unfolding cleanup_expired
  cleanup_expired-IsTidy m now tidy =
      pop_all-IsTidy (expired (now - m.ttl) m.jobs) m.jobs m.tasks tidy

  start-IsTidy :
      (m : OptimizationJobManager P) (now : ℕ) (job : Job P) (task : Option Task)
      → TidyManager m
      → TidyManager (start m now job task)
  unfolding start
  start-IsTidy m now job task tidy =
      let cleaned = cleanup_expired m now in
      let jobs = put job cleaned.jobs in
      let tasks = note_task job.job_id task cleaned.tasks in
      let popped = (enforce_max_jobs m.max_jobs jobs).0 in
      rw (enforce_max_jobs-eq-pop_all m.max_jobs jobs) (
        pop_all-IsTidy popped jobs tasks
          (put-IsTidy job task cleaned.jobs cleaned.tasks (cleanup_expired-IsTidy m now tidy)))

  cancel_found-IsTidy :
      (m : OptimizationJobManager P) (i : ℕ) (found : Option (Job P))
      → TidyManager m
      → TidyManager (cancel_found m i found).0
  unfolding cancel_found update mark_cancelled
  cancel_found-IsTidy m i none tidy = tidy
  cancel_found-IsTidy m i (some j) tidy = elim (Bool-cases (ended j)) [
    | inl done ↦ rw done tidy
    | inr running ↦ rw running (
        modify-IsTidy i mark_cancelled m.jobs (cancel_task i (lookup i m.tasks) m.tasks) (λ k. refl)
          (record {
            keyed = tidy.keyed;
            no_orphan = λ k gone. cancel_task-no_orphan i k m.tasks (tidy.no_orphan k gone);
          }))
  ]

  run-IsTidy :
      (m : OptimizationJobManager P) (ops : List (Operation P))
      → TidyManager m
      → TidyManager (run m ops)
  unfolding run cancel update
  run-IsTidy m [] tidy = tidy
  run-IsTidy m (started now job task ∷ ops) tidy =
      run-IsTidy (start m now job task) ops (start-IsTidy m now job task tidy)
  run-IsTidy m (cancels i ∷ ops) tidy =
      run-IsTidy (cancel m i).0 ops (cancel_found-IsTidy m i (find i m.jobs) tidy)
  run-IsTidy m (cleans now ∷ ops) tidy =
      run-IsTidy (cleanup_expired m now) ops (cleanup_expired-IsTidy m now tidy)
  run-IsTidy m (sets_status i status error ∷ ops) tidy =
      run-IsTidy (update m i (λ j. record j { status = status; error = error })) ops (
        modify-IsTidy i (λ j. record j { status = status; error = error }) m.jobs m.tasks
          (λ k. refl) tidy)

  -- Whatever operations a fresh manager has gone through, and in whatever order, it holds no id twice,
  -- and it holds no task whose job it has dropped.
  pub new_manager-IsTidy :
      (max_jobs ttl : ℤ) (ops : List (Operation P))
      → let m = run (new_manager max_jobs ttl) ops in IsTidy m.jobs m.tasks
  unfolding new_manager lookup
  new_manager-IsTidy max_jobs ttl ops =
      run-IsTidy (new_manager max_jobs ttl) ops (record { keyed = tt; no_orphan = λ i gone. refl })
