-- ===== src/Jobs/Store.antt =====
-- What the job managers share: a dict of jobs in insertion order, the expiry of old terminal jobs and
-- the eviction over the limit. `P` is what one kind of job carries besides. Times are numbers, and a
-- job id, a fresh UUID text, is a number.
use finbar.Common.{
  ℕ, String, Bool, true, false, ◌&&◌, ltb, leb, ◌==◌, length, List, [], ◌∷◌, Option, none, some,
  if◌then◌else◌,
}

pub data Status : Type 0 where
  queued : Status
  running : Status
  completed : Status
  failed : Status
  cancelled : Status

pub record Job (P : Type 0) : Type 0 where
  pub job_id : ℕ
  pub status : Status
  pub created_at : ℕ
  pub error : Option String
  pub payload : P

-- `status in {"completed", "failed", "cancelled"}`
abbrev pub is_terminal : Status → Bool
is_terminal queued = false
is_terminal running = false
is_terminal completed = true
is_terminal failed = true
is_terminal cancelled = true

module _ {P : Type 0} where
  abbrev pub ended : Job P → Bool
  ended j = is_terminal j.status

  -- `self._jobs.get(job_id)`
  unfoldable pub find : ℕ → List (Job P) → Option (Job P)
  find i [] = none
  find i (j ∷ js) = if j.job_id == i then some j else find i js

  -- `self._jobs[job.job_id] = job`
  unfoldable pub put : Job P → List (Job P) → List (Job P)
  put j [] = j ∷ []
  put j (k ∷ ks) = if k.job_id == j.job_id then j ∷ ks else k ∷ put j ks

  -- `self._jobs.pop(job_id, None)`
  unfoldable pub pop : ℕ → List (Job P) → List (Job P)
  pop i [] = []
  pop i (j ∷ js) = if j.job_id == i then js else j ∷ pop i js

  -- A write through the job object, which the dict shares.
  unfoldable pub modify : ℕ → (Job P → Job P) → List (Job P) → List (Job P)
  modify i f [] = []
  modify i f (j ∷ js) = if j.job_id == i then f j ∷ js else j ∷ modify i f js

  -- The `expired` list of `cleanup_expired`, for `cutoff = now - ttl`.
  unfoldable pub is_expired : ℕ → Job P → Bool
  is_expired cutoff j = ended j && ltb j.created_at cutoff

  unfoldable pub expired : ℕ → List (Job P) → List ℕ
  expired cutoff [] = []
  expired cutoff (j ∷ js) =
      let rest = expired cutoff js in if is_expired cutoff j then j.job_id ∷ rest else rest

  unfoldable pub pop_all : List ℕ → List (Job P) → List (Job P)
  pop_all [] jobs = jobs
  pop_all (i ∷ is) jobs = pop_all is (pop i jobs)

  unfoldable pub cleanup : ℕ → List (Job P) → List (Job P)
  unfolding expired pop_all is_expired
  cleanup cutoff jobs = pop_all (expired cutoff jobs) jobs

  -- `sorted(jobs, key=created_at)`, which is stable.
  unfoldable pub insort : Job P → List (Job P) → List (Job P)
  insort j [] = j ∷ []
  insort j (k ∷ ks) = if leb j.created_at k.created_at then j ∷ k ∷ ks else k ∷ insort j ks

  unfoldable pub sort_by_age : List (Job P) → List (Job P)
  unfolding insort
  sort_by_age [] = []
  sort_by_age (j ∷ js) = insort j (sort_by_age js)

  -- The loop of `_enforce_max_jobs_locked` over the jobs from the oldest on: the ids that it pops,
  -- and the jobs that it leaves.
  unfoldable pub evict : ℕ → List (Job P) → List (Job P) → List ℕ × List (Job P)
  evict max_jobs [] jobs = ([], jobs)
  evict max_jobs (j ∷ js) jobs =
      let kept = evict max_jobs js jobs in
      let popped = evict max_jobs js (pop j.job_id jobs) in
      if leb (length jobs) max_jobs
      then ([], jobs)
      else if ended j
      then (j.job_id ∷ popped.0, popped.1)
      else kept

  unfoldable pub enforce_max_jobs : ℕ → List (Job P) → List ℕ × List (Job P)
  unfolding evict sort_by_age
  enforce_max_jobs max_jobs jobs =
      if leb (length jobs) max_jobs then ([], jobs) else evict max_jobs (sort_by_age jobs) jobs
