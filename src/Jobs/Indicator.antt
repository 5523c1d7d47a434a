-- ===== src/Jobs/Indicator.antt =====
-- InMemoryIndicatorJobManager (finbar/infrastructure/services/in_memory_indicator_job_manager.py)
-- without a session factory: jobs, tasks, and what is kept of their artifacts. `B` are the bytes of a
-- pickled frame. The two blocks of `start` under the lock are one step, and so are the lookup and the
-- update of `cancel`.
pub mod Cache
pub mod Cancel
pub mod Describe
use finbar.Common.{
  ℕ, suc, ◌-◌, Bool, true, false, not, ◌||◌, String, List, [], ◌∷◌, Option, none, some,
  if◌then◌else◌, ℤ, length,
}
use finbar.Common.Dict.{Dict}
use finbar.Common.Table.{Table, lookup, insert, erase, erase_all}
use finbar.Strategy.Values.{Json, Texts}
use finbar.Artifacts.{BarPage, page_bars}
use finbar.Artifacts.Metadata.{LightweightMeta, compute_lightweight_meta}
use finbar.Jobs.Store.{
  Job, Status, cancelled, ended, find, put, pop, modify, expired, pop_all, enforce_max_jobs,
}
use finbar.Jobs.Fetch.{Task, at_least_one}
use finbar.Jobs.Optimization.{note_task, cancel_task, mark_cancelled}

-- What an indicator job tells of itself.
pub record Details : Type 0 where
  pub symbol : String
  pub source : String
  pub interval : String
  pub mode : String
  pub timeframe_alias : String
  pub total_bar_count : ℕ
  pub indicators_applied : List String
  pub features_applied : List String

abbrev pub is_there {ℓ} : {A : Type ℓ} → Option A → Bool
is_there none = false
is_there (some a) = true

pub record IndicatorJobManager (F B : Type 0) : Type 0 where
  pub jobs : List (Job Details)
  pub tasks : Table Task
  pub results : Table (List (Dict (Json F)))
  pub frames : Table B
  pub meta_cache : Table LightweightMeta
  pub max_jobs : ℕ
  pub ttl : ℕ

-- The operations that change a manager, in the order in which they take the lock.
pub data Operation (F B : Type 0) : Type 0 where
  started : ℕ → Job Details → Option Task → Operation F B
  stores_result : ℕ → List (Dict (Json F)) → Operation F B
  stores_frame : ℕ → B → Operation F B
  deletes : ℕ → Operation F B
  cancels : ℕ → Operation F B
  cancels_all : Operation F B
  cleans : ℕ → Operation F B
  sets_status : ℕ → Status → Option String → Operation F B

unfoldable pub count_bars : ℕ → Job Details → Job Details
count_bars n j = record j { payload = record (j.payload) { total_bar_count = n } }

unfoldable pub job_ids : List (Job Details) → List ℕ
job_ids [] = []
job_ids (j ∷ js) = j.job_id ∷ job_ids js

module _ {F B : Type 0} where
  unfoldable pub new_manager : ℤ → ℤ → IndicatorJobManager F B
  new_manager max_jobs ttl_seconds = record {
    jobs = [];
    tasks = [];
    results = [];
    frames = [];
    meta_cache = [];
    max_jobs = at_least_one max_jobs;
    ttl = at_least_one ttl_seconds;
  }

  unfoldable pub cleanup_expired : IndicatorJobManager F B → ℕ → IndicatorJobManager F B
  cleanup_expired m now =
      let ids = expired (now - m.ttl) m.jobs in
      record m {
        jobs = pop_all ids m.jobs;
        tasks = erase_all ids m.tasks;
        results = erase_all ids m.results;
        frames = erase_all ids m.frames;
        meta_cache = erase_all ids m.meta_cache;
      }

  -- `_enforce_max_jobs_locked`, which leaves the frames of the jobs that it drops.
  unfoldable pub enforce : IndicatorJobManager F B → IndicatorJobManager F B
  enforce m =
      let (popped, left) = enforce_max_jobs m.max_jobs m.jobs in
      record m {
        jobs = left;
        tasks = erase_all popped m.tasks;
        results = erase_all popped m.results;
        meta_cache = erase_all popped m.meta_cache;
      }

  unfoldable pub start :
      IndicatorJobManager F B → ℕ → Job Details → Option Task → IndicatorJobManager F B
  unfolding cleanup_expired note_task enforce
  start m now job task =
      let cleaned = cleanup_expired m now in
      enforce (record cleaned {
        tasks = note_task job.job_id task cleaned.tasks;
        jobs = put job cleaned.jobs;
      })

  unfoldable pub get : IndicatorJobManager F B → ℕ → Option (Job Details)
  get m i = find i m.jobs

  unfoldable pub update :
      IndicatorJobManager F B → ℕ → (Job Details → Job Details) → IndicatorJobManager F B
  update m i f = record m { jobs = modify i f m.jobs }

  unfoldable pub store_frame : IndicatorJobManager F B → ℕ → B → IndicatorJobManager F B
  store_frame m i data_bytes = record m { frames = insert i data_bytes m.frames }

  unfoldable pub get_artifact_bars : IndicatorJobManager F B → ℕ → Option (List (Dict (Json F)))
  get_artifact_bars m i = lookup i m.results

  unfoldable pub get_artifact_frame : IndicatorJobManager F B → ℕ → Option B
  get_artifact_frame m i = lookup i m.frames

  unfoldable pub delete_artifact : IndicatorJobManager F B → ℕ → IndicatorJobManager F B × Bool
  delete_artifact m i = (
    record m {
      jobs = pop i m.jobs;
      tasks = erase i m.tasks;
      results = erase i m.results;
      frames = erase i m.frames;
      meta_cache = erase i m.meta_cache;
    },
    is_there (lookup i m.results) || is_there (find i m.jobs),
  )

  unfoldable pub cancel_found :
      IndicatorJobManager F B
      → ℕ
      → Option (Job Details)
      → IndicatorJobManager F B × Option (Job Details)
  unfolding update cancel_task mark_cancelled
  cancel_found m i none = (m, none)
  cancel_found m i (some j) = if ended j then (m, some j) else (
    update (record m { tasks = cancel_task i (lookup i m.tasks) m.tasks }) i mark_cancelled,
    some (mark_cancelled j),
  )

  unfoldable pub cancel :
      IndicatorJobManager F B → ℕ → IndicatorJobManager F B × Option (Job Details)
  unfolding cancel_found
  cancel m i = cancel_found m i (find i m.jobs)

  -- The loop of `cancel_all_non_terminal`, with its count.
  unfoldable pub cancel_each : List ℕ → IndicatorJobManager F B → IndicatorJobManager F B × ℕ
  cancel_each [] m = (m, 0)
  cancel_each (i ∷ is) m =
      let (next, job) = cancel m i in
      let (last, count) = cancel_each is next in (last, if is_there job then suc count else count)

  unfoldable pub cancel_all_non_terminal : IndicatorJobManager F B → IndicatorJobManager F B × ℕ
  unfolding cancel_each job_ids
  cancel_all_non_terminal m = cancel_each (job_ids m.jobs) m

abbrev result_or_empty : {F : Type 0} → Option (List (Dict (Json F))) → List (Dict (Json F))
result_or_empty none = []
result_or_empty (some bars) = bars

module _ {F B : Type 0} ⦃texts : Texts F⦄ where
  unfoldable pub store_result :
      IndicatorJobManager F B → ℕ → List (Dict (Json F)) → IndicatorJobManager F B
  unfolding count_bars
  store_result m i bars = record m {
    results = insert i bars m.results;
    meta_cache = insert i (compute_lightweight_meta bars) m.meta_cache;
    jobs = modify i (count_bars (length bars)) m.jobs;
  }

  unfoldable pub get_result_page : IndicatorJobManager F B → ℕ → ℤ → ℤ → BarPage F
  get_result_page m i page page_size =
      page_bars none none (result_or_empty (lookup i m.results)) [] page page_size

  unfoldable pub step : IndicatorJobManager F B → Operation F B → IndicatorJobManager F B
  step m (started now job task) = start m now job task
  step m (stores_result i bars) = store_result m i bars
  step m (stores_frame i frame) = store_frame m i frame
  step m (deletes i) = (delete_artifact m i).0
  step m (cancels i) = (cancel m i).0
  step m cancels_all = (cancel_all_non_terminal m).0
  step m (cleans now) = cleanup_expired m now
  step m (sets_status i status error) =
      update m i (λ j. record j { status = status; error = error })

  unfoldable pub run : IndicatorJobManager F B → List (Operation F B) → IndicatorJobManager F B
  unfolding step
  run m [] = m
  run m (op ∷ ops) = run (step m op) ops
