-- ===== src/Jobs/IndicatorTests.antt =====
-- Runs of the indicator job manager, and its theorems at these runs.
use finbar.Common.{ℕ, none, some, List, [], ◌∷◌, ◌≡◌, ℤ, pos}
use finbar.Common.Dict.{Dict}
use finbar.Strategy.Values.{Json, num, text}
use finbar.Strategy.Sample.{plain_texts}
use finbar.Jobs.Store.{Job, running, find}
use finbar.Jobs.Indicator.{
  Details, IndicatorJobManager, Operation, started, stores_result, cancels_all, deletes,
  new_manager, run,
}
use finbar.Jobs.Indicator.Cache.{IsCached, new_manager-IsCached}
use finbar.Common.Table.{lookup}
use finbar.Jobs.Indicator.Describe.{
  describe_artifact, scan_found, list_memory_artifacts, scan_list, matches,
  describe_artifact-scan_found, leave_counts,
}

abbrev job_of : ℕ → Job Details
job_of i = record {
  job_id = i;
  status = running;
  created_at = i;
  error = none;
  payload = record {
    symbol = "BTC";
    source = "hyperliquid";
    interval = "1d";
    mode = "selected";
    timeframe_alias = "primary";
    total_bar_count = 0;
    indicators_applied = [];
    features_applied = [];
  };
}

abbrev stored : List (Dict (Json ℤ))
stored = (("timestamp", text "2024-01-01") ∷ ("close", num (pos 10)) ∷ []) ∷ []

abbrev operations : List (Operation ℤ ℕ)
operations =
    started 1 (job_of 1) none
    ∷ started 2 (job_of 2) none
    ∷ stores_result 1 stored
    ∷ cancels_all
    ∷ started 9 (job_of 3) none
    ∷ deletes 2
    ∷ []

new_manager-IsCached_example :
    IsCached
      (run (new_manager (pos 2) (pos 3600)) operations).meta_cache
      (run (new_manager (pos 2) (pos 3600)) operations).results
new_manager-IsCached_example = new_manager-IsCached (pos 2) (pos 3600) operations

abbrev two_running : IndicatorJobManager ℤ ℕ
two_running = record {
  jobs = job_of 1 ∷ job_of 2 ∷ [];
  tasks = [];
  results = [];
  frames = [];
  meta_cache = [];
  max_jobs = 2;
  ttl = 3600;
}

describe_artifact-scan_found_example :
    (describe_artifact
        (λ i. "a")
        (λ t. "2024-01-04")
        (run (new_manager (pos 2) (pos 3600)) operations)
        1
      ≡ leave_counts (
          scan_found
            (λ i. "a")
            (λ t. "2024-01-04")
            (find 1 (run (new_manager (pos 2) (pos 3600)) operations).jobs)
            (lookup 1 (run (new_manager (pos 2) (pos 3600)) operations).results)))
    × (list_memory_artifacts
          (λ i. "a")
          (λ t. "2024-01-04")
          (λ s. s)
          (run (new_manager (pos 2) (pos 3600)) operations)
          (some "BTC")
          none
          none
        ≡ scan_list
            (λ i. "a")
            (λ t. "2024-01-04")
            (λ j. matches (λ s. s) j (some "BTC") none none)
            (run (new_manager (pos 2) (pos 3600)) operations).jobs
            (run (new_manager (pos 2) (pos 3600)) operations).results)
describe_artifact-scan_found_example =
    describe_artifact-scan_found (λ i. "a") (λ t. "2024-01-04") (pos 2) (pos 3600) operations 1
      (λ s. s) (some "BTC") none none
