-- ===== src/Jobs/Indicator/Describe.antt =====
-- `describe_artifact` and `_list_memory_artifacts` of InMemoryIndicatorJobManager, and what they tell.
-- The texts of an id and of a creation time, and `str.upper`, are parameters.
use finbar.Common.{
  ℕ, String, Bool, true, false, not, ◌&&◌, Option, none, some, List, [], ◌∷◌, ◌≡◌, refl,
  if◌then◌else◌, ℤ,
}
use finbar.Common.Dict.{Dict, str_eq}
use finbar.Common.Table.{Table, lookup}
use finbar.Strategy.Values.{Json, Texts}
use finbar.Artifacts.Metadata.{
  IndicatorJob, LightweightMeta, Metadata, metadata_from_cache, metadata_from_job,
  compute_lightweight_meta,
}
use finbar.Artifacts.Metadata.Cached.{metadata_from_cache-metadata_from_job}
use finbar.Jobs.Store.{Job, Status, queued, running, completed, failed, cancelled, find}
use finbar.Jobs.Indicator.{Details, IndicatorJobManager, Operation, new_manager, run}
use finbar.Jobs.Indicator.Cache.{described, IsCached, new_manager-IsCached}

abbrev status_name : Status → String
status_name queued = "queued"
status_name running = "running"
status_name completed = "completed"
status_name failed = "failed"
status_name cancelled = "cancelled"

-- `wanted and have != wanted`
unfoldable pub differs : Option String → String → Bool
differs none have = false
differs (some wanted) have = not (str_eq wanted "") && not (str_eq have wanted)

-- `symbol and have != symbol.upper()`
unfoldable pub symbol_differs : (String → String) → Option String → String → Bool
symbol_differs upper none have = false
symbol_differs upper (some wanted) have = not (str_eq wanted "") && not (str_eq have (upper wanted))

-- `_matches`
unfoldable pub matches :
    (String → String) → Job Details → Option String → Option String → Option String → Bool
unfolding differs symbol_differs
matches upper j symbol source interval =
    not (symbol_differs upper symbol j.payload.symbol)
    && (not (differs source j.payload.source) && not (differs interval j.payload.interval))

abbrev pub add_item : Option Metadata → List Metadata → List Metadata
add_item none items = items
add_item (some item) items = item ∷ items

abbrev pub leave_counts : Option Metadata → Option Metadata
leave_counts none = none
leave_counts (some item) = some (record item { null_counts = [] })

module _ (id_text isoformat : ℕ → String) where
  abbrev pub info_of : Job Details → IndicatorJob
  info_of j = record {
    job_id = id_text j.job_id;
    symbol = j.payload.symbol;
    source = j.payload.source;
    interval = j.payload.interval;
    mode = j.payload.mode;
    timeframe_alias = j.payload.timeframe_alias;
    status = status_name j.status;
    total_bar_count = j.payload.total_bar_count;
    indicators_applied = j.payload.indicators_applied;
    features_applied = j.payload.features_applied;
    created_at = isoformat j.created_at;
  }

module _ {F : Type 0} ⦃texts : Texts F⦄ (id_text isoformat : ℕ → String) where
  -- From the cache, else from the bars, with or without null counts.
  describe_with :
      Bool → Job Details → Option LightweightMeta → Option (List (Dict (Json F))) → Option Metadata
  describe_with counts j (some meta) bars =
      some (metadata_from_cache (info_of id_text isoformat j) meta false)
  describe_with counts j none none = none
  describe_with counts j none (some bars) =
      some (metadata_from_job (info_of id_text isoformat j) bars counts)

  -- What the code's own scan of the bars says, null counts included.
  abbrev scan_of : Job Details → Option (List (Dict (Json F))) → Option Metadata
  scan_of j none = none
  scan_of j (some bars) = some (metadata_from_job (info_of id_text isoformat j) bars true)

  abbrev pub scan_found : Option (Job Details) → Option (List (Dict (Json F))) → Option Metadata
  scan_found none bars = none
  scan_found (some j) bars = scan_of j bars

  -- What a scan of the bars of every job that is asked for lists, null counts left out.
  abbrev pub scan_list :
      (Job Details → Bool) → List (Job Details) → Table (List (Dict (Json F))) → List Metadata
  scan_list wanted [] results = []
  scan_list wanted (j ∷ js) results =
      if wanted j
      then add_item (leave_counts (scan_of j (lookup j.job_id results)))
          (scan_list wanted js results)
      else scan_list wanted js results

  describe_with-scan_of :
      (counts : Bool) (j : Job Details) (meta : Option LightweightMeta)
      (bars : Option (List (Dict (Json F))))
      → meta ≡ described bars
      → describe_with counts j meta bars ≡ leave_counts (scan_of j bars)
  unfolding describe_with metadata_from_job
  describe_with-scan_of counts j none none same = refl
  describe_with-scan_of counts j none (some bars) same = cc
  describe_with-scan_of counts j (some meta) none same = cc
  describe_with-scan_of counts j (some meta) (some bars) same =
      let e : meta ≡ compute_lightweight_meta bars = cc in
      rw (e, metadata_from_cache-metadata_from_job (info_of id_text isoformat j) bars) refl

  module _ {B : Type 0} where
    describe_found : IndicatorJobManager F B → ℕ → Option (Job Details) → Option Metadata
    describe_found m i none = none
    describe_found m i (some j) = describe_with true j (lookup i m.meta_cache) (lookup i m.results)

    unfoldable pub describe_artifact : IndicatorJobManager F B → ℕ → Option Metadata
    unfolding describe_found describe_with
    describe_artifact m i = describe_found m i (find i m.jobs)

    -- The loop over the jobs.
    unfoldable pub list_jobs :
        IndicatorJobManager F B → (Job Details → Bool) → List (Job Details) → List Metadata
    unfolding describe_with
    list_jobs m wanted [] = []
    list_jobs m wanted (j ∷ js) =
        let rest = list_jobs m wanted js in
        if wanted j
        then add_item
            (describe_with false j (lookup j.job_id m.meta_cache) (lookup j.job_id m.results)) rest
        else rest

    unfoldable pub list_memory_artifacts :
        (String → String)
        → IndicatorJobManager F B
        → Option String
        → Option String
        → Option String
        → List Metadata
    unfolding list_jobs
    list_memory_artifacts upper m symbol source interval =
        list_jobs m (λ j. matches upper j symbol source interval) m.jobs

    describe_found-scan_found :
        (m : IndicatorJobManager F B) (i : ℕ) (j : Option (Job Details))
        → IsCached m.meta_cache m.results
        → describe_found m i j ≡ leave_counts (scan_found j (lookup i m.results))
    unfolding describe_found
    describe_found-scan_found m i none cached = refl
    describe_found-scan_found m i (some j) cached =
        describe_with-scan_of true j (lookup i m.meta_cache) (lookup i m.results) (cached i)

    list_jobs-scan_list :
        (m : IndicatorJobManager F B) (wanted : Job Details → Bool) (js : List (Job Details))
        → IsCached m.meta_cache m.results
        → list_jobs m wanted js ≡ scan_list wanted js m.results
    unfolding list_jobs
    list_jobs-scan_list m wanted [] cached = refl
    list_jobs-scan_list m wanted (j ∷ js) cached =
        rw
          (
            list_jobs-scan_list m wanted js cached,
            describe_with-scan_of false j (lookup j.job_id m.meta_cache) (lookup j.job_id m.results)
                (cached j.job_id),
          )
          refl

    -- Whatever operations a fresh manager has gone through, describing an artifact gives what the scan
    -- of its bars gives, but with no null counts, although the scan counts them; and nothing where the
    -- job or its bars are not held. The list holds the same of every held job that matches and has
    -- bars, in the jobs' order.
    pub describe_artifact-scan_found :
        (max_jobs ttl_seconds : ℤ) (ops : List (Operation F B)) (i : ℕ) (upper : String → String)
        (symbol source interval : Option String)
        → (describe_artifact (run (new_manager max_jobs ttl_seconds) ops) i
            ≡ leave_counts (
                scan_found
                  (find i (run (new_manager max_jobs ttl_seconds) ops).jobs)
                  (lookup i (run (new_manager max_jobs ttl_seconds) ops).results)))
          × (list_memory_artifacts upper
                (run (new_manager max_jobs ttl_seconds) ops)
                symbol
                source
                interval
              ≡ scan_list
                  (λ j. matches upper j symbol source interval)
                  (run (new_manager max_jobs ttl_seconds) ops).jobs
                  (run (new_manager max_jobs ttl_seconds) ops).results)
    unfolding describe_artifact list_memory_artifacts
    describe_artifact-scan_found max_jobs ttl_seconds ops i upper symbol source interval =
        let m : IndicatorJobManager F B = run (new_manager max_jobs ttl_seconds) ops in
        let cached = new_manager-IsCached max_jobs ttl_seconds ops in
        (
          describe_found-scan_found m i (find i m.jobs) cached,
          list_jobs-scan_list m (λ j. matches upper j symbol source interval) m.jobs cached,
        )
