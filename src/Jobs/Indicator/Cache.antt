-- ===== src/Jobs/Indicator/Cache.antt =====
-- The metadata that the indicator manager keeps beside the bars of an artifact.
use finbar.Common.{
  ℕ, ◌-◌, ◌≡◌, refl, List, [], ◌∷◌, Option, none, some, ℤ, Bool-cases, inl, inr, ◌==◌,
}
use finbar.Common.Dict.{Dict}
use finbar.Common.Table.{Table, lookup, insert, erase, erase_all, lookup-insert, lookup-erase}
use finbar.Strategy.Values.{Json, Texts}
use finbar.Artifacts.Metadata.{LightweightMeta, compute_lightweight_meta}
use finbar.Jobs.Store.{Job, ended, find, expired}
use finbar.Jobs.Fetch.{Task}
use finbar.Jobs.Indicator.{
  Details, IndicatorJobManager, Operation, started, stores_result, stores_frame, deletes, cancels,
  cancels_all, cleans, sets_status, new_manager, cleanup_expired, start, update, store_frame,
  delete_artifact, cancel_found, cancel, cancel_each, cancel_all_non_terminal, job_ids,
  store_result, step, run,
}

module _ {F : Type 0} ⦃texts : Texts F⦄ where
  abbrev pub described : Option (List (Dict (Json F))) → Option LightweightMeta
  described none = none
  described (some bars) = some (compute_lightweight_meta bars)

  -- Under every id, the one table holds the metadata of the bars in the other.
  abbrev pub IsCached : Table LightweightMeta → Table (List (Dict (Json F))) → Type 0
  IsCached metas results = (i : ℕ) → lookup i metas ≡ described (lookup i results)

  erase-IsCached :
      (k : ℕ) (metas : Table LightweightMeta) (results : Table (List (Dict (Json F))))
      → IsCached metas results
      → IsCached (erase k metas) (erase k results)
  erase-IsCached k metas results cached i = elim (Bool-cases (k == i)) [
    | inl same ↦ rw (lookup-erase k i metas, lookup-erase k i results, same) refl
    | inr other ↦ rw (lookup-erase k i metas, lookup-erase k i results, other) (cached i)
  ]

  erase_all-IsCached :
      (ks : List ℕ) (metas : Table LightweightMeta) (results : Table (List (Dict (Json F))))
      → IsCached metas results
      → IsCached (erase_all ks metas) (erase_all ks results)
  unfolding erase_all
  erase_all-IsCached [] metas results cached = cached
  erase_all-IsCached (k ∷ ks) metas results cached =
      erase_all-IsCached ks (erase k metas) (erase k results)
        (erase-IsCached k metas results cached)

  insert-IsCached :
      (k : ℕ) (bars : List (Dict (Json F))) (metas : Table LightweightMeta)
      (results : Table (List (Dict (Json F))))
      → IsCached metas results
      → IsCached (insert k (compute_lightweight_meta bars) metas) (insert k bars results)
  insert-IsCached k bars metas results cached i = elim (Bool-cases (k == i)) [
    | inl same ↦
        rw
          (
            lookup-insert k i (compute_lightweight_meta bars) metas,
            lookup-insert k i bars results,
            same,
          )
          refl
    | inr other ↦
        rw
          (
            lookup-insert k i (compute_lightweight_meta bars) metas,
            lookup-insert k i bars results,
            other,
          )
          (cached i)
  ]

  module _ {B : Type 0} where
    abbrev Holds : IndicatorJobManager F B → Type 0
    Holds m = IsCached m.meta_cache m.results

    cleanup_expired-Holds :
        (m : IndicatorJobManager F B) (now : ℕ) → Holds m → Holds (cleanup_expired m now)
    unfolding cleanup_expired
    cleanup_expired-Holds m now h =
        erase_all-IsCached (expired (now - m.ttl) m.jobs) m.meta_cache m.results h

    start-Holds :
        (m : IndicatorJobManager F B) (now : ℕ) (job : Job Details) (task : Option Task)
        → Holds m
        → Holds (start m now job task)
    unfolding start
    start-Holds m now job task h =
        let cleaned = cleanup_expired m now in
        erase_all-IsCached _ cleaned.meta_cache cleaned.results (cleanup_expired-Holds m now h)

    cancel_found-Holds :
        (m : IndicatorJobManager F B) (i : ℕ) (j : Option (Job Details))
        → Holds m
        → Holds (cancel_found m i j).0
    unfolding cancel_found
    cancel_found-Holds m i none h = h
    cancel_found-Holds m i (some j) h = elim (Bool-cases (ended j)) [
      | inl done ↦ rw done h
      | inr active ↦ rw active h
    ]

    cancel_each-Holds :
        (is : List ℕ) (m : IndicatorJobManager F B) → Holds m → Holds (cancel_each is m).0
    unfolding cancel_each cancel
    cancel_each-Holds [] m h = h
    cancel_each-Holds (i ∷ is) m h =
        cancel_each-Holds is (cancel m i).0 (cancel_found-Holds m i (find i m.jobs) h)

    step-Holds : (m : IndicatorJobManager F B) (op : Operation F B) → Holds m → Holds (step m op)
    unfolding step cancel store_result store_frame delete_artifact cancel_all_non_terminal update
    step-Holds m (started now job task) h = start-Holds m now job task h
    step-Holds m (stores_result i bars) h = insert-IsCached i bars m.meta_cache m.results h
    step-Holds m (stores_frame i frame) h = h
    step-Holds m (deletes i) h = erase-IsCached i m.meta_cache m.results h
    step-Holds m (cancels i) h = cancel_found-Holds m i (find i m.jobs) h
    step-Holds m cancels_all h = cancel_each-Holds (job_ids m.jobs) m h
    step-Holds m (cleans now) h = cleanup_expired-Holds m now h
    step-Holds m (sets_status i status error) h = h

    run-Holds :
        (m : IndicatorJobManager F B) (ops : List (Operation F B)) → Holds m → Holds (run m ops)
    unfolding run
    run-Holds m [] h = h
    run-Holds m (op ∷ ops) h = run-Holds (step m op) ops (step-Holds m op h)

    -- Whatever operations a fresh manager has gone through, and in whatever order, an id has cached
    -- metadata exactly when it has bars, and the metadata is that of these bars.
    pub new_manager-IsCached :
        (max_jobs ttl_seconds : ℤ) (ops : List (Operation F B))
        → IsCached
            (run (new_manager max_jobs ttl_seconds) ops).meta_cache
            (run (new_manager max_jobs ttl_seconds) ops).results
    unfolding new_manager lookup
    new_manager-IsCached max_jobs ttl_seconds ops =
        run-Holds (new_manager max_jobs ttl_seconds) ops (λ i. refl)
