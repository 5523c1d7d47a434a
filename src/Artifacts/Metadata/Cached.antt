-- ===== src/Artifacts/Metadata/Cached.antt =====
-- The cached metadata against a scan of the bars.
use finbar.Common.{ℕ, String, false, List, [], ◌∷◌, ◌≡◌, refl}
use finbar.Common.Dict.{Dict}
use finbar.Common.Names.{add_column, add_columns}
use finbar.Strategy.Values.{Json, Texts}
use finbar.Artifacts.{keys_of}
use finbar.Artifacts.Metadata.{
  IndicatorJob, scan_keys, scan_bars, add_bars, compute_lightweight_meta, metadata_from_job,
  metadata_from_cache,
}

module _ {F : Type 0} where
  scan_keys-add_columns :
      (bar : Dict (Json F)) (keys : List String) (found : List String × Dict ℕ)
      → (scan_keys bar keys found).0 ≡ add_columns keys found.0
  unfolding scan_keys add_columns
  scan_keys-add_columns bar [] found = refl
  scan_keys-add_columns bar (key ∷ keys) (columns, nulls) =
      scan_keys-add_columns bar keys (add_column key columns, _)

  scan_bars-add_bars :
      (bars : List (Dict (Json F))) (found : List String × Dict ℕ)
      → (scan_bars bars found).0 ≡ add_bars bars found.0
  unfolding scan_bars add_bars
  scan_bars-add_bars [] found = refl
  scan_bars-add_bars (bar ∷ bars) found =
      rw (← scan_keys-add_columns bar (keys_of bar) found)
        (scan_bars-add_bars bars (scan_keys bar (keys_of bar) found))

module _ {F : Type 0} ⦃texts : Texts F⦄ where
  -- The metadata that is served from the cache is the one that a scan of the stored bars gives, as
  -- long as no null counts are asked for.
  pub metadata_from_cache-metadata_from_job :
      (job : IndicatorJob) (bars : List (Dict (Json F)))
      → metadata_from_cache job (compute_lightweight_meta bars) false
        ≡ metadata_from_job job bars false
  unfolding metadata_from_cache compute_lightweight_meta metadata_from_job
  metadata_from_cache-metadata_from_job job [] = refl
  metadata_from_cache-metadata_from_job job (bar ∷ bars) =
      rw (scan_bars-add_bars (bar ∷ bars) ([], [])) refl
