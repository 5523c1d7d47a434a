-- ===== src/Artifacts/Metadata.antt =====
-- The metadata of an artifact, from its bars or from what `store_result` caches
-- (finbar/infrastructure/services/in_memory_indicator_job_manager.py). The creation time is the text
-- that `isoformat` gives for it.
pub mod Cached
use finbar.Common.{
  ℕ, ◌+◌, String, Bool, true, false, not, Option, none, some, List, [], ◌∷◌, if◌then◌else◌, length,
}
use finbar.Common.Dict.{Dict, get_key, set_key}
use finbar.Common.Names.{has_column, add_column, add_columns}
use finbar.Strategy.Values.{Json, Texts, read}
use finbar.Strategy.Evaluator.{is_present}
use finbar.Artifacts.{keys_of, timestamp_of}

-- What the metadata tells of an IndicatorJob.
pub record IndicatorJob : Type 0 where
  pub job_id : String
  pub symbol : String
  pub source : String
  pub interval : String
  pub mode : String
  pub timeframe_alias : String
  pub status : String
  pub total_bar_count : ℕ
  pub indicators_applied : List String
  pub features_applied : List String
  pub created_at : String

pub record LightweightMeta : Type 0 where
  pub columns : List String
  pub start_date : String
  pub end_date : String
  pub bar_count : ℕ
  pub null_counts : Dict ℕ

pub record Metadata : Type 0 where
  pub job : IndicatorJob
  pub bar_count : ℕ
  pub start_date : String
  pub end_date : String
  pub columns : List String
  pub null_counts : Dict ℕ
  pub retention_policy : String

abbrev count_of : Option ℕ → ℕ
count_of none = 0
count_of (some n) = n

module _ {F : Type 0} where
  count_null : Dict (Json F) → String → Dict ℕ → Dict ℕ
  count_null bar key nulls =
      if is_present (read bar key)
      then nulls
      else set_key key (count_of (get_key key nulls) + 1) nulls

  -- The loop over the keys of a bar, with `columns` and `nulls`.
  scan_keys : Dict (Json F) → List String → List String × Dict ℕ → List String × Dict ℕ
  scan_keys bar [] found = found
  scan_keys bar (key ∷ keys) (columns, nulls) =
      let started = if has_column key columns then nulls else set_key key 0 nulls in
      scan_keys bar keys (add_column key columns, count_null bar key started)

  scan_bars : List (Dict (Json F)) → List String × Dict ℕ → List String × Dict ℕ
  scan_bars [] found = found
  scan_bars (bar ∷ bars) found = scan_bars bars (scan_keys bar (keys_of bar) found)

  add_bars : List (Dict (Json F)) → List String → List String
  add_bars [] columns = columns
  add_bars (bar ∷ bars) columns = add_bars bars (add_columns (keys_of bar) columns)

  unfoldable pub columns_from_bars : List (Dict (Json F)) → List String
  unfolding add_bars add_columns
  columns_from_bars bars = add_bars bars []

  nulls_in : String → List (Dict (Json F)) → ℕ
  nulls_in column [] = 0
  nulls_in column (bar ∷ bars) =
      (if is_present (read bar column) then 0 else 1) + nulls_in column bars

  unfoldable pub null_counts_of : List (Dict (Json F)) → List String → Dict ℕ
  unfolding nulls_in
  null_counts_of bars [] = []
  null_counts_of bars (column ∷ columns) =
      (column, nulls_in column bars) ∷ null_counts_of bars columns

module _ {F : Type 0} ⦃texts : Texts F⦄ where
  first_timestamp : List (Dict (Json F)) → String
  first_timestamp [] = ""
  first_timestamp (bar ∷ bars) = timestamp_of bar

  last_timestamp : List (Dict (Json F)) → String
  last_timestamp [] = ""
  last_timestamp (bar ∷ []) = timestamp_of bar
  last_timestamp (bar ∷ next ∷ bars) = last_timestamp (next ∷ bars)

  -- `_date_range`
  unfoldable pub date_range : List (Dict (Json F)) → String × String
  unfolding first_timestamp last_timestamp
  date_range bars = (first_timestamp bars, last_timestamp bars)

  unfoldable pub compute_lightweight_meta : List (Dict (Json F)) → LightweightMeta
  unfolding scan_bars scan_keys count_null first_timestamp last_timestamp
  compute_lightweight_meta [] = record {
    columns = [];
    start_date = "";
    end_date = "";
    bar_count = 0;
    null_counts = [];
  }
  compute_lightweight_meta (bar ∷ bars) =
      let (columns, nulls) = scan_bars (bar ∷ bars) ([], []) in
      record {
        columns = columns;
        start_date = first_timestamp (bar ∷ bars);
        end_date = last_timestamp (bar ∷ bars);
        bar_count = length (bar ∷ bars);
        null_counts = nulls;
      }

  unfoldable pub metadata_from_job : IndicatorJob → List (Dict (Json F)) → Bool → Metadata
  unfolding date_range columns_from_bars null_counts_of
  metadata_from_job job bars include_null_counts =
      let (first, last) = date_range bars in
      let columns = columns_from_bars bars in
      record {
        job = job;
        bar_count = length bars;
        start_date = first;
        end_date = last;
        columns = columns;
        null_counts = if include_null_counts then null_counts_of bars columns else [];
        retention_policy = "durable_until_deleted";
      }

unfoldable pub metadata_from_cache : IndicatorJob → LightweightMeta → Bool → Metadata
metadata_from_cache job meta include_null_counts = record {
  job = job;
  bar_count = meta.bar_count;
  start_date = meta.start_date;
  end_date = meta.end_date;
  columns = meta.columns;
  null_counts = if include_null_counts then meta.null_counts else [];
  retention_policy = "durable_until_deleted";
}
