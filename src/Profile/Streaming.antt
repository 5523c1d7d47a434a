-- ===== src/Profile/Streaming.antt =====
-- IncrementalSessionVpState
-- (finbar_strategy_runtime/indicators/streaming/incremental_session_vp_state.py).
pub mod Accumulated
pub mod Sessions
pub mod Batch
pub mod Parity
use mathlib.Core.Option.{map as map_option}
use finbar.Common.{
  ℕ, zero, suc, Bool, true, false, ◌||◌, ltb, Option, none, some, List, [], ◌∷◌, ◌++◌, length, drop,
  get_elem?, get_last?, if◌then◌else◌,
}
use finbar.Common as Common
use finbar.Simulation.Number.{Number, ◌+◌, ◌-◌, ◌*◌, ◌/◌, lt, le, max, min, nought}
use finbar.Profile.Numpy.{Numpy, zeros, add_arrays}
use finbar.Profile.Session.{
  Bar, VolumeProfileResult, Grid, Volumes, session_bucket_grid, distribute_bar_volume,
  build_volume_profile_result, same_date,
}

abbrev pub num_buckets : ℕ
num_buckets = 100

pub record VpLevels (F : Type 0) : Type 0 where
  pub poc : F
  pub vah : F
  pub val : F

pub record IncrementalSessionVpState (F : Type 0) : Type 0 where
  pub bars : List (Bar F)
  pub session_date : Option ℕ
  pub last_levels : Option (VpLevels F)
  pub volume_profile : Option (List F)
  pub total_volume : F
  pub price_buckets : Option (List F)
  pub bucket_size : F
  pub session_high : F
  pub session_low : F
  pub session_pocs : List (ℕ × F)

-- `deque(maxlen=21).append`
unfoldable pub append_poc {ℓ} : {A : Type ℓ} → List A → A → List A
append_poc pocs poc = drop (Common.◌-◌ (suc (length pocs)) 21) (pocs ++ poc ∷ [])

abbrev pub levels_of : {F : Type 0} → VolumeProfileResult F → VpLevels F
levels_of r = record { poc = r.poc; vah = r.vah; val = r.val }

module _ {F : Type 0} ⦃num : Number F⦄ where
  unfoldable pub new_state : IncrementalSessionVpState F
  new_state = record {
    bars = [];
    session_date = none;
    last_levels = none;
    volume_profile = none;
    total_volume = nought;
    price_buckets = none;
    bucket_size = nought;
    session_high = nought;
    session_low = nought;
    session_pocs = [];
  }

  unfoldable pub reset : IncrementalSessionVpState F → IncrementalSessionVpState F
  reset s = record s {
    bars = [];
    last_levels = none;
    volume_profile = none;
    total_volume = nought;
    price_buckets = none;
    bucket_size = nought;
    session_high = nought;
    session_low = nought;
  }

module _ {F : Type 0} ⦃num : Number F⦄ ⦃np : Numpy F⦄ where
  unfoldable pub levels_from : Option (List F) → F → Option (List F) → F → Option (VpLevels F)
  levels_from none total_volume price_buckets bucket_size = none
  levels_from (some volumes) total_volume none bucket_size = none
  levels_from (some volumes) total_volume (some prices) bucket_size =
      if le total_volume nought
      then none
      else map_option levels_of
          (build_volume_profile_result (prices, bucket_size) (volumes, total_volume) num_buckets)

  unfoldable pub extract_levels : IncrementalSessionVpState F → IncrementalSessionVpState F
  unfolding levels_from
  extract_levels s = record s {
    last_levels = levels_from s.volume_profile s.total_volume s.price_buckets s.bucket_size;
  }

  -- Whether the levels have to be computed: there are none, and there is a bar.
  unfoldable pub is_stale : Option (VpLevels F) → List (Bar F) → Bool
  is_stale none [] = false
  is_stale none (bar ∷ bars) = true
  is_stale (some levels) bars = false

  unfoldable pub ensure : IncrementalSessionVpState F → IncrementalSessionVpState F
  unfolding extract_levels is_stale
  ensure s = if is_stale s.last_levels s.bars then extract_levels s else s

  unfoldable pub note_poc :
      Option ℕ → Option (VpLevels F) → IncrementalSessionVpState F → IncrementalSessionVpState F
  unfolding append_poc
  note_poc none levels s = s
  note_poc (some date) none s = s
  note_poc (some date) (some levels) s = record s {
    session_pocs = append_poc s.session_pocs (date, levels.poc);
  }

  unfoldable pub cap_session : IncrementalSessionVpState F → IncrementalSessionVpState F
  unfolding ensure note_poc
  cap_session s = let s' = ensure s in note_poc s'.session_date s'.last_levels s'

  -- The accumulated profile after `_add_bar`, on the state's grid.
  unfoldable pub add_volume : Grid F → Volumes F → Bar F → Volumes F
  add_volume (price_buckets, bucket_size) (volume_profile, total_volume) bar =
      if le bar.volume nought || le bucket_size nought then (volume_profile, total_volume) else (
        add_arrays volume_profile
            (distribute_bar_volume bar bar.volume (price_buckets, bucket_size)),
        total_volume + bar.volume,
      )

  -- `_redistribute_all`
  unfoldable pub redistribute : Grid F → Volumes F → List (Bar F) → Volumes F
  redistribute grid volumes [] = volumes
  redistribute grid volumes (bar ∷ bars) = redistribute grid (add_volume grid volumes bar) bars

  unfoldable pub store :
      Grid F → Volumes F → F → F → IncrementalSessionVpState F → IncrementalSessionVpState F
  store (price_buckets, bucket_size) (volume_profile, total_volume) high low s = record s {
    volume_profile = some volume_profile;
    total_volume = total_volume;
    price_buckets = some price_buckets;
    bucket_size = bucket_size;
    session_high = high;
    session_low = low;
  }

  unfoldable pub no_volumes : Volumes F
  no_volumes = (zeros num_buckets, nought)

  -- The first bar of a session builds the grid; one that widens the range rebuilds the profile.
  unfoldable pub add_to :
      Option (List F)
      → Option (List F)
      → Bar F
      → IncrementalSessionVpState F
      → IncrementalSessionVpState F
  unfolding store no_volumes redistribute add_volume
  add_to none volume_profile bar s =
      let grid = session_bucket_grid bar.high bar.low num_buckets in
      store grid (add_volume grid no_volumes bar) bar.high bar.low s
  add_to (some price_buckets) none bar s = s
  add_to (some price_buckets) (some volume_profile) bar s =
      let high = max s.session_high bar.high in
      let low = min s.session_low bar.low in
      let wider = session_bucket_grid high low num_buckets in
      let grid : Grid F = (price_buckets, s.bucket_size) in
      if lt s.session_high bar.high || lt bar.low s.session_low
      then store wider (redistribute wider no_volumes s.bars) high low s
      else store grid (add_volume grid (volume_profile, s.total_volume) bar) s.session_high
          s.session_low s

  unfoldable pub update_incremental :
      Bar F → IncrementalSessionVpState F → IncrementalSessionVpState F
  unfolding add_to
  update_incremental bar s = add_to s.price_buckets s.volume_profile bar s

  -- What `update` does about a bar's date.
  unfoldable pub begin_session :
      Option ℕ → Option ℕ → IncrementalSessionVpState F → IncrementalSessionVpState F
  unfolding cap_session
  begin_session none current s = s
  begin_session (some date) none s = record s { session_date = some date }
  begin_session (some date) (some current) s =
      record (if same_date (some date) (some current) then s else reset (cap_session s)) {
        session_date = some date;
      }

  unfoldable pub update : IncrementalSessionVpState F → Bar F → IncrementalSessionVpState F
  unfolding begin_session update_incremental
  update s bar =
      let begun = begin_session bar.date s.session_date s in
      update_incremental bar (record begun { bars = begun.bars ++ bar ∷ []; last_levels = none })

  -- The properties `poc`, `vah` and `val` compute the levels first; `none` stands for three NaN.
  unfoldable pub levels : IncrementalSessionVpState F → Option (VpLevels F)
  unfolding ensure
  levels s = (ensure s).last_levels

  -- The levels that are read after each update of a run of bars.
  unfoldable pub stream : IncrementalSessionVpState F → List (Bar F) → List (Option (VpLevels F))
  unfolding levels
  stream s [] = []
  stream s (bar ∷ bars) = let s' = ensure (update s bar) in s'.last_levels ∷ stream s' bars

  unfoldable pub slope_between : Option (ℕ × F) → Option (ℕ × F) → F
  slope_between none newer = np.nan
  slope_between (some older) none = np.nan
  slope_between (some older) (some newer) =
      if le older.1 nought then np.nan else (newer.1 - older.1) / older.1 * num.of_nat 100

  -- `poc_slope`: `_session_pocs[-n]` is the first entry where n is 0.
  unfoldable pub poc_slope : IncrementalSessionVpState F → ℕ → F
  unfolding slope_between
  poc_slope s n =
      let held = length s.session_pocs in
      if ltb held (if ltb n 1 then 1 else n)
      then np.nan
      else slope_between (get_elem? s.session_pocs (if ltb n 1 then 0 else Common.◌-◌ held n))
          (get_last? s.session_pocs)
