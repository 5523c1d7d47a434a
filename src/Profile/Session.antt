-- ===== src/Profile/Session.antt =====
-- finbar_strategy_runtime/domain/services/volume_profile.py, the batch computation of a session's
-- volume profile and of the profiles of its growing prefixes. A frame is the list of its bars.
use mathlib.Core.Option.{map as map_option}
use finbar.Common.{
  ℕ, zero, suc, ◌==◌, Bool, true, false, ◌||◌, Option, none, some, List, [], ◌∷◌, ◌++◌, map, length,
  if◌then◌else◌,
}
use finbar.Simulation.Number.{Number, ◌+◌, ◌-◌, ◌*◌, ◌/◌, neg, abs, lt, le, eq, nought}
use finbar.Profile.Numpy.{Numpy, zeros, add_arrays, item, set_item}
use finbar.Profile.Area.{ValueArea, expand_value_area}

-- A bar; the date of its timestamp is a number.
pub record Bar (F : Type 0) : Type 0 where
  pub date : Option ℕ
  pub high : F
  pub low : F
  pub close : F
  pub volume : F

pub record VolumeProfileResult (F : Type 0) : Type 0 where
  pub poc : F
  pub vah : F
  pub val : F
  pub total_volume : F
  pub value_area_volume : F
  pub bucket_size : F
  pub num_buckets : ℕ
  pub profile : List (F × F)

-- The price buckets and their size.
abbrev pub Grid : Type 0 → Type 0
Grid F = List F × F

-- An aggregated volume profile and its total volume.
abbrev pub Volumes : Type 0 → Type 0
Volumes F = List F × F

-- Whether two dates are equal, where a bar may have none.
unfoldable pub same_date : Option ℕ → Option ℕ → Bool
same_date none none = true
same_date none (some e) = false
same_date (some d) none = false
same_date (some d) (some e) = d == e

module _ {F : Type 0} ⦃num : Number F⦄ ⦃np : Numpy F⦄ where
  -- ln(H/L) / (2·√ln2)
  unfoldable pub parkinson_sigma : F → F → F
  parkinson_sigma high low =
      if le low nought || le high low
      then nought
      else np.log (high / low) / (num.of_nat 2 * np.sqrt (np.log (num.of_nat 2)))

  unfoldable pub session_bucket_grid : F → F → ℕ → Grid F
  session_bucket_grid session_high session_low num_buckets =
      let buffer = (session_high - session_low) * num.thousandths 20 in
      let price_min = session_low - buffer in
      let price_max = session_high + buffer in
      let bucket_size = (price_max - price_min) / num.of_nat num_buckets in
      let half = bucket_size / num.of_nat 2 in
      (np.linspace (price_min + half) (price_max - half) num_buckets, bucket_size)

  -- Where a bar has no spread, its whole volume goes to the bucket nearest to its typical price.
  unfoldable pub nearest_bucket : F → F → List F → List F
  nearest_bucket tp bar_volume [] = []
  nearest_bucket tp bar_volume (b ∷ bs) =
      let distances = map (λ price. abs (price - tp)) (b ∷ bs) in
      set_item (zeros (length (b ∷ bs))) (np.argmin distances) bar_volume

  -- The normal density around the typical price; a bucket outside the bar's range counts a tenth.
  unfoldable pub density : Bar F → F → F → F → F → F
  density bar tp sigma bucket_size price =
      let z = (price - tp) / sigma in
      let half_bucket = bucket_size / num.of_nat 2 in
      let pdf =
        np.exp (neg (num.thousandths 500) * (z * z)) / (sigma * np.sqrt (num.of_nat 2 * np.pi)) in
      if lt (price + half_bucket) bar.low || lt bar.high (price - half_bucket)
      then pdf * num.thousandths 100
      else pdf

  -- `(pdf / total_pdf) * bar_volume`
  unfoldable pub scale_density : F → F → List F → List F
  scale_density total_pdf bar_volume [] = []
  scale_density total_pdf bar_volume (p ∷ ps) =
      (p / total_pdf * bar_volume) ∷ scale_density total_pdf bar_volume ps

  unfoldable pub distribute_bar_volume : Bar F → F → Grid F → List F
  unfolding parkinson_sigma nearest_bucket density scale_density
  distribute_bar_volume bar bar_volume (price_buckets, bucket_size) =
      let tp = (bar.high + bar.low + bar.close) / num.of_nat 3 in
      let sigma = parkinson_sigma bar.high bar.low in
      let pdf = map (density bar tp sigma bucket_size) price_buckets in
      if le sigma nought || le bar_volume nought
      then nearest_bucket tp bar_volume price_buckets
      else if le (np.array_sum pdf) nought
      then zeros (length price_buckets)
      else scale_density (np.array_sum pdf) bar_volume pdf

  -- One round of the loop over the bars.
  unfoldable pub add_positive : Grid F → Volumes F → Bar F → Volumes F
  add_positive grid (volume_profile, total_volume) bar =
      let bar_volume = if lt nought bar.volume then bar.volume else nought in
      if le bar_volume nought then (volume_profile, total_volume) else (
        add_arrays volume_profile (distribute_bar_volume bar bar_volume grid),
        total_volume + bar_volume,
      )

  unfoldable pub add_bars : Grid F → Volumes F → List (Bar F) → Volumes F
  add_bars grid volumes [] = volumes
  add_bars grid volumes (bar ∷ bars) = add_bars grid (add_positive grid volumes bar) bars

  unfoldable pub aggregate_session_volume : List (Bar F) → Grid F → Volumes F
  unfolding add_bars add_positive
  aggregate_session_volume bars grid = add_bars grid (zeros (length grid.0), nought) bars

  -- `d[price] = volume` on the dict of the profile.
  unfoldable pub set_price : F → F → List (F × F) → List (F × F)
  set_price price volume [] = (price, volume) ∷ []
  set_price price volume ((p, v) ∷ d) =
      if eq p price then (p, volume) ∷ d else (p, v) ∷ set_price price volume d

  -- The dict comprehension, over the buckets that are left.
  unfoldable pub profile_dict : List F → List F → List (F × F) → List (F × F)
  unfolding set_price
  profile_dict [] volumes d = d
  profile_dict (price ∷ prices) [] d = d
  profile_dict (price ∷ prices) (volume ∷ volumes) d =
      profile_dict prices volumes (if lt nought volume then set_price price volume d else d)

  unfoldable pub profile_result : Grid F → Volumes F → ℕ → ℕ → ValueArea F → VolumeProfileResult F
  unfolding profile_dict
  profile_result (price_buckets, bucket_size) (volume_profile, total_volume) num_buckets poc_idx
        area =
      record {
        poc = item price_buckets poc_idx;
        vah = item price_buckets area.upper_idx + bucket_size / num.of_nat 2;
        val = item price_buckets area.lower_idx - bucket_size / num.of_nat 2;
        total_volume = total_volume;
        value_area_volume = area.accumulated;
        bucket_size = bucket_size;
        num_buckets = num_buckets;
        profile = profile_dict price_buckets volume_profile [];
      }

  unfoldable pub build_volume_profile_result :
      Grid F → Volumes F → ℕ → Option (VolumeProfileResult F)
  unfolding profile_result
  build_volume_profile_result grid volumes num_buckets =
      let poc_idx = np.argmax volumes.0 in
      map_option (profile_result grid volumes num_buckets poc_idx)
        (expand_value_area volumes.0 poc_idx volumes.1 (num.thousandths 680))

  -- The result of a session with no volume to speak of.
  unfoldable pub no_volume : F → F → F → F → ℕ → VolumeProfileResult F
  no_volume poc vah val bucket_size num_buckets = record {
    poc = poc;
    vah = vah;
    val = val;
    total_volume = nought;
    value_area_volume = nought;
    bucket_size = bucket_size;
    num_buckets = num_buckets;
    profile = [];
  }

  -- `session_bars["close"].iloc[-1]`
  unfoldable pub last_close : F → List (Bar F) → F
  last_close close [] = close
  last_close close (bar ∷ bars) = last_close bar.close bars

  abbrev pub session_high : List (Bar F) → F
  session_high bars = np.series_max (map (λ bar. bar.high) bars)

  abbrev pub session_low : List (Bar F) → F
  session_low bars = np.series_min (map (λ bar. bar.low) bars)

  unfoldable pub compute_session_volume_profile : List (Bar F) → ℕ → Option (VolumeProfileResult F)
  unfolding no_volume last_close
  compute_session_volume_profile [] num_buckets =
      some (no_volume nought nought nought nought num_buckets)
  compute_session_volume_profile (bar ∷ bars) num_buckets =
      let high = session_high (bar ∷ bars) in
      let low = session_low (bar ∷ bars) in
      let grid = session_bucket_grid high low num_buckets in
      let volumes = aggregate_session_volume (bar ∷ bars) grid in
      if le high low
      then some (no_volume high high low nought num_buckets)
      else if le volumes.1 nought
      then some (no_volume (last_close bar.close bars) high low grid.1 num_buckets)
      else build_volume_profile_result grid volumes num_buckets

  -- The inner `while`: the run of bars with one date, and the bars after it.
  unfoldable pub session_run : Option ℕ → List (Bar F) → List (Bar F) × List (Bar F)
  unfolding same_date
  session_run current_date [] = ([], [])
  session_run current_date (bar ∷ bars) =
      let rest = session_run current_date bars in
      if same_date bar.date current_date then (bar ∷ rest.0, rest.1) else ([], bar ∷ bars)

  -- The inner `for`: the profile of every prefix of a session, of which `seen` is over.
  unfoldable pub prefix_profiles :
      ℕ → List (Bar F) → List (Bar F) → List (Option (VolumeProfileResult F))
  prefix_profiles num_buckets seen [] = []
  prefix_profiles num_buckets seen (bar ∷ bars) =
      compute_session_volume_profile (seen ++ bar ∷ []) num_buckets
      ∷ prefix_profiles num_buckets (seen ++ bar ∷ []) bars

  -- The outer `while`, for a number of rounds: a session takes one, and has a bar.
  unfoldable pub walk_sessions : ℕ → ℕ → List (Bar F) → List (Option (VolumeProfileResult F))
  unfolding session_run prefix_profiles
  walk_sessions rounds num_buckets [] = []
  walk_sessions zero num_buckets (bar ∷ bars) = []
  walk_sessions (suc rounds) num_buckets (bar ∷ bars) =
      let session = session_run bar.date (bar ∷ bars) in
      prefix_profiles num_buckets [] session.0 ++ walk_sessions rounds num_buckets session.1

  -- The profile that each bar's row is filled from.
  unfoldable pub compute_expanding_session_volume_profiles :
      List (Bar F) → ℕ → List (Option (VolumeProfileResult F))
  unfolding walk_sessions
  compute_expanding_session_volume_profiles bars num_buckets =
      walk_sessions (length bars) num_buckets bars
