-- ===== src/Profile/Tests.antt =====
-- Runs of the volume profiles on fixed-point numbers.
use finbar.Common.{
  Option, Bool, false, ◌≡◌, refl, some, none, List, [], ◌∷◌, map, ℤ, pos, inl, inr, arith, true,
}
use mathlib.Core.Option.{bind}
use finbar.Profile.Numpy.{item, set_item, zeros, add_arrays}
use finbar.Profile.Area.{ValueArea, expand_value_area}
use finbar.Profile.Area.Bounds.{IsValueArea, expand_value_area-IsValueArea}
use finbar.Profile.Session.{
  session_bucket_grid, same_date, build_volume_profile_result, distribute_bar_volume, Bar,
  compute_expanding_session_volume_profiles,
}
use finbar.Profile.Rolling.{global_bucket_grid, compute_rolling_window_vp}
use finbar.Profile.Rolling.Scratch.{scratch_rows, compute_rolling_window_vp-scratch}
use finbar.Profile.Sample.{four_buckets, fixed_point-IsExact}
use finbar.Profile.Streaming.{update, reset, VpLevels, new_state, num_buckets, stream}
use finbar.Profile.Streaming.Batch.{live}
use finbar.Profile.Streaming.Parity.{stream-eq-expanding}
use finbar.Profile.Sample.{fixed_point, flat_density, flat_density-IsDocumented}

abbrev volumes : List ℤ
volumes = pos 1 ∷ pos 5 ∷ pos 9 ∷ pos 7 ∷ pos 2 ∷ []

expand_value_area-IsValueArea_example :
    (a : ValueArea ℤ) × (expand_value_area volumes 2 (pos 24) (pos 680) ≡ some a)
    × IsValueArea (pos 16) volumes 2 a
expand_value_area-IsValueArea_example =
    expand_value_area-IsValueArea volumes 2 (pos 24) (pos 680)
      (refl, (refl, (refl, (refl, (refl, tt))))) (omega arith)

abbrev has_levels : Option (VpLevels ℤ) → Bool
has_levels none = false
has_levels (some levels) = true

abbrev bars : List (Bar ℤ)
bars =
    record {
      date = some 1;
      high = pos 10000;
      low = pos 10000;
      close = pos 10000;
      volume = pos 9000;
    }
    ∷ record {
      date = some 1;
      high = pos 30000;
      low = pos 10000;
      close = pos 10000;
      volume = pos 9000;
    }
    ∷ record {
      date = some 2;
      high = pos 30000;
      low = pos 10000;
      close = pos 30000;
      volume = pos 5000;
    }
    ∷ []

stream-eq-expanding_example :
    stream new_state bars ≡ map live (compute_expanding_session_volume_profiles bars num_buckets)
stream-eq-expanding_example = stream-eq-expanding flat_density-IsDocumented bars (
  (inl refl, inl refl, refl, (1, refl)),
  ((inr refl, inl refl, refl, (1, refl)), ((inr refl, inl refl, refl, (2, refl)), tt)),
)

expand-volumes :
    expand_value_area volumes 2 (pos 24) (pos 680)
    ≡ some (record { lower_idx = 2; upper_idx = 3; accumulated = pos 16 })
unfolding expand_value_area item bind
expand-volumes = refl

-- The first bar has no range, and the levels of the second are those of both.
stream-bars : map has_levels (stream new_state bars) ≡ false ∷ true ∷ true ∷ []
unfolding stream update new_state session_bucket_grid same_date build_volume_profile_result
    expand_value_area add_arrays zeros distribute_bar_volume set_item item bind reset
stream-bars = refl

compute_rolling_window_vp-scratch_example :
    compute_rolling_window_vp bars 2 4 ≡ scratch_rows four_buckets 4 2 [] bars
unfolding global_bucket_grid session_bucket_grid
compute_rolling_window_vp-scratch_example =
    compute_rolling_window_vp-scratch bars 2 4 four_buckets fixed_point-IsExact refl refl
      (omega arith) (omega arith)
